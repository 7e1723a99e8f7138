-- ===== src/Kernel/Host/Calls.antt =====
-- Sequences of calls on descriptors: an end of a pipe is open as long as some descriptor is for it, which
-- is when a reader meets the end of the stream and a writer EPIPE.
mod Tests
use pgzero.Base.{
  ℕ, zero, suc, ◌+◌, ◌-◌, ◌*◌, ◌/◌, ◌%◌, ◌^◌, ◌≤◌, ◌<◌, min, max, ◌≡◌, refl, sym, ap, ap₂, subst,
  ◌∙◌, fun_ext, ◌≢◌, ◌↔◌, ◌⊎◌, inl, inr, Bool, true, false, ◌&&◌, ◌||◌, not, Option, none, some,
  List, [], ◌∷◌, ◌++◌, map, arith, dec_lt, dec_le, ℕ_discrete, ltb, leb, ◌==◌, if◌then◌else◌,
  is_empty, is_some, Bool-cases, Option-cases, length, take, drop, lookup, update, is_neg32,
}
use pgzero.Kernel.FdTable
use pgzero.Kernel.Pipe
use pgzero.Kernel.Pipe.{new_pipe}
use pgzero.Abi.{eagain, epipe}
use pgzero.Kernel.FdTable.{FdTable, Store, Entry}
use pgzero.Kernel.FdTable.Refs.{Holds, refs_in}
use pgzero.Kernel.Files.{FileObject, World, pipe_reader, pipe_writer, null_file}
use pgzero.Kernel.Files.PipeEnds.{
  End, reading, writing, number, is_end, open_ends, KeepsEnds, read-KeepsEnds, write-KeepsEnds,
  read_empty, write-epipe_iff,
}
use pgzero.Kernel.Guest.{Guest}
use pgzero.Kernel.Host.{
  Caller, Fcntl, open_file, close, make_pipe, store_pair, pipe, devnull, dup, fcntl, o_nonblock,
  attempt_read, attempt_write,
}
use pgzero.Kernel.Host.Ends.{IsPiped, IsFresh, open_new, open_new-IsFresh, world-IsPiped}
use pgzero.Kernel.Host.Keeping.{
  IsKept, open_file-IsKept, close-IsKept, devnull-IsKept, dup-IsKept, fcntl-IsKept, IsKept-if,
}

pub data Call : Type 0 where
  pipes dups : ℕ → ℕ → Call
  devnulls : Call
  closes : ℕ → Call
  fcntls : ℕ → Fcntl → ℕ → Call
  -- attempts of Read and Write at an open file
  reads : ℕ → ℕ → Call
  writes : ℕ × Bool → List ℕ → ℕ → Call

pub step : Call → Caller → Caller
step (pipes addr flags) c = (pipe addr flags c).1
step (dups fd new_fd) c = (dup fd new_fd c).1
step devnulls c = (devnull c).1
step (closes fd) c = (close fd c).1
step (fcntls fd cmd arg) c = (fcntl fd cmd arg c).1
step (reads k a) c = (attempt_read k a c).2
step (writes taken b a) c = (attempt_write taken b a c).2

pub run : List Call → Caller → Caller
run [] c = c
run (call ∷ calls) c = run calls (step call c)

open_ends-make_pipe :
    (e : End) (c : Caller)
    → open_ends e (make_pipe c).1.store.world
      ≡ (if number e == c.store.world.next_pipe then 1 else open_ends e c.store.world)
unfolding make_pipe new_pipe
open_ends-make_pipe (reading i) c = ground arith
open_ends-make_pipe (writing i) c = ground arith

-- The two ends of a pipe that was just made.
make_pipe-IsFresh :
    (e : End) (c : Caller)
    → number e ≡ c.store.world.next_pipe
    → IsPiped e c.store
    → IsFresh e (make_pipe c).1.store
unfolding make_pipe
make_pipe-IsFresh e c n p = record {
  unopened = λ a i. ground (arith, p.made a i);
  single = ground (arith, open_ends-make_pipe e c);
  exists = omega arith;
}

of_number : (e : End) (i : ℕ) → is_end e (pipe_reader i) ≡ true → number e ≡ i
of_number (reading j) i h = ground arith
of_number (writing j) i h = ground arith

of_number' :
    (e : End) (i : ℕ)
    → is_end e (pipe_writer i) ≡ true
    → (number e ≡ i) × (is_end e (pipe_reader i) ≡ false)
of_number' (reading j) i h = ground arith
of_number' (writing j) i h = (ground arith, refl)

module _ (others : ℕ → ℕ) where
  make_pipe-IsKept : (c : Caller) → IsKept others c → IsKept others (make_pipe c).1
  unfolding make_pipe
  make_pipe-IsKept c h = record {
    holds = record { unique = h.holds.unique; counted = h.holds.counted };
    unused = h.unused;
    piped = λ e. record {
      counted = λ a i j.
          ground
            (arith, (h.piped e).counted a i j, (h.piped e).made a i j, open_ends-make_pipe e c);
      distinct = (h.piped e).distinct;
      made = λ a i j. omega (arith, (h.piped e).made a i j);
    };
  }

  pipe-IsKept :
      (addr flags : ℕ) (c : Caller) → IsKept others c → IsKept others (pipe addr flags c).1
  unfolding pipe make_pipe open_new FdTable.add FdTable.ref
  pipe-IsKept addr flags c h =
      let i : ℕ = c.store.world.next_pipe in
      let c1 : Caller = (make_pipe c).1 in
      let (rfd, c2) = open_file (pipe_reader i) (o_nonblock flags) false c1 in
      let (wfd, c3) = open_file (pipe_writer i) (o_nonblock flags) false c2 in
      let fresh : (e : End) → number e ≡ i → IsFresh e c1.store =
        λ e n. make_pipe-IsFresh e c n (h.piped e) in
      let kept2 : IsKept others c2 =
        open_file-IsKept others (pipe_reader i) (o_nonblock flags) false c1
          (λ e k. fresh e (of_number e i k)) (make_pipe-IsKept c h) in
      let kept3 : IsKept others c3 =
        open_file-IsKept others (pipe_writer i) (o_nonblock flags) false c2
          (λ e k.
            unfold open_file in
            open_new-IsFresh e (pipe_reader i) (o_nonblock flags) c1.store (of_number' e i k).1
              (fresh e (of_number' e i k).0))
          kept2 in
      let kept4 : (g : Guest) → IsKept others (record c3 { guest = g }) =
        λ g. record { holds = kept3.holds; unused = kept3.unused; piped = kept3.piped } in
      IsKept-if others _ _ _ (kept4 _) (close-IsKept others _ _ (close-IsKept others _ _ (kept4 _)))

  world-IsKept :
      (w : World) (c : Caller)
      → KeepsEnds c.store.world w
      → IsKept others c
      → IsKept others (record c { store = record (c.store) { world = w } })
  world-IsKept w c k h = record {
    holds = record { unique = h.holds.unique; counted = h.holds.counted };
    unused = h.unused;
    piped = λ e. world-IsPiped e w c.store k (h.piped e);
  }

  step-IsKept : (call : Call) (c : Caller) → IsKept others c → IsKept others (step call c)
  unfolding step attempt_read attempt_write
  step-IsKept (pipes addr flags) c h = pipe-IsKept addr flags c h
  step-IsKept (dups fd new_fd) c h = dup-IsKept others fd new_fd c h
  step-IsKept devnulls c h = devnull-IsKept others c h
  step-IsKept (closes fd) c h = close-IsKept others fd c h
  step-IsKept (fcntls fd cmd arg) c h = fcntl-IsKept others fd cmd arg c h
  step-IsKept (reads k a) c h = world-IsKept _ c (read-KeepsEnds k (c.store.file a) c.store.world) h
  step-IsKept (writes taken b a) c h =
      world-IsKept _ c (write-KeepsEnds taken b (c.store.file a) c.store.world) h

  run-IsKept : (calls : List Call) (c : Caller) → IsKept others c → IsKept others (run calls c)
  unfolding run
  run-IsKept [] c h = h
  run-IsKept (call ∷ calls) c h = run-IsKept calls (step call c) (step-IsKept call c h)

  -- an end is open as long as a descriptor in some process is for it
  open_while_held :
      (e : End) (a : ℕ) (c : Caller)
      → IsKept others c
      → a < c.store.next
      → is_end e (c.store.file a) ≡ true
      → open_ends e c.store.world ≡ (if others a + refs_in a c.table == 0 then 0 else 1)
  open_while_held e a c h i j = ground (arith, (h.piped e).counted a i j, h.holds.counted a)

  -- From a process whose reference counts and counts of pipe ends agree with the descriptors of all
  -- processes, after any calls of it on descriptors: for the open files of the two ends of a pipe whose
  -- buffer is empty, an attempt to read at least a byte gives nothing, as the end of the stream if no
  -- process has a descriptor for the writing end and as EAGAIN if one has; and an attempt to write
  -- gets EPIPE exactly if no process has a descriptor for the reading end.
  pub run_ends :
      (calls : List Call) (c0 : Caller) (i r w k : ℕ) (taken : ℕ × Bool) (b : List ℕ)
      → IsKept others c0
      → let c = run calls c0 in
        r < c.store.next
        → w < c.store.next
        → c.store.file r ≡ pipe_reader i
        → c.store.file w ≡ pipe_writer i
        → (c.store.world.pipes i).buf ≡ []
        → k ≢ 0
        → let held_by : ℕ → ℕ = λ a. others a + refs_in a c.table in
          ((attempt_read k r c).0 ≡ [])
          × ((attempt_read k r c).1 ≡ (if held_by w == 0 then 0 else eagain))
          × (((attempt_write taken b w c).1 ≡ epipe) ↔ (held_by r ≡ 0))
  unfolding attempt_read attempt_write
  run_ends calls c0 i r w k taken b h j l fr fw e n =
      let c : Caller = run calls c0 in
      let kept : IsKept others c = run-IsKept calls c0 h in
      let readers = open_while_held (reading i) r c kept j (ground (arith, fr)) in
      let writers = open_while_held (writing i) w c kept l (ground (arith, fw)) in
      let read_here = read_empty k i c.store.world n e in
      let write_here = write-epipe_iff taken b i c.store.world in
      rw (fr, fw)
        (
          read_here.0,
          read_here.1 ∙ ap (λ m. if m == 0 then 0 else eagain) writers ∙ ground arith,
          (
            λ x. ground (arith, write_here.0 x, readers),
            λ x. write_here.1 (ground (arith, x, readers)),
          ),
        )
