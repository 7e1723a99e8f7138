-- ===== src/Kernel/Process/Tree.antt =====
-- What waitpid reaps, and what a process that ends leaves behind.
use pgzero.Base.{
  is_some, inr, inr, neg32, inl, inl, ◌⊎◌, erase, ◌==◌, Bool-cases, lookup, Assoc, ℕ, ◌≡◌, refl,
  ◌∙◌, Bool, true, false, Option, none, some, [], ◌∷◌, arith, if◌then◌else◌,
}
use pgzero.Kernel.Notifier.{wait}
use pgzero.Kernel.Process.{
  Waited, tell_parent, tear_down, Process, Kernel, set_proc, wanted, forget_locked, leave_children,
  leave_one, exit,
}
use pgzero.Abi.{echild}
use pgzero.Kernel.Pids.{release_pid}

-- The children among which scan looks.
record Scans (pid : ℕ) (proc : ℕ → Process) (cs : Assoc ℕ) (r : Bool × Option (ℕ × ℕ))
    : Type 0 where
  none_found : r.0 ≡ false → (cpid c : ℕ) → lookup cpid cs ≡ some c → wanted pid cpid ≡ false
  all_run :
      r.1 ≡ none
      → (cpid c : ℕ) → lookup cpid cs ≡ some c
      → wanted pid cpid ≡ true
      → (proc c).done ≡ false
  one_found : (e : ℕ × ℕ) → r.1 ≡ some e → r.0 ≡ true
  exited :
      (cpid c : ℕ)
      → r.1 ≡ some (cpid, c)
      → (lookup cpid cs ≡ some c) × (wanted pid cpid ≡ true) × ((proc c).done ≡ true)

-- From k to t a pid was given back: t has no process under it, and if k had one, then the table of pids
-- has no owner for it any more.
abbrev pub GivenBack : Kernel → Kernel → ℕ → Type 0
GivenBack k t pid =
    (t.procs pid ≡ none)
    × (t.pids.owners pid ≡ (if is_some (k.procs pid) then none else k.pids.owners pid))

forget_locked-proc : (pid : ℕ) (k : Kernel) → (forget_locked pid k).proc ≡ k.proc
unfolding forget_locked
forget_locked-proc pid k = ground arith

-- A later exit changes nothing.
pub exit_first : (a s t : ℕ) (k : Kernel) → exit a t (exit a s k) ≡ exit a s k
unfolding exit
exit_first a s t k = ground arith

-- What one child is after its parent has gone: it knows it, and if it had exited its pid is given back.
abbrev pub Left : Kernel → Kernel → ℕ → ℕ → Type 0
Left k t pid c = ((t.proc c).parent_gone ≡ true) × ((k.proc c).done ≡ true → GivenBack k t pid)

record Keeps (k t : Kernel) : Type 0 where
  gone : (c : ℕ) → (k.proc c).parent_gone ≡ true → (t.proc c).parent_gone ≡ true
  forgot : (q : ℕ) → k.procs q ≡ none → GivenBack k t q
  done : (c : ℕ) → (t.proc c).done ≡ (k.proc c).done

leave_one-Keeps : (pid c : ℕ) (k : Kernel) → Keeps k (leave_one pid c k)
unfolding leave_one forget_locked release_pid
leave_one-Keeps pid c k = record {
  gone = λ d h. ground arith;
  forgot = λ q h. (ground arith, ground arith);
  done = λ d. ground arith;
}

leave_one-Left : (pid c : ℕ) (k : Kernel) → Left k (leave_one pid c k) pid c
unfolding leave_one forget_locked release_pid
leave_one-Left pid c k = (ground arith, λ h. (ground arith, ground arith))

leave_one-other :
    (pid c q : ℕ) (k : Kernel)
    → (pid == q) ≡ false
    → ((leave_one pid c k).procs q ≡ k.procs q)
      × ((leave_one pid c k).pids.owners q ≡ k.pids.owners q)
unfolding leave_one forget_locked release_pid
leave_one-other pid c q k n = (ground arith, ground arith)

leave_children-Keeps : (cs : Assoc ℕ) (k : Kernel) → Keeps k (leave_children cs k)
unfolding leave_children
leave_children-Keeps [] k = record {
  gone = λ c h. h;
  forgot = λ q h. (h, ground arith);
  done = λ c. refl;
}
leave_children-Keeps ((pid, c) ∷ cs) k =
    let one : Keeps k (leave_one pid c k) = leave_one-Keeps pid c k in
    let ih : Keeps (leave_one pid c k) (leave_children cs (leave_one pid c k)) =
      leave_children-Keeps cs (leave_one pid c k) in
    record {
      gone = λ d h. ih.gone d (one.gone d h);
      forgot = λ q h.
          let first : GivenBack k (leave_one pid c k) q = one.forgot q h in
          let last : GivenBack (leave_one pid c k) (leave_children cs (leave_one pid c k)) q =
            ih.forgot q first.0 in
          (last.0, ground (arith, first.0, first.1, last.1));
      done = λ d. ih.done d ∙ one.done d;
    }

leave_children-Left :
    (k₀ : Kernel) (cs : Assoc ℕ) (k : Kernel) (pid c : ℕ)
    → ((d : ℕ) → (k.proc d).done ≡ (k₀.proc d).done)
    → k.procs pid ≡ k₀.procs pid
    → k.pids.owners pid ≡ k₀.pids.owners pid
    → lookup pid cs ≡ some c
    → Left k₀ (leave_children cs k) pid c
unfolding leave_children
leave_children-Left k₀ [] k pid c same p o h = cc
leave_children-Left k₀ ((i, d) ∷ cs) k pid c same p o h = elim (Bool-cases (i == pid)) [
  | inl e ↦
      let i_pid : i ≡ pid = ground arith in
      let d_c : d ≡ c = ground arith in
      let one : Left k (leave_one pid c k) pid c = leave_one-Left pid c k in
      let rest : Keeps (leave_one pid c k) (leave_children cs (leave_one pid c k)) =
        leave_children-Keeps cs (leave_one pid c k) in
      rw (i_pid, d_c)
        (
          rest.gone c one.0,
          λ f.
              let g : GivenBack k (leave_one pid c k) pid = one.1 (same c ∙ f) in
              let kept : GivenBack (leave_one pid c k) (leave_children cs (leave_one pid c k)) pid =
                rest.forgot pid g.0 in
              (kept.0, ground (arith, g.0, g.1, kept.1, p, o)),
        )
  | inr e ↦
      let other : ((leave_one i d k).procs pid ≡ k.procs pid)
          × ((leave_one i d k).pids.owners pid ≡ k.pids.owners pid) =
        leave_one-other i d pid k e in
      leave_children-Left k₀ cs (leave_one i d k) pid c
        (λ x. (leave_one-Keeps i d k).done x ∙ same x) (other.0 ∙ p) (other.1 ∙ o) (ground arith)
]

ends_without_children : (a : ℕ) (k : Kernel) → ((tear_down a k).proc a).children ≡ []
unfolding tear_down tell_parent forget_locked
ends_without_children a k = ground arith

-- When a process has ended it has no children, and each child that it had knows that its parent is gone;
-- the pid of a child that had exited before is given back, in the kernel and in the table of pids, since
-- nobody can wait for it any more.
pub tear_down-Left :
    (a : ℕ) (k : Kernel) (pid c : ℕ)
    → lookup pid (k.proc a).children ≡ some c
    → (((tear_down a k).proc a).children ≡ []) × Left k (tear_down a k) pid c
unfolding tear_down tell_parent forget_locked release_pid
tear_down-Left a k pid c h =
    let l : Left k (leave_children (k.proc a).children k) pid c =
      leave_children-Left k (k.proc a).children k pid c (λ d. refl) refl refl h in
    let parent : ((tear_down a k).proc c).parent_gone ≡ true = ground (arith, l.0) in
    (
      ends_without_children a k,
      (
        parent,
        λ f.
            let g : GivenBack k (leave_children (k.proc a).children k) pid = l.1 f in
            (ground (arith, g.0), ground (arith, g.0, g.1)),
      ),
    )

-- What a round of waitpid answers and leaves, from a kernel k.
abbrev pub Passes : ℕ → ℕ → Bool → Kernel → Option Waited × Kernel → Type 0
Passes a pid nohang k (r, t) =
    let cs = (k.proc a).children in
    ((cpid : ℕ) × (c : ℕ) × (lookup cpid cs ≡ some c)
      × (wanted pid cpid ≡ true)
      × ((k.proc c).done ≡ true)
      × (r ≡ some (record { pid = cpid; status = (k.proc c).status; error = 0 }))
      × ((t.proc a).children ≡ erase cpid cs)
      × GivenBack k t (k.proc c).pid)
    ⊎ (((cpid c : ℕ) → lookup cpid cs ≡ some c → wanted pid cpid ≡ false)
        × (r ≡ some (record { pid = 0; status = 0; error = neg32 echild }))
        × (t ≡ k))
    ⊎ (((cpid c : ℕ) → lookup cpid cs ≡ some c → wanted pid cpid ≡ true → (k.proc c).done ≡ false)
        × (r ≡ (if nohang then some (record { pid = 0; status = 0; error = 0 }) else none))
        × (t ≡ k))

-- The kernel in which waitpid looks: it has taken the channel of child events.
abbrev pub listening : ℕ → Kernel → Kernel
listening a k = set_proc a (record (k.proc a) { child_evts = (wait (k.proc a).child_evts).1 }) k
