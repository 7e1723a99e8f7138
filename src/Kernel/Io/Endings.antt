-- ===== src/Kernel/Io/Endings.antt =====
-- How a read or a write on a descriptor ends.
use pgzero.Base.{
  subst, ℕ, suc, ◌%◌, ◌^◌, ◌≡◌, refl, ◌≢◌, ◌⊎◌, inl, inr, true, false, none, some, List, arith,
  ℕ_discrete, ◌==◌, if◌then◌else◌, length, neg32,
}
use pgzero.Abi.{eagain, eintr}
use pgzero.Kernel.Block.{
  done, killed, interrupted, WakeReason, woken, timed_out, Turn, Outcome, returned, waiting,
  out_of_fuel, Reply, replies, unwinds,
}
use pgzero.Kernel.Block.Outcomes.{Explains, Fires, retry_at_once, Ends, retry-Ends}
use pgzero.Kernel.Io.{FileOps, answer, attempt, stop, io}

module _ {S : Type 0} (f : FileOps S) where
  -- The operation was made in a state t and what it returned then is the reply, with the state it left; it
  -- would not have blocked there, or the file is non-blocking.
  abbrev pub Answered : ℕ → S → Type 0
  Answered r s =
      (t : S) × (n : ℕ) × (e : ℕ) × (f.op t ≡ (n, e, s))
      × (((e ≡ 0) × (r ≡ n % 2 ^ 32))
          ⊎ ((r ≡ neg32 e) × (e ≢ 0) × ((e ≢ eagain) ⊎ (f.nonblock s ≡ true))))

  -- The process was found cancelled, or its context was done in the turn that ended the wait.
  abbrev pub IsKilled : List (Turn S) → S → List (Turn S) → Type 0
  IsKilled ts s left = (f.is_cancelled s ≡ true) ⊎ Fires done ts s left

  abbrev pub IoEnds : List (Turn S) → Outcome Reply S → Type 0
  IoEnds ts (returned (replies r) s left) =
      Answered r s ⊎ ((r ≡ neg32 eintr) × (f.is_cancelled s ≡ false) × (f.is_interrupted s ≡ true))
  IoEnds ts (returned unwinds s left) = IsKilled ts s left
  IoEnds ts (waiting s) = (f.is_cancelled s ≡ false) × (f.is_interrupted s ≡ false)
  IoEnds ts out_of_fuel = ⊥

  would_not_block :
      (e : ℕ) (u s : S) (r : Reply) (n : ℕ)
      → e ≢ 0
      → answer f (n, e, u) ≡ (some r, s)
      → (e ≢ eagain) ⊎ (f.nonblock s ≡ true)
  unfolding answer
  would_not_block e u s r n z h = elim (ℕ_discrete e eagain) [
    | yes a ↦ inr (ground arith)
    | no a ↦ inl a
  ]

  stop_replies :
      (w : WakeReason) (r : ℕ) → stop f w ≡ some (replies r) → (r ≡ neg32 eintr) × (w ≡ interrupted)
  unfolding stop
  stop_replies w r h = ground arith

  stop_unwinds : (w : WakeReason) → stop f w ≡ some unwinds → w ≡ killed
  unfolding stop
  stop_unwinds w h = ground arith

  never_unwinds : (a : ℕ × ℕ × S) (s : S) → ¬ (answer f a ≡ (some unwinds, s))
  unfolding answer
  never_unwinds (n, e, u) s h = ground arith

  Answered-of :
      (t : S) (n e : ℕ) (u s : S) (r : ℕ)
      → f.op t ≡ (n, e, u)
      → answer f (n, e, u) ≡ (some (replies r), s)
      → Answered r s
  unfolding answer
  Answered-of t n e u s r o h = elim (ℕ_discrete e 0) [
    | yes z ↦ (t, n, e, ground arith, inl (z, ground arith))
    | no z ↦ (t, n, e, ground arith, inr (ground arith, z, would_not_block e u s (replies r) n z h))
  ]

  Ends-IoEnds :
      (ts : List (Turn S)) (o : Outcome Reply S)
      → Ends f.is_cancelled f.is_interrupted (attempt f) (stop f) ts o
      → IoEnds ts o
  unfolding attempt
  Ends-IoEnds ts (returned (replies r) s left) (inl (t, e)) = inl (
      Answered-of (f.changed t) (f.op (f.changed t)).0 (f.op (f.changed t)).1 (f.op (f.changed t)).2
        s r refl e)
  Ends-IoEnds ts (returned (replies r) s left) (inr (w, e, x)) =
      let why : (r ≡ neg32 eintr) × (w ≡ interrupted) = stop_replies w r e in
      let y : (f.is_cancelled s ≡ false) × (f.is_interrupted s ≡ true) =
        subst (λ v. Explains f.is_cancelled f.is_interrupted ts (returned v s left)) why.1 x in
      inr (why.0, y.0, y.1)
  Ends-IoEnds ts (returned unwinds s left) (inl (t, e)) =
      absurd (never_unwinds (f.op (f.changed t)) s e)
  Ends-IoEnds ts (returned unwinds s left) (inr (w, e, x)) =
      subst (λ v. Explains f.is_cancelled f.is_interrupted ts (returned v s left))
        (stop_unwinds w e) x
  Ends-IoEnds ts (waiting s) h = h
  Ends-IoEnds ts out_of_fuel h = h

  stop_goes_on : (w : WakeReason) → stop f w ≡ none → (w ≡ woken) ⊎ (w ≡ timed_out)
  unfolding stop
  stop_goes_on w h = ground arith

  pub io-IoEnds : (s : S) (ts : List (Turn S)) → IoEnds ts (io f s ts)
  unfolding io
  io-IoEnds s ts = Ends-IoEnds ts (io f s ts) (
      retry-Ends f.is_cancelled f.is_interrupted (attempt f) (stop f) (suc (length ts)) s ts
        (omega arith) stop_goes_on)

  attempt_nonblock :
      (s : S)
      → let (n, e, t) = f.op (f.changed s) in
        f.nonblock t ≡ true
        → attempt f s ≡ (some (replies (if e == 0 then n % 2 ^ 32 else neg32 e)), t)
  unfolding attempt answer
  attempt_nonblock s h = ground arith

  -- A non-blocking file never waits: one call of the operation decides, whatever the others would do.
  io_nonblock :
      (s : S) (ts : List (Turn S))
      → ((u : S) → f.nonblock u ≡ true)
      → let (n, e, t) = f.op (f.changed s) in
        io f s ts ≡ returned (replies (if e == 0 then n % 2 ^ 32 else neg32 e)) t ts
  unfolding io
  io_nonblock s ts nb =
      retry_at_once f.is_cancelled f.is_interrupted (attempt f) (stop f) (length ts) s
        (f.op (f.changed s)).2 ts _ (attempt_nonblock s (nb (f.op (f.changed s)).2))
