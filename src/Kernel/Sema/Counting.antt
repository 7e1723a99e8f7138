-- ===== src/Kernel/Sema/Counting.antt =====
-- A semaphore as a counter: how many locks it grants.
use pgzero.Base.{
  false, inr, inl, length, dec32, true, ◌⊎◌, neg32, some, none, ℕ, suc, ◌+◌, ◌^◌, ◌<◌, ◌≡◌,
  if◌then◌else◌, List, [], ◌∷◌, arith,
}
use pgzero.Kernel.Sema.{
  is_interrupted, eintr, is_pos, woken, replies, Turn, WakeReason, Waiter, Reply, stop, sema_lock,
  attempt, Outcome, Semaphore, try_lock, unlock_count, unlock_notify,
}
use pgzero.Kernel.Block.Outcomes.{retry-Ends, Ends}
use pgzero.Kernel.Block.{retry, out_of_fuel, waiting, unwinds, timed_out, returned}
use pgzero.Kernel.Notifier.{wait}

-- Calls on one semaphore; the locks that a run of calls grants, and the unlocks in it.
pub data Call : Type 0 where
  locks unlocks : Call

unfoldable pub step : Semaphore → Call → Semaphore
step s locks = (try_lock s).1
step s unlocks = unlock_notify (unlock_count s)

unfoldable pub run : Semaphore → List Call → Semaphore
run s [] = s
run s (c ∷ cs) = run (step s c) cs

abbrev pub granted : Semaphore → List Call → ℕ
granted s [] = 0
granted s (locks ∷ cs) = (if (try_lock s).0 then 1 else 0) + granted (step s locks) cs
granted s (unlocks ∷ cs) = granted (step s unlocks) cs

abbrev pub unlocks_in : List Call → ℕ
unlocks_in [] = 0
unlocks_in (locks ∷ cs) = unlocks_in cs
unlocks_in (unlocks ∷ cs) = suc (unlocks_in cs)

-- While the count does not reach the limit of an int32, the semaphore grants exactly as many locks as its
-- count falls by, besides the unlocks: never more than the count at the start and the unlocks together.
pub granted_exactly :
    (s : Semaphore) (cs : List Call)
    → s.count + unlocks_in cs < 2 ^ 31
    → granted s cs + (run s cs).count ≡ s.count + unlocks_in cs
unfolding run step try_lock unlock_count unlock_notify
granted_exactly s [] h = omega arith
granted_exactly s (locks ∷ cs) h = ground (arith, granted_exactly (try_lock s).1 cs)
granted_exactly s (unlocks ∷ cs) h =
    ground (arith, granted_exactly (unlock_notify (unlock_count s)) cs)

-- How semaLock ends: with 0 after it has taken one from a positive count, or with -EINTR or the unwinding
-- of a killed process; it goes on waiting only while no signal interrupts it.
abbrev pub LockEnds : Outcome Reply Waiter → Type 0
LockEnds (returned (replies r) w left) =
    ((r ≡ 0)
      × ((t : Waiter) × (is_pos t.sema.count ≡ true)
          × (w.sema.count ≡ dec32 t.sema.count)
          × (w.signals ≡ t.signals)))
    ⊎ (r ≡ neg32 eintr)
LockEnds (returned unwinds w left) = Unit
LockEnds (waiting w) = (w.signals.cancelled ≡ false) × (is_interrupted w.signals ≡ false)
LockEnds out_of_fuel = ⊥

attempt_granted :
    (t w : Waiter) (r : Reply)
    → attempt t ≡ (some r, w)
    → (r ≡ replies 0)
      × (is_pos t.sema.count ≡ true)
      × (w.sema.count ≡ dec32 t.sema.count)
      × (w.signals ≡ t.signals)
unfolding attempt try_lock
attempt_granted t w r h = ground arith

stop_reply :
    (w : WakeReason) (r : Reply) → stop w ≡ some r → (r ≡ replies (neg32 eintr)) ⊎ (r ≡ unwinds)
unfolding stop
stop_reply w r h = ground arith

stop_goes_on : (w : WakeReason) → stop w ≡ none → (w ≡ woken) ⊎ (w ≡ timed_out)
unfolding stop
stop_goes_on w h = ground arith

Ends-LockEnds :
    (ts : List (Turn Waiter)) (o : Outcome Reply Waiter)
    → Ends (λ w. w.signals.cancelled) (λ w. is_interrupted w.signals) attempt stop ts o
    → LockEnds o
Ends-LockEnds ts (returned (replies r) w left) (inl (t, e)) =
    let g = attempt_granted t w (replies r) e in inl (ground arith, (t, g.1, g.2, g.3))
Ends-LockEnds ts (returned (replies r) w left) (inr (v, e, x)) =
    inr (ground (arith, stop_reply v (replies r) e))
Ends-LockEnds ts (returned unwinds w left) h = tt
Ends-LockEnds ts (waiting w) h = h
Ends-LockEnds ts out_of_fuel h = h

-- semaLock never runs out of fuel, and ends as `LockEnds` says, whatever the others do.
sema_lock-LockEnds : (w : Waiter) (ts : List (Turn Waiter)) → LockEnds (sema_lock w ts)
unfolding sema_lock
sema_lock-LockEnds w ts = Ends-LockEnds ts (sema_lock w ts) (
    retry-Ends (λ w. w.signals.cancelled) (λ w. is_interrupted w.signals) attempt stop
      (suc (length ts)) w ts (omega arith) stop_goes_on)

-- A positive count is taken at once, whatever signals are pending.
sema_lock_at_once :
    (w : Waiter) (ts : List (Turn Waiter))
    → is_pos w.sema.count ≡ true
    → sema_lock w ts
      ≡ returned
          (replies 0)
          (record w { sema = record w.sema { count = dec32 w.sema.count; n = (wait w.sema.n).1 } })
          ts
unfolding sema_lock retry attempt try_lock
sema_lock_at_once w ts h = rw h
