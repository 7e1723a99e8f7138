-- ===== src/Kernel/Process/Waiting.antt =====
-- How waitpid ends.
use pgzero.Base.{neg32, ℕ, suc, ◌≡◌, ◌⊎◌, inl, inr, Bool, false, none, some, List, arith, length}
use pgzero.Kernel.Block.{
  WakeReason, woken, timed_out, Turn, Outcome, returned, waiting, out_of_fuel,
}
use pgzero.Kernel.Block.Outcomes.{Ends, retry-Ends}
use pgzero.Kernel.Signal.{is_interrupted}
use pgzero.Kernel.Process.{Kernel, wait_pass, wait_stop, Waited, waitpid}
use pgzero.Abi.{eintr}

abbrev interrupted_reply : Waited
interrupted_reply = record { pid = 0; status = 0; error = neg32 eintr }

-- It returns what one round of its loop gave, or -EINTR; or it still waits, with nothing that interrupts
-- it.
abbrev pub WaitEnds : ℕ → ℕ → Bool → Outcome Waited Kernel → Type 0
WaitEnds a pid nohang (returned r k left) =
    ((t : Kernel) × (wait_pass a pid nohang t ≡ (some r, k))) ⊎ (r ≡ interrupted_reply)
WaitEnds a pid nohang (waiting k) =
    ((k.proc a).signals.cancelled ≡ false) × (is_interrupted (k.proc a).signals ≡ false)
WaitEnds a pid nohang out_of_fuel = ⊥

wait_stops : (w : WakeReason) (r : Waited) → wait_stop w ≡ some r → r ≡ interrupted_reply
unfolding wait_stop
wait_stops w r h = ground arith

wait_goes_on : (w : WakeReason) → wait_stop w ≡ none → (w ≡ woken) ⊎ (w ≡ timed_out)
unfolding wait_stop
wait_goes_on w h = ground arith

Ends-WaitEnds :
    (a pid : ℕ) (nohang : Bool) (ts : List (Turn Kernel)) (o : Outcome Waited Kernel)
    → Ends
        (λ k. (k.proc a).signals.cancelled)
        (λ k. is_interrupted (k.proc a).signals)
        (wait_pass a pid nohang)
        wait_stop
        ts
        o
    → WaitEnds a pid nohang o
Ends-WaitEnds a pid nohang ts (returned r k left) (inl (t, e)) = inl (t, e)
Ends-WaitEnds a pid nohang ts (returned r k left) (inr (w, e, x)) = inr (wait_stops w r e)
Ends-WaitEnds a pid nohang ts (waiting k) h = h
Ends-WaitEnds a pid nohang ts out_of_fuel h = h

-- waitpid never runs out of fuel, whatever the other processes do: it returns what one round of its loop
-- gave in some state, or -EINTR, or goes on waiting while nothing interrupts it.
pub waitpid-WaitEnds :
    (a pid : ℕ) (nohang : Bool) (k : Kernel) (ts : List (Turn Kernel))
    → WaitEnds a pid nohang (waitpid a pid nohang k ts)
unfolding waitpid
waitpid-WaitEnds a pid nohang k ts = Ends-WaitEnds a pid nohang ts (waitpid a pid nohang k ts) (
    retry-Ends (λ k. (k.proc a).signals.cancelled) (λ k. is_interrupted (k.proc a).signals)
      (wait_pass a pid nohang) wait_stop (suc (length ts)) k ts (omega arith) wait_goes_on)
