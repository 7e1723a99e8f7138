-- ===== src/Kernel/Block.antt =====
-- internal/kernel/process.go, `block`: a blocked process as a run of turns. In a turn other goroutines
-- first change the state, and then one case of the select fires. Every loop that blocks (io, semaLock,
-- waitpid, poll) takes its turns from such a schedule.
pub mod Outcomes
use pgzero.Base.{ℕ, zero, suc, Bool, true, false, Option, none, some, List, [], ◌∷◌, if◌then◌else◌}

pub data WakeReason : Type 0 where
  woken interrupted timed_out killed : WakeReason

-- ctx.Done(), sigWake, the timer, or one of the channels waited on
pub data Select : Type 0 where
  done sig_wake timer ready : Select

pub record Turn {ℓ} (S : Type ℓ) : Type ℓ where
  pub others : S → S
  pub select : Select

-- A result with the state and the turns left; or the process still waits when the turns are used up.
pub data Outcome {ℓ} (R : Type ℓ) (S : Type ℓ) : Type ℓ where
  returned : R → S → List (Turn S) → Outcome R S
  waiting : S → Outcome R S
  out_of_fuel : Outcome R S

-- What a host function gives the guest: a number (an int32, a negated errno if negative), or the error
-- errKilled that unwinds it.
pub data Reply : Type 0 where
  replies : ℕ → Reply
  unwinds : Reply

module _ {S : Type 0} (is_cancelled is_interrupted : S → Bool) where
  selected : Select → S → List (Turn S) → Outcome WakeReason S → Outcome WakeReason S
  selected done s ts again = returned killed s ts
  selected sig_wake s ts again = again
  selected timer s ts again = returned timed_out s ts
  selected ready s ts again = returned woken s ts

  unfoldable pub block : S → List (Turn S) → Outcome WakeReason S
  unfolding selected
  block s [] =
      if is_cancelled s
      then returned killed s []
      else if is_interrupted s
      then returned interrupted s []
      else waiting s
  block s (t ∷ ts) =
      let again = block (t.others s) ts in
      if is_cancelled s
      then returned killed s (t ∷ ts)
      else if is_interrupted s
      then returned interrupted s (t ∷ ts)
      else selected t.select (t.others s) ts again

  -- for { try; switch p.block(...) }: `attempt` takes the channel and tries the operation, and has a
  -- result if the loop ends there; `stop` has one for the wake reasons on which it ends.
  module _ {R : Type 0} (attempt : S → Option R × S) (stop : WakeReason → Option R) where
    resume : (S → List (Turn S) → Outcome R S) → Option R → S → List (Turn S) → Outcome R S
    resume again (some r) s ts = returned r s ts
    resume again none s ts = again s ts

    after_block : (S → List (Turn S) → Outcome R S) → Outcome WakeReason S → Outcome R S
    unfolding resume
    after_block again (returned w s ts) = resume again (stop w) s ts
    after_block again (waiting s) = waiting s
    after_block again out_of_fuel = out_of_fuel

    after_attempt : (S → List (Turn S) → Outcome R S) → Option R × S → List (Turn S) → Outcome R S
    unfolding after_block
    after_attempt again (some r, s) ts = returned r s ts
    after_attempt again (none, s) ts = after_block again (block s ts)

    unfoldable pub retry : ℕ → S → List (Turn S) → Outcome R S
    unfolding after_attempt
    retry zero s ts = out_of_fuel
    retry (suc fuel) s ts = after_attempt (retry fuel) (attempt s) ts
