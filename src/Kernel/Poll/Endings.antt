-- ===== src/Kernel/Poll/Endings.antt =====
-- How a call of poll ends.
use pgzero.Base.{ℕ, ◌≡◌, ◌≢◌, ◌⊎◌, Bool, true, false, Option, List, neg32}
use pgzero.Abi.{eintr}
use pgzero.Kernel.Block.{
  done, timer, Turn, Outcome, returned, waiting, out_of_fuel, Reply, replies, unwinds,
}
use pgzero.Kernel.Block.Outcomes.{Fires}
use pgzero.Kernel.Host.{Caller}
use pgzero.Kernel.Poll.{take_channels, check}

module _ (is_cancelled is_interrupted : Caller → Bool) where
  -- The reply is that of a round which took its channels just before; or -EINTR to a process that is
  -- interrupted; or 0 when the timer has fired. A process is unwound if it is cancelled or its context done.
  abbrev pub PollEnds :
      List (Option ℕ) → ℕ → Bool → List (Turn Caller) → Outcome Reply Caller → Type 0
  PollEnds fs addr no_wait ts (returned (replies r) s left) =
      ((t : Caller) × (check fs addr (take_channels fs t) ≡ (r, s)) × ((r ≢ 0) ⊎ (no_wait ≡ true)))
      ⊎ (((r ≡ neg32 eintr) × (is_cancelled s ≡ false) × (is_interrupted s ≡ true))
          ⊎ ((r ≡ 0) × Fires timer ts s left))
  PollEnds fs addr no_wait ts (returned unwinds s left) =
      (is_cancelled s ≡ true) ⊎ Fires done ts s left
  PollEnds fs addr no_wait ts (waiting s) = (is_cancelled s ≡ false) × (is_interrupted s ≡ false)
  PollEnds fs addr no_wait ts out_of_fuel = ⊥
