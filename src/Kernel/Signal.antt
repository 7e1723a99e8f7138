-- ===== src/Kernel/Signal.antt =====
-- internal/kernel/process.go, the signals of a process: Signal, stopSignals, registerSignals,
-- interrupted. A uint64 of signals is the set of its bits.
pub mod Delivery
mod Tests
use pgzero.Base.{
  ℕ, zero, suc, ◌+◌, Bool, true, false, ◌&&◌, ◌||◌, not, if◌then◌else◌, ◌==◌, ltb, Option, none,
  some, is_some, neg32,
}
use pgzero.Abi.{efault}
use pgzero.Vmem.{Memory, uint64_ptr, slice}

abbrev pub Mask : Type 0
Mask = ℕ → Bool

abbrev pub no_signals : Mask
no_signals _ = false

-- 1 << sig in uint64: a shift by 64 or more gives 0.
abbrev pub bit : ℕ → Mask
bit sig i = sig == i && ltb i 64

abbrev pub union : Mask → Mask → Mask
union a b i = a i || b i

-- a &^ b
abbrev pub minus : Mask → Mask → Mask
minus a b i = a i && not (b i)

-- m != 0, for the bits below n
pub any_bit : ℕ → Mask → Bool
any_bit zero m = false
any_bit (suc n) m = m n || any_bit n m

abbrev pub sigkill : ℕ
sigkill = 9

abbrev pub sizeof_sigblock : ℕ
sizeof_sigblock = 24

pub record Signals : Type 0 where
  -- the process's context is cancelled
  pub cancelled : Bool
  -- sigPending != nil; the guest's control block is then the three masks
  pub registered : Bool
  pub pending : Mask
  pub blocked : Mask
  pub ignored : Mask
  pub early : Mask
  -- a token waits in sigWake
  pub wake : Bool

pub signal : ℕ → Signals → Signals
signal sig s =
    if sig == sigkill
    then record s { cancelled = true }
    else if s.registered
    then record s { pending = union s.pending (bit sig); wake = true }
    else record s { early = union s.early (bit sig); wake = true }

pub stop_signals : Signals → Signals
stop_signals s = record s { registered = false }

-- `block` is what the guest's memory holds at addr: pending, blocked, ignored.
pub register_signals : Memory → ℕ → Mask × Mask × Mask → Signals → ℕ × Signals
register_signals m addr block s =
    if not (is_some (uint64_ptr m addr))
    then (neg32 efault, s)
    else if not (is_some (slice m addr sizeof_sigblock))
    then (neg32 efault, s)
    else (
      0,
      record s {
        registered = true;
        pending = union block.0 s.early;
        blocked = block.1;
        ignored = block.2;
        early = no_signals;
      },
    )

pub is_interrupted : Signals → Bool
is_interrupted s =
    if s.registered
    then any_bit 64 (minus (minus s.pending s.blocked) s.ignored)
    else any_bit 64 s.early
