-- ===== src/Kernel/Io.antt =====
-- internal/kernel/fdtable.go, `io`, and the calls of host.go that go through it. The file's operation,
-- its channel and the process's signals are parameters over the state S that they share.
pub mod Endings
mod Tests
use pgzero.Base.{
  ℕ, zero, suc, ◌+◌, ◌-◌, ◌*◌, ◌/◌, ◌%◌, ◌^◌, ◌≤◌, ◌<◌, min, max, ◌≡◌, refl, sym, ap, ap₂, subst,
  ◌∙◌, fun_ext, ◌≢◌, ◌↔◌, ◌⊎◌, inl, inr, Bool, true, false, ◌&&◌, ◌||◌, not, Option, none, some,
  List, [], ◌∷◌, ◌++◌, map, arith, dec_lt, dec_le, ℕ_discrete, ltb, leb, ◌==◌, if◌then◌else◌,
  is_empty, is_some, Bool-cases, Option-cases, length, take, drop, neg32,
}
use pgzero.Abi.{eagain, ebadf, efault, eintr, epipe}
use pgzero.Kernel.Block.{
  WakeReason, woken, interrupted, timed_out, killed, Turn, Outcome, returned, waiting, out_of_fuel,
  Reply, replies, unwinds, retry,
}

abbrev pub sigpipe : ℕ
sigpipe = 13

pub record FileOps (S : Type 0) : Type 0 where
  pub is_cancelled : S → Bool
  pub is_interrupted : S → Bool
  -- of.f.changed(): the channel is the notifier's; here only its effect on the state
  pub changed : S → S
  -- op(): a count and an errno
  pub op : S → ℕ × ℕ × S
  pub nonblock : S → Bool
  -- p.Signal(sig)
  pub signal : ℕ → S → S

module _ {S : Type 0} (f : FileOps S) where
  answer : ℕ × ℕ × S → Option Reply × S
  answer (n, errno, s) =
      if errno == 0
      then (some (replies (n % 2 ^ 32)), s)
      else if not (errno == eagain) || f.nonblock s
      then (some (replies (neg32 errno)), s)
      else (none, s)

  pub attempt : S → Option Reply × S
  unfolding answer
  attempt s = answer (f.op (f.changed s))

  pub stop : WakeReason → Option Reply
  stop interrupted = some (replies (neg32 eintr))
  stop killed = some unwinds
  stop woken = none
  stop timed_out = none

  -- The fuel is one more than the turns.
  pub io : S → List (Turn S) → Outcome Reply S
  io s ts = retry f.is_cancelled f.is_interrupted attempt stop (suc (length ts)) s ts

  -- fdHost.Read: `of` is the descriptor's open file, `ok` says that the guest's buffer lies in its memory.
  pub read_call : Option ℕ → Bool → S → List (Turn S) → Outcome Reply S
  read_call none ok s ts = returned (replies (neg32 ebadf)) s ts
  read_call (some of) ok s ts = if not ok then returned (replies (neg32 efault)) s ts else io s ts

  sigpipe_on : Outcome Reply S → Outcome Reply S
  sigpipe_on (returned (replies r) s ts) =
      if r == neg32 epipe
      then returned (replies r) (f.signal sigpipe s) ts
      else returned (replies r) s ts
  sigpipe_on (returned unwinds s ts) = returned unwinds s ts
  sigpipe_on (waiting s) = waiting s
  sigpipe_on out_of_fuel = out_of_fuel

  -- fdHost.Write
  pub write_call : Option ℕ → Bool → S → List (Turn S) → Outcome Reply S
  unfolding sigpipe_on
  write_call none ok s ts = returned (replies (neg32 ebadf)) s ts
  write_call (some of) ok s ts =
      if not ok then returned (replies (neg32 efault)) s ts else sigpipe_on (io s ts)
