-- ===== src/Kernel/Poll.antt =====
-- internal/kernel/poll.go: the loop of poll over the pollfds in the guest's memory. A process is a Caller of
-- host.go. The pollfd i is at addr + 8 * i: fd in 4 bytes, events in 2, revents in 2.
pub mod Entries
pub mod Endings
mod Tests
use pgzero.Base.{
  ℕ, zero, suc, ◌+◌, ◌-◌, ◌*◌, ◌/◌, ◌%◌, ◌^◌, ◌≤◌, ◌<◌, min, max, ◌≡◌, refl, sym, ap, ap₂, subst,
  ◌∙◌, fun_ext, ◌≢◌, ◌↔◌, ◌⊎◌, inl, inr, Bool, true, false, ◌&&◌, ◌||◌, not, Option, none, some,
  List, [], ◌∷◌, ◌++◌, map, arith, dec_lt, dec_le, ℕ_discrete, ltb, leb, ◌==◌, if◌then◌else◌,
  is_empty, is_some, Bool-cases, Option-cases, length, take, drop, neg32, is_neg32,
}
use pgzero.Abi.{efault, eintr}
use pgzero.Kernel.Block.{
  WakeReason, woken, interrupted, timed_out, killed, Turn, Outcome, returned, waiting, out_of_fuel,
  Reply, replies, unwinds, retry,
}
use pgzero.Kernel.FdTable.{get}
use pgzero.Kernel.File.{Events, no_events, any_event, mask}
use pgzero.Kernel.Files
use pgzero.Kernel.Guest.{Guest, in_memory}
use pgzero.Kernel.Host.{Caller}

-- 2 bytes, little end first
abbrev pub put_u16 : ℕ → ℕ → (ℕ → ℕ) → ℕ → ℕ
put_u16 addr v byte a =
    if a == addr then v % 256 else if a == addr + 1 then v / 256 % 256 else byte a

abbrev pub u16_at : ℕ → (ℕ → ℕ) → ℕ
u16_at addr byte = byte addr + 256 * byte (addr + 1)

abbrev pub fd_at : ℕ → ℕ → (ℕ → ℕ) → ℕ
fd_at addr i byte = u16_at (addr + 8 * i) byte + 65536 * u16_at (addr + 8 * i + 2) byte

abbrev pub events_at : ℕ → ℕ → (ℕ → ℕ) → ℕ
events_at addr i byte = u16_at (addr + 8 * i + 4) byte

-- nfds*abi.SizeofPollfd, a uint32
abbrev pub raw_size : ℕ → ℕ
raw_size nfds = nfds * 8 % 2 ^ 32

-- the open file for a pollfd; none is nil
unfoldable pub file_of : ℕ → Caller → Option ℕ
file_of fd c = if is_neg32 fd then none else get fd c.table

-- The loop over files, from i on, over a slice of n bytes; none: an index is out of range and it panics.
pub look_up : ℕ → ℕ → ℕ → ℕ → Caller → Option (List (Option ℕ))
look_up zero i n addr c = some []
look_up (suc rounds) i n addr c =
    let rest = look_up rounds (i + 1) n addr c in
    if ltb n (i * 8 + 4)
    then none
    else elim rest [ none ↦ none | some fs ↦ some (file_of (fd_at addr i c.guest.byte) c ∷ fs) ]

-- ev & (events | POLLERR | POLLHUP)
abbrev pub asked : ℕ → Events → Events
asked events e = record {
  pollin = e.pollin && (events % 2 == 1);
  pollout = e.pollout && (events / 2 % 2 == 1);
  pollerr = e.pollerr;
  pollhup = e.pollhup;
  pollnval = e.pollnval && (events / 16384 % 2 == 1);
}

-- the switch of poll
unfoldable pub revents : ℕ → ℕ → Option ℕ → Caller → Events
revents fd events of c = if is_neg32 fd then no_events else elim of [
  | none ↦ record no_events { pollnval = true }
  | some a ↦ asked events (Files.poll (c.store.file a) c.store.world)
]

-- The loop that counts what is ready and stores revents, from i on; it reads fd and events again.
pub scan : List (Option ℕ) → ℕ → ℕ → Caller → (ℕ → ℕ) → ℕ × (ℕ → ℕ)
scan [] i addr c byte = (0, byte)
scan (of ∷ fs) i addr c byte =
    let e = revents (fd_at addr i byte) (events_at addr i byte) of c in
    let (ready, byte') = scan fs (i + 1) addr c (put_u16 (addr + 8 * i + 6) (mask e) byte) in
    ((if any_event e then 1 else 0) + ready, byte')

-- Before the check, the change channel of each file.
pub take_channels : List (Option ℕ) → Caller → Caller
take_channels [] c = c
take_channels (none ∷ fs) c = take_channels fs c
take_channels (some a ∷ fs) c =
    take_channels fs (record c {
      store = record (c.store) { world = Files.changed (c.store.file a) c.store.world };
    })

pub check : List (Option ℕ) → ℕ → Caller → ℕ × Caller
check fs addr c =
    let (ready, byte) = scan fs 0 addr c c.guest.byte in
    (ready, record c { guest = record (c.guest) { byte = byte } })

-- one round up to block
pub attempt : List (Option ℕ) → ℕ → Bool → Caller → Option Reply × Caller
attempt fs addr no_wait c =
    let (ready, c') = check fs addr (take_channels fs c) in
    (if not (ready == 0) || no_wait then some (replies ready) else none, c')

pub stop : WakeReason → Option Reply
stop interrupted = some (replies (neg32 eintr))
stop killed = some unwinds
stop woken = none
stop timed_out = some (replies 0)

-- The call of the guest: an outcome, or a panic.
pub data Polled : Type 0 where
  polls : Outcome Reply Caller → Polled
  crashes : Polled

module _ (is_cancelled is_interrupted : Caller → Bool) where
  -- The timeout counts only as 0 or not; the fuel is one more than the turns.
  pub poll : ℕ → ℕ → Bool → Caller → List (Turn Caller) → Polled
  poll addr nfds no_wait c ts =
      if not (in_memory addr (raw_size nfds) c.guest)
      then polls (returned (replies (neg32 efault)) c ts)
      else elim (look_up nfds 0 (raw_size nfds) addr c) [
        | none ↦ crashes
        | some fs ↦ polls (
            retry is_cancelled is_interrupted (attempt fs addr no_wait) stop (suc (length ts)) c ts)
      ]
