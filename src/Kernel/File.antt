-- ===== src/Kernel/File.antt =====
-- internal/kernel/fdtable.go, `file`: what the operations of a file return.
-- The bits of poll are flags here; `mask` gives the number that the guest reads.
use pgzero.Base.{ℕ, ◌+◌, Bool, false, ◌||◌, if◌then◌else◌}

pub record Events : Type 0 where
  pub pollin : Bool
  pub pollout : Bool
  pub pollerr : Bool
  pub pollhup : Bool
  pub pollnval : Bool

abbrev pub no_events : Events
no_events = record {
  pollin = false;
  pollout = false;
  pollerr = false;
  pollhup = false;
  pollnval = false;
}

-- ev != 0
abbrev pub any_event : Events → Bool
any_event e = e.pollin || e.pollout || e.pollerr || e.pollhup || e.pollnval

-- POLLIN, POLLOUT, POLLERR, POLLHUP and POLLNVAL of internal/abi/consts.go
abbrev pub mask : Events → ℕ
mask e =
    (if e.pollin then 1 else 0)
    + (if e.pollout then 2 else 0)
    + (if e.pollerr then 4096 else 0)
    + (if e.pollhup then 8192 else 0)
    + (if e.pollnval then 16384 else 0)
