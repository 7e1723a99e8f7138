-- ===== src/Kernel/Sema.antt =====
-- internal/kernel/sema.go, with semaHost of host.go. The count is an int32, as its bit pattern. `unlock`
-- is two steps, since it calls `notify` after it has let go of the mutex.
pub mod Counting
pub mod Waking
mod Tests
use pgzero.Base.{
  ℕ, suc, ◌+◌, ◌^◌, Bool, true, false, ◌&&◌, not, if◌then◌else◌, ltb, Option, none, some, List,
  length, Table, ◌⊎◌, inl, inr, empty, put, update, add32, dec32, neg32, is_neg32,
}
use pgzero.Abi.{eintr, einval, eagain}
use pgzero.Kernel.Notifier.{Notifier, wait, notify}
use pgzero.Kernel.Notifier
use pgzero.Kernel.Signal.{Signals, is_interrupted}
use pgzero.Kernel.Block.{
  WakeReason, woken, interrupted, timed_out, killed, Turn, Outcome, Reply, replies, unwinds, retry,
}

pub record Semaphore : Type 0 where
  pub count : ℕ
  pub n : Notifier

-- s.count > 0
abbrev pub is_pos : ℕ → Bool
is_pos c = ltb 0 c && not (is_neg32 c)

pub try_lock : Semaphore → Bool × Semaphore
try_lock s = if is_pos s.count then (true, record s { count = dec32 s.count }) else (false, s)

pub unlock_count : Semaphore → Semaphore
unlock_count s = record s { count = add32 s.count 1 }

pub unlock_notify : Semaphore → Semaphore
unlock_notify s = record s { n = notify s.n }

pub reset : Semaphore → Semaphore
reset s = record s { count = 0 }

-- The kernel's semaphores: the ids of the map, and the objects that they name, with the next address.
pub record SemaTable : Type 0 where
  pub sems : Table Semaphore
  pub next : ℕ

pub init : SemaTable
init = record { sems = empty; next = 1 }

pub create : ℕ → SemaTable → ℕ × SemaTable
create initial t = (
  t.next,
  record t {
    sems = put t.sems t.next (record { count = initial; n = Notifier.fresh });
    next = add32 t.next 1;
  },
)

-- No semaphore is ever removed, so an object is changed in place.
pub get : ℕ → SemaTable → Option Semaphore
get id t = t.sems id

-- What a process that waits on a semaphore shares with the others.
pub record Waiter : Type 0 where
  pub sema : Semaphore
  pub signals : Signals

attempt : Waiter → Option Reply × Waiter
attempt w =
    let s : Semaphore = record w.sema { n = (wait w.sema.n).1 } in
    let (locked, s') = try_lock s in
    (if locked then some (replies 0) else none, record w { sema = s' })

stop : WakeReason → Option Reply
stop interrupted = some (replies (neg32 eintr))
stop killed = some unwinds
stop woken = none
stop timed_out = none

-- The loop ends by its turns; the fuel is one more than these.
pub sema_lock : Waiter → List (Turn Waiter) → Outcome Reply Waiter
unfolding attempt stop
sema_lock w ts =
    retry (λ w. w.signals.cancelled) (λ w. is_interrupted w.signals) attempt stop (suc (length ts))
      w ts

-- semaHost; `inl` for a reply without any wait
pub host_lock : ℕ → SemaTable → Signals → List (Turn Waiter) → ℕ ⊎ Outcome Reply Waiter
host_lock id t signals ts = elim (get id t) [
  | none ↦ inl (neg32 einval)
  | some s ↦ inr (sema_lock (record { sema = s; signals = signals }) ts)
]

pub host_try_lock : ℕ → SemaTable → ℕ × SemaTable
host_try_lock id t = elim (get id t) [
  | none ↦ (neg32 einval, t)
  | some s ↦
      let (locked, s') = try_lock s in
      (if locked then 0 else neg32 eagain, record t { sems = put t.sems id s' })
]

pub host_unlock : ℕ → SemaTable → ℕ × SemaTable
host_unlock id t = elim (get id t) [
  | none ↦ (neg32 einval, t)
  | some s ↦ (0, record t { sems = put t.sems id (unlock_notify (unlock_count s)) })
]

pub host_reset : ℕ → SemaTable → ℕ × SemaTable
host_reset id t = elim (get id t) [
  | none ↦ (neg32 einval, t)
  | some s ↦ (0, record t { sems = put t.sems id (reset s) })
]
