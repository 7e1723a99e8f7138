-- ===== src/Kernel/Sema/Tests.antt =====
-- A semaphore of one unit, and a waiter on an empty one.
use pgzero.Base.{◌+◌, ◌≡◌, refl, false, List, [], ◌∷◌, arith}
use pgzero.Kernel.Sema.{unlock_notify, unlock_count, Semaphore, Waiter, try_lock}
use pgzero.Kernel.Sema.Counting.{granted_exactly, run, granted, Call, locks, unlocks}
use pgzero.Kernel.Sema.Waking.{waiter_woken, Shared, raises, notifies, move, moves, waits}
use pgzero.Kernel.Notifier.Wakeups.{fresh-IsSound}
use pgzero.Kernel.Block.{ready, Turn}
use pgzero.Kernel.Notifier.{wait, fresh}
use pgzero.Kernel.Signal.{no_signals}

abbrev one_unit : Semaphore
one_unit = record { count = 1; n = fresh }

abbrev calls : List Call
calls = locks ∷ locks ∷ unlocks ∷ locks ∷ []

granted_exactly_example : granted one_unit calls + (run one_unit calls).count ≡ 2
granted_exactly_example = granted_exactly one_unit calls (omega arith)

abbrev empty_shared : Shared
empty_shared = record { sema = record { count = 0; n = fresh }; in_flight = 0 }

waiter_woken_example :
    (moves (move empty_shared waits) (raises ∷ notifies ∷ [])).sema.n.closes
      (wait empty_shared.sema.n).0
    ≡ 1
unfolding move moves wait try_lock unlock_count unlock_notify
waiter_woken_example =
    waiter_woken empty_shared (raises ∷ notifies ∷ []) fresh-IsSound refl refl refl

abbrev waiting_process : Waiter
waiting_process = record {
  sema = record { count = 0; n = fresh };
  signals = record {
    cancelled = false;
    registered = false;
    pending = no_signals;
    blocked = no_signals;
    ignored = no_signals;
    early = no_signals;
    wake = false;
  };
}

abbrev unlocked_meanwhile : Turn Waiter
unlocked_meanwhile = record {
  others = λ w. record w { sema = unlock_notify (unlock_count w.sema) };
  select = ready;
}
