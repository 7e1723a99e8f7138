-- ===== src/Kernel/Notifier.antt =====
-- internal/kernel/notify.go. A channel is a number, given in the order of creation.
pub mod Wakeups
use pgzero.Base.{ℕ, ◌+◌, Option, none, some, update}

pub record Notifier : Type 0 where
  pub ch : Option ℕ
  -- the channels that `make` has returned: those below
  pub made : ℕ
  -- how often `close` was called on a channel: more than once is a panic in Go
  pub closes : ℕ → ℕ

abbrev pub fresh : Notifier
fresh = record { ch = none; made = 0; closes = λ c. 0 }

-- The channel to wait on, and the notifier afterwards.
wait_on : Option ℕ → Notifier → ℕ × Notifier
wait_on (some c) n = (c, n)
wait_on none n = (n.made, record n { ch = some n.made; made = n.made + 1 })

unfoldable pub wait : Notifier → ℕ × Notifier
unfolding wait_on
wait n = wait_on n.ch n

close : Option ℕ → Notifier → Notifier
close (some c) n = record n { ch = none; closes = update n.closes c (n.closes c + 1) }
close none n = n

unfoldable pub notify : Notifier → Notifier
unfolding close
notify n = close n.ch n
