-- ===== src/Kernel/Notifier/Wakeups.antt =====
-- The promise of notify.go: a waiter that took a channel is woken by the next `notify`.
use pgzero.Base.{
  ℕ, ◌≤◌, ◌<◌, ◌≡◌, refl, ◌≢◌, some, List, [], ◌∷◌, arith, Bool, true, false, if◌then◌else◌, dec_lt,
}
use pgzero.Kernel.Notifier.{Notifier, fresh, wait, notify}

pub record IsSound (n : Notifier) : Type 0 where
  pub current_made : (c : ℕ) → n.ch ≡ some c → c < n.made
  pub current_open : (c : ℕ) → n.ch ≡ some c → n.closes c ≡ 0
  pub not_made_open : (c : ℕ) → n.made ≤ c → n.closes c ≡ 0
  pub old_closed : (c : ℕ) → c < n.made → n.ch ≢ some c → n.closes c ≡ 1

pub fresh-IsSound : IsSound fresh
fresh-IsSound = record {
  current_made = λ c e. cc;
  current_open = λ c e. refl;
  not_made_open = λ c h. refl;
  old_closed = λ c h e. absurd (omega arith);
}

pub wait-IsSound : (n : Notifier) → IsSound n → IsSound (wait n).1
unfolding wait
wait-IsSound n s = record {
  current_made = λ c e. ground (arith, s.current_made c);
  current_open = λ c e. ground (arith, s.current_open c, s.not_made_open c);
  not_made_open = λ c h. ground (arith, s.not_made_open c);
  old_closed = λ c h e. ground (arith, s.old_closed c);
}

pub notify-IsSound : (n : Notifier) → IsSound n → IsSound (notify n)
unfolding notify
notify-IsSound n s = record {
  current_made = λ c e. ground (arith, s.current_made c);
  current_open = λ c e. ground (arith, s.current_open c, s.not_made_open c);
  not_made_open = λ c h. ground (arith, s.not_made_open c, s.current_made c);
  old_closed = λ c h e. ground (arith, s.old_closed c, s.current_open c);
}

pub data Op : Type 0 where
  waits notifies : Op

unfoldable pub step : Notifier → Op → Notifier
step n waits = (wait n).1
step n notifies = notify n

unfoldable pub run : Notifier → List Op → Notifier
run n [] = n
run n (o ∷ os) = run (step n o) os

pub run-IsSound : (n : Notifier) (os : List Op) → IsSound n → IsSound (run n os)
unfolding run step
run-IsSound n [] s = s
run-IsSound n (waits ∷ os) s = run-IsSound (wait n).1 os (wait-IsSound n s)
run-IsSound n (notifies ∷ os) s = run-IsSound (notify n) os (notify-IsSound n s)

abbrev pub notified : List Op → Bool
notified [] = false
notified (waits ∷ os) = notified os
notified (notifies ∷ os) = true

at_most_once : (n : Notifier) (c : ℕ) → IsSound n → n.closes c ≤ 1
at_most_once n c s =
    ground (arith, s.current_open c, s.not_made_open c, s.old_closed c, dec_lt c n.made)

step-IsSound : (n : Notifier) (o : Op) → IsSound n → IsSound (step n o)
unfolding step
step-IsSound n waits s = wait-IsSound n s
step-IsSound n notifies s = notify-IsSound n s

pub stays_closed_wait : (n : Notifier) (c : ℕ) → n.closes c ≡ 1 → (wait n).1.closes c ≡ 1
unfolding wait
stays_closed_wait n c h = ground arith

pub stays_closed_notify :
    (n : Notifier) (c : ℕ) → IsSound n → n.closes c ≡ 1 → (notify n).closes c ≡ 1
unfolding notify
stays_closed_notify n c s h = ground (arith, s.current_open c)

stays_closed_step :
    (n : Notifier) (o : Op) (c : ℕ) → IsSound n → n.closes c ≡ 1 → (step n o).closes c ≡ 1
unfolding step
stays_closed_step n waits c s h = stays_closed_wait n c h
stays_closed_step n notifies c s h = stays_closed_notify n c s h

stays_closed :
    (n : Notifier) (os : List Op) (c : ℕ) → IsSound n → n.closes c ≡ 1 → (run n os).closes c ≡ 1
unfolding run
stays_closed n [] c s h = h
stays_closed n (o ∷ os) c s h =
    stays_closed (step n o) os c (step-IsSound n o s) (stays_closed_step n o c s h)

pub notify-closes : (n : Notifier) (c : ℕ) → IsSound n → n.ch ≡ some c → (notify n).closes c ≡ 1
unfolding notify
notify-closes n c s h = ground (arith, s.current_open c h)

closes-run :
    (n : Notifier) (os : List Op) (c : ℕ)
    → IsSound n
    → n.ch ≡ some c
    → (run n os).closes c ≡ (if notified os then 1 else 0)
unfolding run
closes-run n [] c s h = s.current_open c h
closes-run n (waits ∷ os) c s h =
    closes-run (step n waits) os c (step-IsSound n waits s) (unfold step wait in ground arith)
closes-run n (notifies ∷ os) c s h =
    stays_closed (step n notifies) os c (step-IsSound n notifies s)
      (unfold step in notify-closes n c s h)

pub wait-current : (n : Notifier) → (wait n).1.ch ≡ some (wait n).0
unfolding wait
wait-current n = ground arith

pub wait_keeps : (n : Notifier) {c : ℕ} → n.ch ≡ some c → (wait n).1.ch ≡ some c
unfolding wait
wait_keeps n h = ground arith

-- The channel that `wait` returns is open, and after any further calls of `wait` and `notify` it has
-- been closed exactly once if `notify` was among them, and not at all otherwise.
wait_then_woken :
    (n : Notifier) (os : List Op)
    → IsSound n
    → (run (wait n).1 os).closes (wait n).0 ≡ (if notified os then 1 else 0)
wait_then_woken n os s = closes-run (wait n).1 os (wait n).0 (wait-IsSound n s) (wait-current n)

-- From a new notifier no sequence of calls closes a channel twice, which would panic.
pub never_closed_twice : (os : List Op) (c : ℕ) → (run fresh os).closes c ≤ 1
never_closed_twice os c =
    let s = run-IsSound fresh os fresh-IsSound in at_most_once (run fresh os) c s
