-- ===== src/Kernel/Alarm/Timers.antt =====
-- The timers of an alarm: while no call comes between an expiry and its signal, at most one timer runs.
use pgzero.Base.{
  ℕ, ◌+◌, ◌≤◌, ◌≡◌, refl, ◌≢◌, ◌⊎◌, inl, inr, ◌&&◌, not, none, some, List, [], ◌∷◌, arith, ◌==◌,
  is_some, Bool-cases, Option-cases, update,
}
use pgzero.Kernel.Alarm.{
  TimerState, pending, firing, over, Alarm, no_alarm, stop_state, stop, start, set_alarm, expire,
  after_fire, fire,
}

-- What happens to an alarm; the timers' steps are at any time that the others leave.
pub data Op : Type 0 where
  sets : ℕ → ℕ → ℕ → Op
  stops : Op
  expires : ℕ → Op
  fires : ℕ → ℕ → Op

unfoldable pub step : Op → Alarm → Alarm
step (sets value interval now) a = (set_alarm value interval now a).1
step stops a = stop a
step (expires t) a = expire t a
step (fires now t) a = fire now t a

unfoldable pub run : List Op → Alarm → Alarm
run [] a = a
run (op ∷ ops) a = run ops (step op a)

-- no timer has expired whose fire has not run
abbrev pub IsCalm : Alarm → Type 0
IsCalm a = (t : ℕ) → a.state t ≢ firing

-- The calls come only where the alarm is calm.
abbrev pub CallsCalm : List Op → Alarm → Type 0
CallsCalm [] a = Unit
CallsCalm (sets value interval now ∷ ops) a =
    IsCalm a × CallsCalm ops (step (sets value interval now) a)
CallsCalm (stops ∷ ops) a = IsCalm a × CallsCalm ops (step stops a)
CallsCalm (expires t ∷ ops) a = CallsCalm ops (step (expires t) a)
CallsCalm (fires now t ∷ ops) a = CallsCalm ops (step (fires now t) a)

-- The only timer that runs is the alarm's.
pub record IsSingle (a : Alarm) : Type 0 where
  pub waits : (t : ℕ) → a.state t ≡ pending → a.timer ≡ some t
  pub runs : (t : ℕ) → a.state t ≡ firing → a.timer ≡ some t
  pub unmade : (t : ℕ) → a.next ≤ t → a.state t ≡ over

over-unless : (s : TimerState) → s ≢ firing → (s ≡ over) ⊎ (s ≡ pending)
over-unless pending h = inr refl
over-unless firing h = absurd (h refl)
over-unless over h = inl refl

cases : (s : TimerState) → (s ≡ pending) ⊎ (s ≡ firing) ⊎ (s ≡ over)
cases pending = inl refl
cases firing = inr (inl refl)
cases over = inr (inr refl)

pub stop-over : (a : Alarm) → IsSingle a → IsCalm a → (t : ℕ) → (stop a).state t ≡ over
unfolding stop stop_state
stop-over a h calm t = elim (Option-cases a.timer) [
  | inl n ↦ rw (n, stop) (ground (arith, n, over-unless (a.state t) (calm t), h.waits t))
  | inr (u, n) ↦ rw (n, stop) (ground (arith, n, over-unless (a.state t) (calm t), h.waits t))
]

start-IsSingle : (a : Alarm) → ((t : ℕ) → a.state t ≡ over) → IsSingle (start a)
unfolding start
start-IsSingle a h = record {
  waits = λ t e. ground (arith, h t);
  runs = λ t e. ground (arith, h t);
  unmade = λ t l. ground (arith, h t);
}

all_over-IsSingle : (a : Alarm) → ((t : ℕ) → a.state t ≡ over) → IsSingle a
all_over-IsSingle a h = record {
  waits = λ t e. ground (arith, h t);
  runs = λ t e. ground (arith, h t);
  unmade = λ t l. h t;
}

pub set_alarm-IsSingle :
    (value interval now : ℕ) (a : Alarm)
    → IsSingle a
    → IsCalm a
    → IsSingle (set_alarm value interval now a).1
unfolding set_alarm
set_alarm-IsSingle value interval now a h calm = elim (Bool-cases (value == 0)) [
  | inl z ↦ rw (z, set_alarm) (all_over-IsSingle (stop a) (stop-over a h calm))
  | inr z ↦
      rw (z, set_alarm)
        (start-IsSingle (record (stop a) { interval = interval; deadline = now + value })
          (stop-over a h calm))
]

expire-IsSingle : (t : ℕ) (a : Alarm) → IsSingle a → IsSingle (expire t a)
unfolding expire
expire-IsSingle t a h = elim (cases (a.state t)) [
  | inl e ↦
      rw (e, expire)
        (record {
          waits = λ u k. ground (arith, h.waits u);
          runs = λ u k. ground (arith, h.runs u, h.waits t e);
          unmade = λ u l. ground (arith, h.unmade u);
        })
  | inr (inl e) ↦ rw (e, expire) h
  | inr (inr e) ↦ rw (e, expire) h
]

-- what fire leaves of the timers before it starts another
fired-over :
    (t u : ℕ) (a : Alarm) → IsSingle a → a.state t ≡ firing → update a.state t over u ≡ over
fired-over t u a h e = elim (cases (a.state u)) [
  | inl k ↦ ground (arith, h.waits u k, h.runs t e)
  | inr (inl k) ↦ ground (arith, h.runs u k, h.runs t e)
  | inr (inr k) ↦ ground arith
]

after_fire-IsSingle :
    (now : ℕ) (a : Alarm) → ((t : ℕ) → a.state t ≡ over) → IsSingle (after_fire now a)
unfolding after_fire
after_fire-IsSingle now a h = elim (Bool-cases (not (a.interval == 0) && is_some a.timer)) [
  | inl e ↦ rw (e, after_fire) (start-IsSingle (record a { deadline = now + a.interval }) h)
  | inr e ↦ rw (e, after_fire) (all_over-IsSingle (record a { timer = none }) h)
]

fire-IsSingle : (now t : ℕ) (a : Alarm) → IsSingle a → IsSingle (fire now t a)
unfolding fire
fire-IsSingle now t a h = elim (cases (a.state t)) [
  | inl e ↦ rw (e, fire) h
  | inr (inl e) ↦
      let s : IsSingle (after_fire now (record a { state = update a.state t over })) =
        after_fire-IsSingle now (record a { state = update a.state t over })
          (λ u. fired-over t u a h e) in
      rw (e, fire) (record { waits = s.waits; runs = s.runs; unmade = s.unmade })
  | inr (inr e) ↦ rw (e, fire) h
]

pub run-IsSingle : (ops : List Op) (a : Alarm) → IsSingle a → CallsCalm ops a → IsSingle (run ops a)
unfolding run step
run-IsSingle [] a h calm = h
run-IsSingle (sets value interval now ∷ ops) a h calm =
    run-IsSingle ops _ (set_alarm-IsSingle value interval now a h calm.0) calm.1
run-IsSingle (stops ∷ ops) a h calm =
    run-IsSingle ops _ (all_over-IsSingle (stop a) (stop-over a h calm.0)) calm.1
run-IsSingle (expires t ∷ ops) a h calm = run-IsSingle ops _ (expire-IsSingle t a h) calm
run-IsSingle (fires now t ∷ ops) a h calm = run-IsSingle ops _ (fire-IsSingle now t a h) calm

pub no_alarm-IsSingle : IsSingle no_alarm
unfolding no_alarm
no_alarm-IsSingle = all_over-IsSingle no_alarm (λ t. refl)
