-- ===== src/Kernel/Alarm.antt =====
-- internal/kernel/process.go, alarmState: the ITIMER_REAL timer. Timers of time.AfterFunc are numbers in the
-- order of creation. A timer that has expired runs `fire` in its own goroutine, which Stop no longer
-- prevents, so the expiry and the run of fire are two steps. A duration below 0 counts as 0.
pub mod Timers
pub mod Arming
mod Tests
use pgzero.Base.{
  ℕ, zero, suc, ◌+◌, ◌-◌, ◌*◌, ◌/◌, ◌%◌, ◌^◌, ◌≤◌, ◌<◌, min, max, ◌≡◌, refl, sym, ap, ap₂, subst,
  ◌∙◌, fun_ext, ◌≢◌, ◌↔◌, ◌⊎◌, inl, inr, Bool, true, false, ◌&&◌, ◌||◌, not, Option, none, some,
  List, [], ◌∷◌, ◌++◌, map, arith, dec_lt, dec_le, ℕ_discrete, ltb, leb, ◌==◌, if◌then◌else◌,
  is_empty, is_some, Bool-cases, Option-cases, length, take, drop, update,
}

-- over: not created yet, stopped, or its fire has returned
pub data TimerState : Type 0 where
  pending firing over : TimerState

pub record Alarm : Type 0 where
  -- `none` is nil
  pub timer : Option ℕ
  pub deadline : ℕ
  pub interval : ℕ
  pub state : ℕ → TimerState
  pub next : ℕ
  -- how often the process got SIGALRM
  pub signals : ℕ

pub no_alarm : Alarm
no_alarm = record {
  timer = none;
  deadline = 0;
  interval = 0;
  state = λ _. over;
  next = 0;
  signals = 0;
}

-- Timer.Stop: too late for a timer that has expired
pub stop_state : TimerState → TimerState
stop_state pending = over
stop_state firing = firing
stop_state over = over

pub stop : Alarm → Alarm
unfolding stop_state
stop a = elim a.timer [
  | none ↦ a
  | some t ↦ record a { timer = none; state = update a.state t (stop_state (a.state t)) }
]

-- time.AfterFunc
pub start : Alarm → Alarm
start a = record a { timer = some a.next; state = update a.state a.next pending; next = a.next + 1 }

-- setAlarm: what was left on the previous timer
pub set_alarm : ℕ → ℕ → ℕ → Alarm → ℕ × Alarm
unfolding stop start
set_alarm value interval now a =
    let remaining = if is_some a.timer then a.deadline - now else 0 in
    let a' : Alarm = stop a in
    if value == 0
    then (remaining, a')
    else (remaining, start (record a' { interval = interval; deadline = now + value }))

-- The timer t expires.
pub expire : ℕ → Alarm → Alarm
expire t a = elim (a.state t) [
  | pending ↦ record a { state = update a.state t firing }
  | firing ↦ a
  | over ↦ a
]

-- fire up to its Signal
pub after_fire : ℕ → Alarm → Alarm
unfolding start
after_fire now a =
    if not (a.interval == 0) && is_some a.timer
    then start (record a { deadline = now + a.interval })
    else record a { timer = none }

-- The goroutine of the timer t runs fire.
pub fire : ℕ → ℕ → Alarm → Alarm
unfolding after_fire
fire now t a = elim (a.state t) [
  | pending ↦ a
  | firing ↦
      let b : Alarm = after_fire now (record a { state = update a.state t over }) in
      record b { signals = a.signals + 1 }
  | over ↦ a
]
