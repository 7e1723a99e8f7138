-- ===== src/Kernel/Alarm/Tests.antt =====
-- An alarm of 5 that expires and is then disarmed; and one that is set while its fire is under way.
use pgzero.Base.{refl, ◌==◌, not, is_some, arith, ◌+◌, ◌≢◌, some, [], ◌∷◌, ℕ, List, ◌≡◌}
use pgzero.Kernel.Alarm.{
  firing, no_alarm, set_alarm, fire, expire, stop, stop_state, start, after_fire, pending, over,
}
use pgzero.Kernel.Alarm.Timers.{Op, sets, expires, fires, run, step}
use pgzero.Kernel.Alarm.Arming.{armed_fires}

abbrev once : List Op
once = sets 5 0 0 ∷ expires 0 ∷ fires 5 0 ∷ []

once_calm : (t : ℕ) → (run once no_alarm).state t ≢ firing
unfolding run step set_alarm start stop expire fire after_fire no_alarm
once_calm t h = ground arith

armed_fires_example :
    let a = run once no_alarm in
    let b = (set_alarm 3 4 6 a).1 in
    (t : ℕ) × (b.timer ≡ some t)
    × (b.state t ≡ pending)
    × ((u : ℕ) → u ≢ t → b.state u ≡ over)
    × ((fire 9 t (expire t b)).signals ≡ a.signals + 1)
    × (is_some (fire 9 t (expire t b)).timer ≡ not (4 == 0))
unfolding no_alarm
armed_fires_example = armed_fires once 3 4 6 9 (λ t h. ground arith, tt) once_calm (omega arith)

-- The timer 0 has expired when the alarm is set again; its fire forgets the timer 1, which is pending, so
-- that disarming does not stop it.
abbrev race : List Op
race = sets 5 0 0 ∷ expires 0 ∷ sets 7 0 5 ∷ fires 6 0 ∷ sets 0 0 6 ∷ []

race_test : (run race no_alarm).state 1 ≡ pending
unfolding run step set_alarm start stop stop_state expire fire after_fire no_alarm
race_test = refl
