-- ===== src/Kernel/Alarm/Arming.antt =====
-- What an alarm does when it is armed and when it is disarmed.
use pgzero.Base.{
  ℕ, ◌+◌, ◌≡◌, refl, ap, ◌∙◌, ◌≢◌, inl, inr, false, not, some, List, [], ◌∷◌, arith, ◌==◌, is_some,
  Option-cases, update,
}
use pgzero.Kernel.Alarm.{
  pending, firing, over, Alarm, no_alarm, stop, start, set_alarm, expire, after_fire, fire,
}
use pgzero.Kernel.Alarm.Timers.{
  Op, sets, stops, expires, fires, step, run, IsCalm, CallsCalm, stop-over, run-IsSingle,
  no_alarm-IsSingle,
}

-- only steps of timers
abbrev pub IsIdle : List Op → Type 0
IsIdle [] = Unit
IsIdle (sets value interval now ∷ ops) = ⊥
IsIdle (stops ∷ ops) = ⊥
IsIdle (expires t ∷ ops) = IsIdle ops
IsIdle (fires now t ∷ ops) = IsIdle ops

expire-over : (t : ℕ) (a : Alarm) → a.state t ≡ over → expire t a ≡ a
unfolding expire
expire-over t a h = rw (h, expire) refl

fire-over : (now t : ℕ) (a : Alarm) → a.state t ≡ over → fire now t a ≡ a
unfolding fire
fire-over now t a h = rw (h, fire) refl

run-over : (ops : List Op) (a : Alarm) → IsIdle ops → ((t : ℕ) → a.state t ≡ over) → run ops a ≡ a
unfolding run step
run-over [] a i h = refl
run-over (sets value interval now ∷ ops) a i h = absurd i
run-over (stops ∷ ops) a i h = absurd i
run-over (expires t ∷ ops) a i h = rw (expire-over t a (h t)) (run-over ops a i h)
run-over (fires now t ∷ ops) a i h = rw (fire-over now t a (h t)) (run-over ops a i h)

stop-signals : (a : Alarm) → (stop a).signals ≡ a.signals
unfolding stop
stop-signals a = elim (Option-cases a.timer) [
  | inl n ↦ rw (n, stop) refl
  | inr (t, n) ↦ rw (n, stop) refl
]

-- After any calls on a new alarm, none of which comes between the expiry of a timer and its signal, an
-- alarm that is disarmed, not in such a moment either, sends no further SIGALRM, whatever its timers do.
disarmed_silent :
    (ops later : List Op) (interval now : ℕ)
    → CallsCalm ops no_alarm
    → IsCalm (run ops no_alarm)
    → IsIdle later
    → (run later (set_alarm 0 interval now (run ops no_alarm)).1).signals
      ≡ (run ops no_alarm).signals
unfolding set_alarm
disarmed_silent ops later interval now c calm i =
    let a : Alarm = run ops no_alarm in
    let quiet : (t : ℕ) → (stop a).state t ≡ over =
      stop-over a (run-IsSingle ops no_alarm no_alarm-IsSingle c) calm in
    ap (λ b. b.signals) (run-over later (stop a) i quiet) ∙ stop-signals a

after_fire-timer :
    (now t : ℕ) (a : Alarm)
    → a.timer ≡ some t
    → is_some (after_fire now a).timer ≡ not (a.interval == 0)
unfolding after_fire start
after_fire-timer now t a h = ground arith

-- an expiry and the run of fire after it
expire-fire :
    (now t : ℕ) (a : Alarm)
    → a.state t ≡ pending
    → a.timer ≡ some t
    → ((fire now t (expire t a)).signals ≡ a.signals + 1)
      × (is_some (fire now t (expire t a)).timer ≡ not (a.interval == 0))
unfolding expire fire
expire-fire now t a h k =
    let expired : update a.state t firing t ≡ firing = ground arith in
    rw (h, expire)
      (rw (expired, fire)
        (
          refl,
          after_fire-timer now t (record a { state = update (update a.state t firing) t over }) k,
        ))

set_alarm-start :
    (value interval now : ℕ) (a : Alarm)
    → value ≢ 0
    → (set_alarm value interval now a).1
      ≡ start (record (stop a) { interval = interval; deadline = now + value })
unfolding set_alarm
set_alarm-start value interval now a h =
    let z : (value == 0) ≡ false = ground arith in rw (z, set_alarm) refl

-- After any calls on a new alarm, none of which comes between the expiry of a timer and its signal, an
-- alarm that is set, not in such a moment either, to a time above 0 has exactly one timer that runs,
-- the alarm's; when that expires and runs fire, the process gets one SIGALRM more, and the alarm has a
-- timer again if and only if it has an interval.
pub armed_fires :
    (ops : List Op) (value interval now later : ℕ)
    → CallsCalm ops no_alarm
    → IsCalm (run ops no_alarm)
    → value ≢ 0
    → let a = run ops no_alarm in
      let b = (set_alarm value interval now a).1 in
      (t : ℕ) × (b.timer ≡ some t)
      × (b.state t ≡ pending)
      × ((u : ℕ) → u ≢ t → b.state u ≡ over)
      × ((fire later t (expire t b)).signals ≡ a.signals + 1)
      × (is_some (fire later t (expire t b)).timer ≡ not (interval == 0))
unfolding start
armed_fires ops value interval now later c calm v =
    let a : Alarm = run ops no_alarm in
    let quiet : (t : ℕ) → (stop a).state t ≡ over =
      stop-over a (run-IsSingle ops no_alarm no_alarm-IsSingle c) calm in
    let here : (start (stop a)).state (stop a).next ≡ pending = ground arith in
    let fired =
      expire-fire later (stop a).next
        (start (record (stop a) { interval = interval; deadline = now + value })) here refl in
    rw (set_alarm-start value interval now a v) (
      (stop a).next,
      refl,
      here,
      λ u n. ground (arith, quiet u),
      fired.0 ∙ ap (λ n. n + 1) (stop-signals a),
      fired.1,
    )
