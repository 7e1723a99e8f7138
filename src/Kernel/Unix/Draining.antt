-- ===== src/Kernel/Unix/Draining.antt =====
-- The dials that are left when a listener is closed.
use pgzero.Base.{
  ◌||◌, ℕ, ◌<◌, ◌≡◌, refl, sym, ap, ◌∙◌, ◌⊎◌, inl, inr, Bool, true, false, ◌&&◌, not, List, [], ◌∷◌,
  arith, ◌==◌, if◌then◌else◌, is_some, Bool-cases, Option-cases,
}
use pgzero.Paths.{Bytes, clean}
use pgzero.Kernel.Unix.{
  dialling, offered, offer, offer_to, is_dialling, Phase, listening, closing, closed, Conn, Unix,
  new_unix, is_closed, is_listening, is_closing, contains, without, listen_unix, dial_unix, settle,
  accept, refuse, cancel, begin_close, end_close, broken, accepted,
}
use pgzero.Kernel.Unix.Served.{
  Event, listens, dials, makes_offer, accepts, refuses, cancels, begins_close, ends_close, step,
  run, IsServed, step-IsServed, run-IsServed, new_unix-IsServed,
}

contains-without :
    (c d : ℕ) (ds : List ℕ) → contains d (without c ds) ≡ (contains d ds && not (c == d))
contains-without c d [] = refl
contains-without c d (e ∷ ds) = ground (arith, contains-without c d ds)

-- the connection c is offered to l, or its dial has found l and has not offered it yet
abbrev pub waits_for : ℕ → ℕ → Unix → Bool
waits_for l c s = contains c (s.listeners l).offers || is_dialling l (s.conns c)

-- a listener stays closed, and no new dial waits for it
record Drains (l : ℕ) (s t : Unix) : Type 0 where
  stays : is_closed (t.listeners l).phase ≡ true
  known : l < t.made
  older : (c : ℕ) → waits_for l c t ≡ true → waits_for l c s ≡ true

module _ (l : ℕ) (s : Unix) (h : IsServed s) (k : is_closed (s.listeners l).phase ≡ true)
    (i : l < s.made) where
  same : Drains l s s
  same = record { stays = k; known = i; older = λ c p. p }

  listen-Drains : (a : Bytes) → Drains l s (listen_unix a s).1
  unfolding listen_unix
  listen-Drains a = elim (Bool-cases (is_some (s.unix (clean a)))) [
    | inl e ↦ rw (e, listen_unix) same
    | inr e ↦
        rw (e, listen_unix)
          (record {
            stays = ground (arith, k, i);
            known = omega (arith, i);
            older = λ c. ground (arith, i);
          })
  ]

  dial-Drains : (a : Bytes) → Drains l s (dial_unix a s).1
  unfolding dial_unix
  dial-Drains a = elim (Option-cases (s.unix (clean a))) [
    | inl e ↦ rw (e, dial_unix) same
    | inr (m, e) ↦
        let n : (m == l) ≡ false = elim (Bool-cases (m == l)) [
          | inr r ↦ r
          | inl r ↦
              let z : m ≡ l = ground (arith, r) in
              absurd (
                ground
                  (arith, k, (h.here (clean a) m e).2, ap (λ j. is_closed (s.listeners j).phase) z))
        ] in
        rw (e, dial_unix) (record { stays = k; known = i; older = λ c p. ground (arith, n, p) })
  ]

  offer_to-Drains : (c : ℕ) (v : Conn) → s.conns c ≡ v → Drains l s (offer_to c v s)
  offer_to-Drains c (dialling m) e = elim (Bool-cases (m == l)) [
    | inr n ↦ record { stays = rw n k; known = i; older = λ d. rw n (λ p. ground (arith, p)) }
    | inl n ↦
        let z : m ≡ l = ground (arith, n) in
        record {
          stays = rw n (ap (λ j. is_closed (s.listeners j).phase) z ∙ k);
          known = i;
          older = λ d. elim (Bool-cases (c == d)) [
            | inl y ↦ λ p.
                let x : c ≡ d = ground (arith, y) in
                let f : is_dialling l (s.conns d) ≡ true =
                  ap (λ j. is_dialling l (s.conns j)) (sym x) ∙ ap (is_dialling l) e ∙ n in
                ground (arith, f)
            | inr y ↦ λ p.
                let f : contains d (s.listeners m).offers ≡ contains d (s.listeners l).offers =
                  ap (λ j. contains d (s.listeners j).offers) z in
                ground (arith, n, y, p, f)
          ];
        }
  ]
  offer_to-Drains c offered e = same
  offer_to-Drains c accepted e = same
  offer_to-Drains c broken e = same

  settle-Drains :
      (b : Bool) (m c : ℕ) (v : Conn)
      → is_dialling l v ≡ false
      → Drains l s (if b then settle m c v s else s)
  unfolding settle
  settle-Drains false m c v q = same
  settle-Drains true m c v q = elim (Bool-cases (m == l)) [
    | inr n ↦ record { stays = rw n k; known = i; older = λ d. rw n (λ p. ground (arith, p, q)) }
    | inl n ↦
        let z : m ≡ l = ground (arith, n) in
        record {
          stays = rw n (ap (λ j. is_closed (s.listeners j).phase) z ∙ k);
          known = i;
          older = λ d. rw n (λ p.
              let f : contains d (s.listeners m).offers ≡ contains d (s.listeners l).offers =
                ap (λ j. contains d (s.listeners j).offers) z in
              ground (arith, p, q, f, contains-without c d (s.listeners m).offers));
        }
  ]

  -- closed is neither
  another :
      (m : ℕ)
      → is_listening (s.listeners m).phase ≡ true ⊎ is_closing (s.listeners m).phase ≡ true
      → (m == l) ≡ false
  another m q = elim (Bool-cases (m == l)) [
    | inr n ↦ n
    | inl n ↦
        let z : m ≡ l = ground (arith, n) in
        absurd (by_phase (s.listeners m).phase q (ap (λ j. is_closed (s.listeners j).phase) z ∙ k))
  ]
    where
      by_phase :
          (p : Phase) → (is_listening p ≡ true) ⊎ (is_closing p ≡ true) → is_closed p ≡ true → ⊥
      by_phase listening a b = ground (arith, b)
      by_phase closing a b = ground (arith, b)
      by_phase closed a b = ground (arith, a)

  begin_close-Drains : (m : ℕ) → Drains l s (begin_close m s)
  unfolding begin_close
  begin_close-Drains m = elim (Bool-cases (is_listening (s.listeners m).phase)) [
    | inr e ↦ rw e same
    | inl e ↦
        let n = another m (inl e) in
        rw e (record { stays = rw n k; known = i; older = λ c. rw n (λ p. p) })
  ]

  end_close-Drains : (m : ℕ) → Drains l s (end_close m s)
  unfolding end_close
  end_close-Drains m = elim (Bool-cases (is_closing (s.listeners m).phase)) [
    | inr e ↦ rw e same
    | inl e ↦
        let n = another m (inr e) in
        rw e (record { stays = rw n k; known = i; older = λ c. rw n (λ p. p) })
  ]

  step-Drains : (e : Event) → Drains l s (step e s)
  unfolding step accept refuse cancel offer
  step-Drains (listens a) = listen-Drains a
  step-Drains (dials a) = dial-Drains a
  step-Drains (makes_offer c) = offer_to-Drains c (s.conns c) refl
  step-Drains (accepts m c) = settle-Drains (contains c (s.listeners m).offers) m c accepted refl
  step-Drains (refuses m c) =
      settle-Drains (contains c (s.listeners m).offers && not (is_listening (s.listeners m).phase))
        m c broken refl
  step-Drains (cancels m c) = settle-Drains (contains c (s.listeners m).offers) m c broken refl
  step-Drains (begins_close m) = begin_close-Drains m
  step-Drains (ends_close m) = end_close-Drains m

run-Drains :
    (l : ℕ) (es : List Event) (s : Unix)
    → IsServed s
    → is_closed (s.listeners l).phase ≡ true
    → l < s.made
    → Drains l s (run es s)
unfolding run
run-Drains l [] s h k i = same l s h k i
run-Drains l (e ∷ es) s h k i =
    let d = step-Drains l s h k i e in
    let t = run-Drains l es (step e s) (step-IsServed e s h) d.stays d.known in
    record { stays = t.stays; known = t.known; older = λ c p. d.older c (t.older c p) }

refuse_left :
    (l c : ℕ) (s : Unix)
    → is_closed (s.listeners l).phase ≡ true
    → contains c (s.listeners l).offers ≡ true
    → ((refuse l c s).conns c ≡ broken) × (waits_for l c (refuse l c s) ≡ false)
unfolding refuse settle
refuse_left l c s k p =
    rw (p, by_phase (s.listeners l).phase k)
      (ground arith, ground (arith, contains-without c c (s.listeners l).offers))
  where
    by_phase : (p : Phase) → is_closed p ≡ true → is_listening p ≡ false
    by_phase listening h = ground (arith, h)
    by_phase closing h = refl
    by_phase closed h = refl

-- a dial that waits for l offers its connection to l, or has
offer_to-offers :
    (l c : ℕ) (v : Conn) (s : Unix)
    → (contains c (s.listeners l).offers || is_dialling l v) ≡ true
    → contains c ((offer_to c v s).listeners l).offers ≡ true
offer_to-offers l c (dialling m) s h = elim (Bool-cases (m == l)) [
  | inl n ↦ rw n (ground arith)
  | inr n ↦ rw n (ground (arith, h, n))
]
offer_to-offers l c offered s h = ground (arith, h)
offer_to-offers l c accepted s h = ground (arith, h)
offer_to-offers l c broken s h = ground (arith, h)

-- For a listener that was made in any steps and whose Close has ended, and any steps after that: a dial that
-- waits for it, having found it, did so before its Close ended, so that no later dial finds it; and once
-- such a dial has reached its select, be it after the Close, it can return ECONNREFUSED, which breaks its
-- connection and withdraws the offer, if it was not accepted or cancelled before.
pub closed_drains :
    (ds es : List Event) (l c : ℕ)
    → l < (run ds new_unix).made
    → is_closed ((run ds new_unix).listeners l).phase ≡ true
    → waits_for l c (run es (run ds new_unix)) ≡ true
    → (waits_for l c (run ds new_unix) ≡ true)
      × ((refuse l c (offer c (run es (run ds new_unix)))).conns c ≡ broken)
      × (waits_for l c (refuse l c (offer c (run es (run ds new_unix)))) ≡ false)
unfolding offer
closed_drains ds es l c i k p =
    let s = run ds new_unix in
    let t = run es s in
    let d = run-Drains l es s (run-IsServed ds new_unix new_unix-IsServed) k i in
    let v = run-IsServed es s (run-IsServed ds new_unix new_unix-IsServed) in
    let o = offer_to-Drains l t v d.stays d.known c (t.conns c) refl in
    let r = refuse_left l c (offer c t) o.stays (offer_to-offers l c (t.conns c) t p) in
    (d.older c p, r.0, r.1)
