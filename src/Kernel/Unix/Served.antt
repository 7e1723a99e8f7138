-- ===== src/Kernel/Unix/Served.antt =====
-- What listeners and dials meet, in any order of their steps.
use pgzero.Base.{
  ◌+◌, ℕ, ◌<◌, ◌≡◌, refl, sym, ap, ◌∙◌, inl, inr, Bool, true, false, ◌&&◌, not, none, some, List,
  [], ◌∷◌, arith, ◌==◌, if◌then◌else◌, Bool-cases, Option-cases,
}
use pgzero.Paths.{Bytes, clean, same_bytes}
use pgzero.Paths.Prefixes.{same_bytes-eq, same_bytes_self}
use pgzero.Kernel.Unix.{
  dialling, offered, offer, offer_to, put_at, Phase, listening, closing, closed, Unix, new_unix,
  Conn, is_closed, is_closing, is_listening, contains, listen_unix, dial_unix, settle, accept,
  refuse, cancel, begin_close, end_close, accepted, broken,
}

pub data Event : Type 0 where
  listens dials : Bytes → Event
  makes_offer : ℕ → Event
  accepts refuses cancels : ℕ → ℕ → Event
  begins_close ends_close : ℕ → Event

unfoldable pub step : Event → Unix → Unix
step (listens a) s = (listen_unix a s).1
step (dials a) s = (dial_unix a s).1
step (makes_offer c) s = offer c s
step (accepts l c) s = accept l c s
step (refuses l c) s = refuse l c s
step (cancels l c) s = cancel l c s
step (begins_close l) s = begin_close l s
step (ends_close l) s = end_close l s

unfoldable pub run : List Event → Unix → Unix
run [] s = s
run (e ∷ es) s = run es (step e s)

-- The entries of the map are the listeners whose Close has not ended.
pub record IsServed (s : Unix) : Type 0 where
  pub here :
      (a : Bytes) (l : ℕ)
      → s.unix a ≡ some l
      → (l < s.made) × ((s.listeners l).addr ≡ a) × (is_closed (s.listeners l).phase ≡ false)
  pub there :
      (l : ℕ) → is_closed (s.listeners l).phase ≡ false → s.unix (s.listeners l).addr ≡ some l

module _ (a : Bytes) (s : Unix) (h : IsServed s) (e : s.unix (clean a) ≡ none) where
  new_here :
      (b : Bytes) (l : ℕ)
      → (listen_unix a s).1.unix b ≡ some l
      → (l < (listen_unix a s).1.made)
        × (((listen_unix a s).1.listeners l).addr ≡ b)
        × (is_closed ((listen_unix a s).1.listeners l).phase ≡ false)
  unfolding listen_unix
  new_here b l = rw e (λ p. ground (arith, p, h.here b l, same_bytes-eq (clean a) b))

  new_there :
      (l : ℕ)
      → is_closed ((listen_unix a s).1.listeners l).phase ≡ false
      → (listen_unix a s).1.unix ((listen_unix a s).1.listeners l).addr ≡ some l
  unfolding listen_unix
  new_there l = rw e (λ p. ground (
    arith,
    p,
    h.there l,
    same_bytes-eq (clean a) (s.listeners l).addr,
    same_bytes_self (clean a),
  ))

listen-IsServed : (a : Bytes) (s : Unix) → IsServed s → IsServed (listen_unix a s).1
unfolding listen_unix
listen-IsServed a s h = elim (Option-cases (s.unix (clean a))) [
  | inr (l, e) ↦ rw e h
  | inl e ↦ record { here = new_here a s h e; there = new_there a s h e }
]

-- a step that leaves the map, and the addresses and the closed ones among the listeners
record Keeps (s t : Unix) : Type 0 where
  map_kept : t.unix ≡ s.unix
  made_kept : t.made ≡ s.made
  addr_kept : (l : ℕ) → (t.listeners l).addr ≡ (s.listeners l).addr
  closed_kept : (l : ℕ) → is_closed (t.listeners l).phase ≡ is_closed (s.listeners l).phase

Keeps-IsServed : (s t : Unix) → Keeps s t → IsServed s → IsServed t
Keeps-IsServed s t k h = record {
  here = λ a l p.
      let (x, y, z) = h.here a l (sym (ap (λ f. f a) k.map_kept) ∙ p) in
      (omega (arith, x, k.made_kept), k.addr_kept l ∙ y, k.closed_kept l ∙ z);
  there = λ l p.
      ap (λ f. f (t.listeners l).addr) k.map_kept
      ∙ ap s.unix (k.addr_kept l)
      ∙ h.there l (sym (k.closed_kept l) ∙ p);
}

itself : (s : Unix) → Keeps s s
itself s = record {
  map_kept = refl;
  made_kept = refl;
  addr_kept = λ l. refl;
  closed_kept = λ l. refl;
}

dial-Keeps : (a : Bytes) (s : Unix) → Keeps s (dial_unix a s).1
unfolding dial_unix
dial-Keeps a s = elim (Option-cases (s.unix (clean a))) [
  | inl e ↦ rw (e, dial_unix) (itself s)
  | inr (m, e) ↦
      rw (e, dial_unix)
        (record {
          map_kept = refl;
          made_kept = refl;
          addr_kept = λ l. refl;
          closed_kept = λ l. refl;
        })
]

offer_to-Keeps : (c : ℕ) (v : Conn) (s : Unix) → Keeps s (offer_to c v s)
offer_to-Keeps c (dialling m) s = record {
  map_kept = refl;
  made_kept = refl;
  addr_kept = λ l. ground arith;
  closed_kept = λ l. ground arith;
}
offer_to-Keeps c offered s = itself s
offer_to-Keeps c accepted s = itself s
offer_to-Keeps c broken s = itself s

settle-Keeps : (l c : ℕ) (v : Conn) (s : Unix) → Keeps s (settle l c v s)
unfolding settle
settle-Keeps l c v s = record {
  map_kept = refl;
  made_kept = refl;
  addr_kept = λ j. ground arith;
  closed_kept = λ j. ground arith;
}

settle_if-Keeps :
    (b : Bool) (l c : ℕ) (v : Conn) (s : Unix) → Keeps s (if b then settle l c v s else s)
settle_if-Keeps true l c v s = settle-Keeps l c v s
settle_if-Keeps false l c v s = itself s

begin_close-Keeps : (l : ℕ) (s : Unix) → Keeps s (begin_close l s)
unfolding begin_close
begin_close-Keeps l s = elim (Bool-cases (is_listening (s.listeners l).phase)) [
  | inr e ↦ rw e (itself s)
  | inl e ↦
      let o : is_closed (s.listeners l).phase ≡ false = not_closed (s.listeners l).phase e in
      rw e (record {
        map_kept = refl;
        made_kept = refl;
        addr_kept = λ j. ground arith;
        closed_kept = λ j. ground (arith, o);
      })
]
  where
    not_closed : (p : Phase) → is_listening p ≡ true → is_closed p ≡ false
    not_closed listening h = refl
    not_closed closing h = refl
    not_closed closed h = ground (arith, h)

module _ (l : ℕ) (s : Unix) (h : IsServed s) (e : is_closing (s.listeners l).phase ≡ true) where
  open_closing : is_closed (s.listeners l).phase ≡ false
  open_closing = by_phase (s.listeners l).phase e
    where
      by_phase : (p : Phase) → is_closing p ≡ true → is_closed p ≡ false
      by_phase listening h = refl
      by_phase closing h = refl
      by_phase closed h = ground (arith, h)

  gone_here :
      (b : Bytes) (j : ℕ)
      → (end_close l s).unix b ≡ some j
      → (j < (end_close l s).made)
        × (((end_close l s).listeners j).addr ≡ b)
        × (is_closed ((end_close l s).listeners j).phase ≡ false)
  unfolding end_close
  gone_here b j =
      rw (e, h.there l open_closing)
        (λ p. elim (Bool-cases (same_bytes (s.listeners l).addr b)) [
          | inl q ↦ ground (arith, p, q)
          | inr q ↦
              let x : s.unix b ≡ some j = ground (arith, p, q) in
              let y = h.here b j x in
              let ne : (l == j) ≡ false = elim (Bool-cases (l == j)) [
                | inr r ↦ r
                | inl r ↦
                    let z : l ≡ j = ground (arith, r) in
                    absurd (
                      ground (
                        arith,
                        q,
                        same_bytes_self b,
                        ap (λ a. same_bytes a b) (ap (λ k. (s.listeners k).addr) z ∙ y.1),
                      ))
              ] in
              rw ne y
        ])

  gone_there :
      (j : ℕ)
      → is_closed ((end_close l s).listeners j).phase ≡ false
      → (end_close l s).unix ((end_close l s).listeners j).addr ≡ some j
  unfolding end_close
  gone_there j =
      rw (e, h.there l open_closing)
        (λ p. ground (
          arith,
          p,
          h.there j,
          h.there l open_closing,
          same_bytes-eq (s.listeners l).addr (s.listeners j).addr,
        ))

end_close-IsServed : (l : ℕ) (s : Unix) → IsServed s → IsServed (end_close l s)
unfolding end_close
end_close-IsServed l s h = elim (Bool-cases (is_closing (s.listeners l).phase)) [
  | inr e ↦ rw e h
  | inl e ↦ record { here = gone_here l s h e; there = gone_there l s h e }
]

pub step-IsServed : (e : Event) (s : Unix) → IsServed s → IsServed (step e s)
unfolding step accept refuse cancel offer
step-IsServed (listens a) s h = listen-IsServed a s h
step-IsServed (dials a) s h = Keeps-IsServed s (dial_unix a s).1 (dial-Keeps a s) h
step-IsServed (makes_offer c) s h = Keeps-IsServed s (offer c s) (offer_to-Keeps c (s.conns c) s) h
step-IsServed (accepts l c) s h =
    let b = contains c (s.listeners l).offers in
    Keeps-IsServed s (if b then settle l c accepted s else s) (settle_if-Keeps b l c accepted s) h
step-IsServed (refuses l c) s h =
    let b = contains c (s.listeners l).offers && not (is_listening (s.listeners l).phase) in
    Keeps-IsServed s (if b then settle l c broken s else s) (settle_if-Keeps b l c broken s) h
step-IsServed (cancels l c) s h =
    let b = contains c (s.listeners l).offers in
    Keeps-IsServed s (if b then settle l c broken s else s) (settle_if-Keeps b l c broken s) h
step-IsServed (begins_close l) s h = Keeps-IsServed s (begin_close l s) (begin_close-Keeps l s) h
step-IsServed (ends_close l) s h = end_close-IsServed l s h

pub run-IsServed : (es : List Event) (s : Unix) → IsServed s → IsServed (run es s)
unfolding run
run-IsServed [] s h = h
run-IsServed (e ∷ es) s h = run-IsServed es (step e s) (step-IsServed e s h)

pub new_unix-IsServed : IsServed new_unix
new_unix-IsServed = record { here = λ a l p. ground (arith, p); there = λ l p. ground (arith, p) }

-- After any steps from no listener on, two listeners whose Close has not ended and that have the same address
-- are the same one, and a dial to any path that cleans to the address finds that one, and when it reaches
-- its select is offered to it, beside what it is offered already.
pub one_listener :
    (es : List Event) (l m : ℕ) (path : Bytes)
    → is_closed ((run es new_unix).listeners l).phase ≡ false
    → is_closed ((run es new_unix).listeners m).phase ≡ false
    → ((run es new_unix).listeners m).addr ≡ ((run es new_unix).listeners l).addr
    → clean path ≡ ((run es new_unix).listeners l).addr
    → (m ≡ l)
      × ((dial_unix path (run es new_unix)).0 ≡ inl (run es new_unix).dialled)
      × ((dial_unix path (run es new_unix)).1.conns (run es new_unix).dialled ≡ dialling l)
      × (((offer (run es new_unix).dialled (dial_unix path (run es new_unix)).1).listeners l).offers
          ≡ (run es new_unix).dialled ∷ ((run es new_unix).listeners l).offers)
unfolding dial_unix offer
one_listener es l m path o p q a =
    let s = run es new_unix in
    let h = run-IsServed es new_unix new_unix-IsServed in
    let e : s.unix (clean path) ≡ some l = ap s.unix a ∙ h.there l o in
    (
      ground (arith, h.there m p, h.there l o, ap s.unix q),
      rw (e, dial_unix) refl,
      rw (e, dial_unix) (found s.dialled l s),
      rw (e, dial_unix)
          (ap
              (λ v.
                ((offer_to s.dialled v (record s {
                  dialled = s.dialled + 1;
                  conns = put_at s.dialled (dialling l) s.conns;
                })).listeners
                  l).offers)
              (found s.dialled l s)
            ∙ ground arith),
    )
  where
    found : (c l : ℕ) (s : Unix) → put_at c (dialling l) s.conns c ≡ dialling l
    found c l s = ground arith
