-- ===== src/Paths/Relative.antt =====
-- Paths that are not rooted, and that cleaning a second time changes nothing.
use mathlib.Core.List.{append-nil, append_assoc}
use pgzero.Base.{
  ◌≡◌, refl, sym, ap, ap₂, subst, ◌∙◌, ◌⊎◌, inl, inr, Bool, true, false, ◌||◌, List, [], ◌∷◌, ◌++◌,
  arith, is_empty, Bool-cases,
}
use pgzero.Paths.{
  Bytes, slash, split, join, is_abs, is_dot, is_up, up, drop_last, last_is_up, go_up, push, norm,
  parts, render, clean,
}
use pgzero.Paths.Splitting.{HasNoSlash, ArePlain, split-ArePlain, split-join}
use pgzero.Paths.Cleaning.{
  IsNormal, AreNormal, IsRelative, AreNormal-append, AreNormal-drop_last, last_is_up-AreNormal,
  AreNormal-ArePlain, norm_normal, parts-AreNormal, parts_rooted,
}

append-IsRelative :
    (st : List Bytes) (p : Bytes) → IsRelative st → IsNormal p → IsRelative (st ++ p ∷ [])
append-IsRelative [] p h n = inr (n, tt)
append-IsRelative (q ∷ st) p (inl (e, h)) n = inl (e, append-IsRelative st p h n)
append-IsRelative (q ∷ st) p (inr h) n = inr (AreNormal-append (q ∷ st) (p ∷ []) h (n, tt))

up-IsRelative :
    (st : List Bytes)
    → IsRelative st
    → (is_empty st ≡ true) ⊎ (last_is_up st ≡ true)
    → IsRelative (st ++ up ∷ [])
up-IsRelative [] h l = inl (refl, tt)
up-IsRelative (q ∷ []) (inl h) l = inl (h.0, inl (refl, tt))
up-IsRelative (q ∷ r ∷ st) (inl (e, h)) (inl l) = ground arith
up-IsRelative (q ∷ r ∷ st) (inl (e, h)) (inr l) = inl (e, up-IsRelative (r ∷ st) h (inr l))
up-IsRelative (q ∷ st) (inr h) (inl l) = ground arith
up-IsRelative (q ∷ st) (inr h) (inr l) = ground (arith, last_is_up-AreNormal (q ∷ st) h, l)

drop_last-IsRelative : (st : List Bytes) → IsRelative st → IsRelative (drop_last st)
drop_last-IsRelative [] h = tt
drop_last-IsRelative (p ∷ []) h = tt
drop_last-IsRelative (p ∷ q ∷ st) (inl (e, h)) = inl (e, drop_last-IsRelative (q ∷ st) h)
drop_last-IsRelative (p ∷ q ∷ st) (inr h) = inr (AreNormal-drop_last (p ∷ q ∷ st) h)

go_up-IsRelative : (st : List Bytes) → IsRelative st → IsRelative (go_up false st)
go_up-IsRelative [] h = inl (refl, tt)
go_up-IsRelative (p ∷ st) h = elim (Bool-cases (last_is_up (p ∷ st))) [
  | inl l ↦ rw l (up-IsRelative (p ∷ st) h (inr l))
  | inr l ↦ rw l (drop_last-IsRelative (p ∷ st) h)
]

push-IsRelative :
    (st : List Bytes) (p : Bytes) → IsRelative st → HasNoSlash p → IsRelative (push false st p)
unfolding push
push-IsRelative st p h n = elim (Bool-cases (is_empty p || is_dot p)) [
  | inl e ↦ rw (e, push) h
  | inr e ↦ elim (Bool-cases (is_up p)) [
    | inl u ↦ rw (e, u, push) (go_up-IsRelative st h)
    | inr u ↦
        rw (e, u, push)
          (append-IsRelative st p h (record {
            plain = n;
            not_empty = ground (arith, e);
            not_dot = ground (arith, e);
            not_up = u;
          }))
  ]
]

norm-IsRelative : (st ps : List Bytes) → IsRelative st → ArePlain ps → IsRelative (norm false st ps)
unfolding norm
norm-IsRelative st [] h k = h
norm-IsRelative st (p ∷ ps) h k =
    norm-IsRelative (push false st p) ps (push-IsRelative st p h k.0) k.1

pub parts-IsRelative : (p : Bytes) → is_abs p ≡ false → IsRelative (parts p)
unfolding parts
parts-IsRelative p h = rw (h, parts) (norm-IsRelative [] (split p) tt (split-ArePlain p))

abbrev pub starts_up : List Bytes → Bool
starts_up [] = false
starts_up (p ∷ ps) = is_up p

-- Without ".." in front there is none at all.
pub names_only : (ps : List Bytes) → IsRelative ps → starts_up ps ≡ false → AreNormal ps
names_only [] h s = tt
names_only (p ∷ ps) (inl h) s = absurd (ground (arith, h.0, s))
names_only (p ∷ ps) (inr h) s = h

last_is_up-up : (st : List Bytes) → last_is_up (st ++ up ∷ []) ≡ true
last_is_up-up [] = refl
last_is_up-up (p ∷ []) = refl
last_is_up-up (p ∷ q ∷ st) = last_is_up-up (q ∷ st)

push-up :
    (st : List Bytes)
    → (is_empty st ≡ true) ⊎ (last_is_up st ≡ true)
    → push false st up ≡ st ++ up ∷ []
unfolding push
push-up [] h = refl
push-up (p ∷ st) (inl h) = ground arith
push-up (p ∷ st) (inr h) = rw h refl

norm_relative :
    (st ps : List Bytes)
    → IsRelative ps
    → (is_empty st ≡ true) ⊎ (last_is_up st ≡ true)
    → norm false st ps ≡ st ++ ps
unfolding norm
norm_relative st [] h l = sym (append-nil st)
norm_relative st (p ∷ ps) (inr h) l = norm_normal false st (p ∷ ps) h
norm_relative st (p ∷ ps) (inl (e, h)) l =
    ap (λ q. norm false (push false st q) ps) e
    ∙ ap (λ s. norm false s ps) (push-up st l)
    ∙ norm_relative (st ++ up ∷ []) ps h (inr (last_is_up-up st))
    ∙ append_assoc st (up ∷ []) ps
    ∙ ap (λ q. st ++ q ∷ ps) (sym e)

AreRelative-ArePlain : (ps : List Bytes) → IsRelative ps → ArePlain ps
AreRelative-ArePlain [] h = tt
AreRelative-ArePlain (p ∷ ps) (inl (e, h)) =
    (subst HasNoSlash (sym e) (refl, (refl, tt)), AreRelative-ArePlain ps h)
AreRelative-ArePlain (p ∷ ps) (inr h) = AreNormal-ArePlain (p ∷ ps) h

pub is_abs-join : (ps : List Bytes) → IsRelative ps → is_abs (join ps) ≡ false
is_abs-join [] h = refl
is_abs-join (p ∷ ps) (inl (e, h)) = subst (λ q. is_abs (join (q ∷ ps)) ≡ false) (sym e) (first ps)
  where
    first : (ps : List Bytes) → is_abs (join (up ∷ ps)) ≡ false
    first [] = refl
    first (q ∷ ps) = refl
is_abs-join ([] ∷ ps) (inr h) = ground (arith, h.0.not_empty)
is_abs-join ((c ∷ p) ∷ []) (inr h) = h.0.plain.0
is_abs-join ((c ∷ p) ∷ q ∷ ps) (inr h) = h.0.plain.0

pub parts_relative : (ps : List Bytes) → IsRelative ps → parts (join ps) ≡ ps
unfolding parts norm push
parts_relative [] h = refl
parts_relative (p ∷ ps) h =
    rw (is_abs-join (p ∷ ps) h, split-join (p ∷ ps) (AreRelative-ArePlain (p ∷ ps) h) refl)
      (norm_relative [] (p ∷ ps) h (inl refl))

clean_names : (ps : List Bytes) → AreNormal ps → clean (slash ∷ join ps) ≡ slash ∷ join ps
unfolding clean render
clean_names ps h = ap (λ qs. slash ∷ join qs) (parts_rooted ps h)

clean_relative : (ps : List Bytes) → IsRelative ps → clean (render false ps) ≡ render false ps
unfolding clean render parts norm push
clean_relative [] h = refl
clean_relative (p ∷ ps) h = ap₂ render (is_abs-join (p ∷ ps) h) (parts_relative (p ∷ ps) h)

-- Cleaning a path that is cleaned changes nothing.
pub clean-clean : (p : Bytes) → clean (clean p) ≡ clean p
unfolding clean
clean-clean p = elim (Bool-cases (is_abs p)) [
  | inl a ↦
      let e : clean p ≡ slash ∷ join (parts p) = unfold render in rw (a, clean) refl in
      ap clean e ∙ clean_names (parts p) (parts-AreNormal p a) ∙ sym e
  | inr a ↦
      let e : clean p ≡ render false (parts p) = rw (a, clean) refl in
      ap clean e ∙ clean_relative (parts p) (parts-IsRelative p a) ∙ sym e
]
