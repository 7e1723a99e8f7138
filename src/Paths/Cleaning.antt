-- ===== src/Paths/Cleaning.antt =====
-- What is left of a path when it is cleaned: no empty part, no ".", and ".." only at the start of a path that
-- is not rooted.
use mathlib.Core.List.{append-nil, append_assoc}
use pgzero.Base.{
  ◌≡◌, refl, sym, ap, ◌∙◌, ◌⊎◌, inl, inr, Bool, true, false, ◌||◌, List, [], ◌∷◌, ◌++◌, arith,
  is_empty, Bool-cases,
}
use pgzero.Paths.{
  Bytes, slash, split, join, is_abs, is_dot, is_up, up, drop_last, last_is_up, go_up, push, norm,
  parts,
}
use pgzero.Paths.Splitting.{HasNoSlash, ArePlain, split-ArePlain, split-join}

-- a name
pub record IsNormal (p : Bytes) : Type 0 where
  pub plain : HasNoSlash p
  pub not_empty : is_empty p ≡ false
  pub not_dot : is_dot p ≡ false
  pub not_up : is_up p ≡ false

abbrev pub AreNormal : List Bytes → Type 0
AreNormal [] = Unit
AreNormal (p ∷ ps) = IsNormal p × AreNormal ps

-- any number of ".." and then names
abbrev pub IsRelative : List Bytes → Type 0
IsRelative [] = Unit
IsRelative (p ∷ ps) = ((p ≡ up) × IsRelative ps) ⊎ AreNormal (p ∷ ps)

pub is_up-up : (p : Bytes) → is_up p ≡ true → p ≡ up
is_up-up [] h = ground arith
is_up-up (c ∷ []) h = ground arith
is_up-up (c ∷ d ∷ []) h = ground arith
is_up-up (c ∷ d ∷ e ∷ p) h = ground arith

pub AreNormal-append : (ps qs : List Bytes) → AreNormal ps → AreNormal qs → AreNormal (ps ++ qs)
AreNormal-append [] qs h k = k
AreNormal-append (p ∷ ps) qs h k = (h.0, AreNormal-append ps qs h.1 k)

pub AreNormal-drop_last : (ps : List Bytes) → AreNormal ps → AreNormal (drop_last ps)
AreNormal-drop_last [] h = tt
AreNormal-drop_last (p ∷ []) h = tt
AreNormal-drop_last (p ∷ q ∷ ps) h = (h.0, AreNormal-drop_last (q ∷ ps) h.1)

pub last_is_up-AreNormal : (ps : List Bytes) → AreNormal ps → last_is_up ps ≡ false
last_is_up-AreNormal [] h = refl
last_is_up-AreNormal (p ∷ []) h = h.0.not_up
last_is_up-AreNormal (p ∷ q ∷ ps) h = last_is_up-AreNormal (q ∷ ps) h.1

pub AreNormal-ArePlain : (ps : List Bytes) → AreNormal ps → ArePlain ps
AreNormal-ArePlain [] h = tt
AreNormal-ArePlain (p ∷ ps) h = (h.0.plain, AreNormal-ArePlain ps h.1)

pub push_normal :
    (rooted : Bool) (st : List Bytes) (p : Bytes) → IsNormal p → push rooted st p ≡ st ++ p ∷ []
unfolding push
push_normal rooted st p h = rw (h.not_empty, h.not_dot, h.not_up, push) refl

-- Names are appended.
pub norm_normal : (rooted : Bool) (st ps : List Bytes) → AreNormal ps → norm rooted st ps ≡ st ++ ps
unfolding norm
norm_normal rooted st [] h = sym (append-nil st)
norm_normal rooted st (p ∷ ps) h =
    ap (λ s. norm rooted s ps) (push_normal rooted st p h.0)
    ∙ norm_normal rooted (st ++ p ∷ []) ps h.1
    ∙ append_assoc st (p ∷ []) ps

pub norm-append :
    (rooted : Bool) (st ps qs : List Bytes)
    → norm rooted st (ps ++ qs) ≡ norm rooted (norm rooted st ps) qs
unfolding norm
norm-append rooted st [] qs = refl
norm-append rooted st (p ∷ ps) qs = norm-append rooted (push rooted st p) ps qs

go_up-AreNormal : (st : List Bytes) → AreNormal st → AreNormal (go_up true st)
go_up-AreNormal [] h = tt
go_up-AreNormal (p ∷ st) h = rw (last_is_up-AreNormal (p ∷ st) h) (AreNormal-drop_last (p ∷ st) h)

push-AreNormal :
    (st : List Bytes) (p : Bytes) → AreNormal st → HasNoSlash p → AreNormal (push true st p)
unfolding push
push-AreNormal st p h n = elim (Bool-cases (is_empty p || is_dot p)) [
  | inl e ↦ rw (e, push) h
  | inr e ↦ elim (Bool-cases (is_up p)) [
    | inl u ↦ rw (e, u, push) (go_up-AreNormal st h)
    | inr u ↦
        rw (e, u, push)
          (AreNormal-append st (p ∷ []) h (
            record {
              plain = n;
              not_empty = ground (arith, e);
              not_dot = ground (arith, e);
              not_up = u;
            },
            tt,
          ))
  ]
]

norm-AreNormal : (st ps : List Bytes) → AreNormal st → ArePlain ps → AreNormal (norm true st ps)
unfolding norm
norm-AreNormal st [] h k = h
norm-AreNormal st (p ∷ ps) h k = norm-AreNormal (push true st p) ps (push-AreNormal st p h k.0) k.1

-- A rooted path is names only: no ".." is left in it.
pub parts-AreNormal : (p : Bytes) → is_abs p ≡ true → AreNormal (parts p)
unfolding parts
parts-AreNormal p h = rw (h, parts) (norm-AreNormal [] (split p) tt (split-ArePlain p))

split_names : (ps : List Bytes) → AreNormal ps → norm true [] (split (join ps)) ≡ ps
unfolding norm push
split_names [] h = refl
split_names (p ∷ ps) h =
    ap (norm true []) (split-join (p ∷ ps) (AreNormal-ArePlain (p ∷ ps) h) refl)
    ∙ norm_normal true [] (p ∷ ps) h

pub parts_rooted : (ps : List Bytes) → AreNormal ps → parts (slash ∷ join ps) ≡ ps
unfolding parts norm push
parts_rooted ps h = split_names ps h
