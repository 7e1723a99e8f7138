-- ===== src/Paths/Splitting.antt =====
-- Splitting a path at the slashes and joining the parts again.
use pgzero.Base.{
  ℕ, ◌≡◌, refl, sym, ap, ap₂, ◌∙◌, inl, inr, false, List, [], ◌∷◌, ◌++◌, arith, ◌==◌, is_empty,
  Bool-cases,
}
use pgzero.Paths.{Bytes, slash, split, push_byte, join}

abbrev pub HasNoSlash : Bytes → Type 0
HasNoSlash [] = Unit
HasNoSlash (c ∷ p) = ((c == slash) ≡ false) × HasNoSlash p

abbrev pub ArePlain : List Bytes → Type 0
ArePlain [] = Unit
ArePlain (p ∷ ps) = HasNoSlash p × ArePlain ps

pub split_some : (p : Bytes) → is_empty (split p) ≡ false
split_some [] = refl
split_some (c ∷ p) = elim (Bool-cases (c == slash)) [
  | inl e ↦ rw e refl
  | inr e ↦ rw e (push_some c (split p))
]
  where
    push_some : (c : ℕ) (ps : List Bytes) → is_empty (push_byte c ps) ≡ false
    push_some c [] = refl
    push_some c (p ∷ ps) = refl

push_byte-ArePlain :
    (c : ℕ) (ps : List Bytes) → (c == slash) ≡ false → ArePlain ps → ArePlain (push_byte c ps)
push_byte-ArePlain c [] e h = ((e, tt), tt)
push_byte-ArePlain c (p ∷ ps) e h = ((e, h.0), h.1)

pub split-ArePlain : (p : Bytes) → ArePlain (split p)
split-ArePlain [] = (tt, tt)
split-ArePlain (c ∷ p) = elim (Bool-cases (c == slash)) [
  | inl e ↦ rw e (tt, split-ArePlain p)
  | inr e ↦ rw e (push_byte-ArePlain c (split p) e (split-ArePlain p))
]

push_byte-append :
    (c : ℕ) (ps qs : List Bytes)
    → is_empty ps ≡ false
    → push_byte c ps ++ qs ≡ push_byte c (ps ++ qs)
push_byte-append c [] qs h = ground arith
push_byte-append c (p ∷ ps) qs h = refl

-- a slash between two paths
pub split-append : (a b : Bytes) → split (a ++ slash ∷ b) ≡ split a ++ split b
split-append [] b = refl
split-append (c ∷ a) b = elim (Bool-cases (c == slash)) [
  | inl e ↦ rw e (ap (λ ps. [] ∷ ps) (split-append a b))
  | inr e ↦ rw e (
      ap (push_byte c) (split-append a b)
      ∙ sym (push_byte-append c (split a) (split b) (split_some a)))
]

pub split_plain : (p : Bytes) → HasNoSlash p → split p ≡ p ∷ []
split_plain [] h = refl
split_plain (c ∷ p) h = rw (h.0) (ap (push_byte c) (split_plain p h.1))

-- Parts without a slash come back from the joined path.
pub split-join : (ps : List Bytes) → ArePlain ps → is_empty ps ≡ false → split (join ps) ≡ ps
split-join [] h e = ground arith
split-join (p ∷ []) h e = split_plain p h.0
split-join (p ∷ q ∷ ps) h e =
    split-append p (join (q ∷ ps))
    ∙ ap₂ (λ a b. a ++ b) (split_plain p h.0) (split-join (q ∷ ps) h.1 refl)

join-push_byte :
    (c : ℕ) (ps : List Bytes) → is_empty ps ≡ false → join (push_byte c ps) ≡ c ∷ join ps
join-push_byte c [] e = ground arith
join-push_byte c (p ∷ []) e = refl
join-push_byte c (p ∷ q ∷ ps) e = refl

join-slash : (ps : List Bytes) → is_empty ps ≡ false → join ([] ∷ ps) ≡ slash ∷ join ps
join-slash [] e = ground arith
join-slash (p ∷ ps) e = refl

pub join-split : (p : Bytes) → join (split p) ≡ p
join-split [] = refl
join-split (c ∷ p) = elim (Bool-cases (c == slash)) [
  | inl e ↦
      rw e (
        join-slash (split p) (split_some p) ∙ ap₂ (λ a b. a ∷ b) (ground (arith, e)) (join-split p))
  | inr e ↦ rw e (join-push_byte c (split p) (split_some p) ∙ ap (λ q. c ∷ q) (join-split p))
]
