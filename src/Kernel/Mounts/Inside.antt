-- ===== src/Kernel/Mounts/Inside.antt =====
-- The test of mountFor on rooted paths, by their parts.
use mathlib.Core.List.{append-nil, append_assoc}
use pgzero.Base.{
  ◌<◌, ◌≡◌, refl, sym, ap, subst, ◌∙◌, inl, inr, Bool, true, false, ◌||◌, List, [], ◌∷◌, ◌++◌,
  arith, is_empty, Bool-cases, length, drop, length-append,
}
use pgzero.Paths.{Bytes, slash, split, join, parts, same_bytes, has_prefix, trim_prefix}
use pgzero.Paths.Splitting.{split-append, split-join}
use pgzero.Paths.Cleaning.{AreNormal, AreNormal-ArePlain, parts_rooted}
use pgzero.Paths.Prefixes.{
  same_bytes-eq, same_bytes_self, has_prefix-split, has_prefix-append, trim_prefix-append,
  join-append, trim_slash_rooted,
}
use pgzero.Paths.Joining.{rooted}
use pgzero.Kernel.Mounts.{is_in}

-- b is inside a
abbrev pub IsUnder : List Bytes → List Bytes → Type 0
IsUnder bs top = (r : List Bytes) × (bs ≡ top ++ r)

join-rooted : (ps qs : List Bytes) → AreNormal ps → AreNormal qs → rooted ps ≡ rooted qs → ps ≡ qs
join-rooted ps qs h k e = sym (parts_rooted ps h) ∙ ap parts e ∙ parts_rooted qs k

pub prefix-IsUnder :
    (gs : List Bytes) (q : Bytes) (qs : List Bytes)
    → AreNormal gs
    → AreNormal (q ∷ qs)
    → has_prefix (rooted (q ∷ qs) ++ slash ∷ []) (rooted gs) ≡ true
    → IsUnder gs (q ∷ qs)
prefix-IsUnder [] [] qs h k e = absurd (ground (arith, k.0.not_empty))
prefix-IsUnder [] (c ∷ q) [] h k e = ground arith
prefix-IsUnder [] (c ∷ q) (r ∷ qs) h k e = ground arith
prefix-IsUnder (g ∷ gs) q qs h k e =
    let x : Bytes = drop (length (join (q ∷ qs) ++ slash ∷ [])) (join (g ∷ gs)) in
    let e' : has_prefix (join (q ∷ qs) ++ slash ∷ []) (join (g ∷ gs)) ≡ true = e in
    let whole : join (g ∷ gs) ≡ join (q ∷ qs) ++ slash ∷ x =
      has_prefix-split (join (q ∷ qs) ++ slash ∷ []) (join (g ∷ gs)) e'
      ∙ append_assoc (join (q ∷ qs)) (slash ∷ []) x in
    (
      split x,
      sym (split-join (g ∷ gs) (AreNormal-ArePlain (g ∷ gs) h) refl)
          ∙ ap split whole
          ∙ split-append (join (q ∷ qs)) x
          ∙ ap (λ ps. ps ++ split x) (split-join (q ∷ qs) (AreNormal-ArePlain (q ∷ qs) k) refl),
    )

pub is_in-IsUnder :
    (gs qs : List Bytes)
    → AreNormal gs
    → AreNormal qs
    → is_in (rooted gs) (rooted qs) ≡ true
    → IsUnder gs qs
unfolding is_in
is_in-IsUnder gs [] h k e = (gs, refl)
is_in-IsUnder gs (q ∷ qs) h k e = elim (Bool-cases (same_bytes (rooted gs) (rooted (q ∷ qs)))) [
  | inl s ↦ (
    [],
    join-rooted gs (q ∷ qs) h k (same_bytes-eq (rooted gs) (rooted (q ∷ qs)) s)
        ∙ sym (append-nil (q ∷ qs)),
  )
  | inr s ↦ prefix-IsUnder gs q qs h k (
      ap (λ t. has_prefix (t ++ slash ∷ []) (rooted gs)) (sym (trim_slash_rooted q qs k))
      ∙ ground (arith, e, s))
]

or_right : (a : Bool) {b : Bool} → b ≡ true → (a || b) ≡ true
or_right true h = refl
or_right false h = h

pub IsUnder-is_in : (qs r : List Bytes) → AreNormal qs → is_in (rooted (qs ++ r)) (rooted qs) ≡ true
unfolding is_in
IsUnder-is_in [] r k = ground arith
IsUnder-is_in (q ∷ qs) [] k =
    subst (λ ps. is_in (rooted ps) (rooted (q ∷ qs)) ≡ true) (sym (append-nil (q ∷ qs)))
      (ground (arith, same_bytes_self (rooted (q ∷ qs))))
IsUnder-is_in (q ∷ qs) (p ∷ r) k =
    let inside : has_prefix (rooted (q ∷ qs) ++ slash ∷ []) (rooted ((q ∷ qs) ++ p ∷ r)) ≡ true =
      ap (has_prefix (rooted (q ∷ qs) ++ slash ∷ [])) (
        ap (λ t. slash ∷ t)
          (join-append (q ∷ qs) (p ∷ r) refl refl
            ∙ sym (append_assoc (join (q ∷ qs)) (slash ∷ []) (join (p ∷ r)))))
      ∙ has_prefix-append (rooted (q ∷ qs) ++ slash ∷ []) (join (p ∷ r)) in
    or_right (same_bytes (rooted ((q ∷ qs) ++ p ∷ r)) (rooted (q ∷ qs))) (
      ap (λ t. has_prefix (t ++ slash ∷ []) (rooted ((q ∷ qs) ++ p ∷ r))) (trim_slash_rooted q qs k)
      ∙ inside)

trim_prefix-join : (r : List Bytes) → AreNormal r → trim_prefix (slash ∷ []) (join r) ≡ join r
unfolding trim_prefix
trim_prefix-join [] h = refl
trim_prefix-join ([] ∷ r) h = absurd (ground (arith, h.0.not_empty))
trim_prefix-join ((c ∷ p) ∷ []) h = ground (arith, h.0.plain.0)
trim_prefix-join ((c ∷ p) ∷ q ∷ r) h = ground (arith, h.0.plain.0)

-- The text that is left of a path when the mount's path is taken off its front.
pub trim_prefix_inside :
    (qs r : List Bytes)
    → AreNormal qs
    → AreNormal r
    → trim_prefix (slash ∷ []) (trim_prefix (rooted qs) (rooted (qs ++ r))) ≡ join r
trim_prefix_inside [] r k h =
    ap (trim_prefix (slash ∷ [])) (trim_prefix-append (slash ∷ []) (join r)) ∙ trim_prefix-join r h
trim_prefix_inside (q ∷ qs) [] k h =
    ap (λ t. trim_prefix (slash ∷ []) (trim_prefix (rooted (q ∷ qs)) t))
      (ap rooted (append-nil (q ∷ qs)) ∙ sym (append-nil (rooted (q ∷ qs))))
    ∙ ap (trim_prefix (slash ∷ [])) (trim_prefix-append (rooted (q ∷ qs)) [])
    ∙ trim_prefix-join [] tt
trim_prefix_inside (q ∷ qs) (p ∷ r) k h =
    ap (λ t. trim_prefix (slash ∷ []) (trim_prefix (rooted (q ∷ qs)) (slash ∷ t)))
      (join-append (q ∷ qs) (p ∷ r) refl refl)
    ∙ ap (trim_prefix (slash ∷ [])) (trim_prefix-append (rooted (q ∷ qs)) (rooted (p ∷ r)))
    ∙ trim_prefix-append (slash ∷ []) (join (p ∷ r))

-- A path inside another is the longer text.
pub length-rooted :
    (qs r : List Bytes)
    → is_empty r ≡ false
    → AreNormal r
    → length (rooted qs) < length (rooted (qs ++ r))
length-rooted qs [] e h = ground arith
length-rooted [] ([] ∷ r) e h = absurd (ground (arith, h.0.not_empty))
length-rooted [] ((c ∷ p) ∷ []) e h = omega arith
length-rooted [] ((c ∷ p) ∷ q ∷ r) e h = omega arith
length-rooted (q ∷ qs) (p ∷ r) e h = omega (
  arith,
  ap length (join-append (q ∷ qs) (p ∷ r) refl refl),
  length-append (join (q ∷ qs)) (slash ∷ join (p ∷ r)),
)
