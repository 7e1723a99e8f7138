-- ===== src/Paths/Prefixes.antt =====
-- Prefixes of rooted paths, as text and by their parts.
use mathlib.Core.List.{append_assoc}
use pgzero.Base.{
  ◌≡◌, refl, sym, ap, ap₂, ◌∙◌, true, false, List, [], ◌∷◌, ◌++◌, arith, is_empty, length, drop,
}
use pgzero.Paths.{Bytes, slash, join, same_bytes, has_prefix, trim_slash, trim_prefix}
use pgzero.Paths.Splitting.{HasNoSlash}
use pgzero.Paths.Cleaning.{AreNormal}

pub same_bytes-eq : (a b : Bytes) → same_bytes a b ≡ true → a ≡ b
same_bytes-eq [] [] h = refl
same_bytes-eq [] (d ∷ b) h = ground arith
same_bytes-eq (c ∷ a) [] h = ground arith
same_bytes-eq (c ∷ a) (d ∷ b) h =
    ap₂ (λ x y. x ∷ y) (ground (arith, h)) (same_bytes-eq a b (ground (arith, h)))

pub has_prefix-split : (q p : Bytes) → has_prefix q p ≡ true → p ≡ q ++ drop (length q) p
has_prefix-split [] p h = refl
has_prefix-split (c ∷ q) [] h = ground arith
has_prefix-split (c ∷ q) (d ∷ p) h =
    ap₂ (λ x y. x ∷ y) (ground (arith, h)) (has_prefix-split q p (ground (arith, h)))

pub same_bytes_self : (a : Bytes) → same_bytes a a ≡ true
same_bytes_self [] = refl
same_bytes_self (c ∷ a) = ground (arith, same_bytes_self a)

pub has_prefix-append : (q x : Bytes) → has_prefix q (q ++ x) ≡ true
has_prefix-append [] x = refl
has_prefix-append (c ∷ q) x = ground (arith, has_prefix-append q x)

drop-append : (q x : Bytes) → drop (length q) (q ++ x) ≡ x
drop-append [] x = refl
drop-append (c ∷ q) x = drop-append q x

pub trim_prefix-append : (q x : Bytes) → trim_prefix q (q ++ x) ≡ x
unfolding trim_prefix
trim_prefix-append q x = rw (has_prefix-append q x, trim_prefix) (drop-append q x)

pub join-append :
    (ps qs : List Bytes)
    → is_empty ps ≡ false
    → is_empty qs ≡ false
    → join (ps ++ qs) ≡ join ps ++ slash ∷ join qs
join-append [] qs e f = ground arith
join-append (p ∷ []) [] e f = ground arith
join-append (p ∷ []) (q ∷ qs) e f = refl
join-append (p ∷ r ∷ ps) qs e f =
    ap (λ x. p ++ slash ∷ x) (join-append (r ∷ ps) qs refl f)
    ∙ sym (append_assoc p (slash ∷ join (r ∷ ps)) (slash ∷ join qs))

trim_slash-append : (p q : Bytes) → is_empty q ≡ false → trim_slash (p ++ q) ≡ p ++ trim_slash q
trim_slash-append [] q e = refl
trim_slash-append (c ∷ []) [] e = ground arith
trim_slash-append (c ∷ []) (d ∷ q) e = refl
trim_slash-append (c ∷ d ∷ p) q e = ap (λ x. c ∷ x) (trim_slash-append (d ∷ p) q e)

trim_slash_plain : (p : Bytes) → HasNoSlash p → trim_slash p ≡ p
trim_slash_plain [] h = refl
trim_slash_plain (c ∷ []) h = rw (h.0) refl
trim_slash_plain (c ∷ d ∷ p) h = ap (λ x. c ∷ x) (trim_slash_plain (d ∷ p) h.1)

pub join_some :
    (p : Bytes) (ps : List Bytes) → AreNormal (p ∷ ps) → is_empty (join (p ∷ ps)) ≡ false
join_some [] ps h = ground (arith, h.0.not_empty)
join_some (c ∷ p) [] h = refl
join_some (c ∷ p) (q ∷ ps) h = refl

-- A cleaned path but the root does not end in a slash.
pub trim_slash-join : (ps : List Bytes) → AreNormal ps → trim_slash (join ps) ≡ join ps
trim_slash-join [] h = refl
trim_slash-join (p ∷ []) h = trim_slash_plain p h.0.plain
trim_slash-join (p ∷ q ∷ ps) h =
    trim_slash-append p (slash ∷ join (q ∷ ps)) refl
    ∙ ap (λ x. p ++ x)
        (trim_slash-append (slash ∷ []) (join (q ∷ ps)) (join_some q ps h.1)
          ∙ ap (λ x. slash ∷ x) (trim_slash-join (q ∷ ps) h.1))

pub trim_slash_rooted :
    (p : Bytes) (ps : List Bytes)
    → AreNormal (p ∷ ps)
    → trim_slash (slash ∷ join (p ∷ ps)) ≡ slash ∷ join (p ∷ ps)
trim_slash_rooted p ps h =
    trim_slash-append (slash ∷ []) (join (p ∷ ps)) (join_some p ps h)
    ∙ ap (λ x. slash ∷ x) (trim_slash-join (p ∷ ps) h)
