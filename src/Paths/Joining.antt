-- ===== src/Paths/Joining.antt =====
-- Rooted paths as names, and path.Join with one.
use mathlib.Core.List.{append-nil}
use pgzero.Base.{◌≡◌, refl, sym, ap, ◌∙◌, true, List, [], ◌∷◌, ◌++◌, arith}
use pgzero.Paths.{
  Bytes, slash, dot, push, split, join, parts, norm, clean, render, is_abs, join_path,
}
use pgzero.Paths.Splitting.{split-append, split-join}
use pgzero.Paths.Cleaning.{
  AreNormal, AreNormal-ArePlain, parts-AreNormal, norm_normal, norm-append, parts_rooted,
}
use pgzero.Paths.Prefixes.{join_some}

-- the path of names
abbrev pub rooted : List Bytes → Bytes
rooted ps = slash ∷ join ps

pub clean-rooted : (p : Bytes) → is_abs p ≡ true → clean p ≡ rooted (parts p)
unfolding clean render
clean-rooted p h = rw (h, clean) refl

pub parts-clean : (p : Bytes) → is_abs p ≡ true → parts (clean p) ≡ parts p
parts-clean p a = ap parts (clean-rooted p a) ∙ parts_rooted (parts p) (parts-AreNormal p a)

pub is_abs-join_path : (h : Bytes) (q : Bytes) → is_abs h ≡ true → is_abs (join_path h q) ≡ true
unfolding join_path
is_abs-join_path [] q a = ground arith
is_abs-join_path (c ∷ h) [] a = ap is_abs (clean-rooted (c ∷ h) a)
is_abs-join_path (c ∷ h) (d ∷ q) a = ap is_abs (clean-rooted (c ∷ (h ++ slash ∷ d ∷ q)) a)

pub join_path-rooted :
    (h q : Bytes) → is_abs h ≡ true → join_path h q ≡ rooted (parts (join_path h q))
unfolding join_path
join_path-rooted [] q a = ground arith
join_path-rooted (c ∷ h) [] a = clean-rooted (c ∷ h) a ∙ ap rooted (sym (parts-clean (c ∷ h) a))
join_path-rooted (c ∷ h) (d ∷ q) a =
    let p : Bytes = c ∷ (h ++ slash ∷ d ∷ q) in clean-rooted p a ∙ ap rooted (sym (parts-clean p a))

is_abs-append : (p q : Bytes) → is_abs p ≡ true → is_abs (p ++ q) ≡ true
is_abs-append [] q a = ground arith
is_abs-append (c ∷ p) q a = a

parts_below :
    (h p : Bytes) (ps : List Bytes)
    → is_abs h ≡ true
    → AreNormal (p ∷ ps)
    → parts (h ++ slash ∷ join (p ∷ ps)) ≡ parts h ++ p ∷ ps
unfolding parts
parts_below h p ps a n =
    rw (is_abs-append h (slash ∷ join (p ∷ ps)) a, a, parts)
      (ap (norm true []) (
          split-append h (join (p ∷ ps))
          ∙ ap (λ qs. split h ++ qs) (split-join (p ∷ ps) (AreNormal-ArePlain (p ∷ ps) n) refl))
        ∙ norm-append true [] (split h) (p ∷ ps)
        ∙ norm_normal true (norm true [] (split h)) (p ∷ ps) n)

-- Joining names to a rooted path goes on from its names.
pub join_path-parts :
    (h : Bytes) (r : List Bytes)
    → is_abs h ≡ true
    → AreNormal r
    → parts (join_path h (join r)) ≡ parts h ++ r
unfolding join_path
join_path-parts [] r a n = ground arith
join_path-parts (c ∷ h) [] a n = parts-clean (c ∷ h) a ∙ sym (append-nil (parts (c ∷ h)))
join_path-parts (c ∷ h) (p ∷ r) a n =
    rw (join_some p r n)
      (parts-clean (c ∷ (h ++ slash ∷ join (p ∷ r))) a ∙ parts_below (c ∷ h) p r a n)

parts-dot : (h : Bytes) → is_abs h ≡ true → parts (h ++ slash ∷ dot ∷ []) ≡ parts h
unfolding parts
parts-dot h a =
    rw (is_abs-append h (slash ∷ dot ∷ []) a, a, parts)
      (ap (norm true []) (split-append h (dot ∷ []))
        ∙ norm-append true [] (split h) ((dot ∷ []) ∷ [])
        ∙ (unfold norm in unfold push in refl))

-- Joining "." to a rooted path leaves its names.
pub join_path-dot : (h : Bytes) → is_abs h ≡ true → parts (join_path h (dot ∷ [])) ≡ parts h
unfolding join_path
join_path-dot [] a = ground arith
join_path-dot (c ∷ h) a = parts-clean (c ∷ (h ++ slash ∷ dot ∷ [])) a ∙ parts-dot (c ∷ h) a
