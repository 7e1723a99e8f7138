-- ===== src/Osfs/Below.antt =====
-- Which names resolve refuses, and what it makes of the others.
use pgzero.Base.{
  ◌≡◌, refl, sym, ◌∙◌, ◌⊎◌, inl, inr, Bool, true, false, ◌||◌, Option, none, some, List, [], ◌∷◌,
  ◌++◌, arith, Bool-cases,
}
use pgzero.Paths.{
  Bytes, slash, dot, up, join, clean, render, parts, is_abs, same_bytes, has_prefix, join_path,
}
use pgzero.Paths.Cleaning.{IsNormal, AreNormal, IsRelative}
use pgzero.Paths.Relative.{parts-IsRelative, starts_up, names_only, is_abs-join}
use mathlib.Core.List.{append-nil}
use pgzero.Paths.Joining.{join_path-dot, clean-rooted, join_path-parts, is_abs-join_path}
use pgzero.Osfs.{File, resolve}

-- resolve's second and third test
abbrev climbs : Bytes → Bool
climbs c = same_bytes c up || has_prefix (dot ∷ dot ∷ slash ∷ []) c

-- A name is not "..", and nothing that goes on from it starts with "../".
climbs_name : (p : Bytes) → IsNormal p → climbs p ≡ false
climbs_name [] n = refl
climbs_name (a ∷ []) n = ground arith
climbs_name (a ∷ b ∷ []) n = ground (arith, n.not_up)
climbs_name (a ∷ b ∷ c ∷ p) n = ground (arith, n.plain.1.1.0)

climbs_on : (p q : Bytes) → IsNormal p → climbs (p ++ slash ∷ q) ≡ false
climbs_on [] q n = ground (arith, n.not_empty)
climbs_on (a ∷ []) [] n = ground arith
climbs_on (a ∷ []) (b ∷ q) n = ground arith
climbs_on (a ∷ b ∷ []) q n = ground (arith, n.not_up)
climbs_on (a ∷ b ∷ c ∷ p) q n = ground (arith, n.plain.1.1.0)

climbs-join : (ps : List Bytes) → IsRelative ps → climbs (render false ps) ≡ starts_up ps
unfolding render
climbs-join [] h = refl
climbs-join (p ∷ []) (inl (e, h)) = rw e refl
climbs-join (p ∷ q ∷ ps) (inl (e, h)) = rw e refl
climbs-join (p ∷ []) (inr h) = climbs_name p h.0 ∙ sym h.0.not_up
climbs-join (p ∷ q ∷ ps) (inr h) = climbs_on p (join (q ∷ ps)) h.0 ∙ sym h.0.not_up

-- What a directory's path and a name should make: nothing where the name is absolute or starts with ".."
-- when it is cleaned, and else the path that goes on from the directory's by the name's own parts,
-- none of which is "..".
abbrev pub Resolves : Bytes → Bytes → Option Bytes → Type 0
Resolves dir name none = (is_abs name ≡ true) ⊎ (starts_up (parts name) ≡ true)
Resolves dir name (some p) =
    (is_abs name ≡ false)
    × (starts_up (parts name) ≡ false)
    × (is_abs p ≡ true)
    × AreNormal (parts name)
    × (parts p ≡ parts dir ++ parts name)

join_clean :
    (dir : Bytes) (ps : List Bytes)
    → is_abs dir ≡ true
    → AreNormal ps
    → parts (join_path dir (render false ps)) ≡ parts dir ++ ps
unfolding render
join_clean dir [] a n = join_path-dot dir a ∙ sym (append-nil (parts dir))
join_clean dir (p ∷ ps) a n = join_path-parts dir (p ∷ ps) a n

is_abs-render : (ps : List Bytes) → IsRelative ps → is_abs (render false ps) ≡ false
unfolding render
is_abs-render [] h = refl
is_abs-render (p ∷ ps) h = is_abs-join (p ∷ ps) h

-- resolve, in a directory whose path is absolute: it refuses exactly the names that are absolute or that,
-- cleaned, start with "..". For any other the path is absolute and goes on from the directory's by the
-- parts of the cleaned name, which are names.
pub resolve-Resolves :
    (f : File) (name : Bytes) → is_abs f.path ≡ true → Resolves f.path name (resolve f name)
unfolding resolve
resolve-Resolves f name a = elim (Bool-cases (is_abs name)) [
  | inl e ↦ rw (clean-rooted name e) (inl e)
  | inr e ↦
      let ps : IsRelative (parts name) = parts-IsRelative name e in
      let c : clean name ≡ render false (parts name) = unfold clean in rw (e, clean) refl in
      elim (Bool-cases (starts_up (parts name))) [
        | inl u ↦ rw (c, is_abs-render (parts name) ps, climbs-join (parts name) ps ∙ u) (inr u)
        | inr u ↦
            let n : AreNormal (parts name) = names_only (parts name) ps u in
            rw (c, is_abs-render (parts name) ps, climbs-join (parts name) ps ∙ u)
              (
                e,
                u,
                is_abs-join_path f.path (render false (parts name)) a,
                n,
                join_clean f.path (parts name) a n,
              )
      ]
]
