-- ===== src/Server/Template/Inside.antt =====
-- Where the entries of a template go.
use pgzero.Base.{
  ◌<◌, ◌≡◌, refl, sym, ap, ap₂, subst, ◌∙◌, inl, inr, Bool, true, false, none, some, List, [], ◌∷◌,
  ◌++◌, arith, is_empty, Bool-cases, Option-cases, length, drop, length-append,
}
use mathlib.Core.List.{append-nil}
use pgzero.Paths.{
  Bytes, slash, dot, parts, clean, render, norm, push, is_abs, has_prefix, join_path,
}
use pgzero.Paths.Cleaning.{AreNormal, IsRelative, parts-AreNormal}
use pgzero.Paths.Prefixes.{has_prefix-split}
use pgzero.Paths.Relative.{parts-IsRelative}
use pgzero.Paths.Joining.{rooted, clean-rooted, is_abs-join_path, join_path-rooted}
use pgzero.Kernel.Mounts.Inside.{prefix-IsUnder}
use pgzero.Kernel.Mounts.Found.{AreNormal-suffix}
use pgzero.Server.Template.{
  Entry, directory, regular, other, Action, makes_dir, writes, Outcome, bad_path, name_of, target,
  tried, put_entry, extract, init_data_dir,
}

-- strictly below a directory
abbrev pub IsInside : Bytes → Bytes → Type 0
IsInside dir p = (r : List Bytes) × AreNormal r × (is_empty r ≡ false) × (parts p ≡ parts dir ++ r)

abbrev path_of : Action → Bytes
path_of (makes_dir p) = p
path_of (writes p contents) = p

abbrev pub AreInside : Bytes → List Action → Type 0
AreInside dir [] = Unit
AreInside dir (a ∷ as') = IsInside dir (path_of a) × AreInside dir as'

prefix_longer : (q p : Bytes) → has_prefix (q ++ slash ∷ []) p ≡ true → length q < length p
prefix_longer q p h = omega (
  arith,
  ap length (has_prefix-split (q ++ slash ∷ []) p h),
  length-append q (slash ∷ []),
  length-append (q ++ slash ∷ []) (drop (length (q ++ slash ∷ [])) p),
)

-- The names of a path that a directory's path and a slash start.
below :
    (gs qs : List Bytes)
    → AreNormal gs
    → AreNormal qs
    → has_prefix (rooted qs ++ slash ∷ []) (rooted gs) ≡ true
    → (r : List Bytes) × AreNormal r × (is_empty r ≡ false) × (gs ≡ qs ++ r)
below [] [] n m h = ground (arith, h)
below ([] ∷ gs) [] n m h = ground (arith, n.0.not_empty)
below ((c ∷ p) ∷ []) [] n m h = ground (arith, h, n.0.plain.0)
below ((c ∷ p) ∷ g ∷ gs) [] n m h = ground (arith, h, n.0.plain.0)
below gs (q ∷ qs) n m h =
    let (r, e) = prefix-IsUnder gs q qs n m h in
    (
      r,
      AreNormal-suffix (q ∷ qs) r (subst AreNormal e n),
      elim (Bool-cases (is_empty r)) [
        | inr k ↦ k
        | inl k ↦
            let same : gs ≡ q ∷ qs = e ∙ nothing (q ∷ qs) r k in
            absurd (
              omega (
                arith,
                prefix_longer (rooted (q ∷ qs)) (rooted gs) h,
                ap (λ t. length (rooted t)) same,
              ))
      ],
      e,
    )
  where
    nothing : (ps r : List Bytes) → is_empty r ≡ true → ps ++ r ≡ ps
    nothing ps [] k = append-nil ps
    nothing ps (x ∷ r) k = ground (arith, k)

target-IsInside :
    (dir name t : Bytes) → is_abs dir ≡ true → target dir name ≡ some t → IsInside dir t
unfolding target
target-IsInside dir name t a h =
    let j = join_path dir name in
    let e : j ≡ t = ground (arith, h) in
    let b : is_abs j ≡ true = is_abs-join_path dir name a in
    let k : has_prefix (clean dir ++ slash ∷ []) j ≡ true = ground (arith, h) in
    let c : j ≡ rooted (parts j) = join_path-rooted dir name a in
    let (r, n, m, x) =
      below (parts j) (parts dir) (parts-AreNormal j b) (parts-AreNormal dir a)
        (ap₂ (λ u v. has_prefix (u ++ slash ∷ []) v) (sym (clean-rooted dir a)) (sym c) ∙ k) in
    (r, n, m, ap parts (sym e) ∙ x)

tried-AreInside :
    (ok : Action → Bool) (dir : Bytes) (a : Action) (rest : Outcome × List Action)
    → IsInside dir (path_of a)
    → AreInside dir rest.1
    → AreInside dir (tried ok a rest).1
tried-AreInside ok dir a rest h k = elim (Bool-cases (ok a)) [
  | inl e ↦ rw e (h, k)
  | inr e ↦ rw e (h, tt)
]

put_entry-AreInside :
    (ok : Action → Bool) (dir t : Bytes) (e : Entry) (rest : Outcome × List Action)
    → IsInside dir t
    → AreInside dir rest.1
    → AreInside dir (put_entry ok t e rest).1
put_entry-AreInside ok dir t (directory name) rest h k =
    tried-AreInside ok dir (makes_dir t) rest h k
put_entry-AreInside ok dir t (regular name contents) rest h k =
    tried-AreInside ok dir (writes t contents) rest h k
put_entry-AreInside ok dir t (other name) rest h k = k

-- For a data directory with an absolute path, any archive and any failures of the host: every directory that is
-- made and every file that is written while the archive is copied is strictly below the data directory.
pub extract-AreInside :
    (ok : Action → Bool) (dir : Bytes) (es : List Entry)
    → is_abs dir ≡ true
    → AreInside dir (extract ok dir es).1
unfolding extract
extract-AreInside ok dir [] a = tt
extract-AreInside ok dir (e ∷ es) a = elim (Option-cases (target dir (name_of e))) [
  | inl o ↦ rw (o, extract) tt
  | inr (t, o) ↦
      rw (o, extract)
        (put_entry-AreInside ok dir t e (extract ok dir es) (target-IsInside dir (name_of e) t a o)
          (extract-AreInside ok dir es a))
]

-- no path that is cleaned starts with "./"
render_relative :
    (ps : List Bytes) → IsRelative ps → has_prefix (dot ∷ slash ∷ []) (render false ps) ≡ false
unfolding render
render_relative [] h = refl
render_relative (p ∷ []) (inl (e, h)) = rw e refl
render_relative (p ∷ q ∷ ps) (inl (e, h)) = rw e refl
render_relative ([] ∷ ps) (inr h) = ground (arith, h.0.not_empty)
render_relative ((c ∷ []) ∷ []) (inr h) = ground (arith, h.0.not_dot)
render_relative ((c ∷ []) ∷ q ∷ ps) (inr h) = ground (arith, h.0.not_dot)
render_relative ((c ∷ d ∷ p) ∷ []) (inr h) = ground (arith, h.0.plain.1.0)
render_relative ((c ∷ d ∷ p) ∷ q ∷ ps) (inr h) = ground (arith, h.0.plain.1.0)

clean_relative : (p : Bytes) → is_abs p ≡ false → has_prefix (dot ∷ slash ∷ []) (clean p) ≡ false
unfolding clean
clean_relative p a =
    let e : clean p ≡ render false (parts p) = rw (a, clean) refl in
    ap (has_prefix (dot ∷ slash ∷ [])) e ∙ render_relative (parts p) (parts-IsRelative p a)

target_outside :
    (dir name q : Bytes)
    → clean dir ≡ q
    → has_prefix (q ++ slash ∷ []) (join_path dir name) ≡ false
    → target dir name ≡ none
unfolding target
target_outside dir name q e h = rw e (rw h refl)

-- The data directory ".": every entry has a bad path.
target-dot : (name : Bytes) → target (dot ∷ []) name ≡ none
target-dot name =
    target_outside (dot ∷ []) name (dot ∷ [])
      (unfold clean in unfold parts in unfold norm in unfold push in unfold render in refl)
      (here name)
  where
    here : (name : Bytes) → has_prefix (dot ∷ slash ∷ []) (join_path (dot ∷ []) name) ≡ false
    here [] = unfold join_path in clean_relative (dot ∷ []) refl
    here (d ∷ name) = unfold join_path in clean_relative (dot ∷ slash ∷ d ∷ name) refl

extract-dot :
    (ok : Action → Bool) (e : Entry) (es : List Entry)
    → extract ok (dot ∷ []) (e ∷ es) ≡ (bad_path, [])
unfolding extract
extract-dot ok e es = rw (target-dot (name_of e), extract) refl

-- For the current directory as ".", without a cluster and with no entries: when the host makes the directory and
-- the archive has an entry, nothing of it is copied, and the outcome is a bad path.
init_data_dir-dot :
    (ok : Action → Bool) (e : Entry) (es : List Entry)
    → ok (makes_dir (dot ∷ [])) ≡ true
    → init_data_dir ok false false (dot ∷ []) (e ∷ es) ≡ (bad_path, makes_dir (dot ∷ []) ∷ [])
unfolding init_data_dir
init_data_dir-dot ok e es h = rw (h, extract-dot ok e es) refl
