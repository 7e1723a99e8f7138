-- ===== src/Memfs/Tree/Crashes.antt =====
-- When resolve uses a nil node.
use pgzero.Base.{
  ℕ, ◌<◌, ◌≡◌, refl, ap, ◌∙◌, ◌↔◌, ◌⊎◌, inl, inr, true, false, ◌&&◌, not, List, [], ◌∷◌, ◌++◌,
  arith, if◌then◌else◌, is_some,
}
use text.Mathlib.TextEquality.{eq_iff}
use pgzero.Memfs.{enotdir, Name, Fs}
use pgzero.Memfs.Path.{
  Walked, at, fails, panics, resolve, go, go_up, go_down, walk, and_then, split, starts_slash,
  ends_slash,
}
use pgzero.Memfs.Tree.{View, view, Chain, IsTree}
use pgzero.Memfs.Tree.Views.{go_made, at_both}

-- A part ".." comes where the parts before it lead to a regular file.
abbrev pub UpFromFile : List Name → ℕ → Fs → Type 0
UpFromFile ps cur fs =
    (before : List Name) × (after : List Name) × (f : ℕ) × (ps ≡ before ++ (".." ∷ after))
    × (walk before cur fs ≡ at f)
    × ((fs.node f).is_dir ≡ false)

Chain-has_parent : (v : View) → IsTree v → {d : ℕ} → Chain v d → is_some (v.parent d) ≡ true
Chain-has_parent v t Chain.top = ground (arith, t.root_parent)
Chain-has_parent v t (Chain.up dir made par c) = ground arith

dir_has_parent :
    (fs : Fs) (d : ℕ)
    → IsTree (view fs)
    → d < fs.next
    → (fs.node d).is_dir ≡ true
    → is_some (fs.node d).parent ≡ true
unfolding view
dir_has_parent fs d t made k = Chain-has_parent (view fs) t (t.chain d made k)

go_panics :
    (p : Name) (cur : ℕ) (fs : Fs)
    → IsTree (view fs)
    → cur < fs.next
    → go p cur fs ≡ panics
    → (p ≡ "..") × ((fs.node cur).is_dir ≡ false)
unfolding go go_up go_down
go_panics p cur fs t made h = ground (arith, eq_iff p "..", dir_has_parent fs cur t made)

-- The walk that goes on after its first part.
up_later :
    (p : Name) (ps : List Name) (cur m : ℕ) (fs : Fs)
    → go p cur fs ≡ at m
    → UpFromFile ps m fs
    → UpFromFile (p ∷ ps) cur fs
unfolding walk and_then
up_later p ps cur m fs e (before, after, f, q, w, k) =
    (p ∷ before, after, f, ap (◌∷◌ p) q, ap (λ g. and_then g (λ n. walk before n fs)) e ∙ w, k)

-- Whether the first part panics, or a later one.
panics_either :
    (w : Walked) (k : ℕ → Walked)
    → and_then w k ≡ panics
    → (w ≡ panics) ⊎ ((m : ℕ) × (w ≡ at m) × (k m ≡ panics))
unfolding and_then
panics_either (at m) k h = inr (m, refl, h)
panics_either (fails e) k h = cc
panics_either panics k h = inl refl

walk_panics :
    (ps : List Name) (cur : ℕ) (fs : Fs)
    → IsTree (view fs)
    → cur < fs.next
    → walk ps cur fs ≡ panics
    → UpFromFile ps cur fs
unfolding walk
walk_panics [] cur fs t made h = cc
walk_panics (p ∷ ps) cur fs t made h = elim (panics_either (go p cur fs) (λ n. walk ps n fs) h) [
  | inl e ↦ let (up, k) = go_panics p cur fs t made e in ([], ps, cur, ap (λ q. q ∷ ps) up, refl, k)
  | inr (m, e, r) ↦ up_later p ps cur m fs e (walk_panics ps m fs t (go_made p cur m fs t made e) r)
]

up_panics :
    (f : ℕ) (fs : Fs)
    → IsTree (view fs)
    → f < fs.next
    → (fs.node f).is_dir ≡ false
    → go ".." f fs ≡ panics
unfolding go go_up view
up_panics f fs t made k = ground (arith, t.file_parent f made k, t.root_dir)

file_panics :
    (after : List Name) (f : ℕ) (fs : Fs)
    → IsTree (view fs)
    → f < fs.next
    → (fs.node f).is_dir ≡ false
    → walk (".." ∷ after) f fs ≡ panics
unfolding walk and_then
file_panics after f fs t made k =
    ap (λ g. and_then g (λ n. walk after n fs)) (up_panics f fs t made k)

at_injective : (m n : ℕ) → at m ≡ at n → m ≡ n
at_injective m n h = cc

panics_walk :
    (before after : List Name) (cur f : ℕ) (fs : Fs)
    → IsTree (view fs)
    → cur < fs.next
    → walk before cur fs ≡ at f
    → (fs.node f).is_dir ≡ false
    → walk (before ++ (".." ∷ after)) cur fs ≡ panics
unfolding walk and_then
panics_walk [] after cur f fs t made h k =
    let same_node : cur ≡ f = at_injective cur f h in
    file_panics after cur fs t made (ap (λ n. (fs.node n).is_dir) same_node ∙ k)
panics_walk (p ∷ before) after cur f fs t made h k =
    let (m, e, r) = at_both (go p cur fs) (λ n. walk before n fs) f h in
    ap (λ g. and_then g (λ n. walk (before ++ (".." ∷ after)) n fs)) e
    ∙ panics_walk before after m f fs t (go_made p cur m fs t made e) r k

walk_crashes :
    (ps : List Name) (cur : ℕ) (fs : Fs)
    → IsTree (view fs)
    → cur < fs.next
    → UpFromFile ps cur fs
    → walk ps cur fs ≡ panics
walk_crashes ps cur fs t made (before, after, f, q, h, k) =
    ap (λ l. walk l cur fs) q ∙ panics_walk before after cur f fs t made h k

at_end :
    (name : Name) (fs : Fs) (w : Walked)
    → and_then w (λ n. if not (fs.node n).is_dir && ends_slash name then fails enotdir else at n)
      ≡ panics
    → w ≡ panics
unfolding and_then
at_end name fs (at n) h = ground arith
at_end name fs (fails e) h = cc
at_end name fs panics h = refl

-- resolve of a path uses a nil node, and so panics, exactly when the path is relative and has a part ".."
-- where the parts before it lead to a regular file; on every other path it returns.
pub resolve_panics_iff :
    (name : Name) (dir : ℕ) (fs : Fs)
    → IsTree (view fs)
    → dir < fs.next
    → (resolve name dir fs ≡ panics)
      ↔ ((starts_slash name ≡ false) × UpFromFile (split name) dir fs)
unfolding resolve
resolve_panics_iff name dir fs t made = (
  λ h.
      let s : starts_slash name ≡ false = ground arith in
      (
        s,
        walk_panics (split name) dir fs t made
            (at_end name fs (walk (split name) dir fs) (ground arith)),
      ),
  λ (s, u).
      let c : walk (split name) dir fs ≡ panics = walk_crashes (split name) dir fs t made u in
      unfold and_then in rw (s, c) refl,
)
