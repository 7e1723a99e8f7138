-- ===== src/Memfs/Tree/Views.antt =====
-- What each change of the nodes is to those who look up names, and where walks lead.
use pgzero.Base.{
  ℕ, ◌<◌, ◌≡◌, refl, inl, inr, true, false, ◌&&◌, not, none, some, List, [], ◌∷◌, arith,
  if◌then◌else◌, Bool-cases,
}
use pgzero.Memfs.{enotdir, Name, Fs, set_node}
use pgzero.Memfs.Entries.{find-add, find-remove}
use pgzero.Memfs.Path.{
  Walked, at, fails, panics, Located, located, resolve, resolve_parent, go, go_up, go_down, walk,
  and_then, split, starts_slash, ends_slash, trim, locate_base, at_base,
}
use pgzero.Memfs.Namespace.{add_entry, remove_entry, new_node, new_file, new_dir}
use pgzero.Memfs.Tree.{View, view, enter, make, reparent, Chain, IsTree}
use mathlib.Core.List.{reverse}

view_eq :
    {v w : View}
    → ((d : ℕ) → v.is_dir d ≡ w.is_dir d)
    → ((d : ℕ) (x : Name) → v.entry d x ≡ w.entry d x)
    → ((d : ℕ) → v.parent d ≡ w.parent d)
    → v.root ≡ w.root
    → v.next ≡ w.next
    → v ≡ w
view_eq k e p r n = λ i. record {
  is_dir = λ d. k d i;
  entry = λ d x. e d x i;
  parent = λ d. p d i;
  root = r i;
  next = n i;
}

pub view-add_entry :
    (now d : ℕ) (b : Name) (n : ℕ) (fs : Fs)
    → view (add_entry now d b n fs) ≡ enter d b (some n) (view fs)
unfolding view enter add_entry
view-add_entry now d b n fs =
    view_eq (λ e. ground arith) (λ e x. ground (arith, find-add b x n (fs.node d).entries))
      (λ e. ground arith) refl refl

pub view-remove_entry :
    (now d : ℕ) (b : Name) (fs : Fs) → view (remove_entry now d b fs) ≡ enter d b none (view fs)
unfolding view enter remove_entry
view-remove_entry now d b fs =
    view_eq (λ e. ground arith) (λ e x. ground (arith, find-remove b x (fs.node d).entries))
      (λ e. ground arith) refl refl

pub view-new_file :
    (now perm : ℕ) (fs : Fs) → view (new_node (new_file now perm) fs) ≡ make false none (view fs)
unfolding view make new_node new_file
view-new_file now perm fs =
    view_eq (λ e. ground arith) (λ e x. ground arith) (λ e. ground arith) refl refl

pub view-new_dir :
    (now perm d : ℕ) (fs : Fs)
    → view (new_node (new_dir now perm d) fs) ≡ make true (some d) (view fs)
unfolding view make new_node new_dir
view-new_dir now perm d fs =
    view_eq (λ e. ground arith) (λ e x. ground arith) (λ e. ground arith) refl refl

pub view-set_parent :
    (n d : ℕ) (fs : Fs)
    → view (set_node n (record (fs.node n) { parent = some d }) fs) ≡ reparent n d (view fs)
unfolding view reparent
view-set_parent n d fs =
    view_eq (λ e. ground arith) (λ e x. ground arith) (λ e. ground arith) refl refl

-- Contents and times are no part of the namespace.
pub view-set_contents :
    (n now : ℕ) (c : List ℕ) (fs : Fs)
    → view (set_node n (record (fs.node n) { contents = c; mod_time = now }) fs) ≡ view fs
unfolding view
view-set_contents n now c fs =
    view_eq (λ e. ground arith) (λ e x. ground arith) (λ e. ground arith) refl refl

pub view-set_time :
    (n now : ℕ) (fs : Fs) → view (set_node n (record (fs.node n) { mod_time = now }) fs) ≡ view fs
unfolding view
view-set_time n now fs =
    view_eq (λ e. ground arith) (λ e x. ground arith) (λ e. ground arith) refl refl

Chain-made : (v : View) → IsTree v → {d : ℕ} → Chain v d → d < v.next
Chain-made v t Chain.top = t.root_made
Chain-made v t (Chain.up dir made par c) = made

Chain-parent :
    (v : View) → IsTree v → {d : ℕ} (p : ℕ) → Chain v d → v.parent d ≡ some p → p < v.next
Chain-parent v t p Chain.top h = ground (arith, t.root_parent, t.root_made)
Chain-parent v t p (Chain.up {p = q} dir made par c) h = ground (arith, Chain-made v t c)

pub parent_made : (v : View) (d p : ℕ) → IsTree v → d < v.next → v.parent d ≡ some p → p < v.next
parent_made v d p t made h = elim (Bool-cases (v.is_dir d)) [
  | inl k ↦ Chain-parent v t p (t.chain d made k) h
  | inr k ↦ ground (arith, t.file_parent d made k)
]

pub go_made :
    (p : Name) (cur n : ℕ) (fs : Fs)
    → IsTree (view fs)
    → cur < fs.next
    → go p cur fs ≡ at n
    → n < fs.next
unfolding go go_up go_down view
go_made p cur n fs t made h = ground (arith, parent_made (view fs) cur n t made, t.held cur p n)

pub at_both :
    (w : Walked) (k : ℕ → Walked) (n : ℕ)
    → and_then w k ≡ at n
    → (m : ℕ) × (w ≡ at m) × (k m ≡ at n)
unfolding and_then
at_both (at m) k n h = (m, refl, h)
at_both (fails e) k n h = cc
at_both panics k n h = cc

pub walk_made :
    (ps : List Name) (cur n : ℕ) (fs : Fs)
    → IsTree (view fs)
    → cur < fs.next
    → walk ps cur fs ≡ at n
    → n < fs.next
unfolding walk
walk_made [] cur n fs t made h = ground arith
walk_made (p ∷ ps) cur n fs t made h =
    let (m, e, r) = at_both (go p cur fs) (λ m. walk ps m fs) n h in
    walk_made ps m n fs t (go_made p cur m fs t made e) r

-- The directory that a path leads to has been made, and is a directory.
abbrev pub IsGood : Located → Fs → Type 0
IsGood l fs = (d : ℕ) (b : Name) → l ≡ located d b → (d < fs.next) × ((fs.node d).is_dir ≡ true)

pub resolve_made :
    (name : Name) (dir n : ℕ) (fs : Fs)
    → IsTree (view fs)
    → dir < fs.next
    → resolve name dir fs ≡ at n
    → n < fs.next
unfolding resolve
resolve_made name dir n fs t made h = elim (Bool-cases (starts_slash name)) [
  | inl s ↦ ground arith
  | inr s ↦
      let g : and_then (walk (split name) dir fs)
            (λ m. if not (fs.node m).is_dir && ends_slash name then fails enotdir else at m)
          ≡ at n =
        ground arith in
      let (m, e, r) = at_both (walk (split name) dir fs) _ n g in
      walk_made (split name) dir n fs t made (ground arith)
]

at_base-IsGood :
    (base : Name) (fs : Fs) (w : Walked)
    → ((n : ℕ) → w ≡ at n → n < fs.next)
    → IsGood (at_base base fs w) fs
unfolding at_base
at_base-IsGood base fs (at n) m d b h = ground (arith, m n refl)
at_base-IsGood base fs (fails e) m d b h = cc
at_base-IsGood base fs panics m d b h = cc

locate_base-IsGood :
    (ps : List Name) (dir : ℕ) (fs : Fs)
    → IsTree (view fs)
    → dir < fs.next
    → IsGood (locate_base ps dir fs) fs
unfolding locate_base
locate_base-IsGood [] dir fs t made d b h = cc
locate_base-IsGood (base ∷ before) dir fs t made d b h = ground (
  arith,
  at_base-IsGood base fs (walk (reverse before) dir fs)
      (λ n e. walk_made (reverse before) dir n fs t made e) d b,
)

pub resolve_parent-IsGood :
    (name : Name) (dir : ℕ) (fs : Fs)
    → IsTree (view fs)
    → dir < fs.next
    → IsGood (resolve_parent name dir fs) fs
unfolding resolve_parent
resolve_parent-IsGood name dir fs t made d b h =
    ground (arith, locate_base-IsGood (trim (reverse (split name))) dir fs t made d b)
