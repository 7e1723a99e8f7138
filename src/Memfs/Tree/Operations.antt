-- ===== src/Memfs/Tree/Operations.antt =====
-- Every operation on names keeps the directories a tree, and changes the namespace as it promises.
use pgzero.Base.{
  arith, sym, ◌<◌, subst, ℕ, ◌≡◌, refl, ap, ◌∙◌, inl, inr, true, false, none, some, is_empty,
  Bool-cases, Option-cases,
}
use pgzero.Memfs.{enotempty, enotdir, eisdir, enoent, eexist, Name, Fs}
use pgzero.Memfs.Entries.{find_empty, find}
use pgzero.Memfs.Path.{resolve_parent, Located, located, not_located, crashed}
use pgzero.Memfs.Namespace.{
  remove_entry, add_entry, unlink_at, rmdir_at, mkdir_at, Answer, done, refused, crashes,
  unfinished, new_node, new_dir, mkdir_in, rmdir_in, unlink_in,
}
use pgzero.Memfs.Tree.{IsTree, View, view, enter, make}
use pgzero.Memfs.Tree.Views.{resolve_parent-IsGood, view-new_dir, view-remove_entry, view-add_entry}
use pgzero.Memfs.Tree.Steps.{make_file-IsTree, make_dir-IsTree, leave-IsTree, enter-IsTree}

-- What an operation promises: it is refused, or crashes, and nothing has changed; or it is done, and the
-- namespace has changed in one way, the one that `change` describes.
abbrev pub Promises : (View → Type 0) → Answer × Fs → Fs → Type 0
Promises change (done, t) fs = change (view t)
Promises change (refused e, t) fs = t ≡ fs
Promises change (crashes, t) fs = t ≡ fs
Promises change (unfinished, t) fs = t ≡ fs

-- MkdirAt makes one new empty directory with the directory it is in as its parent, and one name for it,
-- which was not taken.
abbrev pub Mkdir : Located → Fs → View → Type 0
Mkdir l fs v =
    (d : ℕ) × (b : Name) × (l ≡ located d b)
    × ((view fs).entry d b ≡ none)
    × (v ≡ enter d b (some fs.next) (make true (some d) (view fs)))

-- RmdirAt takes away the name of an empty directory.
abbrev pub Rmdir : Located → Fs → View → Type 0
Rmdir l fs v =
    (d : ℕ) × (b : Name) × (n : ℕ) × (l ≡ located d b)
    × ((view fs).entry d b ≡ some n)
    × ((view fs).is_dir n ≡ true)
    × ((x : Name) → (view fs).entry n x ≡ none)
    × (v ≡ enter d b none (view fs))

-- UnlinkAt takes away one name of a regular file.
abbrev pub Unlink : Located → Fs → View → Type 0
Unlink l fs v =
    (d : ℕ) × (b : Name) × (n : ℕ) × (l ≡ located d b)
    × ((view fs).entry d b ≡ some n)
    × ((view fs).is_dir n ≡ false)
    × (v ≡ enter d b none (view fs))

pub promise :
    (change : View → Type 0) (fs : Fs) {r : Answer × Fs} (s : Answer × Fs)
    → r ≡ s
    → Promises change s fs
    → Promises change r fs
promise change fs s e h = subst (λ r. Promises change r fs) (sym e) h

mkdir_in_promise :
    (now perm : ℕ) (l : Located) (fs : Fs) → Promises (Mkdir l fs) (mkdir_in now perm l fs) fs
unfolding mkdir_in view
mkdir_in_promise now perm (located d base) fs =
    elim (Option-cases (find base (fs.node d).entries)) [
      | inr (n, e) ↦
          promise (Mkdir (located d base) fs) fs (refused eexist, fs) (rw (e, mkdir_in) refl) refl
      | inl e ↦
          promise (Mkdir (located d base) fs) fs
            (done, add_entry now d base fs.next (new_node (new_dir now perm d) fs))
            (rw (e, mkdir_in) refl)
            (
              d,
              base,
              refl,
              e,
              view-add_entry now d base fs.next (new_node (new_dir now perm d) fs)
                  ∙ ap (enter d base (some fs.next)) (view-new_dir now perm d fs),
            )
    ]
mkdir_in_promise now perm (not_located e) fs = refl
mkdir_in_promise now perm crashed fs = refl

rmdir_in_promise : (now : ℕ) (l : Located) (fs : Fs) → Promises (Rmdir l fs) (rmdir_in now l fs) fs
unfolding rmdir_in view
rmdir_in_promise now (located d base) fs =
    let is : (s : Answer × Fs)
        → rmdir_in now (located d base) fs ≡ s
        → Promises (Rmdir (located d base) fs) s fs
        → Promises (Rmdir (located d base) fs) (rmdir_in now (located d base) fs) fs =
      promise (Rmdir (located d base) fs) fs in
    elim (Option-cases (find base (fs.node d).entries)) [
      | inl e ↦ is (refused enoent, fs) (rw (e, rmdir_in) refl) refl
      | inr (n, e) ↦ elim (Bool-cases (fs.node n).is_dir) [
        | inr k ↦ is (refused enotdir, fs) (rw (e, k, rmdir_in) refl) refl
        | inl k ↦ elim (Bool-cases (is_empty (fs.node n).entries)) [
          | inr m ↦ is (refused enotempty, fs) (rw (e, k, m, rmdir_in) refl) refl
          | inl m ↦
              is (done, remove_entry now d base fs) (rw (e, k, m, rmdir_in) refl)
                (
                  d,
                  base,
                  n,
                  refl,
                  e,
                  k,
                  λ x. find_empty (fs.node n).entries m x,
                  view-remove_entry now d base fs,
                )
        ]
      ]
    ]
rmdir_in_promise now (not_located e) fs = refl
rmdir_in_promise now crashed fs = refl

unlink_in_promise :
    (now : ℕ) (l : Located) (fs : Fs) → Promises (Unlink l fs) (unlink_in now l fs) fs
unfolding unlink_in view
unlink_in_promise now (located d base) fs =
    let is : (s : Answer × Fs)
        → unlink_in now (located d base) fs ≡ s
        → Promises (Unlink (located d base) fs) s fs
        → Promises (Unlink (located d base) fs) (unlink_in now (located d base) fs) fs =
      promise (Unlink (located d base) fs) fs in
    elim (Option-cases (find base (fs.node d).entries)) [
      | inl e ↦ is (refused enoent, fs) (rw (e, unlink_in) refl) refl
      | inr (n, e) ↦ elim (Bool-cases (fs.node n).is_dir) [
        | inl k ↦ is (refused eisdir, fs) (rw (e, k, unlink_in) refl) refl
        | inr k ↦
            is (done, remove_entry now d base fs) (rw (e, k, unlink_in) refl)
              (d, base, n, refl, e, k, view-remove_entry now d base fs)
      ]
    ]
unlink_in_promise now (not_located e) fs = refl
unlink_in_promise now crashed fs = refl

-- MkdirAt on any path: it either changes nothing, or it adds one empty directory under a name that was
-- free, in the directory that the path's last part is in.
mkdir_at-Promises :
    (now perm dir : ℕ) (name : Name) (fs : Fs)
    → Promises (Mkdir (resolve_parent name dir fs) fs) (mkdir_at now name perm dir fs) fs
unfolding mkdir_at
mkdir_at-Promises now perm dir name fs = mkdir_in_promise now perm (resolve_parent name dir fs) fs

-- RmdirAt on any path: it either changes nothing, or it takes away one name, that of a directory without
-- entries.
rmdir_at-Promises :
    (now dir : ℕ) (name : Name) (fs : Fs)
    → Promises (Rmdir (resolve_parent name dir fs) fs) (rmdir_at now name dir fs) fs
unfolding rmdir_at
rmdir_at-Promises now dir name fs = rmdir_in_promise now (resolve_parent name dir fs) fs

-- UnlinkAt on any path: it either changes nothing, or it takes away one name, that of a regular file.
unlink_at-Promises :
    (now dir : ℕ) (name : Name) (fs : Fs)
    → Promises (Unlink (resolve_parent name dir fs) fs) (unlink_at now name dir fs) fs
unfolding unlink_at
unlink_at-Promises now dir name fs = unlink_in_promise now (resolve_parent name dir fs) fs

-- A promise whose change keeps the tree.
pub kept :
    (change : View → Type 0) (r : Answer × Fs) (fs : Fs)
    → IsTree (view fs)
    → Promises change r fs
    → ((v : View) → change v → IsTree v)
    → IsTree (view r.1)
kept change (done, t) fs tree h k = k (view t) h
kept change (refused e, t) fs tree h k = subst (λ u. IsTree (view u)) (sym h) tree
kept change (crashes, t) fs tree h k = subst (λ u. IsTree (view u)) (sym h) tree
kept change (unfinished, t) fs tree h k = subst (λ u. IsTree (view u)) (sym h) tree

-- A new directory under a name.
entered_dir-IsTree :
    (d : ℕ) (b : Name) (v : View)
    → IsTree v
    → d < v.next
    → v.is_dir d ≡ true
    → IsTree (enter d b (some v.next) (make true (some d) v))
unfolding make
entered_dir-IsTree d b v t made k =
    enter-IsTree d b v.next (make true (some d) v) (make_dir-IsTree d v t made k) (omega arith)
      (ground arith) (omega arith) (ground (arith, t.root_made))
      (λ q. (ground arith, λ e x h. ground (arith, t.held e x v.next)))

pub entered_file-IsTree :
    (d : ℕ) (b : Name) (v : View)
    → IsTree v
    → d < v.next
    → v.is_dir d ≡ true
    → IsTree (enter d b (some v.next) (make false none v))
unfolding make
entered_file-IsTree d b v t made k =
    enter-IsTree d b v.next (make false none v) (make_file-IsTree v t) (omega arith) (ground arith)
      (omega arith) (ground (arith, t.root_made)) (λ q. absurd (ground arith))

pub mkdir_at-IsTree :
    (now perm dir : ℕ) (name : Name) (fs : Fs)
    → IsTree (view fs)
    → dir < fs.next
    → IsTree (view (mkdir_at now name perm dir fs).1)
unfolding view
mkdir_at-IsTree now perm dir name fs t made =
    kept (Mkdir (resolve_parent name dir fs) fs) (mkdir_at now name perm dir fs) fs t
      (mkdir_at-Promises now perm dir name fs)
      (λ v (d, b, l, free, e).
        let g : (d < fs.next) × ((fs.node d).is_dir ≡ true) =
          resolve_parent-IsGood name dir fs t made d b l in
        subst IsTree (sym e) (entered_dir-IsTree d b (view fs) t g.0 g.1))

pub rmdir_at-IsTree :
    (now dir : ℕ) (name : Name) (fs : Fs)
    → IsTree (view fs)
    → IsTree (view (rmdir_at now name dir fs).1)
rmdir_at-IsTree now dir name fs t =
    kept (Rmdir (resolve_parent name dir fs) fs) (rmdir_at now name dir fs) fs t
      (rmdir_at-Promises now dir name fs)
      (λ v (d, b, n, l, e, k, m, q). subst IsTree (sym q) (leave-IsTree d b (view fs) t))

pub unlink_at-IsTree :
    (now dir : ℕ) (name : Name) (fs : Fs)
    → IsTree (view fs)
    → IsTree (view (unlink_at now name dir fs).1)
unlink_at-IsTree now dir name fs t =
    kept (Unlink (resolve_parent name dir fs) fs) (unlink_at now name dir fs) fs t
      (unlink_at-Promises now dir name fs)
      (λ v (d, b, n, l, e, k, q). subst IsTree (sym q) (leave-IsTree d b (view fs) t))
