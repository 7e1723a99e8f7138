-- ===== src/Memfs/Tree/Opening.antt =====
-- What opening a file, and changes of contents and times, keep of the tree.
use pgzero.Base.{
  length, is_neg64, ℕ, ◌<◌, ◌≡◌, refl, sym, ap, subst, ◌∙◌, inl, inr, Bool, true, false, ◌&&◌, ◌||◌,
  not, Option, none, some, List, [], if◌then◌else◌, Bool-cases, Option-cases,
}
use pgzero.Memfs.{FsError, eexist, Name, Fs, File, set_node}
use pgzero.Memfs.Entries.{find}
use pgzero.Memfs.Path.{
  Walked, at, fails, panics, Located, located, not_located, crashed, resolve, resolve_parent,
}
use pgzero.Memfs.Namespace.{
  Opened, not_opened, add_entry, new_node, new_file, open_at, open_node, open_or_create,
  open_walked, OpenFlags, chtimes_walked,
}
use pgzero.Memfs.Tree.{view, enter, make, IsTree}
use pgzero.Memfs.Tree.Operations.{entered_file-IsTree}
use pgzero.Memfs.Tree.Views.{
  view-add_entry, view-new_file, view-set_contents, view-set_time, resolve_parent-IsGood, IsGood,
}
use pgzero.Memfs.Contents.{fs_after, Written, store_contents, write_contents, write_at, truncate}

-- either branch of an if
branch : {B : Type 0} (P : B → Type 0) (b : Bool) (x y : B) → P x → P y → P (if b then x else y)
branch P true x y p q = p
branch P false x y p q = q

set_contents-IsTree :
    (n now : ℕ) (c : List ℕ) (fs : Fs)
    → IsTree (view fs)
    → IsTree (view (set_node n (record (fs.node n) { contents = c; mod_time = now }) fs))
set_contents-IsTree n now c fs t = subst IsTree (sym (view-set_contents n now c fs)) t

open_node-IsTree :
    (now : ℕ) (flags : OpenFlags) (n : ℕ) (fs : Fs)
    → IsTree (view fs)
    → IsTree (view (open_node now flags n fs).1)
unfolding open_node
open_node-IsTree now flags n fs t =
    branch (λ (r : Opened × Fs). IsTree (view r.1)) (fs.node n).is_dir _ _
      (branch (λ (r : Opened × Fs). IsTree (view r.1)) (flags.writable || flags.trunc) _ _ t t)
      (branch (λ (r : Opened × Fs). IsTree (view r.1)) (flags.trunc && flags.writable) _ _
        (set_contents-IsTree n now [] fs t) t)

tree_of : {A : Type 0} {r : A × Fs} (s : A × Fs) → r ≡ s → IsTree (view s.1) → IsTree (view r.1)
tree_of s e t = subst (λ r. IsTree (view r.1)) (sym e) t

created :
    (d : ℕ) (b : Name) (fs : Fs)
    → IsTree (view fs)
    → (d < fs.next) × ((fs.node d).is_dir ≡ true)
    → IsTree (enter d b (some fs.next) (make false none (view fs)))
unfolding view
created d b fs t g = entered_file-IsTree d b (view fs) t g.0 g.1

open_or_create-IsTree :
    (now : ℕ) (flags : OpenFlags) (perm : ℕ) (l : Located) (fs : Fs)
    → IsTree (view fs)
    → IsGood l fs
    → IsTree (view (open_or_create now flags perm l fs).1)
unfolding open_or_create
open_or_create-IsTree now flags perm (located d b) fs t good =
    elim (Option-cases (find b (fs.node d).entries)) [
      | inr (n, e) ↦ elim (Bool-cases flags.excl) [
        | inl x ↦
            tree_of {r = open_or_create now flags perm (located d b) fs} (not_opened eexist, fs)
              (rw (e, x, open_or_create) refl) t
        | inr x ↦
            tree_of {r = open_or_create now flags perm (located d b) fs} (open_node now flags n fs)
              (rw (e, x, open_or_create) refl) (open_node-IsTree now flags n fs t)
      ]
      | inl e ↦
          let made : Fs = add_entry now d b fs.next (new_node (new_file now perm) fs) in
          let v : view made ≡ enter d b (some fs.next) (make false none (view fs)) =
            view-add_entry now d b fs.next (new_node (new_file now perm) fs)
            ∙ ap (enter d b (some fs.next)) (view-new_file now perm fs) in
          tree_of {r = open_or_create now flags perm (located d b) fs}
            (open_node now flags fs.next made) (rw (e, open_or_create) refl)
            (open_node-IsTree now flags fs.next made
              (subst IsTree (sym v) (created d b fs t (good d b refl))))
    ]
open_or_create-IsTree now flags perm (not_located e) fs t good = t
open_or_create-IsTree now flags perm crashed fs t good = t

open_walked-IsTree :
    (now : ℕ) (flags : OpenFlags) (w : Walked) (fs : Fs)
    → IsTree (view fs)
    → IsTree (view (open_walked now flags w fs).1)
unfolding open_walked
open_walked-IsTree now flags (at n) fs t = open_node-IsTree now flags n fs t
open_walked-IsTree now flags (fails e) fs t = t
open_walked-IsTree now flags panics fs t = t

pub open_at-IsTree :
    (now : ℕ) (name : Name) (flags : OpenFlags) (perm dir : ℕ) (fs : Fs)
    → IsTree (view fs)
    → dir < fs.next
    → IsTree (view (open_at now name flags perm dir fs).1)
unfolding open_at
open_at-IsTree now name flags perm dir fs t made =
    branch (λ (r : Opened × Fs). IsTree (view r.1)) flags.creat _ _
      (open_or_create-IsTree now flags perm (resolve_parent name dir fs) fs t
        (resolve_parent-IsGood name dir fs t made))
      (open_walked-IsTree now flags (resolve name dir fs) fs t)

pub chtimes-IsTree :
    (mtime : ℕ) (w : Walked) (fs : Fs)
    → IsTree (view fs)
    → IsTree (view (chtimes_walked mtime w fs).1)
unfolding chtimes_walked
chtimes-IsTree mtime (at n) fs t = subst IsTree (sym (view-set_time n mtime fs)) t
chtimes-IsTree mtime (fails e) fs t = t
chtimes-IsTree mtime panics fs t = t

pub write_at-IsTree :
    (now : ℕ) (spare b : List ℕ) (off : ℕ) (f : File) (fs : Fs)
    → IsTree (view fs)
    → IsTree (view (fs_after fs (write_at now spare b off f fs)))
unfolding write_at
write_at-IsTree now spare b off f fs t =
    branch (λ (r : Written). IsTree (view (fs_after fs r))) (fs.node f.inode).is_dir _ _ t
      (branch (λ (r : Written). IsTree (view (fs_after fs r))) (not f.writable) _ _ t
        (branch (λ (r : Written). IsTree (view (fs_after fs r))) (is_neg64 off) _ _ t
          (by_contents (write_contents (fs.node f.inode).contents spare off b))))
  where
    by_contents :
        (c : Option (List ℕ))
        → IsTree (view (fs_after fs (store_contents now f.inode (length b) fs c)))
    by_contents none = t
    by_contents (some d) = set_contents-IsTree f.inode now d fs t

pub truncate-IsTree :
    (now size : ℕ) (spare : List ℕ) (f : File) (fs : Fs)
    → IsTree (view fs)
    → IsTree (view (truncate now spare size f fs).1)
unfolding truncate
truncate-IsTree now size spare f fs t =
    branch (λ (r : Option FsError × Fs). IsTree (view r.1)) (fs.node f.inode).is_dir _ _ t
      (branch (λ (r : Option FsError × Fs). IsTree (view r.1)) (is_neg64 size) _ _ t
        (set_contents-IsTree f.inode now _ fs t))
