-- ===== src/Memfs/Tree/Runs.antt =====
-- Sequences of operations on an empty filesystem.
use pgzero.Base.{
  ℕ, ◌≡◌, refl, subst, Bool, true, false, ◌&&◌, Option, none, some, List, [], ◌∷◌, arith, ltb, ◌==◌,
  if◌then◌else◌,
}
use pgzero.Memfs.{Name, Fs, File}
use pgzero.Memfs.Path.{resolve}
use pgzero.Memfs.Namespace.{mkdir_at, rmdir_at, unlink_at, open_at, OpenFlags, chtimes_at}
use pgzero.Memfs.Tree.{view, Chain, IsTree}
use pgzero.Memfs.Tree.Operations.{mkdir_at-IsTree, rmdir_at-IsTree, unlink_at-IsTree}
use pgzero.Memfs.Tree.Keeping.{rename_at-IsTree, link_at-IsTree}
use pgzero.Memfs.Rename.{rename_at, link_at}
use pgzero.Memfs.Contents.{fs_after, write_at, truncate}
use pgzero.Memfs.Tree.Opening.{truncate-IsTree, write_at-IsTree, chtimes-IsTree, open_at-IsTree}

-- New: a root that is its own parent.
unfoldable pub new_fs : ℕ → Fs
new_fs now = record {
  node = λ n. record {
    is_dir = n == 0;
    perm = 448;
    contents = [];
    mod_time = now;
    entries = [];
    parent = if n == 0 then some 0 else none;
  };
  root = 0;
  next = 1;
}

-- The calls of open files: dir is the node of an open directory, file of an open file; fuel is that of
-- RenameAt's loop.
pub data Op : Type 0 where
  opens : Name → OpenFlags → ℕ → ℕ → Op
  sets_time : ℕ → Name → ℕ → Op
  makes_dir : Name → ℕ → ℕ → Op
  removes_dir unlinks : Name → ℕ → Op
  renames : ℕ → Name → Option ℕ → Name → ℕ → Op
  links : Name → Option ℕ → Name → ℕ → Op
  -- the first list is what the file's array holds past its length
  writes : List ℕ → List ℕ → ℕ → File → Op
  truncates : List ℕ → ℕ → File → Op

-- An open file's node has been made.
abbrev pub has_made : Option ℕ → Fs → Bool
has_made none fs = true
has_made (some d) fs = ltb d fs.next

abbrev pub guarded : Bool → Fs → Fs → Fs
guarded b t fs = if b then t else fs

unfoldable pub step : ℕ → Op → Fs → Fs
step now (opens name flags perm dir) fs =
    guarded (ltb dir fs.next) (open_at now name flags perm dir fs).1 fs
step now (sets_time mtime name dir) fs =
    guarded (ltb dir fs.next) (chtimes_at mtime name dir fs).1 fs
step now (makes_dir name perm dir) fs =
    guarded (ltb dir fs.next) (mkdir_at now name perm dir fs).1 fs
step now (removes_dir name dir) fs = guarded (ltb dir fs.next) (rmdir_at now name dir fs).1 fs
step now (unlinks name dir) fs = guarded (ltb dir fs.next) (unlink_at now name dir fs).1 fs
step now (renames fuel old nd new dir) fs =
    guarded (ltb dir fs.next && has_made nd fs) (rename_at fuel now old nd new dir fs).1 fs
step now (links old nd new dir) fs =
    guarded (ltb dir fs.next && has_made nd fs) (link_at now old nd new dir fs).1 fs
step now (writes spare b off f) fs = fs_after fs (write_at now spare b off f fs)
step now (truncates spare size f) fs = (truncate now spare size f fs).1

-- each operation at its time
unfoldable pub run : List (ℕ × Op) → Fs → Fs
run [] fs = fs
run ((now, o) ∷ os) fs = run os (step now o fs)

guarded-IsTree :
    (b : Bool) (t fs : Fs)
    → IsTree (view fs)
    → (b ≡ true → IsTree (view t))
    → IsTree (view (guarded b t fs))
guarded-IsTree true t fs h k = k refl
guarded-IsTree false t fs h k = h

step-IsTree : (now : ℕ) (o : Op) (fs : Fs) → IsTree (view fs) → IsTree (view (step now o fs))
unfolding step
step-IsTree now (opens name flags perm dir) fs t =
    guarded-IsTree (ltb dir fs.next) _ fs t
      (λ g. open_at-IsTree now name flags perm dir fs t (ground arith))
step-IsTree now (sets_time mtime name dir) fs t =
    guarded-IsTree (ltb dir fs.next) _ fs t
      (λ g. unfold chtimes_at in chtimes-IsTree mtime (resolve name dir fs) fs t)
step-IsTree now (makes_dir name perm dir) fs t =
    guarded-IsTree (ltb dir fs.next) _ fs t
      (λ g. mkdir_at-IsTree now perm dir name fs t (ground arith))
step-IsTree now (removes_dir name dir) fs t =
    guarded-IsTree (ltb dir fs.next) _ fs t (λ g. rmdir_at-IsTree now dir name fs t)
step-IsTree now (unlinks name dir) fs t =
    guarded-IsTree (ltb dir fs.next) _ fs t (λ g. unlink_at-IsTree now dir name fs t)
step-IsTree now (renames fuel old nd new dir) fs t =
    guarded-IsTree (ltb dir fs.next && has_made nd fs) _ fs t
      (λ g. rename_at-IsTree fuel now dir old nd new fs t (λ d e. ground arith))
step-IsTree now (links old nd new dir) fs t =
    guarded-IsTree (ltb dir fs.next && has_made nd fs) _ fs t
      (λ g. link_at-IsTree now dir old nd new fs t (ground arith) (λ d e. ground arith))
step-IsTree now (writes spare b off f) fs t = write_at-IsTree now spare b off f fs t
step-IsTree now (truncates spare size f) fs t = truncate-IsTree now size spare f fs t

run_kept : (os : List (ℕ × Op)) (fs : Fs) → IsTree (view fs) → IsTree (view (run os fs))
unfolding run
run_kept [] fs t = t
run_kept ((now, o) ∷ os) fs t = run_kept os (step now o fs) (step-IsTree now o fs t)

new_fs-IsTree : (now : ℕ) → IsTree (view (new_fs now))
unfolding view new_fs
new_fs-IsTree now = record {
  root_dir = refl;
  root_made = omega arith;
  root_parent = refl;
  holder = λ d x c h. cc;
  held = λ d x c h. cc;
  child = λ d x c h k. cc;
  once = λ d x y c h g k. cc;
  chain = λ d m k. subst (Chain (view (new_fs now))) (omega arith) Chain.top;
  file_parent = λ c m k. absurd (ground arith);
}

-- From a new filesystem, after any calls through its open files, in any order and with any paths, its
-- directories are a tree: each but the root has at most one name, in its parent, and from each the parents
-- lead to the root; a name leads to a node that has been made, and never to the root.
pub run-IsTree : (now : ℕ) (os : List (ℕ × Op)) → IsTree (view (run os (new_fs now)))
run-IsTree now os = run_kept os (new_fs now) (new_fs-IsTree now)
