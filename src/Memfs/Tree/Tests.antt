-- ===== src/Memfs/Tree/Tests.antt =====
-- A small filesystem with a directory and a file in it.
use pgzero.Base.{ℕ, ◌<◌, ◌≡◌, refl, ◌↔◌, true, false, some, List, [], ◌∷◌, arith}
use pgzero.Memfs.{enoent, Fs}
use pgzero.Memfs.Path.{
  at, fails, panics, located, resolve, resolve_parent, go, go_up, go_down, walk, and_then, split,
  starts_slash, ends_slash, trim, locate_base, at_base,
}
use pgzero.Memfs.Namespace.{
  add_entry, remove_entry, new_node, new_file, new_dir, mkdir_in, mkdir_at, open_at, open_node,
  open_or_create, OpenFlags,
}
use pgzero.Memfs.Tree.{view, IsTree}
use pgzero.Memfs.Rename.{
  rename_located, rename_at, ancestry, move, relink, set_parent, onto, rename_found, rename_into,
  other_dir,
}
use pgzero.Memfs.Tree.Operations.{Promises}
use pgzero.Memfs.Tree.Renaming.{Renames, rename_located-Promises, ancestry-Ends, Ends}
use pgzero.Memfs.Tree.Runs.{Op, makes_dir, opens, renames, run, step, new_fs, run-IsTree}
use pgzero.Memfs.Tree.Crashes.{UpFromFile, resolve_panics_iff}

abbrev creating : OpenFlags
creating = record { creat = true; excl = false; trunc = false; writable = true; appends = false }

abbrev some_ops : List (ℕ × Op)
some_ops =
    (1, makes_dir "base" 448 0)
    ∷ (2, makes_dir "base/wal" 448 0)
    ∷ (3, opens "base/pg" creating 384 0)
    ∷ (4, renames 9 "base/wal" (some 0) "log" 0)
    ∷ []

abbrev small_tree : Fs
small_tree = run some_ops (new_fs 0)

split_test : split "a//b" ≡ "a" ∷ "" ∷ "b" ∷ []
unfolding split
split_test = refl

renamed_test :
    (resolve "log" 0 small_tree ≡ at 2) × (resolve "base/wal" 0 small_tree ≡ fails enoent)
unfolding run step new_fs mkdir_at mkdir_in open_at open_or_create open_node rename_at rename_into
    other_dir rename_located rename_found onto move ancestry relink set_parent add_entry
    remove_entry new_node new_dir new_file resolve resolve_parent locate_base at_base walk go
    go_down go_up and_then split starts_slash ends_slash trim
renamed_test = (refl, refl)

-- A path through a regular file: the host panics.
crash_test : resolve "base/pg/.." 0 small_tree ≡ panics
unfolding run step new_fs mkdir_at mkdir_in open_at open_or_create open_node rename_at rename_into
    other_dir rename_located rename_found onto move ancestry relink set_parent add_entry
    remove_entry new_node new_dir new_file resolve resolve_parent locate_base at_base walk go
    go_down go_up and_then split starts_slash ends_slash trim
crash_test = refl

root_made_test : 0 < small_tree.next
unfolding run step new_fs mkdir_at mkdir_in open_at open_or_create open_node rename_at rename_into
    other_dir rename_located rename_found onto move ancestry relink set_parent add_entry
    remove_entry new_node new_dir new_file resolve resolve_parent locate_base at_base walk go
    go_down go_up and_then split starts_slash ends_slash trim
root_made_test = omega arith

run-IsTree_example : IsTree (view (run some_ops (new_fs 0)))
run-IsTree_example = run-IsTree 0 some_ops

rename_located-Promises_example :
    Promises
      (Renames (located 0 "log") (located 0 "old") small_tree)
      (rename_located 9 5 (located 0 "log") (located 0 "old") small_tree)
      small_tree
rename_located-Promises_example =
    rename_located-Promises 9 5 (located 0 "log") (located 0 "old") small_tree

ancestry-Ends_example : (k : ℕ) × Ends 2 0 (new_fs 0) k
unfolding new_fs run
ancestry-Ends_example = ancestry-Ends 2 0 (new_fs 0) (run-IsTree 0 []) (omega arith) refl

resolve_panics_iff_example :
    (resolve "base/pg/.." 0 small_tree ≡ panics)
    ↔ ((starts_slash "base/pg/.." ≡ false) × UpFromFile (split "base/pg/..") 0 small_tree)
resolve_panics_iff_example =
    resolve_panics_iff "base/pg/.." 0 small_tree (run-IsTree 0 some_ops) root_made_test
