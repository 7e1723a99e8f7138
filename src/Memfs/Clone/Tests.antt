-- ===== src/Memfs/Clone/Tests.antt =====
-- A small filesystem with a directory, a file and a second link to it.
use pgzero.Base.{ℕ, zero, suc, ◌+◌, ◌<◌, ◌≡◌, refl, true, false, some, List, [], ◌∷◌, arith, Assoc}
use pgzero.Memfs.{Fs}
use pgzero.Memfs.Entries.{AllDiffer}
use pgzero.Memfs.Path.{
  resolve, resolve_parent, go, go_up, go_down, walk, and_then, split, starts_slash, ends_slash,
  trim, locate_base, at_base,
}
use pgzero.Memfs.Namespace.{
  OpenFlags, add_entry, remove_entry, new_node, new_file, new_dir, mkdir_in, mkdir_at, open_at,
  open_node, open_or_create,
}
use pgzero.Memfs.Rename.{link_in, link_walked, link_into, link_at, other_dir}
use pgzero.Memfs.Tree.Runs.{Op, makes_dir, opens, links, run, step, new_fs, run-IsTree}
use pgzero.Memfs.Clone.{clone, clone_node, clone_entries, start_copy, set_entries}
use pgzero.Memfs.Clone.Contract.{IsClone}
use pgzero.Memfs.Clone.Independent.{clone-IsClone}

abbrev creating : OpenFlags
creating = record { creat = true; excl = false; trunc = false; writable = true; appends = false }

abbrev some_ops : List (ℕ × Op)
some_ops =
    (1, makes_dir "base" 448 0)
    ∷ (2, opens "base/pg" creating 384 0)
    ∷ (3, links "base/pg" (some 0) "log" 0)
    ∷ []

abbrev linked : Fs
linked = run some_ops (new_fs 0)

linked_next : linked.next ≡ 3
unfolding run step new_fs mkdir_at mkdir_in open_at open_or_create open_node link_in link_walked
    link_into link_at other_dir add_entry remove_entry new_node new_dir new_file resolve
    resolve_parent locate_base at_base walk go go_down go_up and_then split starts_slash ends_slash
    trim
linked_next = refl

all_differ : (d : ℕ) → d < linked.next → AllDiffer (linked.node d).entries
unfolding run step new_fs mkdir_at mkdir_in open_at open_or_create open_node link_in link_walked
    link_into link_at other_dir add_entry remove_entry new_node new_dir new_file resolve
    resolve_parent locate_base at_base walk go go_down go_up and_then split starts_slash ends_slash
    trim
all_differ zero h = (refl, (refl, tt))
all_differ (suc zero) h = (refl, tt)
all_differ (suc (suc zero)) h = tt
all_differ (suc (suc (suc d))) h = absurd (omega (arith, h))

-- the copies of the root, the directory and the file are 3, 5 and 4
clone_test :
    (m : Assoc ℕ) × (k : Fs) × (clone 4 linked ≡ some (k, m))
    × ((k.node 3).entries ≡ ("log", 4) ∷ ("base", 5) ∷ [])
    × ((k.node 5).entries ≡ ("pg", 4) ∷ [])
unfolding run step new_fs mkdir_at mkdir_in open_at open_or_create open_node link_in link_walked
    link_into link_at other_dir add_entry remove_entry new_node new_dir new_file resolve
    resolve_parent locate_base at_base walk go go_down go_up and_then split starts_slash ends_slash
    trim clone clone_node clone_entries start_copy set_entries
clone_test = (_, _, refl, refl, refl)

clone-IsClone_example :
    (m : Assoc ℕ) × (k : Fs) × (clone (linked.next + 1) linked ≡ some (k, m)) × IsClone linked m k
clone-IsClone_example = clone-IsClone linked (run-IsTree 0 some_ops) all_differ
