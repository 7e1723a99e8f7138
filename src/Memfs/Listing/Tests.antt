-- ===== src/Memfs/Listing/Tests.antt =====
-- A directory with four files, read two at a time; and one that loses a name between two pages.
use pgzero.Base.{
  ℕ, ◌≡◌, refl, Bool, true, false, none, some, [], ◌∷◌, map, arith, ◌==◌, if◌then◌else◌, length,
}
use pgzero.Memfs.{Name, Node, Fs, File, ok}
use pgzero.Memfs.Entries.{Entries, find, remove}
use pgzero.Memfs.Listing.{before, insert_name, sort_names, entry_info, read_dir}
use pgzero.Memfs.Listing.Pages.{read_all, read_all-lists}

abbrev four : Entries
four = ("b", 2) ∷ ("a", 1) ∷ ("d", 4) ∷ ("c", 3) ∷ []

abbrev node_of : Bool → Entries → Node
node_of is_dir es = record {
  is_dir = is_dir;
  perm = 0;
  contents = [];
  mod_time = 0;
  entries = es;
  parent = none;
}

abbrev small_fs : Entries → Fs
small_fs es = record {
  node = λ n. if n == 0 then node_of true es else node_of false [];
  root = 0;
  next = 5;
}

abbrev opened : ℕ → File
opened pos = record { inode = 0; writable = false; appends = false; offset = 0; dir_pos = pos }

read_all-lists_example :
    (names : Entries) × (read_all 5 2 (opened 0) (small_fs four)
      ≡ some (map (entry_info (small_fs four)) names))
    × (length names ≡ 4)
    × ((k : Name) → find k names ≡ find k four)
read_all-lists_example =
    read_all-lists 2 (opened 0) (small_fs four) refl refl (omega arith)
      (refl, (refl, (refl, (refl, tt))))

-- After the page "a", "b", the name "a" is removed: the next page has only "d".
skipped_test :
    (read_dir 2 (opened 0) (small_fs four)
      ≡ (ok (map (entry_info (small_fs four)) (("a", 1) ∷ ("b", 2) ∷ [])), opened 2))
    × (read_dir 2 (opened 2) (small_fs (remove "a" four))
        ≡ (ok (map (entry_info (small_fs four)) (("d", 4) ∷ [])), opened 3))
unfolding read_dir sort_names insert_name before
skipped_test = (refl, refl)
