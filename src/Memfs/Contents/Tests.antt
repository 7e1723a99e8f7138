-- ===== src/Memfs/Contents/Tests.antt =====
-- Writes, reads and truncations of a small file.
use pgzero.Base.{some, some, ℕ, arith, Option, none, ◌≡◌, refl, true, false, [], ◌∷◌}
use pgzero.Memfs.Contents.{
  fs_after, grown, copy_at, to_end, write_on, write, grow, overwrite, write_contents, write_at,
}
use pgzero.Memfs.{FsError, Node, Fs, File}
use pgzero.Memfs.Contents.Bytes.{write_at-WriteEnds, WriteEnds}

abbrev file_node : Node
file_node = record {
  is_dir = false;
  perm = 420;
  contents = 1 ∷ 2 ∷ 3 ∷ [];
  mod_time = 0;
  entries = [];
  parent = none;
}

abbrev small_fs : Fs
small_fs = record { node = λ _. file_node; root = 0; next = 2 }

abbrev handle : File
handle = record { inode = 1; writable = true; appends = false; offset = 0; dir_pos = 0 }

-- The array still holds 9 and 8 past the file's end, which a gap does not show.
gap_test :
    ((fs_after small_fs (write_at 9 (9 ∷ 8 ∷ 7 ∷ []) (7 ∷ []) 5 handle small_fs)).node 1).contents
    ≡ 1 ∷ 2 ∷ 3 ∷ 0 ∷ 0 ∷ 7 ∷ []
unfolding write_at write_contents grown copy_at overwrite grow
gap_test = refl

-- Two open files append: the second write between the two halves of the first is overwritten.
abbrev appender : File
appender = record handle { appends = true }

abbrev fs_of : Option (ℕ × Option FsError × File × Fs) → Fs
fs_of none = small_fs
fs_of (some (n, e, f, fs)) = fs

lost_append_test :
    let fs = fs_of (write 9 [] (7 ∷ []) appender small_fs) in
    let fs' = fs_of (write_on 9 [] (8 ∷ []) (to_end appender small_fs) fs) in
    (fs'.node 1).contents ≡ 1 ∷ 2 ∷ 3 ∷ 8 ∷ []
unfolding write write_on to_end write_at write_contents grown copy_at overwrite grow
lost_append_test = refl

-- At the largest int64 the end of the write wraps, and the call panics.
wrapped_test : write_at 9 [] (7 ∷ []) 9223372036854775807 handle small_fs ≡ none
unfolding write_at write_contents grown copy_at overwrite grow
wrapped_test = refl

write_at-WriteEnds_example : WriteEnds 9 (9 ∷ []) (7 ∷ []) 5 handle small_fs
write_at-WriteEnds_example = write_at-WriteEnds 9 (9 ∷ []) (7 ∷ []) 5 handle small_fs (omega arith)
