-- ===== src/Memfs/Rename.antt =====
-- internal/memfs/memfs.go: RenameAt and LinkAt. The new directory is the node of an open file of this
-- filesystem, or `none` if the file is another's.
use pgzero.Base.{
  ℕ, zero, suc, ◌⊎◌, inl, inr, ◌&&◌, not, Option, none, some, ◌==◌, if◌then◌else◌, is_empty,
}
use pgzero.Memfs.{
  Name, FsError, Fs, set_node, eperm, enoent, einval, enotdir, eisdir, eexist, enotempty, exdev,
}
use pgzero.Memfs.Entries.{find}
use pgzero.Memfs.Path.{
  Walked, at, fails, panics, Located, located, not_located, crashed, resolve, resolve_parent,
}
use pgzero.Memfs.Namespace.{Answer, done, refused, crashes, unfinished, add_entry, remove_entry}

unfoldable pub other_dir : Option ℕ → Fs → ℕ ⊎ FsError
other_dir none fs = inr exdev
other_dir (some d) fs = if not (fs.node d).is_dir then inr enotdir else inl d

-- what the loop from a directory up finds
pub data Ancestry : Type 0 where
  inside outside nil_parent loops : Ancestry

unfoldable pub ancestry : ℕ → ℕ → ℕ → Fs → Ancestry
ancestry zero n d fs = loops
ancestry (suc fuel) n d fs =
    let up : Ancestry = elim (fs.node d).parent [
      | none ↦ nil_parent
      | some p ↦ ancestry fuel n p fs
    ] in
    if d == n then inside else if d == fs.root then outside else up

-- An existing target other than the node itself.
unfoldable pub target_error : ℕ → ℕ → Fs → Option FsError
target_error n target fs =
    if (fs.node n).is_dir && not (fs.node target).is_dir
    then some enotdir
    else if not (fs.node n).is_dir && (fs.node target).is_dir
    then some eisdir
    else if (fs.node target).is_dir && not (is_empty (fs.node target).entries)
    then some enotempty
    else none

unfoldable pub set_parent : ℕ → ℕ → Fs → Fs
set_parent n d fs = set_node n (record (fs.node n) { parent = some d }) fs

unfoldable pub relink : ℕ → ℕ → Name → ℕ → Name → ℕ → Fs → Fs
unfolding add_entry remove_entry
relink now odir obase ndir nbase n fs = add_entry now ndir nbase n (remove_entry now odir obase fs)

-- from `if n.isDir()` on
unfoldable pub move : ℕ → ℕ → ℕ → Name → ℕ → Name → ℕ → Fs → Answer × Fs
move fuel now odir obase ndir nbase n fs =
    if not (fs.node n).is_dir
    then (done, relink now odir obase ndir nbase n fs)
    else elim (ancestry fuel n ndir fs) [
      | inside ↦ (refused einval, fs)
      | nil_parent ↦ (crashes, fs)
      | loops ↦ (unfinished, fs)
      | outside ↦ (done, relink now odir obase ndir nbase n (set_parent n ndir fs))
    ]

unfoldable pub onto : ℕ → ℕ → ℕ → Name → ℕ → Name → Fs → ℕ → Option ℕ → Answer × Fs
onto fuel now odir obase ndir nbase fs n none = move fuel now odir obase ndir nbase n fs
onto fuel now odir obase ndir nbase fs n (some target) =
    if target == n then (done, fs) else elim (target_error n target fs) [
      | some e ↦ (refused e, fs)
      | none ↦ move fuel now odir obase ndir nbase n fs
    ]

unfoldable pub rename_found : ℕ → ℕ → ℕ → Name → ℕ → Name → Fs → Option ℕ → Answer × Fs
rename_found fuel now odir obase ndir nbase fs none = (refused enoent, fs)
rename_found fuel now odir obase ndir nbase fs (some n) =
    onto fuel now odir obase ndir nbase fs n (find nbase (fs.node ndir).entries)

unfoldable pub rename_located : ℕ → ℕ → Located → Located → Fs → Answer × Fs
unfolding rename_found onto
rename_located fuel now (located odir obase) (located ndir nbase) fs =
    rename_found fuel now odir obase ndir nbase fs (find obase (fs.node odir).entries)
rename_located fuel now (located odir obase) (not_located e) fs = (refused e, fs)
rename_located fuel now (located odir obase) crashed fs = (crashes, fs)
rename_located fuel now (not_located e) new fs = (refused e, fs)
rename_located fuel now crashed new fs = (crashes, fs)

unfoldable pub rename_into : ℕ → ℕ → Name → Name → ℕ → Fs → ℕ ⊎ FsError → Answer × Fs
rename_into fuel now old new dir fs (inr e) = (refused e, fs)
rename_into fuel now old new dir fs (inl nd) =
    rename_located fuel now (resolve_parent old dir fs) (resolve_parent new nd fs) fs

unfoldable pub rename_at : ℕ → ℕ → Name → Option ℕ → Name → ℕ → Fs → Answer × Fs
rename_at fuel now old new_dir new dir fs =
    rename_into fuel now old new dir fs (other_dir new_dir fs)

unfoldable pub link_in : ℕ → ℕ → Located → Fs → Answer × Fs
link_in now n (located d base) fs = elim (find base (fs.node d).entries) [
  | some _ ↦ (refused eexist, fs)
  | none ↦ (done, add_entry now d base n fs)
]
link_in now n (not_located e) fs = (refused e, fs)
link_in now n crashed fs = (crashes, fs)

unfoldable pub link_walked : ℕ → Walked → Located → Fs → Answer × Fs
link_walked now (at n) new fs =
    if (fs.node n).is_dir then (refused eperm, fs) else link_in now n new fs
link_walked now (fails e) new fs = (refused e, fs)
link_walked now panics new fs = (crashes, fs)

unfoldable pub link_into : ℕ → Name → Name → ℕ → Fs → ℕ ⊎ FsError → Answer × Fs
link_into now old new dir fs (inr e) = (refused e, fs)
link_into now old new dir fs (inl nd) =
    link_walked now (resolve old dir fs) (resolve_parent new nd fs) fs

unfoldable pub link_at : ℕ → Name → Option ℕ → Name → ℕ → Fs → Answer × Fs
link_at now old new_dir new dir fs = link_into now old new dir fs (other_dir new_dir fs)
