-- ===== src/Memfs/Namespace.antt =====
-- internal/memfs/memfs.go, the operations on names: OpenAt, ChtimesAt, MkdirAt, RmdirAt and UnlinkAt. Each
-- holds FS.ns all the time, so it is one step. A File's own directory is the argument dir.
use pgzero.Base.{
  update, ℕ, ◌+◌, ◌%◌, Bool, true, false, ◌&&◌, ◌||◌, not, none, some, [], if◌then◌else◌, is_empty,
}
use pgzero.Memfs.{
  Name, FsError, Node, Fs, File, set_node, enoent, enotdir, eisdir, eexist, enotempty,
}
use pgzero.Memfs.Entries.{find, add, remove}
use pgzero.Memfs.Path.{
  Walked, at, fails, panics, Located, located, not_located, crashed, resolve, resolve_parent,
}

-- How a call ends; `unfinished` is the loop of RenameAt out of fuel.
pub data Answer : Type 0 where
  done : Answer
  refused : FsError → Answer
  crashes : Answer
  unfinished : Answer

-- dir.entries[base] = n; dir.touch()
unfoldable pub add_entry : ℕ → ℕ → Name → ℕ → Fs → Fs
add_entry now dir base n fs =
    set_node dir
      (record (fs.node dir) { entries = add base n (fs.node dir).entries; mod_time = now }) fs

-- delete(dir.entries, base); dir.touch()
unfoldable pub remove_entry : ℕ → ℕ → Name → Fs → Fs
remove_entry now dir base fs =
    set_node dir
      (record (fs.node dir) { entries = remove base (fs.node dir).entries; mod_time = now }) fs

unfoldable pub new_node : Node → Fs → Fs
new_node v fs = record fs { node = update fs.node fs.next v; next = fs.next + 1 }

-- perm.Perm() | 0o600
abbrev pub file_perm : ℕ → ℕ
file_perm perm = perm % 128 + 384

-- perm.Perm() | 0o700
abbrev pub dir_perm : ℕ → ℕ
dir_perm perm = perm % 64 + 448

unfoldable pub new_file : ℕ → ℕ → Node
new_file now perm = record {
  is_dir = false;
  perm = file_perm perm;
  contents = [];
  mod_time = now;
  entries = [];
  parent = none;
}

unfoldable pub new_dir : ℕ → ℕ → ℕ → Node
new_dir now perm parent = record {
  is_dir = true;
  perm = dir_perm perm;
  contents = [];
  mod_time = now;
  entries = [];
  parent = some parent;
}

pub record OpenFlags : Type 0 where
  pub creat : Bool
  pub excl : Bool
  pub trunc : Bool
  pub writable : Bool
  pub appends : Bool

pub data Opened : Type 0 where
  opened : File → Opened
  not_opened : FsError → Opened
  open_crashes : Opened

unfoldable pub open_node : ℕ → OpenFlags → ℕ → Fs → Opened × Fs
open_node now flags n fs =
    let f : File = record {
      inode = n;
      writable = flags.writable;
      appends = flags.appends;
      offset = 0;
      dir_pos = 0;
    } in
    if (fs.node n).is_dir
    then (if flags.writable || flags.trunc then (not_opened eisdir, fs) else (opened f, fs))
    else if flags.trunc && flags.writable
    then (opened f, set_node n (record (fs.node n) { contents = []; mod_time = now }) fs)
    else (opened f, fs)

unfoldable pub open_or_create : ℕ → OpenFlags → ℕ → Located → Fs → Opened × Fs
open_or_create now flags perm (located d base) fs = elim (find base (fs.node d).entries) [
  | some n ↦ if flags.excl then (not_opened eexist, fs) else open_node now flags n fs
  | none ↦
      open_node now flags fs.next (add_entry now d base fs.next (new_node (new_file now perm) fs))
]
open_or_create now flags perm (not_located e) fs = (not_opened e, fs)
open_or_create now flags perm crashed fs = (open_crashes, fs)

unfoldable pub open_walked : ℕ → OpenFlags → Walked → Fs → Opened × Fs
open_walked now flags (at n) fs = open_node now flags n fs
open_walked now flags (fails e) fs = (not_opened e, fs)
open_walked now flags panics fs = (open_crashes, fs)

unfoldable pub open_at : ℕ → Name → OpenFlags → ℕ → ℕ → Fs → Opened × Fs
open_at now name flags perm dir fs =
    if flags.creat
    then open_or_create now flags perm (resolve_parent name dir fs) fs
    else open_walked now flags (resolve name dir fs) fs

unfoldable pub chtimes_walked : ℕ → Walked → Fs → Answer × Fs
chtimes_walked mtime (at n) fs = (done, set_node n (record (fs.node n) { mod_time = mtime }) fs)
chtimes_walked mtime (fails e) fs = (refused e, fs)
chtimes_walked mtime panics fs = (crashes, fs)

unfoldable pub chtimes_at : ℕ → Name → ℕ → Fs → Answer × Fs
unfolding chtimes_walked
chtimes_at mtime name dir fs = chtimes_walked mtime (resolve name dir fs) fs

unfoldable pub mkdir_in : ℕ → ℕ → Located → Fs → Answer × Fs
unfolding add_entry new_node new_dir
mkdir_in now perm (located d base) fs = elim (find base (fs.node d).entries) [
  | some n ↦ (refused eexist, fs)
  | none ↦ (done, add_entry now d base fs.next (new_node (new_dir now perm d) fs))
]
mkdir_in now perm (not_located e) fs = (refused e, fs)
mkdir_in now perm crashed fs = (crashes, fs)

unfoldable pub mkdir_at : ℕ → Name → ℕ → ℕ → Fs → Answer × Fs
unfolding mkdir_in
mkdir_at now name perm dir fs = mkdir_in now perm (resolve_parent name dir fs) fs

unfoldable pub rmdir_in : ℕ → Located → Fs → Answer × Fs
unfolding remove_entry
rmdir_in now (located d base) fs = elim (find base (fs.node d).entries) [
  | none ↦ (refused enoent, fs)
  | some n ↦
      if not (fs.node n).is_dir
      then (refused enotdir, fs)
      else if not (is_empty (fs.node n).entries)
      then (refused enotempty, fs)
      else (done, remove_entry now d base fs)
]
rmdir_in now (not_located e) fs = (refused e, fs)
rmdir_in now crashed fs = (crashes, fs)

unfoldable pub rmdir_at : ℕ → Name → ℕ → Fs → Answer × Fs
unfolding rmdir_in
rmdir_at now name dir fs = rmdir_in now (resolve_parent name dir fs) fs

unfoldable pub unlink_in : ℕ → Located → Fs → Answer × Fs
unfolding remove_entry
unlink_in now (located d base) fs = elim (find base (fs.node d).entries) [
  | none ↦ (refused enoent, fs)
  | some n ↦ if (fs.node n).is_dir then (refused eisdir, fs) else (done, remove_entry now d base fs)
]
unlink_in now (not_located e) fs = (refused e, fs)
unlink_in now crashed fs = (crashes, fs)

unfoldable pub unlink_at : ℕ → Name → ℕ → Fs → Answer × Fs
unfolding unlink_in
unlink_at now name dir fs = unlink_in now (resolve_parent name dir fs) fs
