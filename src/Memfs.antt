-- ===== src/Memfs.antt =====
-- internal/memfs/memfs.go: the in-memory filesystem. Nodes are numbers in a heap; the clock is an
-- argument. A part of a method that runs under a lock is one step.
pub mod Contents
pub mod Entries
pub mod Path
pub mod Namespace
pub mod Rename
pub mod Listing
pub mod Tree
pub mod Clone
use Prim.Native.String.{String}
use pgzero.Base.{
  ℕ, zero, suc, ◌+◌, ◌-◌, ◌*◌, ◌/◌, ◌%◌, ◌^◌, ◌≤◌, ◌<◌, min, max, ◌≡◌, refl, sym, ap, ap₂, subst,
  ◌∙◌, fun_ext, ◌≢◌, ◌↔◌, ◌⊎◌, inl, inr, Bool, true, false, ◌&&◌, ◌||◌, not, Option, none, some,
  List, [], ◌∷◌, ◌++◌, map, arith, dec_lt, dec_le, ℕ_discrete, ltb, leb, ◌==◌, if◌then◌else◌,
  is_empty, is_some, Bool-cases, Option-cases, length, take, drop, update,
}

-- A file name or a whole path. Guests give paths as UTF-8, so a text stands for the bytes.
abbrev pub Name : Type 0
Name = String

pub data FsError : Type 0 where
  eperm enoent einval enotdir eisdir eexist enotempty exdev ebadf eof : FsError

pub data Result (A : Type 0) : Type 0 where
  ok : A → Result A
  err : FsError → Result A

pub record Node : Type 0 where
  pub is_dir : Bool
  pub perm : ℕ
  pub contents : List ℕ
  pub mod_time : ℕ
  -- directories only; each name at most once
  pub entries : List (Name × ℕ)
  -- nil for a regular file
  pub parent : Option ℕ

pub record Fs : Type 0 where
  pub node : ℕ → Node
  pub root : ℕ
  -- the nodes made so far are those below
  pub next : ℕ

-- An open file or directory, without its name, which is only reported back.
pub record File : Type 0 where
  pub inode : ℕ
  -- f.flag&accessModes != O_RDONLY
  pub writable : Bool
  -- f.flag&O_APPEND != 0
  pub appends : Bool
  -- an int64, as its bit pattern
  pub offset : ℕ
  pub dir_pos : ℕ

abbrev pub set_node : ℕ → Node → Fs → Fs
set_node n v fs = record fs { node = update fs.node n v }

pub touch : ℕ → ℕ → Fs → Fs
touch now n fs = set_node n (record (fs.node n) { mod_time = now }) fs
