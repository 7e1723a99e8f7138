-- ===== src/Memfs/Listing.antt =====
-- internal/memfs/memfs.go, Stat, StatAt and ReadDir.
pub mod Pages
mod Tests
use Prim.Native.Nat.{Ordering, lt, eq, gt}
use Prim.Native.String
use pgzero.Base.{
  ℕ, zero, suc, ◌+◌, ◌-◌, ◌*◌, ◌/◌, ◌%◌, ◌^◌, ◌≤◌, ◌<◌, min, max, ◌≡◌, refl, sym, ap, ap₂, subst,
  ◌∙◌, fun_ext, ◌≢◌, ◌↔◌, ◌⊎◌, inl, inr, Bool, true, false, ◌&&◌, ◌||◌, not, Option, none, some,
  List, [], ◌∷◌, ◌++◌, map, arith, dec_lt, dec_le, ℕ_discrete, ltb, leb, ◌==◌, if◌then◌else◌,
  is_empty, is_some, Bool-cases, Option-cases, length, take, drop, update,
}
use pgzero.Memfs.{Name, Node, Fs, File, FsError, Result, ok, err, enotdir, eof}
use pgzero.Memfs.Entries.{Entries}
use pgzero.Memfs.Path.{Walked, at, fails, panics, resolve}

-- fileInfo; size is the length of the contents
pub record Info : Type 0 where
  pub name : Name
  pub size : ℕ
  pub is_dir : Bool
  pub perm : ℕ
  pub mod_time : ℕ

abbrev pub info : Name → Node → Info
info name n = record {
  name = name;
  size = length n.contents;
  is_dir = n.is_dir;
  perm = n.perm;
  mod_time = n.mod_time;
}

-- Stat; the name is the one that the file was opened with
pub stat : Name → File → Fs → Info
stat name f fs = info name (fs.node f.inode)

pub data Stated : Type 0 where
  stated : Info → Stated
  not_stated : FsError → Stated
  stat_crashes : Stated

-- StatAt; `base` is path.Base of the path
pub stat_at : Name → Name → ℕ → Fs → Stated
stat_at name base dir fs = elim (resolve name dir fs) [
  | at n ↦ stated (info base (fs.node n))
  | fails e ↦ not_stated e
  | panics ↦ stat_crashes
]

-- the order of sort.Strings
pub before : Name → Name → Bool
before a b = elim (String.compare a b) [ lt ↦ true | eq ↦ false | gt ↦ false ]

pub insert_name : Name × ℕ → Entries → Entries
insert_name e [] = e ∷ []
insert_name e (d ∷ ds) =
    let rest = insert_name e ds in if before d.0 e.0 then d ∷ rest else e ∷ d ∷ ds

-- The names in order with their nodes; each name is there once, so looking it up gives this node.
pub sort_names : Entries → Entries
unfolding insert_name
sort_names [] = []
sort_names (e ∷ es) = insert_name e (sort_names es)

-- FileInfoToDirEntry
abbrev pub entry_info : Fs → Name × ℕ → Info
entry_info fs e = info e.0 (fs.node e.1)

-- ReadDir; a count that is not positive counts as 0
pub read_dir : ℕ → File → Fs → Result (List Info) × File
read_dir count f fs =
    if not (fs.node f.inode).is_dir
    then (err enotdir, f)
    else let names = sort_names (fs.node f.inode).entries in
      if leb (length names) f.dir_pos
      then (if count == 0 then ok [] else err eof, f)
      else let end : ℕ =
          if not (count == 0) && ltb (f.dir_pos + count) (length names)
          then f.dir_pos + count
          else length names in
        (
          ok (map (entry_info fs) (take (end - f.dir_pos) (drop f.dir_pos names))),
          record f { dir_pos = end },
        )
