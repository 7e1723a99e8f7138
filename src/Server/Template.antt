-- ===== src/Server/Template.antt =====
-- pgzero.go, initDataDir: copying the template of a cluster into a data directory. The archive is a list of
-- entries; which of the host's calls succeed are arguments.
pub mod Inside
use pgzero.Base.{
  ℕ, zero, suc, ◌+◌, ◌-◌, ◌*◌, ◌/◌, ◌%◌, ◌^◌, ◌≤◌, ◌<◌, min, max, ◌≡◌, refl, sym, ap, ap₂, subst,
  ◌∙◌, fun_ext, ◌≢◌, ◌↔◌, ◌⊎◌, inl, inr, Bool, true, false, ◌&&◌, ◌||◌, not, Option, none, some,
  List, [], ◌∷◌, ◌++◌, map, arith, dec_lt, dec_le, ℕ_discrete, ltb, leb, ◌==◌, if◌then◌else◌,
  is_empty, is_some, Bool-cases, Option-cases, length, take, drop, length-append,
}
use pgzero.Paths.{Bytes, slash, clean, has_prefix, join_path}

pub data Entry : Type 0 where
  directory : Bytes → Entry
  regular : Bytes → List ℕ → Entry
  other : Bytes → Entry

-- os.MkdirAll of a path, and os.OpenFile, io.Copy and Close
pub data Action : Type 0 where
  makes_dir : Bytes → Action
  writes : Bytes → List ℕ → Action

pub data Outcome : Type 0 where
  succeeded not_empty bad_path host_error : Outcome

abbrev pub name_of : Entry → Bytes
name_of (directory name) = name
name_of (regular name contents) = name
name_of (other name) = name

-- where an entry goes, or `none` for a bad path
unfoldable pub target : Bytes → Bytes → Option Bytes
target dir name =
    let t = join_path dir name in if has_prefix (clean dir ++ slash ∷ []) t then some t else none

-- an action that is tried, and what follows if it succeeds
abbrev pub tried : (Action → Bool) → Action → Outcome × List Action → Outcome × List Action
tried ok a rest = if ok a then (rest.0, a ∷ rest.1) else (host_error, a ∷ [])

-- the switch on the entry's type
abbrev pub put_entry :
    (Action → Bool) → Bytes → Entry → Outcome × List Action → Outcome × List Action
put_entry ok t (directory name) rest = tried ok (makes_dir t) rest
put_entry ok t (regular name contents) rest = tried ok (writes t contents) rest
put_entry ok t (other name) rest = rest

-- the loop over the archive: the outcome and all that is tried
unfoldable pub extract : (Action → Bool) → Bytes → List Entry → Outcome × List Action
extract ok dir [] = (succeeded, [])
extract ok dir (e ∷ es) =
    let rest = extract ok dir es in
    elim (target dir (name_of e)) [ none ↦ (bad_path, []) | some t ↦ put_entry ok t e rest ]

-- whether PG_VERSION is there, and whether the directory is known to have entries
unfoldable pub init_data_dir :
    (Action → Bool) → Bool → Bool → Bytes → List Entry → Outcome × List Action
init_data_dir ok has_version has_entries dir es =
    if has_version
    then (succeeded, [])
    else if has_entries
    then (not_empty, [])
    else tried ok (makes_dir dir) (extract ok dir es)
