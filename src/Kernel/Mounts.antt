-- ===== src/Kernel/Mounts.antt =====
-- internal/kernel/kernel.go, mountFor and hostPath: the mount that a guest's path is in. Paths are bytes.
pub mod Inside
pub mod Longest
pub mod Found
mod Tests
use pgzero.Base.{
  ℕ, zero, suc, ◌+◌, ◌-◌, ◌*◌, ◌/◌, ◌%◌, ◌^◌, ◌≤◌, ◌<◌, min, max, ◌≡◌, refl, sym, ap, ap₂, subst,
  ◌∙◌, fun_ext, ◌≢◌, ◌↔◌, ◌⊎◌, inl, inr, Bool, true, false, ◌&&◌, ◌||◌, not, Option, none, some,
  List, [], ◌∷◌, ◌++◌, map, arith, dec_lt, dec_le, ℕ_discrete, ltb, leb, ◌==◌, if◌then◌else◌,
  is_empty, is_some, Bool-cases, Option-cases, length, take, drop,
}
use pgzero.Paths.{Bytes, slash, clean, same_bytes, has_prefix, trim_slash, trim_prefix, join_path}

pub record Mount : Type 0 where
  pub guest_path : Bytes
  -- empty if the mount is not a host directory
  pub host_path : Bytes
  -- the mount has an fs.FS
  pub has_fs : Bool

-- the test of mountFor's loop, of cleaned paths
unfoldable pub is_in : Bytes → Bytes → Bool
is_in guest mp = same_bytes guest mp || has_prefix (trim_slash mp ++ slash ∷ []) guest

-- the length that mountFor compares
abbrev pub depth : Mount → ℕ
depth m = length (clean m.guest_path)

-- `best` is better than what comes after unless that is longer
unfoldable pub better : Option Mount → Mount → Option Mount
better none m = some m
better (some b) m = if ltb (depth b) (depth m) then some m else some b

-- the loop over the mounts; `best` is the one found so far
unfoldable pub find_mount : Bytes → Option Mount → List Mount → Option Mount
find_mount guest best [] = best
find_mount guest best (m ∷ ms) =
    find_mount guest (if is_in guest (clean m.guest_path) then better best m else best) ms

-- mountFor: the mount and the path in it
unfoldable pub mount_for : List Mount → Bytes → Option (Mount × Bytes)
mount_for ms guest = elim (find_mount (clean guest) none ms) [
  | none ↦ none
  | some m ↦ some (m, trim_prefix (slash ∷ []) (trim_prefix (clean m.guest_path) (clean guest)))
]

-- hostPath
unfoldable pub host_path : List Mount → Bytes → Option Bytes
host_path ms guest = elim (mount_for ms guest) [
  | none ↦ none
  | some r ↦ if is_empty r.0.host_path then none else some (join_path r.0.host_path r.1)
]
