-- ===== src/Osfs.antt =====
-- internal/osfs/osfs.go: a directory of the host, as files that open, make and remove other files below it.
-- The operating system is a record of functions on a state of its own; a path is bytes, an open file a number.
pub mod Below
pub mod Confined
mod Tests
use pgzero.Base.{
  ℕ, zero, suc, ◌+◌, ◌-◌, ◌*◌, ◌/◌, ◌%◌, ◌^◌, ◌≤◌, ◌<◌, min, max, ◌≡◌, refl, sym, ap, ap₂, subst,
  ◌∙◌, fun_ext, ◌≢◌, ◌↔◌, ◌⊎◌, inl, inr, Bool, true, false, ◌&&◌, ◌||◌, not, Option, none, some,
  List, [], ◌∷◌, ◌++◌, map, arith, dec_lt, dec_le, ℕ_discrete, ltb, leb, ◌==◌, if◌then◌else◌,
  is_empty, is_some, Bool-cases, Option-cases, length, take, drop,
}
use pgzero.Paths.{
  Bytes, dot, slash, up, split, clean, same_bytes, has_prefix, is_abs, is_dot, is_up, join_path,
}

-- what the methods return for an error: their own errors, and those of the host
pub data Failure : Type 0 where
  permission invalid not_dir is_a_dir : Failure
  os_error : ℕ → Failure

-- package os, on the host's state and with its own fs.FileInfo
pub record Host (W Info : Type 0) : Type 0 where
  pub open_file : Bytes → ℕ → ℕ → W → (ℕ ⊎ ℕ) × W
  pub lstat : Bytes → W → (Info ⊎ ℕ) × W
  pub readlink : Bytes → W → (Bytes ⊎ ℕ) × W
  pub mkdir : Bytes → ℕ → W → Option ℕ × W
  pub remove : Bytes → W → Option ℕ × W
  pub symlink : Bytes → Bytes → W → Option ℕ × W
  pub chtimes : Bytes → ℕ → ℕ → W → Option ℕ × W
  pub is_dir : Info → Bool

pub record File : Type 0 where
  pub handle : ℕ
  pub path : Bytes

-- what a method answers: no error, a file, an fs.FileInfo, a link's target, or an error
pub data Answer (Info : Type 0) : Type 0 where
  done : Answer Info
  opened : File → Answer Info
  info : Info → Answer Info
  link : Bytes → Answer Info
  failed : Failure → Answer Info

-- fs.ErrPermission is `none`
unfoldable pub resolve : File → Bytes → Option Bytes
resolve f name =
    let c = clean name in
    if is_abs c || same_bytes c up || has_prefix (dot ∷ dot ∷ slash ∷ []) c
    then none
    else some (join_path f.path c)

-- an error that the host's call returns
unfoldable pub returned : {W Info : Type 0} → Option ℕ × W → Answer Info × W
returned (none, w) = (done, w)
returned (some e, w) = (failed (os_error e), w)

unfoldable pub file_returned : {W Info : Type 0} → Bytes → (ℕ ⊎ ℕ) × W → Answer Info × W
file_returned p (inl h, w) = (opened (record { handle = h; path = p }), w)
file_returned p (inr e, w) = (failed (os_error e), w)

unfoldable pub info_returned : {W Info : Type 0} → (Info ⊎ ℕ) × W → Answer Info × W
info_returned (inl i, w) = (info i, w)
info_returned (inr e, w) = (failed (os_error e), w)

unfoldable pub link_returned : {W Info : Type 0} → (Bytes ⊎ ℕ) × W → Answer Info × W
link_returned (inl t, w) = (link t, w)
link_returned (inr e, w) = (failed (os_error e), w)

unfoldable pub all_names : List Bytes → Bool
all_names [] = true
all_names (p ∷ ps) = let rest = all_names ps in not (is_empty p || is_dot p || is_up p) && rest

-- fs.ValidPath, by its documentation
unfoldable pub valid_path : (Bytes → Bool) → Bytes → Bool
valid_path utf8 name = utf8 name && (is_dot name || all_names (split name))

-- how each method starts: an error of resolve is the answer, and the host is not asked
unfoldable pub resolved :
    {W Info : Type 0} → File → Bytes → (Bytes → W → Answer Info × W) → W → Answer Info × W
resolved f name call w = elim (resolve f name) [ none ↦ (failed permission, w) | some p ↦ call p w ]

module _ {W Info : Type 0} (host : Host W Info) where
  -- openFile
  unfoldable pub open_path : ℕ → ℕ → Bytes → W → Answer Info × W
  open_path flag perm p w = file_returned p (host.open_file p flag perm w)

  -- Dir's Open; 0 is os.O_RDONLY
  unfoldable pub open_dir : (Bytes → Bool) → Bytes → Bytes → W → Answer Info × W
  open_dir utf8 dir name w =
      if not (valid_path utf8 name)
      then (failed invalid, w)
      else open_path 0 0 (join_path dir name) w

  unfoldable pub open_at : File → Bytes → ℕ → ℕ → W → Answer Info × W
  open_at f name flag perm w = resolved f name (open_path flag perm) w

  unfoldable pub stat_path : Bytes → W → Answer Info × W
  stat_path p w = info_returned (host.lstat p w)

  unfoldable pub stat_at : File → Bytes → W → Answer Info × W
  stat_at f name w = resolved f name stat_path w

  unfoldable pub read_path : Bytes → W → Answer Info × W
  read_path p w = link_returned (host.readlink p w)

  unfoldable pub readlink_at : File → Bytes → W → Answer Info × W
  readlink_at f name w = resolved f name read_path w

  unfoldable pub mkdir_at : File → Bytes → ℕ → W → Answer Info × W
  mkdir_at f name perm w = resolved f name (λ p v. returned (host.mkdir p perm v)) w

  -- the rest of RmdirAt after os.Lstat: a directory only
  unfoldable pub remove_dir : Bytes → (Info ⊎ ℕ) × W → Answer Info × W
  remove_dir p (inr e, w) = (failed (os_error e), w)
  remove_dir p (inl i, w) =
      if not (host.is_dir i) then (failed not_dir, w) else returned (host.remove p w)

  unfoldable pub rmdir_at : File → Bytes → W → Answer Info × W
  rmdir_at f name w = resolved f name (λ p v. remove_dir p (host.lstat p v)) w

  -- the rest of UnlinkAt: anything else
  unfoldable pub remove_file : Bytes → (Info ⊎ ℕ) × W → Answer Info × W
  remove_file p (inr e, w) = (failed (os_error e), w)
  remove_file p (inl i, w) =
      if host.is_dir i then (failed is_a_dir, w) else returned (host.remove p w)

  unfoldable pub unlink_at : File → Bytes → W → Answer Info × W
  unlink_at f name w = resolved f name (λ p v. remove_file p (host.lstat p v)) w

  unfoldable pub symlink_at : File → Bytes → Bytes → W → Answer Info × W
  symlink_at f target name w = resolved f name (λ p v. returned (host.symlink target p v)) w

  unfoldable pub chtimes : File → ℕ → ℕ → W → Answer Info × W
  chtimes f atime mtime w = returned (host.chtimes f.path atime mtime w)

  unfoldable pub chtimes_at : File → Bytes → ℕ → ℕ → W → Answer Info × W
  chtimes_at f name atime mtime w =
      resolved f name (λ p v. returned (host.chtimes p atime mtime v)) w
