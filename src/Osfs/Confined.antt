-- ===== src/Osfs/Confined.antt =====
-- What a file can ask of the host.
use mathlib.Core.List.{append-nil}
use pgzero.Base.{
  ℕ, ◌≡◌, refl, sym, ap, subst, ◌∙◌, ◌⊎◌, inl, inr, true, List, [], ◌++◌, Option-cases,
}
use pgzero.Paths.{Bytes, parts, is_abs}
use pgzero.Paths.Cleaning.{AreNormal}
use pgzero.Osfs.{
  Host, File, Answer, resolve, resolved, returned, file_returned, info_returned, link_returned,
  open_path, open_at, stat_path, stat_at, read_path, readlink_at, mkdir_at, remove_dir, rmdir_at,
  remove_file, unlink_at, symlink_at, chtimes, chtimes_at,
}
use pgzero.Osfs.Below.{Resolves, resolve-Resolves}

-- a path at or below a directory's
abbrev pub IsBelow : Bytes → Bytes → Type 0
IsBelow dir p = (r : List Bytes) × AreNormal r × (parts p ≡ parts dir ++ r)

-- The host's answers are the same at and below a directory; a link's target does not count.
pub record Agrees {W Info : Type 0} (dir : Bytes) (h k : Host W Info) : Type 0 where
  pub open_file :
      (p : Bytes) → IsBelow dir p → (a b : ℕ) (w : W) → h.open_file p a b w ≡ k.open_file p a b w
  pub lstat : (p : Bytes) → IsBelow dir p → (w : W) → h.lstat p w ≡ k.lstat p w
  pub readlink : (p : Bytes) → IsBelow dir p → (w : W) → h.readlink p w ≡ k.readlink p w
  pub mkdir : (p : Bytes) → IsBelow dir p → (a : ℕ) (w : W) → h.mkdir p a w ≡ k.mkdir p a w
  pub remove : (p : Bytes) → IsBelow dir p → (w : W) → h.remove p w ≡ k.remove p w
  pub symlink :
      (p : Bytes) → IsBelow dir p → (t : Bytes) (w : W) → h.symlink t p w ≡ k.symlink t p w
  pub chtimes :
      (p : Bytes) → IsBelow dir p → (a b : ℕ) (w : W) → h.chtimes p a b w ≡ k.chtimes p a b w
  pub is_dir : (i : Info) → h.is_dir i ≡ k.is_dir i

-- a call of a file's methods
pub data Request : Type 0 where
  open_ : Bytes → ℕ → ℕ → Request
  stat_ readlink_ rmdir_ unlink_ : Bytes → Request
  mkdir_ : Bytes → ℕ → Request
  symlink_ : Bytes → Bytes → Request
  times_ : ℕ → ℕ → Request
  times_at_ : Bytes → ℕ → ℕ → Request

unfoldable pub run : {W Info : Type 0} → Host W Info → File → Request → W → Answer Info × W
run h f (open_ n a b) w = open_at h f n a b w
run h f (stat_ n) w = stat_at h f n w
run h f (readlink_ n) w = readlink_at h f n w
run h f (rmdir_ n) w = rmdir_at h f n w
run h f (unlink_ n) w = unlink_at h f n w
run h f (mkdir_ n a) w = mkdir_at h f n a w
run h f (symlink_ t n) w = symlink_at h f t n w
run h f (times_ a b) w = chtimes h f a b w
run h f (times_at_ n a b) w = chtimes_at h f n a b w

module _ {W Info : Type 0} (h k : Host W Info) (f : File) (root : is_abs f.path ≡ true)
    (same : Agrees f.path h k) where
  resolved_same :
      (name : Bytes) (a b : Bytes → W → Answer Info × W)
      → ((p : Bytes) → IsBelow f.path p → (w : W) → a p w ≡ b p w)
      → (w : W) → resolved f name a w ≡ resolved f name b w
  unfolding resolved
  resolved_same name a b e w = elim (Option-cases (resolve f name)) [
    | inl o ↦ rw (o, resolved) refl
    | inr (p, o) ↦
        let (not_abs, no_up, abs, names, joined) =
          subst (Resolves f.path name) o (resolve-Resolves f name root) in
        rw (o, resolved) (e p (parts name, names, joined) w)
  ]

  itself : IsBelow f.path f.path
  itself = ([], tt, sym (append-nil (parts f.path)))

  remove_dir_same :
      (p : Bytes) → IsBelow f.path p → (r : (Info ⊎ ℕ) × W) → remove_dir h p r ≡ remove_dir k p r
  unfolding remove_dir
  remove_dir_same p i (inl x, u) = rw (same.is_dir x, same.remove p i u) refl
  remove_dir_same p i (inr x, u) = refl

  remove_file_same :
      (p : Bytes) → IsBelow f.path p → (r : (Info ⊎ ℕ) × W) → remove_file h p r ≡ remove_file k p r
  unfolding remove_file
  remove_file_same p i (inl x, u) = rw (same.is_dir x, same.remove p i u) refl
  remove_file_same p i (inr x, u) = refl

  -- In a directory whose path is absolute, with two hosts that answer alike for the paths at and below it and
  -- may differ at any other, every method that the adapter adds to a file (OpenAt, StatAt, ReadlinkAt,
  -- MkdirAt, RmdirAt, UnlinkAt, SymlinkAt, Chtimes and ChtimesAt) has the same answer and leaves the same
  -- host state: no name makes one of them ask about or change a path outside.
  pub run_confined : (r : Request) (w : W) → run h f r w ≡ run k f r w
  unfolding run open_at stat_at readlink_at rmdir_at unlink_at mkdir_at symlink_at chtimes
      chtimes_at open_path stat_path read_path remove_dir remove_file
  run_confined (open_ n a b) w =
      resolved_same n (open_path h a b) (open_path k a b)
        (λ p i v. ap (file_returned p) (same.open_file p i a b v)) w
  run_confined (stat_ n) w =
      resolved_same n (stat_path h) (stat_path k) (λ p i v. ap info_returned (same.lstat p i v)) w
  run_confined (readlink_ n) w =
      resolved_same n (read_path h) (read_path k) (λ p i v. ap link_returned (same.readlink p i v))
        w
  run_confined (rmdir_ n) w =
      resolved_same n (λ p v. remove_dir h p (h.lstat p v)) (λ p v. remove_dir k p (k.lstat p v))
        (λ p i v. remove_dir_same p i (h.lstat p v) ∙ ap (remove_dir k p) (same.lstat p i v)) w
  run_confined (unlink_ n) w =
      resolved_same n (λ p v. remove_file h p (h.lstat p v)) (λ p v. remove_file k p (k.lstat p v))
        (λ p i v. remove_file_same p i (h.lstat p v) ∙ ap (remove_file k p) (same.lstat p i v)) w
  run_confined (mkdir_ n a) w =
      resolved_same n (λ p v. returned (h.mkdir p a v)) (λ p v. returned (k.mkdir p a v))
        (λ p i v. ap returned (same.mkdir p i a v)) w
  run_confined (symlink_ t n) w =
      resolved_same n (λ p v. returned (h.symlink t p v)) (λ p v. returned (k.symlink t p v))
        (λ p i v. ap returned (same.symlink p i t v)) w
  run_confined (times_ a b) w = ap returned (same.chtimes f.path itself a b w)
  run_confined (times_at_ n a b) w =
      resolved_same n (λ p v. returned (h.chtimes p a b v)) (λ p v. returned (k.chtimes p a b v))
        (λ p i v. ap returned (same.chtimes p i a b v)) w
