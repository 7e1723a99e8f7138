-- ===== src/Kernel/Mounts/Found.antt =====
-- What mountFor and hostPath find, by the parts of the paths.
use pgzero.Base.{
  ◌≤◌, ◌<◌, ◌≡◌, refl, sym, ap, ap₂, subst, ◌∙◌, ◌⊎◌, inl, inr, true, false, Option, none, some,
  List, [], ◌∷◌, ◌++◌, arith, dec_lt, if◌then◌else◌, is_empty, Bool-cases, Option-cases, length,
  drop,
}
use pgzero.Paths.{Bytes, slash, join, parts, clean, is_abs, trim_prefix, join_path}
use pgzero.Paths.Cleaning.{AreNormal, parts-AreNormal}
use pgzero.Kernel.Mounts.{Mount, is_in, find_mount, mount_for, host_path}
use pgzero.Paths.Joining.{rooted, clean-rooted, join_path-parts}
use pgzero.Kernel.Mounts.Inside.{
  IsUnder, is_in-IsUnder, IsUnder-is_in, trim_prefix_inside, length-rooted,
}
use pgzero.Kernel.Mounts.Longest.{IsMounted, IsBest, find_mount-IsMounted}

abbrev first : List Bytes → Bytes
first [] = []
first (p ∷ ps) = p

-- of two lists that start another, the longer starts with the shorter
longer_starts :
    (qs ps r s : List Bytes)
    → qs ++ r ≡ ps ++ s
    → length qs < length ps
    → (x : List Bytes) × (ps ≡ qs ++ x) × (is_empty x ≡ false)
longer_starts qs [] r s e l = absurd (omega (arith, l))
longer_starts [] (p ∷ ps) r s e l = (p ∷ ps, refl, refl)
longer_starts (q ∷ qs) (p ∷ ps) r s e l =
    let (x, k, n) = longer_starts qs ps r s (ap (drop 1) e) (omega (arith, l)) in
    (x, ap₂ (λ a b. a ∷ b) (sym (ap first e)) k, n)

pub AreNormal-suffix : (ps qs : List Bytes) → AreNormal (ps ++ qs) → AreNormal qs
AreNormal-suffix [] qs h = h
AreNormal-suffix (p ∷ ps) qs h = AreNormal-suffix ps qs h.1

-- the deeper of two places above a path has the longer text
deeper :
    (gs ps qs : List Bytes)
    → AreNormal ps
    → IsUnder gs ps
    → IsUnder gs qs
    → length (rooted ps) ≤ length (rooted qs)
    → length ps ≤ length qs
deeper gs ps qs n (s, e) (r, k) l = elim (dec_lt (length qs) (length ps)) [
  | no h ↦ omega (arith, h)
  | yes h ↦
      let (x, y, z) = longer_starts qs ps r s (sym k ∙ e) h in
      absurd (
        omega (
          arith,
          l,
          ap (λ t. length (rooted t)) y,
          length-rooted qs x z (AreNormal-suffix qs x (subst AreNormal y n)),
        ))
]

-- The innermost mount that a path is in, and the rest of the path; or the path is in none.
abbrev pub IsMountOf : List Mount → Bytes → Option (Mount × Bytes) → Type 0
IsMountOf ms guest none =
    (m : Mount) → IsMounted ms m → IsUnder (parts guest) (parts m.guest_path) → ⊥
IsMountOf ms guest (some (m, rel)) =
    IsMounted ms m
    × ((r : List Bytes) × AreNormal r × (parts guest ≡ parts m.guest_path ++ r) × (rel ≡ join r))
    × ((n : Mount)
        → IsMounted ms n
        → IsUnder (parts guest) (parts n.guest_path)
        → length (parts n.guest_path) ≤ length (parts m.guest_path))

module _ (ms : List Mount) (abs : (m : Mount) → IsMounted ms m → is_abs m.guest_path ≡ true)
    (guest : Bytes) (root : is_abs guest ≡ true) where
  gs : AreNormal (parts guest)
  gs = parts-AreNormal guest root

  under :
      (m : Mount)
      → IsMounted ms m
      → is_in (clean guest) (clean m.guest_path) ≡ true
      → IsUnder (parts guest) (parts m.guest_path)
  under m i e =
      is_in-IsUnder (parts guest) (parts m.guest_path) gs (parts-AreNormal m.guest_path (abs m i))
        (ap₂ is_in (sym (clean-rooted guest root)) (sym (clean-rooted m.guest_path (abs m i))) ∙ e)

  fits :
      (m : Mount)
      → IsMounted ms m
      → IsUnder (parts guest) (parts m.guest_path)
      → is_in (clean guest) (clean m.guest_path) ≡ true
  fits m i (r, e) =
      ap₂ is_in (clean-rooted guest root ∙ ap rooted e) (clean-rooted m.guest_path (abs m i))
      ∙ IsUnder-is_in (parts m.guest_path) r (parts-AreNormal m.guest_path (abs m i))

  found-IsMountOf :
      (o : Option Mount)
      → IsBest (clean guest) (IsMounted ms) o
      → IsMountOf ms guest (elim o [
        | none ↦ none
        | some m ↦
            some (m, trim_prefix (slash ∷ []) (trim_prefix (clean m.guest_path) (clean guest)))
      ])
  found-IsMountOf none h = λ m i u. ground (arith, h m i, fits m i u)
  found-IsMountOf (some m) h =
      let (r, e) = under m h.0 h.1 in
      let n : AreNormal r = AreNormal-suffix (parts m.guest_path) r (subst AreNormal e gs) in
      let qs : AreNormal (parts m.guest_path) = parts-AreNormal m.guest_path (abs m h.0) in
      (
        h.0,
        (
          r,
          n,
          e,
          ap₂ (λ a b. trim_prefix (slash ∷ []) (trim_prefix a b))
                (clean-rooted m.guest_path (abs m h.0)) (clean-rooted guest root ∙ ap rooted e)
              ∙ trim_prefix_inside (parts m.guest_path) r qs n,
        ),
        λ k i u.
            deeper (parts guest) (parts k.guest_path) (parts m.guest_path)
              (parts-AreNormal k.guest_path (abs k i)) u (r, e)
              (subst (λ a. length a ≤ length (rooted (parts m.guest_path)))
                (clean-rooted k.guest_path (abs k i))
                (subst (λ a. length (clean k.guest_path) ≤ length a)
                  (clean-rooted m.guest_path (abs m h.0)) (h.2 k i (fits k i u)))),
      )

  -- mountFor of an absolute path, with mounts at absolute paths: the mount is one of the mounts, the path
  -- goes on from the mount's by names only, which the text that is returned joins, and no mount
  -- that the path is in lies deeper; without a result the path is in no mount.
  pub mount_for-IsMountOf : IsMountOf ms guest (mount_for ms guest)
  unfolding mount_for
  mount_for-IsMountOf =
      found-IsMountOf (find_mount (clean guest) none ms) (find_mount-IsMounted (clean guest) ms)

  -- hostPath of an absolute path, with mounts of host directories at absolute paths: the result is in a
  -- mount's host directory, at the same names below it as the path is below the mount.
  host_path_inside :
      (p : Bytes)
      → ((m : Mount) → IsMounted ms m → (is_empty m.host_path ≡ true) ⊎ (is_abs m.host_path ≡ true))
      → host_path ms guest ≡ some p
      → (m : Mount) × IsMounted ms m
        × ((r : List Bytes) × AreNormal r
            × (parts guest ≡ parts m.guest_path ++ r)
            × (parts p ≡ parts m.host_path ++ r))
  unfolding host_path
  host_path_inside p hosts h = elim (Option-cases (mount_for ms guest)) [
    | inl e ↦ absurd (ground (arith, (rw (e, host_path) at h)))
    | inr ((m, rel), e) ↦
        let (i, (r, n, k, l), deepest) = subst (IsMountOf ms guest) e mount_for-IsMountOf in
        let q : (if is_empty m.host_path then none else some (join_path m.host_path rel)) ≡ some p =
          rw (e, host_path) at h in
        elim (Bool-cases (is_empty m.host_path)) [
          | inl z ↦ absurd (ground (arith, q, z))
          | inr z ↦
              let there : join_path m.host_path rel ≡ p = ground (arith, q, z) in
              let a : is_abs m.host_path ≡ true = ground (arith, hosts m i, z) in
              (
                m,
                i,
                (
                  r,
                  n,
                  k,
                  ap parts (sym there)
                      ∙ ap (λ t. parts (join_path m.host_path t)) l
                      ∙ join_path-parts m.host_path r a n,
                ),
              )
        ]
  ]
