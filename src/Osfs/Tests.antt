-- ===== src/Osfs/Tests.antt =====
-- A directory "/srv" of the host, and a host that remembers what is removed.
use pgzero.Base.{
  ◌≡◌, refl, subst, inl, inr, Bool, false, none, some, List, [], ◌∷◌, ◌++◌, arith, if◌then◌else◌,
  Bool-cases,
}
use pgzero.Paths.{Bytes, parts, same_bytes, norm, push}
use pgzero.Paths.Prefixes.{same_bytes-eq}
use pgzero.Osfs.{Host, File}
use pgzero.Osfs.Confined.{IsBelow, Agrees, run, unlink_, run_confined}

abbrev srv : File
srv = record { handle = 3; path = 47 ∷ 115 ∷ 114 ∷ 118 ∷ [] }

-- "/etc"
abbrev etc : Bytes
etc = 47 ∷ 101 ∷ 116 ∷ 99 ∷ []

-- "a/../x"
abbrev name : Bytes
name = 97 ∷ 47 ∷ 46 ∷ 46 ∷ 47 ∷ 120 ∷ []

abbrev host : Host (List Bytes) Bool
host = record {
  open_file = λ p a b w. (inr 2, w);
  lstat = λ p w. (inl false, w);
  readlink = λ p w. (inr 22, w);
  mkdir = λ p a w. (none, w);
  remove = λ p w. (none, p ∷ w);
  symlink = λ t p w. (none, w);
  chtimes = λ p a b w. (none, w);
  is_dir = λ i. i;
}

-- the same, but "/etc" cannot be removed
abbrev guarded : Host (List Bytes) Bool
guarded = record host { remove = λ p w. if same_bytes p etc then (some 13, w) else (none, p ∷ w) }

etc_outside : (p : Bytes) → IsBelow srv.path p → same_bytes p etc ≡ false
etc_outside p (r, n, e) = elim (Bool-cases (same_bytes p etc)) [
  | inr h ↦ h
  | inl h ↦
      let q : (101 ∷ 116 ∷ 99 ∷ []) ∷ [] ≡ (115 ∷ 114 ∷ 118 ∷ []) ∷ r =
        unfold parts in
        unfold norm in
        unfold push in subst (λ t. parts t ≡ parts srv.path ++ r) (same_bytes-eq p etc h) e in
      absurd (ground (arith, q))
]

alike : Agrees srv.path host guarded
alike = record {
  open_file = λ p i a b w. refl;
  lstat = λ p i w. refl;
  readlink = λ p i w. refl;
  mkdir = λ p i a w. refl;
  remove = λ p i w. rw (etc_outside p i) refl;
  symlink = λ p i t w. refl;
  chtimes = λ p i a b w. refl;
  is_dir = λ i. refl;
}

run_confined_example : run host srv (unlink_ name) [] ≡ run guarded srv (unlink_ name) []
run_confined_example = run_confined host guarded srv refl alike (unlink_ name) []
