-- ===== src/Memfs/Clone/Loop.antt =====
-- The loop over a directory's entries, with any call that copies a node.
use pgzero.Base.{ℕ, ◌<◌, ◌≡◌, refl, ◌≢◌, true, Option, some, [], ◌∷◌, arith, lookup}
use pgzero.Memfs.{Name, Fs}
use pgzero.Memfs.Entries.{Entries}
use pgzero.Memfs.Clone.{Cloning, clone_entries}
use pgzero.Memfs.Clone.Sound.{
  Matches, missing, missing_less, IsSound, Extends, Extends-refl, Extends-trans,
}

clone_entries_next :
    (call : ℕ → ℕ → Cloning → Option (ℕ × Cloning)) (c : ℕ) (x : Name) (n : ℕ) (es : Entries)
    (s : Cloning) {a : ℕ} {t : Cloning} {ds : Entries} {u : Cloning}
    → call n c s ≡ some (a, t)
    → clone_entries call c es t ≡ some (ds, u)
    → clone_entries call c ((x, n) ∷ es) s ≡ some ((x, a) ∷ ds, u)
unfolding clone_entries
clone_entries_next call c x n es s r q = rw (r, clone_entries) (rw (q, clone_entries) refl)

module _ (orig : Fs) where
  -- each entry of the directory d is for a node, and for a directory below d
  abbrev pub AreHeld : ℕ → Entries → Type 0
  AreHeld d [] = Unit
  AreHeld d ((x, n) ∷ es) =
      (n < orig.next) × ((orig.node n).is_dir ≡ true → (orig.node n).parent ≡ some d) × AreHeld d es

  -- the parent that clone is given is the copy of the original's
  abbrev pub IsBelow : ℕ → Option ℕ → Cloning → Type 0
  IsBelow n p s =
      (orig.node n).is_dir ≡ true
      → n ≢ orig.root
      → (q : ℕ) × (d : ℕ) × ((orig.node n).parent ≡ some q)
        × (lookup q s.copies ≡ some d)
        × (p ≡ some d)

  abbrev pub Cloned : ℕ → Cloning → Option (ℕ × Cloning) → Type 0
  Cloned n s r =
      (c : ℕ) × (t : Cloning) × (r ≡ some (c, t))
      × (lookup n t.copies ≡ some c)
      × Extends orig s t
      × IsSound orig t

  abbrev pub AllCloned : ℕ → Entries → Cloning → Option (Entries × Cloning) → Type 0
  AllCloned c es s r =
      (ds : Entries) × (t : Cloning) × (r ≡ some (ds, t))
      × Matches t.copies es ds
      × Extends orig s t
      × IsSound orig t

  -- what a nested call does, with fuel for the nodes that are not copied yet
  abbrev pub Calls : ℕ → (ℕ → ℕ → Cloning → Option (ℕ × Cloning)) → Type 0
  Calls f call =
      (n p : ℕ) (s : Cloning)
      → IsSound orig s
      → n < orig.next
      → IsBelow n (some p) s
      → missing orig.next s.copies < f
      → Cloned n s (call n p s)

  pub clone_entries-AllCloned :
      (f : ℕ) (call : ℕ → ℕ → Cloning → Option (ℕ × Cloning)) (calls : Calls f call)
      → (d c : ℕ) (es : Entries) (s : Cloning) → lookup d s.copies ≡ some c
      → AreHeld d es
      → IsSound orig s
      → missing orig.next s.copies < f
      → AllCloned c es s (clone_entries call c es s)
  unfolding clone_entries
  clone_entries-AllCloned f call calls d c [] s e h i m = ([], s, refl, tt, Extends-refl orig s, i)
  clone_entries-AllCloned f call calls d c ((x, n) ∷ es) s e (b, k, h) i m =
      let (a, t, r, l, ext, j) = calls n c s i b (λ is_dir not_root. (d, c, k is_dir, e, refl)) m in
      let (ds, u, q, y, ext', j') =
        clone_entries-AllCloned f call calls d c es t (ext.kept d c e) h j
          (omega (arith, m, missing_less orig.next s.copies t.copies ext.kept)) in
      (
        (x, a) ∷ ds,
        u,
        clone_entries_next call c x n es s r q,
        (refl, ext'.kept n a l, y),
        Extends-trans orig s t u ext ext',
        j',
      )
