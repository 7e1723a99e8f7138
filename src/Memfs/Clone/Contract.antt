-- ===== src/Memfs/Clone/Contract.antt =====
-- What an independent copy of a filesystem is.
use pgzero.Base.{
  ℕ, ◌≤◌, ◌<◌, ◌≡◌, ap, subst, inl, inr, true, Option, none, some, [], ◌∷◌, arith, Bool-cases,
  Assoc, lookup,
}
use text.Mathlib.TextEquality.{eq_iff}
use pgzero.Memfs.{Name, Fs}
use pgzero.Memfs.Entries.{Entries, same, find, AllDiffer}
use pgzero.Memfs.Clone.Sound.{Matches}
use pgzero.Memfs.Clone.Loop.{AreHeld}

-- what a name is for in the copy: the copy of what it is for in the original
abbrev pub IsEntry : Assoc ℕ → Option ℕ → Option ℕ → Type 0
IsEntry m none none = Unit
IsEntry m none (some d) = ⊥
IsEntry m (some n) none = ⊥
IsEntry m (some n) (some d) = lookup n m ≡ some d

pub Matches-IsEntry :
    (m : Assoc ℕ) (es ds : Entries) (x : Name) → Matches m es ds → IsEntry m (find x es) (find x ds)
Matches-IsEntry m [] [] x h = tt
Matches-IsEntry m [] (d ∷ ds) x h = absurd h
Matches-IsEntry m (e ∷ es) [] x h = absurd h
Matches-IsEntry m ((y, n) ∷ es) ((z, d) ∷ ds) x h =
    subst (λ t. IsEntry m (find x ((y, n) ∷ es)) (find x ((t, d) ∷ ds))) (h.0)
      (here (Matches-IsEntry m es ds x h.2))
  where
    here :
        IsEntry m (find x es) (find x ds) → IsEntry m (find x ((y, n) ∷ es)) (find x ((y, d) ∷ ds))
    here rest = elim (Bool-cases (same y x)) [ inl e ↦ rw e (h.1) | inr e ↦ rw e rest ]

-- The copy k of fs, with the map from nodes to their copies: every copy is a new node, of one original only, like
-- it but for the nodes that it refers to, which are the copies of those that the original refers to.
pub record IsClone (fs : Fs) (m : Assoc ℕ) (k : Fs) : Type 0 where
  pub root : lookup fs.root m ≡ some k.root
  pub untouched : (j : ℕ) → j < fs.next → k.node j ≡ fs.node j
  pub apart : (n c : ℕ) → lookup n m ≡ some c → (n < fs.next) × (fs.next ≤ c) × (c < k.next)
  pub distinct : (n j c : ℕ) → lookup n m ≡ some c → lookup j m ≡ some c → n ≡ j
  pub alike :
      (n c : ℕ)
      → lookup n m ≡ some c
      → ((k.node c).is_dir ≡ (fs.node n).is_dir)
        × ((k.node c).perm ≡ (fs.node n).perm)
        × ((k.node c).contents ≡ (fs.node n).contents)
        × ((k.node c).mod_time ≡ (fs.node n).mod_time)
  pub entry :
      (n c : ℕ)
      → lookup n m ≡ some c
      → (x : Name) → IsEntry m (find x (fs.node n).entries) (find x (k.node c).entries)
  pub parent : (n c : ℕ) → lookup n m ≡ some c → IsEntry m (fs.node n).parent (k.node c).parent

pub AreHeld-find :
    (fs : Fs) (d : ℕ) (es : Entries)
    → AllDiffer es
    → ((x : Name) (n : ℕ)
        → find x es ≡ some n
        → (n < fs.next) × ((fs.node n).is_dir ≡ true → (fs.node n).parent ≡ some d))
    → AreHeld fs d es
AreHeld-find fs d [] u h = tt
AreHeld-find fs d ((x, n) ∷ es) u h =
    let (a, b) = h x n (ground (arith, eq_iff x x)) in
    (a, b, AreHeld-find fs d es u.1 (λ y c e. h y c (later y c e)))
  where
    later : (y : Name) (c : ℕ) → find y es ≡ some c → find y ((x, n) ∷ es) ≡ some c
    later y c e = elim (Bool-cases (same x y)) [
      | inr q ↦ rw q e
      | inl q ↦
          let z : x ≡ y = ground (arith, q, eq_iff x y) in
          ground (arith, e, u.0, ap (λ t. find t es) z)
    ]
