-- ===== src/Base/AssocList.antt =====
-- A Go map whose entries are gone through or counted: its entries, each key at most once.
use Prim.Native.Nat.{ℕ, ◌+◌, ◌≤◌, ◌<◌}
use mathlib.Core.Path.{◌≡◌}
use mathlib.Core.Option.{Option, none, some}
use mathlib.Core.List.{List, [], ◌∷◌}
use native.Mathlib.Omega.{arith}
use pgzero.Base.Booleans.{◌==◌, if◌then◌else◌, leb}
use pgzero.Base.Lists.{length}

abbrev pub Assoc {ℓ} : Type ℓ → Type ℓ
Assoc V = List (ℕ × V)

module _ {ℓ} {V : Type ℓ} where
  abbrev pub lookup : ℕ → Assoc V → Option V
  lookup k [] = none
  lookup k ((j, v) ∷ m) = if j == k then some v else lookup k m

  abbrev pub erase : ℕ → Assoc V → Assoc V
  erase k [] = []
  erase k ((j, v) ∷ m) = if j == k then erase k m else (j, v) ∷ erase k m

  abbrev pub insert : ℕ → V → Assoc V → Assoc V
  insert k v m = (k, v) ∷ erase k m

  abbrev pub IsUnique : Assoc V → Type ℓ
  IsUnique [] = Unit
  IsUnique ((k, v) ∷ m) = (lookup k m ≡ none) × IsUnique m

  pub lookup-erase :
      (k j : ℕ) (m : Assoc V) → lookup j (erase k m) ≡ (if k == j then none else lookup j m)
  lookup-erase k j [] = ground arith
  lookup-erase k j ((i, v) ∷ m) = ground (arith, lookup-erase k j m)

  pub lookup-insert :
      (k j : ℕ) (v : V) (m : Assoc V)
      → lookup j (insert k v m) ≡ (if k == j then some v else lookup j m)
  lookup-insert k j v m = ground (arith, lookup-erase k j m)

  pub erase-IsUnique : (k : ℕ) (m : Assoc V) → IsUnique m → IsUnique (erase k m)
  erase-IsUnique k [] u = tt
  erase-IsUnique k ((i, v) ∷ m) u = ground (arith, lookup-erase k i m, erase-IsUnique k m u.1)

  pub insert-IsUnique : (k : ℕ) (v : V) (m : Assoc V) → IsUnique m → IsUnique (insert k v m)
  insert-IsUnique k v m u = (ground (arith, lookup-erase k k m), erase-IsUnique k m u)

  -- The entries whose key is at least k.
  abbrev pub count_from : ℕ → Assoc V → ℕ
  count_from k [] = 0
  count_from k ((j, v) ∷ m) = (if leb k j then 1 else 0) + count_from k m

  pub count_from-le-length : (k : ℕ) (m : Assoc V) → count_from k m ≤ length m
  count_from-le-length k [] = omega arith
  count_from-le-length k ((j, v) ∷ m) = ground (arith, count_from-le-length k m)

  count_from_mono : (k : ℕ) (m : Assoc V) → count_from (k + 1) m ≤ count_from k m
  count_from_mono k [] = omega arith
  count_from_mono k ((j, v) ∷ m) = ground (arith, count_from_mono k m)

  pub count_from-lt :
      (k : ℕ) (m : Assoc V) (v : V) → lookup k m ≡ some v → count_from (k + 1) m < count_from k m
  count_from-lt k [] v h = cc
  count_from-lt k ((j, w) ∷ m) v h = ground (arith, count_from-lt k m v, count_from_mono k m)
