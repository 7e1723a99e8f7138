-- ===== src/Memfs/Entries.antt =====
-- internal/memfs/memfs.go, `entries`: a Go map from names to nodes, each name at most once.
use text.Mathlib.Text
use text.Mathlib.TextEquality.{eq_iff}
use pgzero.Base.{
  ℕ, ◌≡◌, refl, Bool, true, Option, none, some, List, [], ◌∷◌, arith, if◌then◌else◌, is_empty,
}
use pgzero.Memfs.{Name}

abbrev pub Entries : Type 0
Entries = List (Name × ℕ)

-- the `==` of Go strings
abbrev pub same : Name → Name → Bool
same a b = Text.◌==◌ a b

abbrev pub find : Name → Entries → Option ℕ
find k [] = none
find k ((j, n) ∷ es) = if same j k then some n else find k es

abbrev pub remove : Name → Entries → Entries
remove k [] = []
remove k ((j, n) ∷ es) = let rest = remove k es in if same j k then rest else (j, n) ∷ rest

abbrev pub add : Name → ℕ → Entries → Entries
add k n es = (k, n) ∷ remove k es

pub find-remove :
    (k j : Name) (es : Entries) → find j (remove k es) ≡ (if same k j then none else find j es)
find-remove k j [] = ground arith
find-remove k j ((i, n) ∷ es) =
    ground (arith, eq_iff k j, eq_iff i k, eq_iff i j, find-remove k j es)

pub find-add :
    (k j : Name) (n : ℕ) (es : Entries)
    → find j (add k n es) ≡ (if same k j then some n else find j es)
find-add k j n es = ground (arith, find-remove k j es)

-- The names of a directory are all different.
abbrev pub AllDiffer : Entries → Type 0
AllDiffer [] = Unit
AllDiffer ((k, n) ∷ es) = (find k es ≡ none) × AllDiffer es

pub remove-AllDiffer : (k : Name) (es : Entries) → AllDiffer es → AllDiffer (remove k es)
remove-AllDiffer k [] u = tt
remove-AllDiffer k ((i, n) ∷ es) u =
    ground (arith, eq_iff i k, find-remove k i es, remove-AllDiffer k es u.1)

pub add-AllDiffer : (k : Name) (n : ℕ) (es : Entries) → AllDiffer es → AllDiffer (add k n es)
add-AllDiffer k n es u = (ground (arith, eq_iff k k, find-remove k k es), remove-AllDiffer k es u)

pub find_empty : (es : Entries) → is_empty es ≡ true → (k : Name) → find k es ≡ none
find_empty [] e k = refl
find_empty (x ∷ es) e k = cc
