-- ===== src/Base/Maps.antt =====
-- A Go map as a function: a key that the map does not have reads as `none` (a Go nil).
use Prim.Native.Nat.{ℕ}
use mathlib.Core.Path.{◌≡◌}
use mathlib.Core.Logic.{◌≢◌}
use mathlib.Core.Option.{Option, none, some}
use native.Mathlib.Omega.{arith}
use pgzero.Base.Booleans.{◌==◌, if◌then◌else◌}

abbrev pub Table {ℓ} : Type ℓ → Type ℓ
Table V = ℕ → Option V

abbrev pub empty {ℓ} : {V : Type ℓ} → Table V
empty k = none

-- A total function changed at one place, such as a heap of objects.
abbrev pub update {ℓ} : {A : Type ℓ} → (ℕ → A) → ℕ → A → ℕ → A
update f p v q = if p == q then v else f q

-- m[k] = v
abbrev pub put {ℓ} : {V : Type ℓ} → Table V → ℕ → V → Table V
put m k v = update m k (some v)

-- delete(m, k)
abbrev pub del {ℓ} : {V : Type ℓ} → Table V → ℕ → Table V
del m k = update m k none

module _ {ℓ} {A : Type ℓ} where
  pub update_self : (f : ℕ → A) (p : ℕ) (v : A) → update f p v p ≡ v
  update_self f p v = ground arith

  pub update-ne : (f : ℕ → A) (p q : ℕ) (v : A) → p ≢ q → update f p v q ≡ f q
  update-ne f p q v h = ground arith
