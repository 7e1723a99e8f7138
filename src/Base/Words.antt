-- ===== src/Base/Words.antt =====
-- Machine integers. An int32 or a uint32 is its bit pattern, a number below 2 ^ 32; an int64 likewise.
use Prim.Native.Nat.{ℕ, ◌+◌, ◌-◌, ◌%◌, ◌^◌}
use mathlib.Core.Bool.{Bool}
use pgzero.Base.Booleans.{leb}

-- x < 0, read as an int32
abbrev pub is_neg32 : ℕ → Bool
is_neg32 x = leb (2 ^ 31) x

-- -x
abbrev pub neg32 : ℕ → ℕ
neg32 x = (2 ^ 32 - x) % 2 ^ 32

abbrev pub add32 : ℕ → ℕ → ℕ
add32 a b = (a + b) % 2 ^ 32

-- a--
abbrev pub dec32 : ℕ → ℕ
dec32 a = (a + 2 ^ 32 - 1) % 2 ^ 32

-- x < 0, read as an int64
abbrev pub is_neg64 : ℕ → Bool
is_neg64 x = leb (2 ^ 63) x

abbrev pub add64 : ℕ → ℕ → ℕ
add64 a b = (a + b) % 2 ^ 64
