-- ===== src/Kernel/Guest.antt =====
-- internal/kernel/host.go, the guest's memory as the host calls read and write it: readU32, writeU32,
-- cstring and strings. Bytes are numbers by address; a page that is mapped twice is not seen as one here.
pub mod Words
pub mod Cstrings
mod Tests
use pgzero.Base.{
  add32, ℕ, zero, suc, ◌+◌, ◌-◌, ◌*◌, ◌/◌, ◌%◌, ◌^◌, ◌≤◌, ◌<◌, min, max, ◌≡◌, refl, sym, ap, ap₂,
  subst, ◌∙◌, fun_ext, ◌≢◌, ◌↔◌, ◌⊎◌, inl, inr, Bool, true, false, ◌&&◌, ◌||◌, not, Option, none,
  some, List, [], ◌∷◌, ◌++◌, map, arith, dec_lt, dec_le, ℕ_discrete, ltb, leb, ◌==◌, if◌then◌else◌,
  is_empty, is_some, Bool-cases, Option-cases, length, take, drop,
}
use pgzero.Vmem.{Memory, slice}

pub record Guest : Type 0 where
  pub mem : Memory
  pub byte : ℕ → ℕ

abbrev pub in_memory : ℕ → ℕ → Guest → Bool
in_memory addr n g = is_some (slice g.mem addr n)

pub read_u32 : ℕ → Guest → Option ℕ
read_u32 addr g =
    if in_memory addr 4 g
    then some (
        g.byte addr
        + 256 * g.byte (addr + 1)
        + 65536 * g.byte (addr + 2)
        + 16777216 * g.byte (addr + 3))
    else none

-- PutUint32, little end first
abbrev pub put_u32 : ℕ → ℕ → (ℕ → ℕ) → ℕ → ℕ
put_u32 addr v byte a =
    if a == addr
    then v % 256
    else if a == addr + 1
    then v / 256 % 256
    else if a == addr + 2
    then v / 65536 % 256
    else if a == addr + 3
    then v / 16777216 % 256
    else byte a

-- false: the address is outside
unfoldable pub write_u32 : ℕ → ℕ → Guest → Bool × Guest
write_u32 addr v g =
    if in_memory addr 4 g then (true, record g { byte = put_u32 addr v g.byte }) else (false, g)

-- the n bytes from an address
pub bytes_at : ℕ → ℕ → (ℕ → ℕ) → List ℕ
bytes_at addr zero byte = []
bytes_at addr (suc n) byte = byte addr ∷ bytes_at (addr + 1) n byte

-- 1 << 16
abbrev pub max_len : ℕ
max_len = 65536

-- The loop from n on, over the rounds left; the address wraps as a uint32.
pub cstring_from : ℕ → ℕ → ℕ → Guest → Option (List ℕ)
cstring_from zero n addr g = none
cstring_from (suc rounds) n addr g =
    let rest = cstring_from rounds (n + 1) addr g in
    if not (in_memory (add32 addr n) 1 g)
    then none
    else if g.byte (add32 addr n) == 0
    then some (if in_memory addr n g then bytes_at addr n g.byte else [])
    else rest

pub cstring : ℕ → Guest → Option (List ℕ)
cstring addr g = cstring_from max_len 0 addr g

-- the strings, a failure, or no end within the fuel
pub data Strings : Type 0 where
  strings_are : List (List ℕ) → Strings
  bad_address : Strings
  goes_on : Strings

and_first : Option (List ℕ) → Strings → Strings
and_first none rest = bad_address
and_first (some s) (strings_are ss) = strings_are (s ∷ ss)
and_first (some s) bad_address = bad_address
and_first (some s) goes_on = goes_on

-- from the pointer i on
pub strings_from : ℕ → ℕ → ℕ → Guest → Strings
strings_from zero i addr g = goes_on
strings_from (suc fuel) i addr g =
    let rest = strings_from fuel (i + 1) addr g in
    elim (read_u32 (add32 addr (4 * i % 2 ^ 32)) g) [
      | none ↦ bad_address
      | some ptr ↦ if ptr == 0 then strings_are [] else and_first (cstring ptr g) rest
    ]

pub strings : ℕ → ℕ → Guest → Strings
strings fuel addr g = strings_from fuel 0 addr g
