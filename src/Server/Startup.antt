-- ===== src/Server/Startup.antt =====
-- pgzero.go, probe. Whether Dial and the write succeed, and the bytes that the server then sends
-- until the connection ends, are arguments.
pub mod Answers
use pgzero.Base.{
  ℕ, zero, suc, ◌+◌, ◌-◌, ◌*◌, ◌/◌, ◌%◌, ◌^◌, ◌≤◌, ◌<◌, min, max, ◌≡◌, refl, sym, ap, ap₂, subst,
  ◌∙◌, fun_ext, ◌≢◌, ◌↔◌, ◌⊎◌, inl, inr, Bool, true, false, ◌&&◌, ◌||◌, not, Option, none, some,
  List, [], ◌∷◌, ◌++◌, map, arith, dec_lt, dec_le, ℕ_discrete, ltb, leb, ◌==◌, if◌then◌else◌,
  is_empty, is_some, Bool-cases, Option-cases, length, take, drop, length-append,
}
use pgzero.Paths.{Bytes, same_bytes}
use pgzero.Server.ConnString.{superuser}

-- binary.BigEndian
abbrev pub be32 : ℕ → Bytes
be32 n = (n / 16777216 % 256) ∷ (n / 65536 % 256) ∷ (n / 256 % 256) ∷ (n % 256) ∷ []

abbrev pub from_be32 : Bytes → ℕ
from_be32 (a ∷ b ∷ c ∷ d ∷ p) = 16777216 * a + 65536 * b + 256 * c + d
from_be32 [] = 0
from_be32 (a ∷ []) = 0
from_be32 (a ∷ b ∷ []) = 0
from_be32 (a ∷ b ∷ c ∷ []) = 0

-- "user", "database"
abbrev pub user_name : Bytes
user_name = 117 ∷ 115 ∷ 101 ∷ 114 ∷ []

abbrev pub database_name : Bytes
database_name = 100 ∷ 97 ∷ 116 ∷ 97 ∷ 98 ∷ 97 ∷ 115 ∷ 101 ∷ []

unfoldable pub startup_params : Bytes
startup_params =
    user_name ++ (0 ∷ (superuser ++ (0 ∷ (database_name ++ (0 ∷ (superuser ++ 0 ∷ 0 ∷ []))))))

-- protocol 3.0 is 3 << 16
unfoldable pub startup_message : Bytes
startup_message = be32 (8 + length startup_params) ++ (be32 196608 ++ startup_params)

-- io.ReadFull of n bytes: what is read and what follows, or the stream ends before
unfoldable pub read_full : ℕ → Bytes → Option (Bytes × Bytes)
read_full n p = if ltb (length p) n then none else some (take n p, drop n p)

-- bytes.Split(body, []byte{0})
abbrev pub push_front : ℕ → List Bytes → List Bytes
push_front c [] = (c ∷ []) ∷ []
push_front c (p ∷ ps) = (c ∷ p) ∷ ps

abbrev pub split_zero : Bytes → List Bytes
split_zero [] = [] ∷ []
split_zero (c ∷ p) = let rest = split_zero p in if c == 0 then [] ∷ rest else push_front c rest

-- fields[k] of the map, in which a later part replaces an earlier one
abbrev pub part_for : ℕ → Bytes → Option Bytes
part_for k [] = none
part_for k (c ∷ []) = none
part_for k (c ∷ d ∷ p) = if c == k then some (d ∷ p) else none

abbrev pub last_some : Option Bytes → Option Bytes → Option Bytes
last_some a none = a
last_some a (some v) = some v

abbrev pub field : ℕ → List Bytes → Option Bytes
field k [] = none
field k (f ∷ fs) = last_some (part_for k f) (field k fs)

abbrev pub or_empty : Option Bytes → Bytes
or_empty none = []
or_empty (some v) = v

-- "57P03", cannot_connect_now
abbrev pub starting_up : Bytes
starting_up = 53 ∷ 55 ∷ 80 ∷ 48 ∷ 51 ∷ []

-- what probe returns: an error with the server's message, or for a kind of answer that it does not know
pub data Probe : Type 0 where
  ready not_ready : Probe
  refused : Bytes → Probe
  unexpected : ℕ → Probe

-- the switch on the kind of the answer: 82 is 'R', 69 'E', 67 'C', 77 'M'
unfoldable pub judge : ℕ → Bytes → Probe
judge kind body =
    if kind == 82
    then ready
    else if kind == 69
    then (if same_bytes (or_empty (field 67 (split_zero body))) starting_up
        then not_ready
        else refused (or_empty (field 77 (split_zero body))))
    else unexpected kind

-- what follows the header
unfoldable pub read_answer : Bytes → Bytes → Probe
read_answer [] p = not_ready
read_answer (kind ∷ len) p = elim (read_full (from_be32 len - 4) p) [
  | none ↦ not_ready
  | some (body, rest) ↦ judge kind body
]

unfoldable pub probe : Bool → Bool → Bytes → Probe
probe dialled written answer =
    if not (dialled && written)
    then not_ready
    else elim (read_full 5 answer) [ none ↦ not_ready | some (hdr, p) ↦ read_answer hdr p ]
