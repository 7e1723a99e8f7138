-- ===== src/Kernel/Sockaddr.antt =====
-- internal/kernel/socket.go, the guest's socket addresses: sockaddr, decodeSockaddr, encode; and
-- writeSockaddr of host.go. A byte is a number below 256. netip.Addr is 4 or 16 bytes.
pub mod Roundtrip
mod Tests
use pgzero.Base.{
  ℕ, zero, suc, ◌+◌, ◌-◌, ◌*◌, ◌/◌, ◌%◌, ◌^◌, ◌≤◌, ◌<◌, min, max, ◌≡◌, refl, sym, ap, ap₂, subst,
  ◌∙◌, fun_ext, ◌≢◌, ◌↔◌, ◌⊎◌, inl, inr, Bool, true, false, ◌&&◌, ◌||◌, not, Option, none, some,
  List, [], ◌∷◌, ◌++◌, map, arith, dec_lt, dec_le, ℕ_discrete, ltb, leb, ◌==◌, if◌then◌else◌,
  is_empty, is_some, Bool-cases, Option-cases, length, take, drop, replicate,
}
use pgzero.Abi.{einval, eafnosupport}

abbrev pub af_inet : ℕ
af_inet = 1

abbrev pub af_inet6 : ℕ
af_inet6 = 2

abbrev pub af_unix : ℕ
af_unix = 3

pub data Addr : Type 0 where
  v4 v6 : List ℕ → Addr

pub record Sockaddr : Type 0 where
  pub family : ℕ
  pub addr : Addr
  pub port : ℕ
  pub path : List ℕ

abbrev pub zero_addr : Addr
zero_addr = v4 (0 ∷ 0 ∷ 0 ∷ 0 ∷ [])

pub le16 : List ℕ → ℕ
le16 (a ∷ b ∷ _) = a + 256 * b
le16 _ = 0

pub be16 : List ℕ → ℕ
be16 (a ∷ b ∷ _) = 256 * a + b
be16 _ = 0

-- the bytes up to the first NUL
pub until_nul : List ℕ → List ℕ
until_nul [] = []
until_nul (c ∷ cs) = if c == 0 then [] else c ∷ until_nul cs

-- the address, or the errno
pub decode : List ℕ → Sockaddr ⊎ ℕ
unfolding le16 be16 until_nul
decode b =
    if ltb (length b) 2
    then inr einval
    else if le16 b == af_inet
    then (if ltb (length b) 16
        then inr einval
        else inl (record {
          family = af_inet;
          addr = v4 (take 4 (drop 4 b));
          port = be16 (drop 2 b);
          path = [];
        }))
    else if le16 b == af_inet6
    then (if ltb (length b) 28
        then inr einval
        else inl (record {
          family = af_inet6;
          addr = v6 (take 16 (drop 8 b));
          port = be16 (drop 2 b);
          path = [];
        }))
    else if le16 b == af_unix
    then (if is_empty (until_nul (drop 2 b))
        then inr einval
        else inl
            (record { family = af_unix; addr = zero_addr; port = 0; path = until_nul (drop 2 b) }))
    else inr eafnosupport

-- the bytes of ::ffff:0:0/96
abbrev pub is_mapped : List ℕ → Bool
is_mapped (a ∷ b ∷ c ∷ d ∷ e ∷ f ∷ g ∷ h ∷ i ∷ j ∷ k ∷ l ∷ _) =
    (a + b + c + d + e + f + g + h + i + j == 0) && k == 255 && l == 255
is_mapped _ = false

-- netip.Addr.Unmap: ::ffff:a.b.c.d is a.b.c.d
pub unmap : Addr → Addr
unmap (v4 b) = v4 b
unmap (v6 b) = if is_mapped b then v4 (drop 12 b) else v6 b

-- netip.Addr.As4, which panics (none) for an address that is not IPv4
pub as4 : Addr → Option (List ℕ)
as4 (v4 b) = some b
as4 (v6 b) = if is_mapped b then some (drop 12 b) else none

-- netip.Addr.As16
pub as16 : Addr → List ℕ
as16 (v4 b) = replicate 10 0 ++ (255 ∷ 255 ∷ b)
as16 (v6 b) = b

put_be16 : ℕ → List ℕ
put_be16 p = p / 256 ∷ p % 256 ∷ []

-- `none` is a panic.
pub encode : Sockaddr → Option (List ℕ)
unfolding put_be16
encode a =
    if a.family == af_inet
    then (elim (as4 (unmap a.addr)) [
      | none ↦ none
      | some ip ↦ some (1 ∷ 0 ∷ (put_be16 a.port ++ (ip ++ replicate 8 0)))
    ])
    else if a.family == af_inet6
    then some (2 ∷ 0 ∷ (put_be16 a.port ++ (replicate 4 0 ++ (as16 a.addr ++ replicate 8 0))))
    else some (3 ∷ 0 ∷ (a.path ++ (0 ∷ [])))

-- accept(2)'s rule: what is stored in a buffer of `room` bytes, and the length that is reported.
pub stored : List ℕ → ℕ → List ℕ × ℕ
stored enc room = (take (min (length enc) room) enc, length enc)
