-- ===== src/Kernel/Sockaddr/Roundtrip.antt =====
-- What the guest reads back of an address that it gave.
use pgzero.Base.{
  length-append, replicate, ℕ, zero, suc, ◌/◌, ◌%◌, ◌^◌, ◌<◌, ◌≡◌, refl, ap, ◌≢◌, ◌⊎◌, inl, inr,
  Option, none, some, List, [], ◌∷◌, ◌++◌, arith, length, take,
}
use pgzero.Abi.{einval}
use pgzero.Kernel.Sockaddr.{
  Sockaddr, v4, v6, zero_addr, be16, until_nul, decode, encode, unmap, as4, as16, af_inet, af_inet6,
  af_unix,
}

abbrev pub NoNul : List ℕ → Type 0
NoNul [] = Unit
NoNul (c ∷ cs) = (0 < c) × NoNul cs

-- The addresses that the kernel makes of the guest's.
pub data IsGuest : Sockaddr → Type 0 where
  inet :
      (a b c d port : ℕ)
      → port < 2 ^ 16
      → IsGuest
          (record { family = af_inet; addr = v4 (a ∷ b ∷ c ∷ d ∷ []); port = port; path = [] })
  inet6 :
      (ip : List ℕ) (port : ℕ)
      → length ip ≡ 16
      → port < 2 ^ 16
      → IsGuest (record { family = af_inet6; addr = v6 ip; port = port; path = [] })
  local :
      (path : List ℕ)
      → path ≢ []
      → NoNul path
      → IsGuest (record { family = af_unix; addr = zero_addr; port = 0; path = path })

take-append : (n : ℕ) (xs ys : List ℕ) → length xs ≡ n → take n (xs ++ ys) ≡ xs
take-append zero [] ys h = refl
take-append zero (x ∷ xs) ys h = absurd (omega arith)
take-append (suc n) [] ys h = absurd (omega arith)
take-append (suc n) (x ∷ xs) ys h = ap (◌∷◌ x) (take-append n xs ys (omega arith))

until_nul-append : (path : List ℕ) → NoNul path → until_nul (path ++ (0 ∷ [])) ≡ path
unfolding until_nul
until_nul-append [] h = refl
until_nul-append (c ∷ cs) h = ground (arith, until_nul-append cs h.1)

be16_of : (port : ℕ) (rest : List ℕ) → port < 2 ^ 16 → be16 (port / 256 ∷ port % 256 ∷ rest) ≡ port
unfolding be16
be16_of port rest h = omega arith

abbrev pub reread : Option (List ℕ) → Option (Sockaddr ⊎ ℕ)
reread none = none
reread (some b) = some (decode b)

-- An address that the guest can give is encoded without a panic, and decoding its bytes gives it back.
pub decode-encode : {a : Sockaddr} → IsGuest a → reread (encode a) ≡ some (inl a)
unfolding encode decode as4 as16 unmap
decode-encode (inet a b c d port h) =
    ap
      (λ p.
        some
          (inl (record { family = af_inet; addr = v4 (a ∷ b ∷ c ∷ d ∷ []); port = p; path = [] })))
      (be16_of port (a ∷ b ∷ c ∷ d ∷ replicate 8 0) h)
decode-encode (inet6 ip port l h) = ground (
  arith,
  be16_of port (replicate 4 0 ++ (ip ++ replicate 8 0)) h,
  length-append ip (replicate 8 0),
  take-append 16 ip (replicate 8 0) l,
)
decode-encode (local path n u) =
    ground (arith, until_nul-append path u, length-append path (0 ∷ []))

-- An unnamed Unix address is encoded, and its bytes are refused with EINVAL.
pub decode-encode_unnamed :
    reread (encode (record { family = af_unix; addr = zero_addr; port = 0; path = [] }))
    ≡ some (inr einval)
unfolding encode decode until_nul
decode-encode_unnamed = refl
