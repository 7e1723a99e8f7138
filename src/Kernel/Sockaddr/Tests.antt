-- ===== src/Kernel/Sockaddr/Tests.antt =====
-- An IPv4 address.
use pgzero.Base.{◌≡◌, refl, inl, some, [], ◌∷◌, arith}
use pgzero.Kernel.Sockaddr.{as4, unmap, Sockaddr, af_inet, v4, encode}
use pgzero.Kernel.Sockaddr.Roundtrip.{inet, decode-encode, reread}

abbrev localhost : Sockaddr
localhost = record { family = af_inet; addr = v4 (127 ∷ 0 ∷ 0 ∷ 1 ∷ []); port = 5432; path = [] }

encode_test :
    encode localhost ≡ some (1 ∷ 0 ∷ 21 ∷ 56 ∷ 127 ∷ 0 ∷ 0 ∷ 1 ∷ 0 ∷ 0 ∷ 0 ∷ 0 ∷ 0 ∷ 0 ∷ 0 ∷ 0 ∷ [])
unfolding encode unmap as4
encode_test = refl

decode-encode_example : reread (encode localhost) ≡ some (inl localhost)
decode-encode_example = decode-encode (inet 127 0 0 1 5432 (omega arith))
