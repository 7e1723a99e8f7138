-- ===== src/Server/Startup/Answers.antt =====
-- Answers as the server's protocol has them, and what probe makes of them.
use pgzero.Base.{
  ℕ, ◌+◌, ◌-◌, ◌<◌, ◌≡◌, refl, ap, ap₂, ◌∙◌, ◌≢◌, true, false, Option, none, some, List, [], ◌∷◌,
  ◌++◌, arith, ltb, ◌==◌, if◌then◌else◌, is_empty, length, take, drop, length-append,
}
use mathlib.Core.List.{append_assoc}
use pgzero.Paths.{Bytes, same_bytes}
use pgzero.Server.Startup.{
  be32, from_be32, read_full, split_zero, part_for, last_some, field, or_empty, starting_up, Probe,
  ready, not_ready, refused, unexpected, judge, read_answer, probe,
}

-- a message: its kind, its length with the four bytes of the length, and its body
abbrev pub message : ℕ → Bytes → Bytes
message kind body = kind ∷ (be32 (4 + length body) ++ body)

-- the body of an error: each field's code and text, and a zero after each and after all
abbrev pub error_body : List (ℕ × Bytes) → Bytes
error_body [] = 0 ∷ []
error_body ((k, v) ∷ fs) = k ∷ (v ++ 0 ∷ error_body fs)

abbrev pub HasNoZero : Bytes → Type 0
HasNoZero [] = Unit
HasNoZero (c ∷ p) = ((c == 0) ≡ false) × HasNoZero p

-- codes and texts without zeros, and no text empty
abbrev pub AreFields : List (ℕ × Bytes) → Type 0
AreFields [] = Unit
AreFields ((k, v) ∷ fs) = (is_empty v ≡ false) × HasNoZero (k ∷ v) × AreFields fs

abbrev pub last_text : ℕ → List (ℕ × Bytes) → Option Bytes
last_text k [] = none
last_text k ((j, v) ∷ fs) = last_some (if j == k then some v else none) (last_text k fs)

-- the text of the last field with a code, or none
abbrev pub text_of : ℕ → List (ℕ × Bytes) → Bytes
text_of k fs = or_empty (last_text k fs)

be32-from_be32 : (n : ℕ) (p : Bytes) → n < 4294967296 → from_be32 (be32 n ++ p) ≡ n
be32-from_be32 n p h = omega (arith, h)

take-append : (p q : Bytes) → take (length p) (p ++ q) ≡ p
take-append [] q = refl
take-append (c ∷ p) q = ap (λ t. c ∷ t) (take-append p q)

drop-append : (p q : Bytes) → drop (length p) (p ++ q) ≡ q
drop-append [] q = refl
drop-append (c ∷ p) q = drop-append p q

read_full-append : (p q : Bytes) → read_full (length p) (p ++ q) ≡ some (p, q)
unfolding read_full
read_full-append p q =
    let e : ltb (length (p ++ q)) (length p) ≡ false = ground (arith, length-append p q) in
    rw (e, take-append p q, drop-append p q) refl

read_answer-append :
    (kind : ℕ) (body rest : Bytes)
    → 4 + length body < 4294967296
    → read_answer (kind ∷ be32 (4 + length body)) (body ++ rest) ≡ judge kind body
unfolding read_answer
read_answer-append kind body rest h =
    let q : from_be32 (be32 (4 + length body)) - 4 ≡ length body = omega (arith, h) in
    let r : read_full (from_be32 (be32 (4 + length body)) - 4) (body ++ rest) ≡ some (body, rest) =
      ap (λ n. read_full n (body ++ rest)) q ∙ read_full-append body rest in
    rw (r, read_answer) refl

-- A whole message is judged by its kind and its body.
probe-message :
    (kind : ℕ) (body rest : Bytes)
    → 4 + length body < 4294967296
    → probe true true (message kind body ++ rest) ≡ judge kind body
unfolding probe
probe-message kind body rest h =
    let n = 4 + length body in
    ap (λ t. probe true true (kind ∷ t)) (append_assoc (be32 n) body rest)
    ∙ (rw (read_full-append (kind ∷ be32 n) (body ++ rest), probe)
        (read_answer-append kind body rest h))

split_zero-append : (v p : Bytes) → HasNoZero v → split_zero (v ++ 0 ∷ p) ≡ v ∷ split_zero p
split_zero-append [] p h = refl
split_zero-append (c ∷ v) p h = rw (h.0, split_zero-append v p h.1) refl

field-error_body :
    (k : ℕ) (fs : List (ℕ × Bytes))
    → AreFields fs
    → field k (split_zero (error_body fs)) ≡ last_text k fs
field-error_body k [] h = refl
field-error_body k ((j, v) ∷ fs) h =
    let e : split_zero ((j ∷ v) ++ 0 ∷ error_body fs) ≡ (j ∷ v) ∷ split_zero (error_body fs) =
      split_zero-append (j ∷ v) (error_body fs) h.1 in
    ap (field k) e ∙ ap₂ last_some (part v (h.0)) (field-error_body k fs h.2)
  where
    part : (v : Bytes) → is_empty v ≡ false → part_for k (j ∷ v) ≡ (if j == k then some v else none)
    part [] e = ground (arith, e)
    part (c ∷ v) e = refl

-- an answer: a request for authentication, an error, or another kind
pub data Answer : Type 0 where
  authentication : Bytes → Answer
  error : List (ℕ × Bytes) → Answer
  other : ℕ → Bytes → Answer

abbrev pub body_of : Answer → Bytes
body_of (authentication body) = body
body_of (error fs) = error_body fs
body_of (other kind body) = body

abbrev pub kind_of : Answer → ℕ
kind_of (authentication body) = 82
kind_of (error fs) = 69
kind_of (other kind body) = kind

-- fields as they should be, and another kind than the two
abbrev pub IsFormed : Answer → Type 0
IsFormed (authentication body) = Unit
IsFormed (error fs) = AreFields fs
IsFormed (other kind body) = (kind ≢ 82) × (kind ≢ 69)

abbrev pub verdict : Answer → Probe
verdict (authentication body) = ready
verdict (error fs) =
    if same_bytes (text_of 67 fs) starting_up then not_ready else refused (text_of 77 fs)
verdict (other kind body) = unexpected kind

judge-verdict : (a : Answer) → IsFormed a → judge (kind_of a) (body_of a) ≡ verdict a
unfolding judge
judge-verdict (authentication body) f = refl
judge-verdict (error fs) f =
    ap₂ (λ c m. if same_bytes (or_empty c) starting_up then not_ready else refused (or_empty m))
      (field-error_body 67 fs f) (field-error_body 77 fs f)
judge-verdict (other kind body) f = ground (arith, f.0, f.1)

-- For an answer that has come whole, whatever comes after it, with a body that its length can count: probe
-- reports that the server is ready for an authentication request ('R', with any body); for an error ('E')
-- of fields with codes and texts without zeros and no text empty, it reports that the server is not ready
-- yet when the last field 'C' is "57P03", and else the text of the last field 'M'; any other kind of
-- answer is reported as unexpected.
pub probe-verdict :
    (a : Answer) (rest : Bytes)
    → IsFormed a
    → 4 + length (body_of a) < 4294967296
    → probe true true (message (kind_of a) (body_of a) ++ rest) ≡ verdict a
probe-verdict a rest f h = probe-message (kind_of a) (body_of a) rest h ∙ judge-verdict a f
