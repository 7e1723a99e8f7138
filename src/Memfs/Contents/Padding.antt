-- ===== src/Memfs/Contents/Padding.antt =====
-- The bytes that grow, copy and the sum of both leave, at each position.
use pgzero.Base.{
  add64, ap₂, ◌^◌, ◌<◌, ℕ, zero, suc, ◌+◌, ◌-◌, ◌≤◌, max, ◌≡◌, refl, ap, ◌∙◌, inl, inr, true, false,
  ◌&&◌, none, some, List, [], ◌∷◌, ◌++◌, arith, ltb, leb, if◌then◌else◌, Bool-cases, length, take,
  drop, replicate, is_neg64, get_elem?, length-take, length-append, length-replicate, length-drop,
}
use pgzero.Memfs.Contents.{grown, copy_at, grow, overwrite, write_contents}

-- The byte at position i; past the end there is none.
get_elem?-append :
    (xs ys : List ℕ) (i : ℕ)
    → get_elem? (xs ++ ys) i
      ≡ (if ltb i (length xs) then get_elem? xs i else get_elem? ys (i - length xs))
get_elem?-append [] ys i = ground arith
get_elem?-append (x ∷ xs) ys zero = ground arith
get_elem?-append (x ∷ xs) ys (suc i) = ground (arith, get_elem?-append xs ys i)

pub get_elem?-take :
    (n : ℕ) (xs : List ℕ) (i : ℕ)
    → get_elem? (take n xs) i ≡ (if ltb i n then get_elem? xs i else none)
get_elem?-take zero xs i = ground arith
get_elem?-take (suc n) [] i = ground arith
get_elem?-take (suc n) (x ∷ xs) zero = ground arith
get_elem?-take (suc n) (x ∷ xs) (suc i) = ground (arith, get_elem?-take n xs i)

pub get_elem?-drop : (n : ℕ) (xs : List ℕ) (i : ℕ) → get_elem? (drop n xs) i ≡ get_elem? xs (n + i)
get_elem?-drop zero xs i = let e : i ≡ 0 + i = omega arith in ap (get_elem? xs) e
get_elem?-drop (suc n) [] i = refl
get_elem?-drop (suc n) (x ∷ xs) i =
    let e : suc (n + i) ≡ suc n + i = omega arith in
    get_elem?-drop n xs i ∙ ap (get_elem? (x ∷ xs)) e

get_elem?-replicate : (n a i : ℕ) → get_elem? (replicate n a) i ≡ (if ltb i n then some a else none)
get_elem?-replicate zero a i = ground arith
get_elem?-replicate (suc n) a zero = ground arith
get_elem?-replicate (suc n) a (suc i) = ground (arith, get_elem?-replicate n a i)

get_elem?-none : (xs : List ℕ) (i : ℕ) → length xs ≤ i → get_elem? xs i ≡ none
get_elem?-none [] i h = refl
get_elem?-none (x ∷ xs) zero h = absurd (omega arith)
get_elem?-none (x ∷ xs) (suc i) h = get_elem?-none xs i (omega arith)

-- the bytes and then zeros up to the size
abbrev padded : List ℕ → ℕ → List ℕ
padded d size = d ++ replicate (size - length d) 0

take-take :
    (size : ℕ) (d spare : List ℕ) → length d ≤ size → take (length d) (take size (d ++ spare)) ≡ d
take-take size [] spare h = refl
take-take zero (x ∷ d) spare h = absurd (omega arith)
take-take (suc size) (x ∷ d) spare h = ap (λ l. x ∷ l) (take-take size d spare (omega arith))

-- Whatever the slice's array holds past its length, grow pads with zeros.
pub grow-padded :
    (d spare : List ℕ) (size : ℕ) → length d ≤ size → grow d spare size ≡ padded d size
unfolding grow
grow-padded d spare size h = elim (Bool-cases (leb size (length d + length spare))) [
  | inr e ↦ rw e refl
  | inl e ↦
      let n : length (take size (d ++ spare)) ≡ size =
        ground (arith, e, length-take size (d ++ spare), length-append d spare) in
      rw e (ap₂ (λ x k. x ++ replicate k 0) (take-take size d spare h) (ap (λ k. k - length d) n))
]

pub padded_at :
    (d : List ℕ) (size i : ℕ)
    → get_elem? (padded d size) i
      ≡ (if ltb i (length d) then get_elem? d i else if ltb i size then some 0 else none)
padded_at d size i = ground (
  arith,
  get_elem?-append d (replicate (size - length d) 0) i,
  get_elem?-replicate (size - length d) 0 (i - length d),
)

rejoin : (off n i : ℕ) → off + n ≤ i → off + n + (i - off - n) ≡ i
rejoin off n i h = omega arith

length-padded : (d : List ℕ) (size : ℕ) → length (padded d size) ≡ max (length d) size
length-padded d size = omega (
  arith,
  length-append d (replicate (size - length d) 0),
  length-replicate {A = ℕ} (size - length d) 0,
)

overwrite_at :
    (d : List ℕ) (off : ℕ) (b : List ℕ) (i : ℕ)
    → off + length b ≤ length d
    → get_elem? (overwrite d off b) i
      ≡ (if leb off i && ltb i (off + length b) then get_elem? b (i - off) else get_elem? d i)
unfolding overwrite
overwrite_at d off b i h = ground (
  arith,
  get_elem?-append (take off d) (b ++ drop (off + length b) d) i,
  get_elem?-append b (drop (off + length b) d) (i - off),
  get_elem?-take off d i,
  get_elem?-drop (off + length b) d (i - off - length b),
  rejoin off (length b) i,
  length-take off d,
)

-- the bytes of a write whose end does not wrap
abbrev pub placed : List ℕ → ℕ → List ℕ → List ℕ
placed d off b =
    overwrite (if ltb (length d) (off + length b) then padded d (off + length b) else d) off b

pub placed_at :
    (d : List ℕ) (off : ℕ) (b : List ℕ) (i : ℕ)
    → get_elem? (placed d off b) i ≡ (
        if leb off i && ltb i (off + length b)
        then get_elem? b (i - off)
        else if ltb i (length d)
        then get_elem? d i
        else if ltb i off
        then some 0
        else none)
placed_at d off b i = elim (Bool-cases (ltb (length d) (off + length b))) [
  | inl e ↦ rw (e) (
      ground (
        arith,
        overwrite_at (padded d (off + length b)) off b i
            (omega (arith, length-padded d (off + length b))),
        padded_at d (off + length b) i,
      ))
  | inr e ↦ rw (e) (ground (arith, overwrite_at d off b i (ground arith), get_elem?-none d i))
]

length-overwrite :
    (d : List ℕ) (off : ℕ) (b : List ℕ)
    → off + length b ≤ length d
    → length (overwrite d off b) ≡ length d
unfolding overwrite
length-overwrite d off b h = omega (
  arith,
  length-append (take off d) (b ++ drop (off + length b) d),
  length-append b (drop (off + length b) d),
  length-take off d,
  length-drop (off + length b) d,
)

pub length-placed :
    (d : List ℕ) (off : ℕ) (b : List ℕ) → length (placed d off b) ≡ max (length d) (off + length b)
length-placed d off b = elim (Bool-cases (ltb (length d) (off + length b))) [
  | inl e ↦ rw (e) (
      ground (
        arith,
        length-padded d (off + length b),
        length-overwrite (padded d (off + length b)) off b
            (omega (arith, length-padded d (off + length b))),
      ))
  | inr e ↦ rw (e) (ground (arith, length-overwrite d off b (ground arith)))
]

take_all : (b : List ℕ) (n : ℕ) → length b ≤ n → take n b ≡ b
take_all [] zero h = refl
take_all [] (suc n) h = refl
take_all (x ∷ b) zero h = absurd (omega arith)
take_all (x ∷ b) (suc n) h = ap (λ l. x ∷ l) (take_all b n (omega arith))

copy_at-fits :
    (d : List ℕ) (off : ℕ) (b : List ℕ)
    → off + length b ≤ length d
    → copy_at d off b ≡ some (overwrite d off b)
unfolding copy_at
copy_at-fits d off b h =
    let e : ltb (length d) off ≡ false = ground arith in
    rw (e, take_all b (length d - off) (omega (arith, h))) refl

grown-padded :
    (d spare : List ℕ) (end : ℕ)
    → end < 2 ^ 63
    → grown d spare end ≡ (if ltb (length d) end then padded d end else d)
unfolding grown
grown-padded d spare end h =
    let e : is_neg64 end ≡ false = ground arith in
    elim (Bool-cases (ltb (length d) end)) [
      | inl l ↦ rw (e, l) (grow-padded d spare end (ground (arith, l)))
      | inr l ↦ rw (e, l) refl
    ]

pub write_contents-placed :
    (d spare : List ℕ) (off : ℕ) (b : List ℕ)
    → off + length b < 2 ^ 63
    → write_contents d spare off b ≡ some (placed d off b)
unfolding write_contents
write_contents-placed d spare off b h =
    let end : ℕ = off + length b in
    let s : add64 off (length b) ≡ end = ground arith in
    let g : List ℕ = if ltb (length d) end then padded d end else d in
    let room : end ≤ length g = elim (Bool-cases (ltb (length d) end)) [
      | inl l ↦ rw l (omega (arith, length-padded d end))
      | inr l ↦ rw l (ground (arith, l))
    ] in
    ap (λ e. copy_at (grown d spare e) off b) s
    ∙ ap (λ x. copy_at x off b) (grown-padded d spare end h)
    ∙ copy_at-fits g off b room

pub write_contents-panics :
    (d spare : List ℕ) (off : ℕ) (b : List ℕ)
    → length d + length b < 2 ^ 63
    → off < 2 ^ 63
    → 2 ^ 63 ≤ off + length b
    → write_contents d spare off b ≡ none
unfolding write_contents grown copy_at
write_contents-panics d spare off b m o h =
    let n : is_neg64 (add64 off (length b)) ≡ true = ground arith in
    let l : ltb (length d) off ≡ true = ground arith in rw (n, l) refl
