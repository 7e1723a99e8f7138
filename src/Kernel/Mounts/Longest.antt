-- ===== src/Kernel/Mounts/Longest.antt =====
-- The mount that is found is the innermost, and what is left of the path stays in it.
use pgzero.Base.{
  ◌≤◌, ◌≡◌, refl, ap, ◌∙◌, ◌⊎◌, inl, inr, true, false, Option, none, some, List, [], ◌∷◌, arith,
  dec_lt, ltb, if◌then◌else◌, Bool-cases, lt→ltb,
}
use pgzero.Paths.{Bytes, clean}
use pgzero.Kernel.Mounts.{Mount, is_in, depth, better, find_mount}

abbrev pub IsMounted : List Mount → Mount → Type 0
IsMounted [] m = ⊥
IsMounted (n ∷ ms) m = (m ≡ n) ⊎ IsMounted ms m

-- Of the mounts P: the result fits and no longer one does; or none fits.
abbrev pub IsBest : Bytes → (Mount → Type 0) → Option Mount → Type 0
IsBest guest P none = (m : Mount) → P m → is_in guest (clean m.guest_path) ≡ false
IsBest guest P (some b) =
    P b
    × (is_in guest (clean b.guest_path) ≡ true)
    × ((m : Mount) → P m → is_in guest (clean m.guest_path) ≡ true → depth m ≤ depth b)

IsBest-map :
    (guest : Bytes) (P Q : Mount → Type 0) (o : Option Mount)
    → ((m : Mount) → P m → Q m)
    → ((m : Mount) → Q m → P m)
    → IsBest guest P o
    → IsBest guest Q o
IsBest-map guest P Q none f g h = λ m q. h m (g m q)
IsBest-map guest P Q (some b) f g h = (f b h.0, h.1, λ m q. h.2 m (g m q))

-- one more mount
IsBest-step :
    (guest : Bytes) (P : Mount → Type 0) (best : Option Mount) (n : Mount)
    → IsBest guest P best
    → IsBest guest
        (λ m. P m ⊎ (m ≡ n))
        (if is_in guest (clean n.guest_path) then better best n else best)
unfolding better
IsBest-step guest P none n h = elim (Bool-cases (is_in guest (clean n.guest_path))) [
  | inl e ↦ rw e (
    inr refl,
    e,
    λ m p i. elim p [
      | inl q ↦ absurd (ground (arith, h m q, i))
      | inr q ↦ omega (arith, ap depth q)
    ],
  )
  | inr e ↦
      rw e
        (λ m p. elim p [ inl q ↦ h m q | inr q ↦ ap (λ k. is_in guest (clean k.guest_path)) q ∙ e ])
]
IsBest-step guest P (some b) n h = elim (Bool-cases (is_in guest (clean n.guest_path))) [
  | inl e ↦ elim (dec_lt (depth b) (depth n)) [
    | yes l ↦
        rw (e, lt→ltb (depth b) (depth n) l)
          (
            inr refl,
            e,
            λ m p i. elim p [
              | inl q ↦ omega (arith, h.2 m q i, l)
              | inr q ↦ omega (arith, ap depth q)
            ],
          )
    | no l ↦
        let not_longer : ltb (depth b) (depth n) ≡ false = ground (arith, l) in
        rw (e, not_longer)
          (
            inl h.0,
            h.1,
            λ m p i. elim p [ inl q ↦ h.2 m q i | inr q ↦ omega (arith, ap depth q, l) ],
          )
  ]
  | inr e ↦ rw e (
    inl h.0,
    h.1,
    λ m p i. elim p [
      | inl q ↦ h.2 m q i
      | inr q ↦ absurd (ground (arith, ap (λ k. is_in guest (clean k.guest_path)) q, e, i))
    ],
  )
]

find_mount-IsBest :
    (guest : Bytes) (P : Mount → Type 0) (best : Option Mount) (ms : List Mount)
    → IsBest guest P best
    → IsBest guest (λ m. P m ⊎ IsMounted ms m) (find_mount guest best ms)
unfolding find_mount
find_mount-IsBest guest P best [] h =
    IsBest-map guest P (λ m. P m ⊎ ⊥) best (λ m p. inl p)
      (λ m p. elim p [ inl q ↦ q | inr q ↦ absurd q ]) h
find_mount-IsBest guest P best (n ∷ ms) h =
    IsBest-map guest (λ m. (P m ⊎ (m ≡ n)) ⊎ IsMounted ms m) (λ m. P m ⊎ IsMounted (n ∷ ms) m)
      (find_mount guest (if is_in guest (clean n.guest_path) then better best n else best) ms)
      (λ m p. elim p [
        | inl q ↦ elim q [ inl r ↦ inl r | inr r ↦ inr (inl r) ]
        | inr q ↦ inr (inr q)
      ])
      (λ m p. elim p [
        | inl q ↦ inl (inl q)
        | inr q ↦ elim q [ inl r ↦ inl (inr r) | inr r ↦ inr r ]
      ])
      (find_mount-IsBest guest (λ m. P m ⊎ (m ≡ n)) _ ms (IsBest-step guest P best n h))

pub find_mount-IsMounted :
    (guest : Bytes) (ms : List Mount) → IsBest guest (IsMounted ms) (find_mount guest none ms)
find_mount-IsMounted guest ms =
    IsBest-map guest (λ m. ⊥ ⊎ IsMounted ms m) (IsMounted ms) (find_mount guest none ms)
      (λ m p. elim p [ inl q ↦ absurd q | inr q ↦ q ]) (λ m q. inr q)
      (find_mount-IsBest guest (λ m. ⊥) none ms (λ m p. absurd p))
