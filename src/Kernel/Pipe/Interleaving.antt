-- ===== src/Kernel/Pipe/Interleaving.antt =====
-- The steps of the goroutines that hold a pipe's ends, in any order, and what every step keeps.
use pgzero.Base.{
  update_self, update-ne, ℕ_discrete, ◌||◌, is_empty, update, if◌then◌else◌, Bool, ℕ, ◌≡◌, refl,
  ◌⊎◌, inl, inr, true, false, List, [], ◌∷◌, arith, subst, sym, sym, subst, some,
}
use pgzero.Kernel.Notifier.{notify, wait}
use pgzero.Kernel.Notifier.Wakeups.{
  IsSound, wait-IsSound, notify-IsSound, stays_closed_notify, stays_closed_wait,
}
use pgzero.Kernel.Pipe.{
  Atom, read_whole, write_whole, take_channel, drop_reader, drop_writer, call_notify, atom,
  steps_of, Pipe, read, write, Op, reads, writes, waits, release_reads, release_writes, changed,
}

-- A pipe, and what is left of the call that each goroutine is in.
pub record Shared : Type 0 where
  pub pipe : Pipe
  pub left : ℕ → List Atom

pub data Move : Type 0 where
  starts : ℕ → Op → Move
  advances : ℕ → Move

abbrev advance : ℕ → List Atom → Shared → Shared
advance t [] s = s
advance t (a ∷ rest) s = record { pipe = atom s.pipe a; left = update s.left t rest }

-- A goroutine that is in no call starts one; a goroutine makes the next step of its call.
unfoldable pub move : Shared → Move → Shared
move s (starts t o) =
    if is_empty (s.left t) then record s { left = update s.left t (steps_of o) } else s
move s (advances t) = advance t (s.left t) s

unfoldable pub moves : Shared → List Move → Shared
moves s [] = s
moves s (m ∷ ms) = moves (move s m) ms

abbrev pub idle : Pipe → Shared
idle p = record { pipe = p; left = λ t. [] }

-- The channel has been taken.
abbrev pub listening : Shared → Shared
listening s = record s { pipe = (changed s.pipe).1 }

abbrev is_drop : Atom → Bool
is_drop (read_whole k) = false
is_drop (write_whole b) = false
is_drop take_channel = false
is_drop drop_reader = true
is_drop drop_writer = true
is_drop call_notify = false

abbrev pub is_notify : Atom → Bool
is_notify (read_whole k) = false
is_notify (write_whole b) = false
is_notify take_channel = false
is_notify drop_reader = false
is_notify drop_writer = false
is_notify call_notify = true

abbrev pub notifies : List Atom → Bool
notifies [] = false
notifies (a ∷ rest) = is_notify a || notifies rest

-- After a count is changed, notify is still to come.
abbrev pub IsCareful : List Atom → Type 0
IsCareful [] = Unit
IsCareful (a ∷ rest) = (is_drop a ≡ true → notifies rest ≡ true) × IsCareful rest

steps_of-IsCareful : (o : Op) → IsCareful (steps_of o)
steps_of-IsCareful (reads k) = (λ h. ground (arith, h), tt)
steps_of-IsCareful (writes b) = (λ h. ground (arith, h), tt)
steps_of-IsCareful waits = (λ h. ground (arith, h), tt)
steps_of-IsCareful release_reads = (λ h. refl, (λ h. ground (arith, h), tt))
steps_of-IsCareful release_writes = (λ h. refl, (λ h. ground (arith, h), tt))

-- Each step but a count leaves a pipe whose channel was taken as it is, or calls `notify`.
pub quiet_or_notified :
    (p : Pipe) (a : Atom) (c : ℕ)
    → p.n.ch ≡ some c
    → (atom p a ≡ p) ⊎ ((atom p a).n ≡ notify p.n) ⊎ ((is_drop a ≡ true) × ((atom p a).n ≡ p.n))
unfolding read write changed wait
quiet_or_notified p (read_whole k) c h = ground arith
quiet_or_notified p (write_whole b) c h = ground arith
quiet_or_notified p take_channel c h = ground arith
quiet_or_notified p drop_reader c h = inr (inr (refl, refl))
quiet_or_notified p drop_writer c h = inr (inr (refl, refl))
quiet_or_notified p call_notify c h = inr (inl refl)

atom-notifier :
    (p : Pipe) (a : Atom)
    → ((atom p a).n ≡ p.n) ⊎ ((atom p a).n ≡ notify p.n) ⊎ ((atom p a).n ≡ (wait p.n).1)
unfolding read write changed
atom-notifier p (read_whole k) = ground arith
atom-notifier p (write_whole b) = ground arith
atom-notifier p take_channel = inr (inr refl)
atom-notifier p drop_reader = inl refl
atom-notifier p drop_writer = inl refl
atom-notifier p call_notify = inr (inl refl)

atom-IsSound : (p : Pipe) (a : Atom) → IsSound p.n → IsSound (atom p a).n
atom-IsSound p a s = elim (atom-notifier p a) [
  | inl e ↦ rw e s
  | inr (inl e) ↦ rw e (notify-IsSound p.n s)
  | inr (inr e) ↦ rw e (wait-IsSound p.n s)
]

pub atom_stays_closed :
    (p : Pipe) (a : Atom) (c : ℕ) → IsSound p.n → p.n.closes c ≡ 1 → (atom p a).n.closes c ≡ 1
atom_stays_closed p a c s h = elim (atom-notifier p a) [
  | inl e ↦ rw e h
  | inr (inl e) ↦ rw e (stays_closed_notify p.n c s h)
  | inr (inr e) ↦ rw e (stays_closed_wait p.n c h)
]

-- What holds of the notifier and of the calls under way.
pub record IsBegun (s : Shared) : Type 0 where
  pub sound : IsSound s.pipe.n
  pub careful : (t : ℕ) → IsCareful (s.left t)

pub advance-IsBegun :
    (t : ℕ) (a : Atom) (rest : List Atom) (s : Shared)
    → s.left t ≡ a ∷ rest
    → IsBegun s
    → IsBegun (record { pipe = atom s.pipe a; left = update s.left t rest })
advance-IsBegun t a rest s e w = record {
  sound = atom-IsSound s.pipe a w.sound;
  careful = λ u. elim (ℕ_discrete t u) [
    | yes y ↦
        subst (λ v. IsCareful (update s.left t rest v)) y
          (subst IsCareful (sym (update_self s.left t rest)) (subst IsCareful e (w.careful t)).1)
    | no n ↦ subst IsCareful (sym (update-ne s.left t u rest n)) (w.careful u)
  ];
}

pub start-IsBegun :
    (t : ℕ) (o : Op) (s : Shared)
    → IsBegun s
    → IsBegun (record s { left = update s.left t (steps_of o) })
start-IsBegun t o s w = record {
  sound = w.sound;
  careful = λ u. elim (ℕ_discrete t u) [
    | yes y ↦
        subst (λ v. IsCareful (update s.left t (steps_of o) v)) y
          (subst IsCareful (sym (update_self s.left t (steps_of o))) (steps_of-IsCareful o))
    | no n ↦ subst IsCareful (sym (update-ne s.left t u (steps_of o) n)) (w.careful u)
  ];
}

-- A predicate that a started call and a step of a call keep, any moves keep.
module _ (P : Shared → Type 0)
    (start : (t : ℕ) (o : Op) (s : Shared)
      → s.left t ≡ []
      → P s
      → P (record s { left = update s.left t (steps_of o) }))
    (next : (t : ℕ) (a : Atom) (rest : List Atom) (s : Shared)
      → s.left t ≡ a ∷ rest
      → P s
      → P (record { pipe = atom s.pipe a; left = update s.left t rest })) where
  start_by :
      (t : ℕ) (o : Op) (s : Shared) (rest : List Atom)
      → s.left t ≡ rest
      → P s
      → P (if is_empty rest then record s { left = update s.left t (steps_of o) } else s)
  start_by t o s [] e w = start t o s e w
  start_by t o s (a ∷ rest) e w = w

  next_by : (t : ℕ) (s : Shared) (rest : List Atom) → s.left t ≡ rest → P s → P (advance t rest s)
  next_by t s [] e w = w
  next_by t s (a ∷ rest) e w = next t a rest s e w

  move-keeps : (s : Shared) (m : Move) → P s → P (move s m)
  unfolding move
  move-keeps s (starts t o) w = start_by t o s (s.left t) refl w
  move-keeps s (advances t) w = next_by t s (s.left t) refl w

  pub moves-keeps : (s : Shared) (ms : List Move) → P s → P (moves s ms)
  unfolding moves
  moves-keeps s [] w = w
  moves-keeps s (m ∷ ms) w = moves-keeps (move s m) ms (move-keeps s m w)
