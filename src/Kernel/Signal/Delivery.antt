-- ===== src/Kernel/Signal/Delivery.antt =====
-- No signal is lost on the way from Signal to the guest's pending set.
use pgzero.Base.{
  Bool, ℕ, zero, suc, ◌<◌, ◌≡◌, refl, true, false, ◌&&◌, ◌||◌, not, if◌then◌else◌, ◌==◌, List, [],
  ◌∷◌, arith, inl, inr, Bool-cases, ltb, ◌∙◌, ap, fun_ext, ◌↔◌, ℕ_discrete,
}
use pgzero.Vmem.{Memory}
use pgzero.Kernel.Signal.{
  Signals, Mask, bit, union, any_bit, no_signals, sigkill, signal, register_signals, is_interrupted,
}

any_bit_of : (n : ℕ) (m : Mask) (i : ℕ) → i < n → m i ≡ true → any_bit n m ≡ true
unfolding any_bit
any_bit_of zero m i l h = absurd (omega arith)
any_bit_of (suc n) m i l h = elim (ℕ_discrete i n) [
  | yes e ↦ ground arith
  | no e ↦ ground (arith, any_bit_of n m i)
]

bit_of_any : (n : ℕ) (m : Mask) → any_bit n m ≡ true → (i : ℕ) × (i < n) × (m i ≡ true)
unfolding any_bit
bit_of_any zero m h = cc
bit_of_any (suc n) m h = elim (Bool-cases (m n)) [
  | inl e ↦ (n, omega arith, e)
  | inr e ↦ let (i, l, f) = bit_of_any n m (rw e at h) in (i, omega (arith, l), f)
]

-- The signals that interrupt a blocking call: pending, neither blocked nor ignored; before the process has
-- registered its control block, all that have come.
abbrev pub interrupting : Signals → Mask
interrupting s i =
    if s.registered then s.pending i && not (s.blocked i) && not (s.ignored i) else s.early i

is_interrupted-any_bit : (s : Signals) → is_interrupted s ≡ any_bit 64 (interrupting s)
unfolding is_interrupted
is_interrupted-any_bit s = elim (Bool-cases s.registered) [
  | inl e ↦ rw (e, is_interrupted) (ap (any_bit 64) (fun_ext λ i. ground arith))
  | inr e ↦ rw (e, is_interrupted) refl
]

-- A blocking call is interrupted exactly while one of the 64 signals is `interrupting`.
pub is_interrupted_iff :
    (s : Signals) → (is_interrupted s ≡ true) ↔ ((i : ℕ) × (i < 64) × (interrupting s i ≡ true))
is_interrupted_iff s =
    rw (is_interrupted-any_bit s)
      (bit_of_any 64 (interrupting s), λ h. any_bit_of 64 (interrupting s) h.0 h.1 h.2)

-- The bits that a run of calls of Signal sets.
abbrev pub sends : List ℕ → Mask
sends [] = no_signals
sends (sig ∷ sigs) = if sig == sigkill then sends sigs else union (bit sig) (sends sigs)

abbrev pub signal_all : List ℕ → Signals → Signals
signal_all [] s = s
signal_all (sig ∷ sigs) s = signal_all sigs (signal sig s)

signal_all-registered :
    (sigs : List ℕ) (s : Signals) (i : ℕ)
    → s.registered ≡ true
    → ((signal_all sigs s).pending i ≡ (s.pending i || sends sigs i))
unfolding signal
signal_all-registered [] s i h = ground arith
signal_all-registered (sig ∷ sigs) s i h =
    ground (arith, signal_all-registered sigs (signal sig s) i)

signal_all-early :
    (sigs : List ℕ) (s : Signals) (i : ℕ)
    → s.registered ≡ false
    → (((signal_all sigs s).early i ≡ (s.early i || sends sigs i))
        × ((signal_all sigs s).registered ≡ false))
unfolding signal
signal_all-early [] s i h = ground arith
signal_all-early (sig ∷ sigs) s i h = ground (arith, signal_all-early sigs (signal sig s) i)

registers :
    (m : Memory) (addr : ℕ) (block : Mask × Mask × Mask) (s : Signals)
    → (register_signals m addr block s).0 ≡ 0
    → (register_signals m addr block s).1 ≡ record s {
      registered = true;
      pending = union block.0 s.early;
      blocked = block.1;
      ignored = block.2;
      early = no_signals;
    }
unfolding register_signals
registers m addr block s h = ground arith

-- Whether a run of calls of Signal was made for the signal i, which is not SIGKILL.
abbrev pub is_sent : ℕ → List ℕ → Bool
is_sent i [] = false
is_sent i (sig ∷ sigs) = (i == sig && not (i == sigkill)) || is_sent i sigs

sends-is_sent : (sigs : List ℕ) (i : ℕ) → i < 64 → sends sigs i ≡ is_sent i sigs
sends-is_sent [] i l = refl
sends-is_sent (sig ∷ sigs) i l = ground (arith, sends-is_sent sigs i l)

-- The signals below 64 sent before the process has registered its control block are pending afterwards,
-- with those sent later and those that the block held: none of them is lost and none is made up. SIGKILL,
-- which sets no bit, is left out.
pub register_delivers :
    (before later : List ℕ) (m : Memory) (addr : ℕ) (block : Mask × Mask × Mask) (s : Signals)
    (i : ℕ)
    → i < 64
    → s.registered ≡ false
    → (register_signals m addr block (signal_all before s)).0 ≡ 0
    → let t = (register_signals m addr block (signal_all before s)).1 in
      (signal_all later t).pending i
      ≡ (block.0 i || s.early i || is_sent i before || is_sent i later)
register_delivers before later m addr block s i l h e =
    let sent : Signals = signal_all before s in
    let t : Signals = (register_signals m addr block sent).1 in
    let r : t ≡ record sent {
      registered = true;
      pending = union block.0 sent.early;
      blocked = block.1;
      ignored = block.2;
      early = no_signals;
    } =
      registers m addr block sent e in
    signal_all-registered later t i (ap (λ u. u.registered) r)
    ∙ ap (λ u. u.pending i || sends later i) r
    ∙ ap (λ b. (block.0 i || b) || sends later i) (signal_all-early before s i h).0
    ∙ ground (arith, sends-is_sent before i l, sends-is_sent later i l)

-- SIGKILL cancels the process and touches no mask. Any other signal below 64 is recorded and leaves a
-- wakeup for the process; 64, which kill(2) lets through since NSIG is 65, is recorded nowhere.
signal_recorded :
    (sig : ℕ) (s : Signals) (i : ℕ)
    → let t = signal sig s in
      let mine = if s.registered then s.pending i else s.early i in
      (if s.registered then t.pending i else t.early i)
        ≡ (mine || (sig == i && ltb sig 64 && not (sig == sigkill)))
      × (t.cancelled ≡ (s.cancelled || sig == sigkill))
      × (t.wake ≡ (s.wake || not (sig == sigkill)))
unfolding signal
signal_recorded sig s i = ground arith
