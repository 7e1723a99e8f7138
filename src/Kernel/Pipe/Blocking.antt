-- ===== src/Kernel/Pipe/Blocking.antt =====
-- When the ends of a pipe block, what poll says of them, and who is woken.
use pgzero.Base.{
  Bool-cases, update_self, update-ne, ◌∙◌, ℕ_discrete, update, ap, ℕ, ◌≤◌, ◌≡◌, refl, ◌≢◌, ◌⊎◌, inl,
  inr, ◌↔◌, true, false, List, [], ◌∷◌, length, arith, subst, sym, sym, subst, some,
}
use pgzero.Abi.{eagain}
use pgzero.Kernel.File.{any_event}
use pgzero.Kernel.Notifier.{notify}
use pgzero.Kernel.Notifier.Wakeups.{IsSound, wait-IsSound, notify-closes, wait-current}
use pgzero.Kernel.Pipe.{
  Atom, read_whole, write_whole, take_channel, drop_reader, drop_writer, call_notify, atom,
  steps_of, Pipe, pipe_atomic, read, write, poll_reader, poll_writer, Op, changed,
}
use pgzero.Kernel.Pipe.Interleaving.{
  IsCareful, Shared, Move, moves, idle, listening, is_notify, notifies, quiet_or_notified,
  atom_stays_closed, IsBegun, advance-IsBegun, start-IsBegun, moves-keeps,
}

-- A read of at least one byte blocks exactly when poll reports nothing for the read end.
pub read_blocks_iff :
    (k : ℕ) (p : Pipe) → k ≢ 0 → ((read k p).1 ≡ eagain) ↔ (any_event (poll_reader p) ≡ false)
unfolding read poll_reader
read_blocks_iff k p h = (λ e. ground arith, λ e. ground arith)

-- Where poll reports POLLOUT, a write of at most `pipe_atomic` bytes is taken whole.
pub pollout-write :
    (b : List ℕ) (p : Pipe)
    → (poll_writer p).pollout ≡ true
    → length b ≤ pipe_atomic
    → ((write b p).0 ≡ length b) × ((write b p).1 ≡ 0)
unfolding write poll_writer
pollout-write b p h l = ground arith

-- The channel is closed, or it is current and the pipe is q or a goroutine is on its way to `notify`.
record Watches (c : ℕ) (q : Pipe) (s : Shared) : Type 0 where
  begun : IsBegun s
  watch :
      (s.pipe.n.closes c ≡ 1)
      ⊎ ((s.pipe.n.ch ≡ some c) × ((s.pipe ≡ q) ⊎ ((t : ℕ) × (notifies (s.left t) ≡ true))))

advance-Watches :
    (c : ℕ) (q : Pipe) (t : ℕ) (a : Atom) (rest : List Atom) (s : Shared)
    → s.left t ≡ a ∷ rest
    → Watches c q s
    → Watches c q (record { pipe = atom s.pipe a; left = update s.left t rest })
advance-Watches c q t a rest s e w = record {
  begun = advance-IsBegun t a rest s e w.begun;
  watch = elim w.watch [
    | inl h ↦ inl (atom_stays_closed s.pipe a c w.begun.sound h)
    | inr (h, r) ↦ elim (quiet_or_notified s.pipe a c h) [
      | inl k ↦ kept k h r
      | inr (inl k) ↦ inl (rw k (notify-closes s.pipe.n c w.begun.sound h))
      | inr (inr (d, k)) ↦ inr (
        rw k h,
        inr (
          t,
          ap notifies (update_self s.left t rest) ∙ (subst IsCareful e (w.begun.careful t)).0 d,
        ),
      )
    ]
  ];
}
  where
    still :
        (u : ℕ)
        → notifies (s.left u) ≡ true
        → is_notify a ≡ false
        → notifies (update s.left t rest u) ≡ true
    still u h n = elim (ℕ_discrete t u) [
      | yes y ↦
          let x : notifies (a ∷ rest) ≡ true =
            ap notifies (sym e) ∙ ap (λ v. notifies (s.left v)) y ∙ h in
          ap (λ v. notifies (update s.left t rest v)) (sym y)
          ∙ ap notifies (update_self s.left t rest)
          ∙ ground (arith, x, n)
      | no m ↦ ap notifies (update-ne s.left t u rest m) ∙ h
    ]

    kept :
        atom s.pipe a ≡ s.pipe
        → s.pipe.n.ch ≡ some c
        → (s.pipe ≡ q) ⊎ ((u : ℕ) × (notifies (s.left u) ≡ true))
        → ((atom s.pipe a).n.closes c ≡ 1)
          ⊎ (((atom s.pipe a).n.ch ≡ some c)
              × ((atom s.pipe a ≡ q) ⊎ ((u : ℕ) × (notifies (update s.left t rest u) ≡ true))))
    kept k h (inl r) = inr (rw k h, inl (k ∙ r))
    kept k h (inr (u, x)) = elim (Bool-cases (is_notify a)) [
      | inr n ↦ inr (rw k h, inr (u, still u x n))
      | inl n ↦
          inl
            (ap (λ p. p.n.closes c) (is_call_notify a n) ∙ notify-closes s.pipe.n c w.begun.sound h)
    ]
      where
        is_call_notify :
            (a : Atom)
            → is_notify a ≡ true
            → atom s.pipe a ≡ record (s.pipe) { n = notify s.pipe.n }
        is_call_notify (read_whole k) n = ground (arith, n)
        is_call_notify (write_whole b) n = ground (arith, n)
        is_call_notify take_channel n = ground (arith, n)
        is_call_notify drop_reader n = ground (arith, n)
        is_call_notify drop_writer n = ground (arith, n)
        is_call_notify call_notify n = refl

start-Watches :
    (c : ℕ) (q : Pipe) (t : ℕ) (o : Op) (s : Shared)
    → s.left t ≡ []
    → Watches c q s
    → Watches c q (record s { left = update s.left t (steps_of o) })
start-Watches c q t o s e w = record {
  begun = start-IsBegun t o s w.begun;
  watch = elim w.watch [
    | inl h ↦ inl h
    | inr (h, inl r) ↦ inr (h, inl r)
    | inr (h, inr (u, x)) ↦ inr (
      h,
      inr (
        u,
        elim (ℕ_discrete t u) [
          | yes y ↦
              let z : notifies [] ≡ true =
                ap notifies (sym e) ∙ ap (λ v. notifies (s.left v)) y ∙ x in
              absurd (ground (arith, z))
          | no m ↦ ap notifies (update-ne s.left t u (steps_of o) m) ∙ x
        ],
      ),
    )
  ];
}

finished :
    (c : ℕ) (q : Pipe) (u : Shared)
    → ((t : ℕ) → u.left t ≡ [])
    → (u.pipe.n.closes c ≡ 1)
      ⊎ ((u.pipe.n.ch ≡ some c) × ((u.pipe ≡ q) ⊎ ((t : ℕ) × (notifies (u.left t) ≡ true))))
    → (u.pipe ≡ q) ⊎ (u.pipe.n.closes c ≡ 1)
finished c q u f (inl h) = inr h
finished c q u f (inr (h, inl r)) = inl r
finished c q u f (inr (h, inr (t, x))) =
    let z : notifies [] ≡ true = ap notifies (sym (f t)) ∙ x in absurd (ground (arith, z))

-- A wakeup is never lost. The holders of a pipe's ends are in the middle of any calls when one takes a channel
-- with `changed`, and go on with any steps, where release changes the count and calls `notify` in two.
-- Once no call is under way any more, that channel has been closed, unless the pipe is exactly as it was
-- when the channel was taken.
pub changed_or_woken :
    (p : Pipe) (before after : List Move)
    → IsSound p.n
    → ((t : ℕ) → (moves (listening (moves (idle p) before)) after).left t ≡ [])
    → let s = moves (idle p) before in
      let u = moves (listening s) after in
      (u.pipe ≡ (listening s).pipe) ⊎ (u.pipe.n.closes (changed s.pipe).0 ≡ 1)
unfolding changed
changed_or_woken p before after v f =
    let s = moves (idle p) before in
    let c : ℕ = (changed s.pipe).0 in
    let q : Pipe = (listening s).pipe in
    let begun : IsBegun s =
      moves-keeps IsBegun (λ t o s e w. start-IsBegun t o s w) advance-IsBegun (idle p) before
        (record { sound = v; careful = λ t. tt }) in
    let start : Watches c q (listening s) = record {
      begun = record { sound = wait-IsSound s.pipe.n begun.sound; careful = begun.careful };
      watch = inr (wait-current s.pipe.n, inl refl);
    } in
    let end : Watches c q (moves (listening s) after) =
      moves-keeps (Watches c q) (start-Watches c q) (advance-Watches c q) (listening s) after
        start in
    finished c q (moves (listening s) after) f end.watch
