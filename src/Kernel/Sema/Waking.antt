-- ===== src/Kernel/Sema/Waking.antt =====
-- A process that waits on a semaphore is woken when the count becomes positive.
use pgzero.Base.{
  [], ◌-◌, ◌∷◌, inr, inr, if◌then◌else◌, inl, true, ◌==◌, ◌<◌, Bool-cases, some, arith, ◌⊎◌, false,
  ◌≡◌, ◌+◌, ℕ, List,
}
use pgzero.Kernel.Sema.{is_pos, reset, unlock_notify, unlock_count, try_lock, Semaphore}
use pgzero.Kernel.Notifier.Wakeups.{
  wait_keeps, wait-current, stays_closed_notify, stays_closed_wait, notify-closes, notify-IsSound,
  wait-IsSound, IsSound,
}
use pgzero.Kernel.Notifier.{wait}

-- What others do to a semaphore, with the unlocks that have raised the count and not yet called `notify`.
pub data Move : Type 0 where
  tries raises notifies resets waits : Move

pub record Shared : Type 0 where
  pub sema : Semaphore
  pub in_flight : ℕ

unfoldable pub move : Shared → Move → Shared
move s tries = record s { sema = (try_lock s.sema).1 }
move s raises = record s { sema = unlock_count s.sema; in_flight = s.in_flight + 1 }
move s notifies =
    if s.in_flight == 0
    then s
    else record s { sema = unlock_notify s.sema; in_flight = s.in_flight - 1 }
move s resets = record s { sema = reset s.sema }
move s waits = record s { sema = record s.sema { n = (wait s.sema.n).1 } }

unfoldable pub moves : Shared → List Move → Shared
moves s [] = s
moves s (m ∷ ms) = moves (move s m) ms

-- The channel c is closed, or still current with nothing to wake for.
record Watches (c : ℕ) (s : Shared) : Type 0 where
  sound : IsSound s.sema.n
  watch :
      (s.sema.n.closes c ≡ 1)
      ⊎ ((s.sema.n.ch ≡ some c) × ((is_pos s.sema.count ≡ false) ⊎ (0 < s.in_flight)))

move-Watches : (c : ℕ) (s : Shared) (m : Move) → Watches c s → Watches c (move s m)
unfolding move try_lock unlock_count unlock_notify reset
move-Watches c s tries w = record {
  sound = ground (arith, w.sound);
  watch = ground (arith, w.watch);
}
move-Watches c s raises w = record { sound = w.sound; watch = ground (arith, w.watch) }
move-Watches c s notifies w = elim (Bool-cases (s.in_flight == 0)) [
  | inl e ↦ rw e w
  | inr e ↦ rw e (record {
    sound = notify-IsSound s.sema.n w.sound;
    watch = elim w.watch [
      | inl h ↦ inl (stays_closed_notify s.sema.n c w.sound h)
      | inr h ↦ inl (notify-closes s.sema.n c w.sound h.0)
    ];
  })
]
move-Watches c s resets w = record { sound = w.sound; watch = ground (arith, w.watch) }
move-Watches c s waits w = record {
  sound = wait-IsSound s.sema.n w.sound;
  watch = elim w.watch [
    | inl h ↦ inl (stays_closed_wait s.sema.n c h)
    | inr h ↦ inr (wait_keeps s.sema.n h.0, h.1)
  ];
}

moves-Watches : (c : ℕ) (s : Shared) (ms : List Move) → Watches c s → Watches c (moves s ms)
unfolding moves
moves-Watches c s [] w = w
moves-Watches c s (m ∷ ms) w = moves-Watches c (move s m) ms (move-Watches c s m w)

-- A process takes a channel and finds the count not positive. Whatever interleaving of the other
-- processes' steps follows, once the count is positive and no unlock is still on its way to `notify`, the
-- channel has been closed.
pub waiter_woken :
    (s : Shared) (ms : List Move)
    → IsSound s.sema.n
    → (try_lock s.sema).0 ≡ false
    → is_pos (moves (move s waits) ms).sema.count ≡ true
    → (moves (move s waits) ms).in_flight ≡ 0
    → (moves (move s waits) ms).sema.n.closes (wait s.sema.n).0 ≡ 1
unfolding try_lock
waiter_woken s ms v h p f =
    let c : ℕ = (wait s.sema.n).0 in
    let start : Watches c (move s waits) = record {
      sound = unfold move in wait-IsSound s.sema.n v;
      watch = unfold move in inr (wait-current s.sema.n, inl (ground arith));
    } in
    let end : Watches c (moves (move s waits) ms) = moves-Watches c (move s waits) ms start in
    ground (arith, end.watch)
