-- ===== src/Kernel/Poll/Entries.antt =====
-- The pollfds: which calls panic, and what a round stores.
use pgzero.Base.{
  none, ◌/◌, ◌&&◌, ℕ, zero, suc, ◌+◌, ◌-◌, ◌*◌, ◌%◌, ◌^◌, ◌≤◌, ◌<◌, ◌≡◌, refl, ap, ap₂, subst, ◌∙◌,
  ◌≢◌, ◌↔◌, ◌⊎◌, inl, inr, Bool, true, ◌||◌, Option, some, List, [], ◌∷◌, arith, leb, ◌==◌,
  if◌then◌else◌, is_some, Option-cases, length, get_elem?,
}
use pgzero.Kernel.Block.{Turn, Outcome, Reply}
use pgzero.Kernel.File.{Events, any_event, mask}
use pgzero.Kernel.Guest.{in_memory}
use pgzero.Kernel.Host.{Caller}
use pgzero.Kernel.Files
use pgzero.Kernel.Files.{FileObject, World}
use pgzero.Kernel.Poll.{
  put_u16, u16_at, fd_at, events_at, raw_size, look_up, revents, scan, poll, polls, crashes,
}

polls≢crashes : (o : Outcome Reply Caller) → polls o ≢ crashes
polls≢crashes o h = ground arith

pub look_up-is_some :
    (rounds i n addr : ℕ) (c : Caller)
    → is_some (look_up rounds i n addr c) ≡ (rounds == 0 || leb ((i + rounds) * 8) (n + 4))
unfolding look_up
look_up-is_some zero i n addr c = ground arith
look_up-is_some (suc rounds) i n addr c = ground (arith, look_up-is_some rounds (i + 1) n addr c)

-- A call of poll whose array lies in the memory panics exactly when its number of pollfds is so large
-- that their size in bytes does not fit a uint32.
pub poll_crashes_iff :
    (is_cancelled is_interrupted : Caller → Bool) (addr nfds : ℕ) (no_wait : Bool) (c : Caller)
    → (ts : List (Turn Caller)) → nfds < 2 ^ 32
    → in_memory addr (raw_size nfds) c.guest ≡ true
    → (poll is_cancelled is_interrupted addr nfds no_wait c ts ≡ crashes) ↔ (2 ^ 32 ≤ nfds * 8)
unfolding poll
poll_crashes_iff is_cancelled is_interrupted addr nfds no_wait c ts b m =
    let size = look_up-is_some nfds 0 (raw_size nfds) addr c in
    elim (Option-cases (look_up nfds 0 (raw_size nfds) addr c)) [
      | inl n ↦ (λ h. ground (arith, size, n), λ h. rw (m, n, poll) refl)
      | inr (fs, n) ↦
          (λ h. elim (polls≢crashes _ (rw (m, n, poll) at h)) [ ], λ h. ground (arith, size, n))
    ]

-- What a byte of the guest's memory is not: a part of a revents field from i on, with n pollfds.
abbrev IsKept : ℕ → ℕ → ℕ → ℕ → Type 0
IsKept addr i n a = (a < addr + 8 * i) ⊎ (addr + 8 * (i + n) ≤ a) ⊎ ((a - addr) % 8 < 6)

-- the events of a pollfd, by the memory before the round
abbrev answer : ℕ → ℕ → Option ℕ → Caller → (ℕ → ℕ) → Events
answer addr i of c byte = revents (fd_at addr i byte) (events_at addr i byte) of c

-- the pollfds with an event
abbrev ready_in : List (Option ℕ) → ℕ → ℕ → Caller → (ℕ → ℕ) → ℕ
ready_in [] i addr c byte = 0
ready_in (of ∷ fs) i addr c byte =
    (if any_event (answer addr i of c byte) then 1 else 0) + ready_in fs (i + 1) addr c byte

put_u16-keeps : (x v a : ℕ) (byte : ℕ → ℕ) → a ≢ x → a ≢ x + 1 → put_u16 x v byte a ≡ byte a
put_u16-keeps x v a byte h k = ground arith

put_u16-u16_at : (x v : ℕ) (byte : ℕ → ℕ) → v < 65536 → u16_at x (put_u16 x v byte) ≡ v
put_u16-u16_at x v byte h = ground arith

u16_at-put_u16 :
    (x y v : ℕ) (byte : ℕ → ℕ) → x + 1 < y → u16_at y (put_u16 x v byte) ≡ u16_at y byte
u16_at-put_u16 x y v byte h = ground arith

any_event-mask :
    (e : Events) → ◌≡◌ {A = ℕ} (if any_event e then 1 else 0) (if mask e == 0 then 0 else 1)
any_event-mask e = ground arith

mask-bound : (e : Events) → mask e < 65536
mask-bound e = ground arith

-- the bytes 6 and 7 of a pollfd are its revents
not_revents :
    (addr i n a : ℕ) → IsKept addr i (suc n) a → (a ≢ addr + 8 * i + 6) × (a ≢ addr + 8 * i + 6 + 1)
not_revents addr i n a (inl l) = (omega arith, omega arith)
not_revents addr i n a (inr (inl l)) = (omega arith, omega arith)
not_revents addr i n a (inr (inr l)) = (omega arith, omega arith)

scan-keeps :
    (fs : List (Option ℕ)) (i addr : ℕ) (c : Caller) (byte : ℕ → ℕ) (a : ℕ)
    → IsKept addr i (length fs) a
    → (scan fs i addr c byte).1 a ≡ byte a
unfolding scan
scan-keeps [] i addr c byte a h = refl
scan-keeps (of ∷ fs) i addr c byte a h =
    scan-keeps fs (i + 1) addr c (put_u16 (addr + 8 * i + 6) (mask (answer addr i of c byte)) byte)
      a
      (elim h [
        | inl l ↦ inl (omega arith)
        | inr (inl l) ↦ inr (inl (omega arith))
        | inr (inr l) ↦ inr (inr l)
      ])
    ∙ put_u16-keeps (addr + 8 * i + 6) (mask (answer addr i of c byte)) a byte
        (not_revents addr i (length fs) a h).0 (not_revents addr i (length fs) a h).1

-- the fields of a pollfd after the revents of an earlier one are stored
answer-put_u16 :
    (addr i k v : ℕ) (of : Option ℕ) (c : Caller) (byte : ℕ → ℕ)
    → i < k
    → answer addr k of c (put_u16 (addr + 8 * i + 6) v byte) ≡ answer addr k of c byte
answer-put_u16 addr i k v of c byte h =
    let keeps : (d : ℕ)
        → d + 1 < 6
        → u16_at (addr + 8 * k + d) (put_u16 (addr + 8 * i + 6) v byte)
          ≡ u16_at (addr + 8 * k + d) byte =
      λ d j. u16_at-put_u16 (addr + 8 * i + 6) (addr + 8 * k + d) v byte (omega arith) in
    let low = u16_at-put_u16 (addr + 8 * i + 6) (addr + 8 * k) v byte (omega arith) in
    ap₂ (λ f e. revents f e of c) (ap₂ (λ a b. a + 65536 * b) low (keeps 2 (omega arith)))
      (keeps 4 (omega arith))

ready_in-put_u16 :
    (fs : List (Option ℕ)) (addr i k v : ℕ) (c : Caller) (byte : ℕ → ℕ)
    → i < k
    → ready_in fs k addr c (put_u16 (addr + 8 * i + 6) v byte) ≡ ready_in fs k addr c byte
ready_in-put_u16 [] addr i k v c byte h = refl
ready_in-put_u16 (of ∷ fs) addr i k v c byte h =
    ap₂ (λ e n. (if any_event e then 1 else 0) + n) (answer-put_u16 addr i k v of c byte h)
      (ready_in-put_u16 fs addr i (k + 1) v c byte (omega arith))

scan-ready_in :
    (fs : List (Option ℕ)) (i addr : ℕ) (c : Caller) (byte : ℕ → ℕ)
    → (scan fs i addr c byte).0 ≡ ready_in fs i addr c byte
unfolding scan
scan-ready_in [] i addr c byte = refl
scan-ready_in (of ∷ fs) i addr c byte =
    let v : ℕ = mask (answer addr i of c byte) in
    ap (λ n. (if any_event (answer addr i of c byte) then 1 else 0) + n)
      (scan-ready_in fs (i + 1) addr c (put_u16 (addr + 8 * i + 6) v byte)
        ∙ ready_in-put_u16 fs addr i (i + 1) v c byte (omega arith))

scan-first :
    (fs : List (Option ℕ)) (i addr : ℕ) (of : Option ℕ) (c : Caller) (byte : ℕ → ℕ)
    → u16_at (addr + 8 * i + 6) (scan (of ∷ fs) i addr c byte).1 ≡ mask (answer addr i of c byte)
unfolding scan
scan-first fs i addr of c byte =
    let x : ℕ = addr + 8 * i + 6 in
    let v : ℕ = mask (answer addr i of c byte) in
    ap₂ (λ a b. a + 256 * b) (scan-keeps fs (i + 1) addr c (put_u16 x v byte) x (inl (omega arith)))
      (scan-keeps fs (i + 1) addr c (put_u16 x v byte) (x + 1) (inl (omega arith)))
    ∙ put_u16-u16_at x v byte (mask-bound (answer addr i of c byte))

scan-u16_at :
    (fs : List (Option ℕ)) (i j addr : ℕ) (of : Option ℕ) (c : Caller) (byte : ℕ → ℕ)
    → get_elem? fs j ≡ some of
    → u16_at (addr + 8 * (i + j) + 6) (scan fs i addr c byte).1
      ≡ mask (answer addr (i + j) of c byte)
unfolding scan
scan-u16_at [] i j addr of c byte h = ground arith
scan-u16_at (of' ∷ fs) i zero addr of c byte h =
    subst
      (λ n.
        u16_at (addr + 8 * n + 6) (scan (of' ∷ fs) i addr c byte).1
        ≡ mask (answer addr n of c byte))
      (omega arith)
      (subst
        (λ o.
          u16_at (addr + 8 * i + 6) (scan (of' ∷ fs) i addr c byte).1
          ≡ mask (answer addr i o c byte))
        (ground arith) (scan-first fs i addr of' c byte))
scan-u16_at (of' ∷ fs) i (suc j) addr of c byte h =
    let x : ℕ = addr + 8 * i + 6 in
    let v : ℕ = mask (answer addr i of' c byte) in
    subst
      (λ n.
        u16_at (addr + 8 * n + 6) (scan (of' ∷ fs) i addr c byte).1
        ≡ mask (answer addr n of c byte))
      (omega arith)
      (scan-u16_at fs (i + 1) j addr of c (put_u16 x v byte) h
        ∙ ap mask (answer-put_u16 addr i (i + 1 + j) v of c byte (omega arith)))

-- The events of a pollfd as poll(2) has them: none for a negative number, POLLNVAL alone for one without a
-- file, and else POLLIN, POLLOUT and POLLNVAL where the file has them and the guest asked for them (bits 0,
-- 1 and 14 of events), POLLERR and POLLHUP where the file has them, asked for or not.
abbrev pub due : ℕ → ℕ → Option Events → ℕ
due fd events none = if leb (2 ^ 31) fd then 0 else 2 ^ 14
due fd events (some e) =
    if leb (2 ^ 31) fd
    then 0
    else (if e.pollin && events % 2 == 1 then 1 else 0)
      + (if e.pollout && events / 2 % 2 == 1 then 2 else 0)
      + (if e.pollerr then 2 ^ 12 else 0)
      + (if e.pollhup then 2 ^ 13 else 0)
      + (if e.pollnval && events / 2 ^ 14 % 2 == 1 then 2 ^ 14 else 0)

-- what the file of a pollfd has
abbrev pub has : Option ℕ → Caller → Option Events
has none c = none
has (some a) c = some (Files.poll (c.store.file a) c.store.world)

-- the events due to the pollfd i, by the memory before the round
abbrev pub due_at : ℕ → ℕ → Option ℕ → Caller → (ℕ → ℕ) → ℕ
due_at addr i of c byte = due (fd_at addr i byte) (events_at addr i byte) (has of c)

-- the pollfds to which an event is due
abbrev pub due_in : List (Option ℕ) → ℕ → ℕ → Caller → (ℕ → ℕ) → ℕ
due_in [] i addr c byte = 0
due_in (of ∷ fs) i addr c byte =
    (if due_at addr i of c byte == 0 then 0 else 1) + due_in fs (i + 1) addr c byte

mask-due :
    (addr i : ℕ) (of : Option ℕ) (c : Caller) (byte : ℕ → ℕ)
    → mask (answer addr i of c byte) ≡ due_at addr i of c byte
unfolding revents
mask-due addr i none c byte = ground arith
mask-due addr i (some a) c byte = ground arith

ready_in-due_in :
    (fs : List (Option ℕ)) (i addr : ℕ) (c : Caller) (byte : ℕ → ℕ)
    → ready_in fs i addr c byte ≡ due_in fs i addr c byte
ready_in-due_in [] i addr c byte = refl
ready_in-due_in (of ∷ fs) i addr c byte =
    ap₂ (λ b n. b + n)
      (any_event-mask (answer addr i of c byte)
        ∙ ap (λ m. if m == 0 then 0 else 1) (mask-due addr i of c byte))
      (ready_in-due_in fs (i + 1) addr c byte)

-- A round of poll answers with the number of pollfds to which an event is due by poll(2), stores for each
-- the events due to it, by the pollfds before the round, and changes no byte but those of the revents.
pub scan-answers :
    (fs : List (Option ℕ)) (addr : ℕ) (c : Caller) (byte : ℕ → ℕ)
    → let (ready, byte') = scan fs 0 addr c byte in
      (ready ≡ due_in fs 0 addr c byte)
      × ((j : ℕ) (of : Option ℕ)
          → get_elem? fs j ≡ some of
          → u16_at (addr + 8 * j + 6) byte' ≡ due_at addr j of c byte)
      × ((a : ℕ)
          → (a < addr) ⊎ (addr + 8 * length fs ≤ a) ⊎ ((a - addr) % 8 < 6)
          → byte' a ≡ byte a)
scan-answers fs addr c byte = (
  scan-ready_in fs 0 addr c byte ∙ ready_in-due_in fs 0 addr c byte,
  λ j of h.
      subst
        (λ k. u16_at (addr + 8 * k + 6) (scan fs 0 addr c byte).1 ≡ mask (answer addr k of c byte))
        (omega arith) (scan-u16_at fs 0 j addr of c byte h)
      ∙ mask-due addr j of c byte,
  λ a h. scan-keeps fs 0 addr c byte a (elim h [
    | inl l ↦ inl (omega arith)
    | inr (inl l) ↦ inr (inl (omega arith))
    | inr (inr l) ↦ inr (inr l)
  ]),
)
