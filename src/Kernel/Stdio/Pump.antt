-- ===== src/Kernel/Stdio/Pump.antt =====
-- The standard input as a bounded stream, and its readers' wakeups.
use pgzero.Base.{
  take-append-drop, length-drop, length-append, ℕ, ◌+◌, ◌<◌, ◌≡◌, refl, sym, ap, subst, ◌∙◌, ◌≢◌,
  ◌⊎◌, inl, inr, true, false, some, List, [], ◌∷◌, ◌++◌, arith, leb, if◌then◌else◌, length,
}
use mathlib.Core.List.{append-nil, append_assoc}
use pgzero.Kernel.Notifier.Wakeups.{
  wait_keeps, wait-current, stays_closed_notify, stays_closed_wait, notify-closes, notify-IsSound,
  wait-IsSound, IsSound,
}
use pgzero.Kernel.Stdio.{
  in_read, in_wait, unlocked, returned, ReaderFile, new_reader_file, wait_room, pump_reads,
  pump_resumes, pump_notifies, read, changed, Op, reads, waits, arrives, resumes, notifies, step,
  run, reader_ahead, chunk_size,
}
use pgzero.Abi.{eagain}

-- The bytes that an operation brings, and those that it gives to a process.
abbrev pub brought : ReaderFile → Op → List ℕ
brought f (arrives chunk err) = elim f.phase [
  | in_read ↦ if leb (length chunk) chunk_size then chunk else []
  | in_wait ↦ []
  | unlocked ↦ []
  | returned ↦ []
]
brought f _ = []

abbrev pub given : ReaderFile → Op → List ℕ
given f (reads k) = (read k f).0
given f _ = []

abbrev pub all_brought : ReaderFile → List Op → List ℕ
all_brought f [] = []
all_brought f (o ∷ os) = brought f o ++ all_brought (step f o) os

abbrev pub all_given : ReaderFile → List Op → List ℕ
all_given f [] = []
all_given f (o ∷ os) = given f o ++ all_given (step f o) os

step_stream : (f : ReaderFile) (o : Op) → f.buf ++ brought f o ≡ given f o ++ (step f o).buf
unfolding step read changed pump_reads pump_resumes pump_notifies wait_room
step_stream f (reads k) = ground (arith, append-nil f.buf, take-append-drop k f.buf)
step_stream f waits = append-nil f.buf
step_stream f (arrives chunk err) = ground (arith, append-nil f.buf)
step_stream f resumes = ground (arith, append-nil f.buf)
step_stream f notifies = ground (arith, append-nil f.buf)

chain : (a b c d e g h : List ℕ) → a ++ b ≡ c ++ d → d ++ e ≡ g ++ h → a ++ (b ++ e) ≡ (c ++ g) ++ h
chain a b c d e g h p q =
    sym (append_assoc a b e)
    ∙ ap (λ l. l ++ e) p
    ∙ append_assoc c d e
    ∙ ap (◌++◌ c) q
    ∙ sym (append_assoc c g h)

-- Over any interleaving of reads with the pump, the bytes that were buffered and then those that the
-- input gave are those that the processes got and then those still buffered: none is lost, repeated or
-- reordered.
pub input_stream :
    (f : ReaderFile) (os : List Op) → f.buf ++ all_brought f os ≡ all_given f os ++ (run f os).buf
unfolding run
input_stream f [] = append-nil f.buf
input_stream f (o ∷ os) =
    chain f.buf (brought f o) (given f o) (step f o).buf (all_brought (step f o) os)
      (all_given (step f o) os) (run (step f o) os).buf (step_stream f o)
      (input_stream (step f o) os)

-- The buffer has room for a chunk while the pump is in r.Read.
record IsRoomy (f : ReaderFile) : Type 0 where
  bound : length f.buf < reader_ahead + chunk_size
  room : f.phase ≡ in_read → length f.buf < reader_ahead
  going : f.phase ≡ unlocked → (f.eof ≡ true) ⊎ (length f.buf < reader_ahead)
  filling : f.phase ≡ in_wait → f.eof ≡ false

step-IsRoomy : (f : ReaderFile) (o : Op) → IsRoomy f → IsRoomy (step f o)
unfolding step read changed pump_reads pump_resumes pump_notifies wait_room
step-IsRoomy f (reads k) r = record {
  bound = ground (arith, r.bound, length-drop k f.buf);
  room = λ e. ground (arith, r.room, length-drop k f.buf);
  going = λ e. ground (arith, r.going, length-drop k f.buf);
  filling = λ e. ground (arith, r.filling, length-drop k f.buf);
}
step-IsRoomy f waits r = record {
  bound = r.bound;
  room = r.room;
  going = r.going;
  filling = r.filling;
}
step-IsRoomy f (arrives chunk err) r = record {
  bound = ground (arith, r.bound, r.room, length-append f.buf chunk);
  room = λ e. ground (arith, r.room, r.room, length-append f.buf chunk);
  going = λ e. ground (arith, r.going, r.room, length-append f.buf chunk);
  filling = λ e. ground (arith, r.filling, r.room, length-append f.buf chunk);
}
step-IsRoomy f resumes r = record {
  bound = ground (arith, r.bound, r.filling);
  room = λ e. ground (arith, r.room, r.filling);
  going = λ e. ground (arith, r.going, r.filling);
  filling = λ e. ground (arith, r.filling, r.filling);
}
step-IsRoomy f notifies r = record {
  bound = ground (arith, r.bound, r.going);
  room = λ e. ground (arith, r.room, r.going);
  going = λ e. ground (arith, r.going, r.going);
  filling = λ e. ground (arith, r.filling, r.going);
}

run-IsRoomy : (f : ReaderFile) (os : List Op) → IsRoomy f → IsRoomy (run f os)
unfolding run
run-IsRoomy f [] r = r
run-IsRoomy f (o ∷ os) r = run-IsRoomy (step f o) os (step-IsRoomy f o r)

new_reader_file-IsRoomy : IsRoomy new_reader_file
unfolding new_reader_file
new_reader_file-IsRoomy = record {
  bound = omega arith;
  room = λ e. omega arith;
  going = λ e. cc;
  filling = λ e. refl;
}

-- However the input comes, a new reader file never buffers 96 KiB.
pub run_buffered : (os : List Op) → length (run new_reader_file os).buf < reader_ahead + chunk_size
run_buffered os = (run-IsRoomy new_reader_file os new_reader_file-IsRoomy).bound

-- A reader that took the channel c and found nothing: either c has been closed since, or it is still
-- current and there is still nothing, or the pump is about to notify.
record Watches (c : ℕ) (f : ReaderFile) : Type 0 where
  sound : IsSound f.n
  watch :
      (f.n.closes c ≡ 1)
      ⊎ ((f.n.ch ≡ some c) × ((f.phase ≡ unlocked) ⊎ ((f.buf ≡ []) × (f.eof ≡ false))))

watch_on :
    (c : ℕ) (f g : ReaderFile)
    → g.n ≡ f.n
    → (((f.phase ≡ unlocked) ⊎ ((f.buf ≡ []) × (f.eof ≡ false)))
        → (g.phase ≡ unlocked) ⊎ ((g.buf ≡ []) × (g.eof ≡ false)))
    → Watches c f
    → Watches c g
watch_on c f g e k w = record {
  sound = rw e w.sound;
  watch = elim w.watch [ inl h ↦ inl (rw e h) | inr h ↦ inr (rw e h.0, k h.1) ];
}

notifies_or_not : (f : ReaderFile) → (step f notifies ≡ f) ⊎ (step f notifies ≡ pump_notifies f)
unfolding step
notifies_or_not f = ground arith

step-Watches : (c : ℕ) (f : ReaderFile) (o : Op) → Watches c f → Watches c (step f o)
unfolding step read changed pump_reads pump_resumes pump_notifies wait_room
step-Watches c f (reads k) w = watch_on c f (step f (reads k)) (ground arith) (λ h. ground arith) w
step-Watches c f waits w = record {
  sound = wait-IsSound f.n w.sound;
  watch = elim w.watch [
    | inl h ↦ inl (stays_closed_wait f.n c h)
    | inr h ↦ inr (wait_keeps f.n h.0, h.1)
  ];
}
step-Watches c f (arrives chunk err) w =
    watch_on c f (step f (arrives chunk err)) (ground arith)
      (λ h. ground (arith, length-append f.buf chunk)) w
step-Watches c f resumes w = watch_on c f (step f resumes) (ground arith) (λ h. ground arith) w
step-Watches c f notifies w = elim (notifies_or_not f) [
  | inl e ↦ subst (Watches c) (sym e) w
  | inr e ↦ subst (Watches c) (sym e) (record {
    sound = notify-IsSound f.n w.sound;
    watch = elim w.watch [
      | inl h ↦ inl (stays_closed_notify f.n c w.sound h)
      | inr h ↦ inl (notify-closes f.n c w.sound h.0)
    ];
  })
]

run-Watches : (c : ℕ) (f : ReaderFile) (os : List Op) → Watches c f → Watches c (run f os)
unfolding run
run-Watches c f [] w = w
run-Watches c f (o ∷ os) w = run-Watches c (step f o) os (step-Watches c f o w)

-- A process takes the channel and then finds that a read would block. Whatever interleaving of reads with
-- the pump follows, once a read would not block, and the pump is not just about to notify, the channel
-- has been closed: no wakeup is lost although the pump notifies only after it has waited for room.
pub reader_woken :
    (k j : ℕ) (f : ReaderFile) (os : List Op)
    → IsSound f.n
    → (read k (changed f).1).1 ≡ eagain
    → (read j (run (changed f).1 os)).1 ≢ eagain
    → (run (changed f).1 os).phase ≢ unlocked
    → (run (changed f).1 os).n.closes (changed f).0 ≡ 1
unfolding changed read
reader_woken k j f os s h g u =
    let start : Watches (changed f).0 (changed f).1 = record {
      sound = wait-IsSound f.n s;
      watch = inr (wait-current f.n, inr (ground arith));
    } in
    let end : Watches (changed f).0 (run (changed f).1 os) =
      run-Watches (changed f).0 (changed f).1 os start in
    ground (arith, end.watch)
