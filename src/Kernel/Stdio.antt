-- ===== src/Kernel/Stdio.antt =====
-- internal/kernel/stdio.go: the kernel's standard streams and /dev/null. What io.Reader and io.Writer return
-- are arguments. The pump of a reader lets go of the mutex before it calls `notify`, and waits for room in
-- between, so it is a state machine of its own.
pub mod Pump
mod Tests
use pgzero.Base.{
  ℕ, zero, suc, ◌+◌, ◌-◌, ◌*◌, ◌/◌, ◌%◌, ◌^◌, ◌≤◌, ◌<◌, min, max, ◌≡◌, refl, sym, ap, ap₂, subst,
  ◌∙◌, fun_ext, ◌≢◌, ◌↔◌, ◌⊎◌, inl, inr, Bool, true, false, ◌&&◌, ◌||◌, not, Option, none, some,
  List, [], ◌∷◌, ◌++◌, map, arith, dec_lt, dec_le, ℕ_discrete, ltb, leb, ◌==◌, if◌then◌else◌,
  is_empty, is_some, Bool-cases, Option-cases, length, take, drop,
}
use pgzero.Kernel.Notifier.{Notifier, fresh, wait, notify}
use pgzero.Kernel.File.{Events, no_events}
use pgzero.Abi.{eio, ebadf, eagain}

-- 64 << 10
abbrev pub reader_ahead : ℕ
reader_ahead = 65536

-- 32 << 10
abbrev pub chunk_size : ℕ
chunk_size = 32768

-- Where the pump is: in r.Read, in room.Wait, between Unlock and notify, or returned.
pub data Phase : Type 0 where
  in_read in_wait unlocked returned : Phase

pub record ReaderFile : Type 0 where
  pub buf : List ℕ
  pub eof : Bool
  pub n : Notifier
  pub phase : Phase

pub new_reader_file : ReaderFile
new_reader_file = record { buf = []; eof = false; n = fresh; phase = in_read }

-- The loop around room.Wait: it goes on unless the buffer is full.
wait_room : ReaderFile → ReaderFile
wait_room f = record f {
  phase = if leb reader_ahead (length f.buf) && not f.eof then in_wait else unlocked;
}

-- r.Read has returned these bytes, with an error or not.
pub pump_reads : List ℕ → Bool → ReaderFile → ReaderFile
unfolding wait_room
pump_reads chunk err f = wait_room (record f { buf = f.buf ++ chunk; eof = f.eof || err })

-- room.Wait has returned.
pub pump_resumes : ReaderFile → ReaderFile
unfolding wait_room
pump_resumes f = wait_room f

pub pump_notifies : ReaderFile → ReaderFile
pump_notifies f = record f { n = notify f.n; phase = if f.eof then returned else in_read }

pub read : ℕ → ReaderFile → List ℕ × ℕ × ReaderFile
read k f =
    if not (is_empty f.buf)
    then (take k f.buf, 0, record f { buf = drop k f.buf })
    else if f.eof
    then ([], 0, f)
    else ([], eagain, f)

pub write : List ℕ → ReaderFile → ℕ × ℕ × ReaderFile
write b f = (0, ebadf, f)

pub poll : ReaderFile → Events
poll f =
    if not (is_empty f.buf)
    then record no_events { pollin = true }
    else if f.eof
    then record no_events { pollhup = true }
    else no_events

pub changed : ReaderFile → ℕ × ReaderFile
changed f = let (c, n) = wait f.n in (c, record f { n = n })

-- writerFile.write: w.Write has taken n bytes, with an error or not.
pub writer_write : ℕ → Bool → ℕ × ℕ
writer_write n err = if err && n == 0 then (0, eio) else (n, 0)

pub writer_poll : Events
writer_poll = record no_events { pollout = true }

pub null_read : ℕ → List ℕ × ℕ
null_read k = ([], 0)

pub null_write : List ℕ → ℕ × ℕ
null_write b = (length b, 0)

pub null_poll : Events
null_poll = record no_events { pollin = true; pollout = true }

-- What happens to a reader file: calls of processes, and the pump's steps, each where the pump is there.
pub data Op : Type 0 where
  reads : ℕ → Op
  waits : Op
  arrives : List ℕ → Bool → Op
  resumes notifies : Op

pub step : ReaderFile → Op → ReaderFile
step f (reads k) = (read k f).2
step f waits = (changed f).1
step f (arrives chunk err) = elim f.phase [
  | in_read ↦ if leb (length chunk) chunk_size then pump_reads chunk err f else f
  | in_wait ↦ f
  | unlocked ↦ f
  | returned ↦ f
]
step f resumes = elim f.phase [
  | in_read ↦ f
  | in_wait ↦ pump_resumes f
  | unlocked ↦ f
  | returned ↦ f
]
step f notifies = elim f.phase [
  | in_read ↦ f
  | in_wait ↦ f
  | unlocked ↦ pump_notifies f
  | returned ↦ f
]

pub run : ReaderFile → List Op → ReaderFile
run f [] = f
run f (o ∷ os) = run (step f o) os
