-- ===== src/Kernel/Pipe.antt =====
-- internal/kernel/pipe.go. A byte is any number; a call returns its results and the new pipe.
-- `read` has the length of the caller's buffer, and returns the bytes that `copy` puts there.
pub mod Stream
pub mod Interleaving
pub mod Blocking
mod Tests
use pgzero.Base.{
  ℕ, ◌+◌, ◌-◌, ◌*◌, ◌≤◌, Bool, true, false, ◌&&◌, ◌||◌, List, [], ◌∷◌, ◌++◌, length, take, drop,
  min, if◌then◌else◌, ltb, leb, ◌==◌, is_empty, not,
}
use pgzero.Abi.{eagain, ebadf, epipe}
use pgzero.Kernel.Notifier.{Notifier, notify, wait}
use pgzero.Kernel.Notifier
use pgzero.Kernel.File.{Events, no_events}

abbrev pub pipe_capacity : ℕ
pipe_capacity = 65536

-- PIPE_BUF
abbrev pub pipe_atomic : ℕ
pipe_atomic = 4096

pub record Pipe : Type 0 where
  pub buf : List ℕ
  -- the open ends: Go ints, which no process can bring near the word's limit
  pub readers : ℕ
  pub writers : ℕ
  pub n : Notifier

unfoldable pub new_pipe : Pipe
new_pipe = record { buf = []; readers = 1; writers = 1; n = Notifier.fresh }

-- bytes read, errno, pipe
unfoldable pub read : ℕ → Pipe → List ℕ × ℕ × Pipe
read k p =
    if k == 0
    then ([], 0, p)
    else if not (is_empty p.buf)
    then (take k p.buf, 0, record p { buf = drop k p.buf; n = notify p.n })
    else if p.writers == 0
    then ([], 0, p)
    else ([], eagain, p)

-- bytes taken, errno, pipe
unfoldable pub write : List ℕ → Pipe → ℕ × ℕ × Pipe
write b p =
    if p.readers == 0
    then (0, epipe, p)
    else if is_empty b
    then (0, 0, p)
    else if leb pipe_capacity (length p.buf)
        || (leb (length b) pipe_atomic && ltb (pipe_capacity - length p.buf) (length b))
    then (0, eagain, p)
    else let n = min (length b) (pipe_capacity - length p.buf) in
      (n, 0, record p { buf = p.buf ++ take n b; n = notify p.n })

-- the operations that an end does not have
unfoldable pub reader_write : List ℕ → Pipe → ℕ × ℕ × Pipe
reader_write b p = (0, ebadf, p)

unfoldable pub writer_read : ℕ → Pipe → List ℕ × ℕ × Pipe
writer_read k p = ([], ebadf, p)

pub poll_reader : Pipe → Events
poll_reader p = record no_events { pollin = not (is_empty p.buf); pollhup = p.writers == 0 }

pub poll_writer : Pipe → Events
poll_writer p =
    if p.readers == 0
    then record no_events { pollerr = true }
    else if leb pipe_atomic (pipe_capacity - length p.buf)
    then record no_events { pollout = true }
    else no_events

pub changed : Pipe → ℕ × Pipe
changed p = let (c, n) = wait p.n in (c, record p { n = n })

-- What a goroutine does to a pipe in one step: a call that holds p.mu to its end; or a part of release, which
-- lets go of p.mu between the count and `notify`.
pub data Atom : Type 0 where
  read_whole : ℕ → Atom
  write_whole : List ℕ → Atom
  take_channel drop_reader drop_writer call_notify : Atom

-- An end is released once, so the count is not 0 before.
abbrev pub atom : Pipe → Atom → Pipe
atom p (read_whole k) = (read k p).2
atom p (write_whole b) = (write b p).2
atom p take_channel = (changed p).1
atom p drop_reader = record p { readers = p.readers - 1 }
atom p drop_writer = record p { writers = p.writers - 1 }
atom p call_notify = record p { n = notify p.n }

abbrev pub atoms : Pipe → List Atom → Pipe
atoms p [] = p
atoms p (a ∷ rest) = atoms (atom p a) rest

-- the steps of pipeReader.release and of pipeWriter.release, in their order
abbrev pub reader_release : List Atom
reader_release = drop_reader ∷ call_notify ∷ []

abbrev pub writer_release : List Atom
writer_release = drop_writer ∷ call_notify ∷ []

-- release, with nobody between its steps
unfoldable pub release_reader : Pipe → Pipe
release_reader p = atoms p reader_release

unfoldable pub release_writer : Pipe → Pipe
release_writer p = atoms p writer_release

-- What the holders of the two ends do.
pub data Op : Type 0 where
  reads : ℕ → Op
  writes : List ℕ → Op
  waits release_reads release_writes : Op

-- the steps of a call
abbrev pub steps_of : Op → List Atom
steps_of (reads k) = read_whole k ∷ []
steps_of (writes b) = write_whole b ∷ []
steps_of waits = take_channel ∷ []
steps_of release_reads = reader_release
steps_of release_writes = writer_release

pub step : Pipe → Op → Pipe
step p (reads k) = (read k p).2
step p (writes b) = (write b p).2
step p waits = (changed p).1
step p release_reads = release_reader p
step p release_writes = release_writer p

pub run : Pipe → List Op → Pipe
run p [] = p
run p (o ∷ os) = run (step p o) os
