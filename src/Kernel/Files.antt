-- ===== src/Kernel/Files.antt =====
-- internal/kernel, the implementations of `file` (fdtable.go) as one type: what an open file refers to, and
-- the dispatch of read, write, poll and release to pipe.go, socket.go, shm.go and stdio.go.
pub mod PipeEnds
use pgzero.Base.{
  update, ℕ, zero, suc, ◌+◌, ◌-◌, ◌*◌, ◌/◌, ◌%◌, ◌^◌, ◌≤◌, ◌<◌, min, max, ◌≡◌, refl, sym, ap, ap₂,
  subst, ◌∙◌, fun_ext, ◌≢◌, ◌↔◌, ◌⊎◌, inl, inr, Bool, true, false, ◌&&◌, ◌||◌, not, Option, none,
  some, List, [], ◌∷◌, ◌++◌, map, arith, dec_lt, dec_le, ℕ_discrete, ltb, leb, ◌==◌, if◌then◌else◌,
  is_empty, is_some, Bool-cases, Option-cases, length, take, drop,
}
use pgzero.Abi.{ebadf, einval}
use pgzero.Kernel.File.{Events, no_events}
use pgzero.Kernel.Pipe
use pgzero.Kernel.Pipe.{Pipe}
use pgzero.Kernel.Socket
use pgzero.Kernel.Socket.{Socket}
use pgzero.Kernel.Stdio
use pgzero.Kernel.Stdio.{ReaderFile}
use pgzero.Kernel.Shm.{ShmTable}
use pgzero.Kernel.Shm

-- A file by the kind of its implementation and the number of its object.
pub data FileObject : Type 0 where
  pipe_reader pipe_writer socket_file shm_file reader_file : ℕ → FileObject
  writer_file null_file : FileObject

pub record World : Type 0 where
  pub pipes : ℕ → Pipe
  pub next_pipe : ℕ
  pub sockets : ℕ → Socket
  pub next_socket : ℕ
  pub inputs : ℕ → ReaderFile
  pub shm : ShmTable

abbrev pub set_pipe : ℕ → Pipe → World → World
set_pipe i p w = record w { pipes = update w.pipes i p }

abbrev pub set_socket : ℕ → Socket → World → World
set_socket i s w = record w { sockets = update w.sockets i s }

-- file.release; what a socket closes on the host is left out
unfoldable pub release : FileObject → World → World
release (pipe_reader i) w = set_pipe i (Pipe.release_reader (w.pipes i)) w
release (pipe_writer i) w = set_pipe i (Pipe.release_writer (w.pipes i)) w
release (socket_file i) w = set_socket i (Socket.release (w.sockets i)).0 w
release (shm_file i) w = record w { shm = Shm.release_file i w.shm }
release (reader_file i) w = w
release writer_file w = w
release null_file w = w

-- file.read: the bytes, the errno
pub read : ℕ → FileObject → World → List ℕ × ℕ × World
read k (pipe_reader i) w = let (b, e, p) = Pipe.read k (w.pipes i) in (b, e, set_pipe i p w)
read k (pipe_writer i) w = let (b, e, p) = Pipe.writer_read k (w.pipes i) in (b, e, set_pipe i p w)
read k (socket_file i) w =
    let (b, e, s) = Socket.recv k false (w.sockets i) in (b, e, set_socket i s w)
read k (shm_file i) w = ([], einval, w)
read k (reader_file i) w =
    let (b, e, f) = Stdio.read k (w.inputs i) in (b, e, record w { inputs = update w.inputs i f })
read k writer_file w = ([], ebadf, w)
read k null_file w = ([], 0, w)

-- file.write; `taken` is what the io.Writer of a writerFile answers, a count and whether an error
pub write : ℕ × Bool → List ℕ → FileObject → World → ℕ × ℕ × World
write taken b (pipe_reader i) w =
    let (n, e, p) = Pipe.reader_write b (w.pipes i) in (n, e, set_pipe i p w)
write taken b (pipe_writer i) w = let (n, e, p) = Pipe.write b (w.pipes i) in (n, e, set_pipe i p w)
write taken b (socket_file i) w =
    let (n, e, s) = Socket.send b (w.sockets i) in (n, e, set_socket i s w)
write taken b (shm_file i) w = (0, einval, w)
write taken b (reader_file i) w = (0, ebadf, w)
write taken b writer_file w = let (n, e) = Stdio.writer_write taken.0 taken.1 in (n, e, w)
write taken b null_file w = (length b, 0, w)

pub poll : FileObject → World → Events
poll (pipe_reader i) w = Pipe.poll_reader (w.pipes i)
poll (pipe_writer i) w = Pipe.poll_writer (w.pipes i)
poll (socket_file i) w = Socket.poll (w.sockets i)
poll (shm_file i) w = record no_events { pollin = true; pollout = true }
poll (reader_file i) w = Stdio.poll (w.inputs i)
poll writer_file w = Stdio.writer_poll
poll null_file w = Stdio.null_poll

-- file.changed: the effect on the notifier; a socket's has no model
pub changed : FileObject → World → World
changed (pipe_reader i) w = set_pipe i (Pipe.changed (w.pipes i)).1 w
changed (pipe_writer i) w = set_pipe i (Pipe.changed (w.pipes i)).1 w
changed (socket_file i) w = w
changed (shm_file i) w = w
changed (reader_file i) w = record w { inputs = update w.inputs i (Stdio.changed (w.inputs i)).1 }
changed writer_file w = w
changed null_file w = w
