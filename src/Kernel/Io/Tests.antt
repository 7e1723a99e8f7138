-- ===== src/Kernel/Io/Tests.antt =====
-- Reads from a pipe: the file's operation is the pipe's.
use pgzero.Base.{Bool, false, [], ◌∷◌, length}
use pgzero.Kernel.Pipe.{write, Pipe, read, changed}
use pgzero.Kernel.Io.{FileOps}
use pgzero.Kernel.Block.{ready, Turn}

abbrev pipe_ops : Bool → FileOps Pipe
pipe_ops nonblock = record {
  is_cancelled = λ p. false;
  is_interrupted = λ p. false;
  changed = λ p. (changed p).1;
  op = λ p. (length (read 4 p).0, (read 4 p).1, (read 4 p).2);
  nonblock = λ p. nonblock;
  signal = λ sig p. p;
}

abbrev written_meanwhile : Turn Pipe
written_meanwhile = record { others = λ p. (write (1 ∷ 2 ∷ []) p).2; select = ready }
