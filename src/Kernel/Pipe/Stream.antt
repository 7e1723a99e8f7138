-- ===== src/Kernel/Pipe/Stream.antt =====
-- A pipe as a bounded stream of bytes.
use pgzero.Base.{
  ℕ, zero, suc, ◌+◌, ◌-◌, ◌≤◌, ◌<◌, ◌≡◌, refl, ◌≢◌, List, [], ◌∷◌, ◌++◌, length, length-append,
  length-take, length-drop, take, take-append-drop, min, arith, if◌then◌else◌, ap, ◌∙◌, sym, ◌==◌,
  leb, is_empty,
}
use mathlib.Core.List.{append-nil, append_assoc}
use pgzero.Abi.{eagain, epipe}
use pgzero.Kernel.Notifier.{notify}
use pgzero.Kernel.Pipe.{
  Pipe, pipe_capacity, pipe_atomic, new_pipe, read, write, Op, reads, writes, waits, release_reads,
  release_writes, step, run, changed, release_reader, release_writer,
}

abbrev pub IsBounded : Pipe → Type 0
IsBounded p = length p.buf ≤ pipe_capacity

write-IsBounded : (b : List ℕ) (p : Pipe) → IsBounded p → IsBounded (write b p).2
unfolding write
write-IsBounded b p h = ground (
  arith,
  length-append p.buf (take (min (length b) (pipe_capacity - length p.buf)) b),
  length-take (min (length b) (pipe_capacity - length p.buf)) b,
)

read-IsBounded : (k : ℕ) (p : Pipe) → IsBounded p → IsBounded (read k p).2
unfolding read
read-IsBounded k p h = ground (arith, length-drop k p.buf)

step-IsBounded : (p : Pipe) (o : Op) → IsBounded p → IsBounded (step p o)
unfolding step changed release_reader release_writer
step-IsBounded p (reads k) h = read-IsBounded k p h
step-IsBounded p (writes b) h = write-IsBounded b p h
step-IsBounded p waits h = h
step-IsBounded p release_reads h = h
step-IsBounded p release_writes h = h

run-IsBounded' : (p : Pipe) (os : List Op) → IsBounded p → IsBounded (run p os)
unfolding run
run-IsBounded' p [] h = h
run-IsBounded' p (o ∷ os) h = run-IsBounded' (step p o) os (step-IsBounded p o h)

-- After any operations on a new pipe it holds at most `pipe_capacity` bytes.
run-IsBounded : (os : List Op) → length (run new_pipe os).buf ≤ pipe_capacity
unfolding new_pipe
run-IsBounded os = run-IsBounded' new_pipe os (omega arith)

-- The bytes that an operation takes from a writer, and those that it hands to a reader.
abbrev pub accepted : Pipe → Op → List ℕ
accepted p (writes b) = take (write b p).0 b
accepted p _ = []

abbrev pub delivered : Pipe → Op → List ℕ
delivered p (reads k) = (read k p).0
delivered p _ = []

abbrev pub all_accepted : Pipe → List Op → List ℕ
all_accepted p [] = []
all_accepted p (o ∷ os) = accepted p o ++ all_accepted (step p o) os

abbrev pub all_delivered : Pipe → List Op → List ℕ
all_delivered p [] = []
all_delivered p (o ∷ os) = delivered p o ++ all_delivered (step p o) os

read_stream : (k : ℕ) (p : Pipe) → p.buf ≡ (read k p).0 ++ (read k p).2.buf
unfolding read
read_stream k p = ground (arith, take-append-drop k p.buf)

write_stream : (b : List ℕ) (p : Pipe) → p.buf ++ take (write b p).0 b ≡ (write b p).2.buf
unfolding write
write_stream b p = ground (arith, append-nil p.buf)

step_stream : (p : Pipe) (o : Op) → p.buf ++ accepted p o ≡ delivered p o ++ (step p o).buf
unfolding step changed release_reader release_writer
step_stream p (reads k) = append-nil p.buf ∙ read_stream k p
step_stream p (writes b) = write_stream b p
step_stream p waits = append-nil p.buf
step_stream p release_reads = append-nil p.buf
step_stream p release_writes = append-nil p.buf

-- Nothing is lost, made up, repeated or reordered: over any operations, the bytes that were in the pipe
-- and then those accepted from writers are those delivered to readers and then those still there.
pub run_stream :
    (p : Pipe) (os : List Op) → p.buf ++ all_accepted p os ≡ all_delivered p os ++ (run p os).buf
unfolding run
run_stream p [] = append-nil p.buf
run_stream p (o ∷ os) =
    sym (append_assoc p.buf (accepted p o) (all_accepted (step p o) os))
    ∙ ap (λ l. l ++ all_accepted (step p o) os) (step_stream p o)
    ∙ append_assoc (delivered p o) (step p o).buf (all_accepted (step p o) os)
    ∙ ap (◌++◌ (delivered p o)) (run_stream (step p o) os)
    ∙ sym (append_assoc (delivered p o) (all_delivered (step p o) os) (run (step p o) os).buf)

take-length : (n : ℕ) (b : List ℕ) → length b ≤ n → take n b ≡ b
take-length zero [] h = refl
take-length (suc n) [] h = refl
take-length zero (x ∷ b) h = absurd (omega arith)
take-length (suc n) (x ∷ b) h = ap (◌∷◌ x) (take-length n b (omega arith))

-- A write of at most `pipe_atomic` bytes is never split: without a reader it fails with EPIPE, it is
-- taken whole where the bytes still fit, and otherwise fails with EAGAIN and leaves the pipe as it was.
write_atomic :
    (b : List ℕ) (p : Pipe)
    → length b ≤ pipe_atomic
    → write b p ≡ (
        if p.readers == 0
        then (0, epipe, p)
        else if is_empty b
        then (0, 0, p)
        else if leb (length p.buf + length b) pipe_capacity
        then (length b, 0, record p { buf = p.buf ++ b; n = notify p.n })
        else (0, eagain, p))
unfolding write
write_atomic b p h = ground (arith, take-length (min (length b) (pipe_capacity - length p.buf)) b)

-- A longer write takes at least one byte and as many as fit, unless the pipe is full.
pub write_large :
    (b : List ℕ) (p : Pipe)
    → pipe_atomic < length b
    → p.readers ≢ 0
    → length p.buf < pipe_capacity
    → ((write b p).0 ≡ min (length b) (pipe_capacity - length p.buf))
      × (0 < (write b p).0)
      × ((write b p).1 ≡ 0)
      × ((write b p).2.buf ≡ p.buf ++ take (write b p).0 b)
unfolding write
write_large b p h r s = ground arith
