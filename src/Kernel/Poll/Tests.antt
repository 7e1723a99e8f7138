-- ===== src/Kernel/Poll/Tests.antt =====
-- Three pollfds at 16: a pipe's writing end, a number without a file, and a negative number.
use pgzero.Base.{
  ℕ, ◌+◌, ◌-◌, ◌*◌, ◌%◌, ◌^◌, ◌≤◌, ◌<◌, ◌≡◌, refl, ◌↔◌, ◌⊎◌, Bool, false, ◌&&◌, ◌||◌, Option, none,
  some, [], ◌∷◌, arith, leb, ◌==◌, if◌then◌else◌, get_elem?,
}
use pgzero.Abi.{fd_base}
use pgzero.Vmem.{private, slice}
use pgzero.Kernel.Files.{World, null_file, pipe_writer}
use pgzero.Kernel.Pipe.{new_pipe}
use pgzero.Kernel.Shm
use pgzero.Kernel.Socket.{new_socket}
use pgzero.Kernel.Stdio.{new_reader_file}
use pgzero.Kernel.Host.{Caller}
use pgzero.Kernel.Poll.{revents, poll, crashes, scan, u16_at}
use pgzero.Kernel.Poll.Entries.{poll_crashes_iff, scan-answers, due_in, due_at}

abbrev new_world : World
new_world = record {
  pipes = λ _. new_pipe;
  next_pipe = 1;
  sockets = λ _. new_socket 2;
  next_socket = 0;
  inputs = λ _. new_reader_file;
  shm = Shm.init;
}

abbrev pollfds : ℕ → ℕ
pollfds a =
    if a == 18
    then 16
    else if a == 20 || a == 28 || a == 36
    then 3
    else if a == 24
    then 5
    else if leb 32 a && leb a 35
    then 255
    else 0

abbrev caller : Caller
caller = record {
  table = (fd_base, record { of = 0; cloexec = false }) ∷ [];
  store = record {
    file = λ a. if a == 0 then pipe_writer 0 else null_file;
    flags = λ _. 0;
    refs = λ a. if a == 0 then 1 else 0;
    next = 1;
    world = new_world;
  };
  guest = record {
    mem = record { reserved = 65536; committed = 65536; size = 65536; page = λ _. private };
    byte = pollfds;
  };
}

abbrev never : Caller → Bool
never c = false

poll_crashes_iff_example :
    (poll never never 16 (2 ^ 29) false caller [] ≡ crashes) ↔ (2 ^ 32 ≤ 2 ^ 29 * 8)
unfolding slice
poll_crashes_iff_example =
    poll_crashes_iff never never 16 (2 ^ 29) false caller [] (omega arith) refl

scan-answers_example :
    let (ready, byte') = scan (some 0 ∷ none ∷ none ∷ []) 0 16 caller pollfds in
    (ready ≡ due_in (some 0 ∷ none ∷ none ∷ []) 0 16 caller pollfds)
    × ((j : ℕ) (of : Option ℕ)
        → get_elem? (some 0 ∷ none ∷ none ∷ []) j ≡ some of
        → u16_at (16 + 8 * j + 6) byte' ≡ due_at 16 j of caller pollfds)
    × ((a : ℕ) → (a < 16) ⊎ (16 + 8 * 3 ≤ a) ⊎ ((a - 16) % 8 < 6) → byte' a ≡ pollfds a)
scan-answers_example = scan-answers (some 0 ∷ none ∷ none ∷ []) 16 caller pollfds

ready_test :
    let (ready, byte') = scan (none ∷ none ∷ none ∷ []) 0 16 caller pollfds in
    (ready ≡ 2) × (u16_at 22 byte' ≡ 16384) × (u16_at 38 byte' ≡ 0)
unfolding scan revents
ready_test = (refl, refl, refl)
