-- ===== src/Kernel/Host/Calls/Tests.antt =====
-- A process that makes a pipe, duplicates the writing end and closes one of the two.
use pgzero.Base.{◌+◌, ◌≡◌, refl, ◌↔◌, false, List, [], ◌∷◌, arith, ◌==◌, if◌then◌else◌}
use pgzero.Abi.{eagain, epipe, fd_base}
use pgzero.Vmem.{private, slice}
use pgzero.Kernel.FdTable
use pgzero.Kernel.FdTable.Refs.{refs_in}
use pgzero.Kernel.Files.{World, null_file}
use pgzero.Kernel.Pipe.{new_pipe}
use pgzero.Kernel.Shm
use pgzero.Kernel.Socket.{new_socket}
use pgzero.Kernel.Stdio.{new_reader_file}
use pgzero.Kernel.Guest
use pgzero.Kernel.Host.{
  Caller, pipe, make_pipe, open_file, store_pair, close, dup, valid_host_fd, attempt_read,
  attempt_write,
}
use pgzero.Kernel.Host.Keeping.{IsKept}
use pgzero.Kernel.Host.Calls.{Call, pipes, dups, closes, run, step, run_ends}

abbrev new_world : World
new_world = record {
  pipes = λ _. new_pipe;
  next_pipe = 0;
  sockets = λ _. new_socket 2;
  next_socket = 0;
  inputs = λ _. new_reader_file;
  shm = Shm.init;
}

abbrev new_caller : Caller
new_caller = record {
  table = [];
  store = record {
    file = λ _. null_file;
    flags = λ _. 0;
    refs = λ _. 0;
    next = 0;
    world = new_world;
  };
  guest = record {
    mem = record { reserved = 65536; committed = 65536; size = 65536; page = λ _. private };
    byte = λ _. 0;
  };
}

new_caller-IsKept : IsKept (λ _. 0) new_caller
new_caller-IsKept = record {
  holds = record { unique = tt; counted = λ a. refl };
  unused = λ a i. refl;
  piped = λ e. record {
    counted = λ a i. ground arith;
    distinct = λ a b i. ground arith;
    made = λ a i. ground arith;
  };
}

abbrev calls : List Call
calls = pipes 16 0 ∷ dups (fd_base + 1) 2 ∷ closes (fd_base + 1) ∷ []

run_ends_example :
    let c = run calls new_caller in
    ((attempt_read 8 0 c).0 ≡ [])
    × ((attempt_read 8 0 c).1 ≡ (if 0 + refs_in 1 c.table == 0 then 0 else eagain))
    × (((attempt_write (0, false) (7 ∷ []) 1 c).1 ≡ epipe) ↔ (0 + refs_in 0 c.table ≡ 0))
unfolding run step pipe make_pipe open_file store_pair close dup valid_host_fd FdTable.get
    FdTable.add FdTable.install FdTable.close FdTable.new_open_file FdTable.ref FdTable.unref
    FdTable.lowest_free Guest.write_u32 slice new_pipe
run_ends_example =
    run_ends (λ _. 0) calls new_caller 0 0 1 8 (0, false) (7 ∷ []) new_caller-IsKept (omega arith)
      (omega arith) refl refl refl (omega arith)

held_test :
    (refs_in 0 (run calls new_caller).table ≡ 1) × (refs_in 1 (run calls new_caller).table ≡ 1)
unfolding run step pipe make_pipe open_file store_pair close dup valid_host_fd FdTable.get
    FdTable.add FdTable.install FdTable.close FdTable.new_open_file FdTable.ref FdTable.unref
    FdTable.lowest_free Guest.write_u32 slice new_pipe
held_test = (refl, refl)
