-- ===== src/Kernel/Host/Shm/Tests.antt =====
-- A process without descriptors makes an object by its name and opens it again.
use pgzero.Base.{◌≡◌, refl, ◌≢◌, inl, true, false, []}
use pgzero.Vmem.{private}
use pgzero.Kernel.Files.{null_file}
use pgzero.Kernel.Pipe.{new_pipe}
use pgzero.Kernel.Shm
use pgzero.Kernel.Shm.{open_object, new_segment_object, init}
use pgzero.Kernel.Socket.{new_socket}
use pgzero.Kernel.Stdio.{new_reader_file}
use pgzero.Kernel.Host.{Caller}
use pgzero.Kernel.Host.Shm.{shm_fd, open_named}
use pgzero.Kernel.Host.Shm.Opening.{open_named_shared}

abbrev new_caller : Caller
new_caller = record {
  table = [];
  store = record {
    file = λ _. null_file;
    flags = λ _. 0;
    refs = λ _. 0;
    next = 0;
    world = record {
      pipes = λ _. new_pipe;
      next_pipe = 0;
      sockets = λ _. new_socket 2;
      next_socket = 0;
      inputs = λ _. new_reader_file;
      shm = Shm.init;
    };
  };
  guest = record {
    mem = record { reserved = 65536; committed = 65536; size = 65536; page = λ _. private };
    byte = λ _. 0;
  };
}

open_named_shared_example :
    let (fd, c1) = open_named 7 true true new_caller in
    let (fd2, c2) = open_named 7 false false c1 in
    (shm_fd fd c1 ≡ inl 1) × (shm_fd fd2 c2 ≡ inl 1) × (shm_fd fd c2 ≡ inl 1) × (fd ≢ fd2)
open_named_shared_example =
    open_named_shared 7 true true false new_caller 1
      (unfold open_object in unfold new_segment_object in unfold Shm.init in refl)
