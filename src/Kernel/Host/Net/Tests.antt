-- ===== src/Kernel/Host/Net/Tests.antt =====
-- A Unix connection that is accepted: with a buffer for the peer's address, and with one outside the memory.
use pgzero.Base.{some, [], ◌∷◌, ◌==◌, if◌then◌else◌}
use pgzero.Vmem.{private}
use pgzero.Kernel.Files.{World, null_file}
use pgzero.Kernel.Pipe.{new_pipe}
use pgzero.Kernel.Shm
use pgzero.Kernel.Sockaddr.{af_unix, zero_addr}
use pgzero.Kernel.Socket.{Socket, new_socket}
use pgzero.Kernel.Stdio.{new_reader_file}
use pgzero.Kernel.Host.{Caller}

abbrev new_world : World
new_world = record {
  pipes = λ _. new_pipe;
  next_pipe = 0;
  sockets = λ _. new_socket af_unix;
  next_socket = 0;
  inputs = λ _. new_reader_file;
  shm = Shm.init;
}

abbrev new_caller : Caller
new_caller = record {
  table = [];
  store = record {
    file = λ _. null_file;
    flags = λ _. 0;
    refs = λ _. 0;
    next = 0;
    world = new_world;
  };
  guest = record {
    mem = record { reserved = 65536; committed = 65536; size = 65536; page = λ _. private };
    byte = λ a. if a == 64 then 16 else 0;
  };
}

abbrev accepted : Socket
accepted = record (new_socket af_unix) {
  peer = some (record { family = af_unix; addr = zero_addr; port = 0; path = 47 ∷ 115 ∷ [] });
}
