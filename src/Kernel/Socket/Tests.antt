-- ===== src/Kernel/Socket/Tests.antt =====
-- A connected socket, and a listening one with two connections pending.
use pgzero.Base.{◌≡◌, refl, true, false, none, some, [], ◌∷◌, ◌++◌, arith}
use pgzero.Kernel.Socket.{
  sock_new, Socket, send, write_returns, recv, read_arrives, sock_listening, sock_connected,
}
use pgzero.Kernel.Socket.Streams.{
  Steps, here, next, sends, write_ends, arrives, receives, over, accepted, transmitted, arrived,
  delivered, IsValid, Steps-send_stream, Steps-recv_stream,
}
use pgzero.Kernel.Sockaddr.{Sockaddr, zero_addr, af_unix}

abbrev nameless : Sockaddr
nameless = record { family = af_unix; addr = zero_addr; port = 0; path = [] }

abbrev fresh_socket : Socket
fresh_socket = record {
  domain = 3;
  state = sock_new;
  bound = none;
  peer = none;
  opts = λ _ _. none;
  lns = [];
  accept_q = [];
  conn = none;
  rbuf = [];
  rerr = none;
  wbuf = [];
  writing = none;
  werr = false;
  wshut = false;
  wdone = false;
  released = false;
}

abbrev connected : Socket
connected = record fresh_socket { state = sock_connected; conn = some 0 }

abbrev listening : Socket
listening = record fresh_socket { state = sock_listening; lns = 0 ∷ []; accept_q = 4 ∷ 5 ∷ [] }

abbrev with_bytes : Socket
with_bytes = record connected { wbuf = 1 ∷ 2 ∷ 3 ∷ []; writing = some 3 }

-- Three bytes go out in two writes; then two arrive and are read.
abbrev first_write : Steps with_bytes (write_returns 2 false with_bytes)
first_write = next here (write_ends with_bytes 3 2 false refl (omega arith))

abbrev then_more : Steps with_bytes (send (9 ∷ []) (write_returns 2 false with_bytes)).2
then_more = next first_write (sends (write_returns 2 false with_bytes) (9 ∷ []))

abbrev some_arrive : Steps connected (read_arrives (7 ∷ 8 ∷ []) none connected)
some_arrive = next here (arrives connected (7 ∷ 8 ∷ []) none refl (omega arith))

abbrev then_read : Steps connected (recv 1 false (read_arrives (7 ∷ 8 ∷ []) none connected)).2
then_read = next some_arrive (receives (read_arrives (7 ∷ 8 ∷ []) none connected) 1 false)

with_bytes-IsValid : IsValid with_bytes
with_bytes-IsValid = record {
  read_bound = omega arith;
  write_bound = omega arith;
  in_flight = λ k e. ground arith;
}

Steps-send_stream_example :
    with_bytes.wbuf ++ over (λ _ _. accepted) then_more
    ≡ over (λ _ _. transmitted) then_more
      ++ (send (9 ∷ []) (write_returns 2 false with_bytes)).2.wbuf
Steps-send_stream_example = Steps-send_stream then_more

Steps-recv_stream_example :
    connected.rbuf ++ over (λ _ _. arrived) then_read
    ≡ over (λ _ _. delivered) then_read
      ++ (recv 1 false (read_arrives (7 ∷ 8 ∷ []) none connected)).2.rbuf
Steps-recv_stream_example = Steps-recv_stream then_read

abbrev shut : Socket
shut = record with_bytes { writing = none; wshut = true }
