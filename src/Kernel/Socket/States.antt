-- ===== src/Kernel/Socket/States.antt =====
-- The states of a socket, and what its calls answer in each.
use pgzero.Base.{
  none, ℕ, ◌<◌, ◌≡◌, refl, ◌≢◌, ◌↔◌, ◌⊎◌, Bool, true, false, some, List, [], ◌∷◌, arith,
}
use pgzero.Abi.{eagain}
use pgzero.Kernel.Sockaddr.{Sockaddr}
use pgzero.Kernel.Socket.{
  start_conn, new_socket, Socket, sock_listening, sock_connected, accept, recv, send, poll,
  write_next,
}

-- On a connected socket a receive of at least one byte blocks exactly when poll reports neither input
-- nor an error of the read side.
recv_blocks_iff :
    (k : ℕ) (peek : Bool) (s : Socket)
    → s.state ≡ sock_connected
    → k ≢ 0
    → ((recv k peek s).1 ≡ eagain) ↔ ((poll s).pollin ≡ false)
unfolding recv poll
recv_blocks_iff k peek s c h = (λ e. ground arith, λ e. ground arith)

-- On a connected socket a send of at least one byte is taken, in part at least, exactly when poll reports
-- POLLOUT; otherwise it fails and changes nothing.
send_taken_iff :
    (b : List ℕ) (s : Socket)
    → s.state ≡ sock_connected
    → b ≢ []
    → ((0 < (send b s).0) ↔ ((poll s).pollout ≡ true))
      × ((poll s).pollout ≡ false → (send b s).2 ≡ s)
unfolding send poll
send_taken_iff b s c h = ((λ e. ground arith, λ e. ground arith), λ e. ground arith)

-- What accept does with the queue q of pending connections.
abbrev pub Accepted : (ℕ → Sockaddr) → Socket → List ℕ → Type 0
Accepted remote s [] =
    ((accept remote s).0 ≡ none) × ((accept remote s).1 ≡ eagain) × ((poll s).pollin ≡ false)
Accepted remote s (c ∷ cs) =
    (t : Socket) × (accept remote s ≡ (some t, 0, record s { accept_q = cs }))
    × (t.state ≡ sock_connected)
    × (t.conn ≡ some c)
    × (t.bound ≡ s.bound)
    × (t.peer ≡ some (remote c))
    × ((poll s).pollin ≡ true)

-- A listening socket hands out the pending connections in the order of their arrival, each as a connected
-- socket with the listener's address and the peer's; with none it answers EAGAIN, and poll no input.
accept_oldest :
    (remote : ℕ → Sockaddr) (s : Socket) (q : List ℕ)
    → s.state ≡ sock_listening
    → s.accept_q ≡ q
    → Accepted remote s q
unfolding accept poll new_socket start_conn
accept_oldest remote s [] h e = (ground arith, ground arith, ground arith)
accept_oldest remote s (c ∷ cs) h e = (
  start_conn c (record (new_socket s.domain) { bound = s.bound; peer = some (remote c) }),
  ground arith,
  refl,
  refl,
  refl,
  refl,
  ground arith,
)

-- Once writing is shut down, or the socket is released, no send is taken; writeLoop then hands over what
-- is buffered, and stops only when the buffer is empty or the connection has failed.
shut_drains :
    (b : List ℕ) (s : Socket)
    → s.wshut ≡ true
    → ((send b s).0 ≡ 0)
      × ((send b s).2 ≡ s)
      × (s.wdone ≡ false → (write_next s).wdone ≡ true → (s.wbuf ≡ []) ⊎ (s.werr ≡ true))
unfolding send write_next
shut_drains b s h = (ground arith, ground arith, λ d e. ground arith)
