-- ===== src/Kernel/Socket.antt =====
-- internal/kernel/socket.go: a stream socket over a host connection. The host's network is outside: a
-- connection is a number, what arrives on it and what it takes are arguments of the pumps' steps. A
-- method that runs under s.mu is one function; readLoop and writeLoop, which let go of the mutex, are
-- the steps between. notify and the condition variables are left to the steps' guards.
pub mod Streams
pub mod States
mod Tests
use pgzero.Base.{
  ℕ, zero, suc, ◌+◌, ◌-◌, ◌*◌, ◌/◌, ◌%◌, ◌^◌, ◌≤◌, ◌<◌, min, max, ◌≡◌, refl, sym, ap, ap₂, subst,
  ◌∙◌, fun_ext, ◌≢◌, ◌↔◌, ◌⊎◌, inl, inr, Bool, true, false, ◌&&◌, ◌||◌, not, Option, none, some,
  List, [], ◌∷◌, ◌++◌, map, arith, dec_lt, dec_le, ℕ_discrete, ltb, leb, ◌==◌, if◌then◌else◌,
  is_empty, is_some, Bool-cases, Option-cases, length, take, drop, replicate,
}
use pgzero.Abi.{eagain, einval, eafnosupport, enotconn, epipe, econnreset, eisconn}
use pgzero.Kernel.File.{Events, no_events}
use pgzero.Kernel.Sockaddr.{Sockaddr, Addr, v4, v6, zero_addr, af_inet, af_inet6, af_unix}

-- 256 << 10
abbrev pub sock_read_ahead : ℕ
sock_read_ahead = 262144

abbrev pub sock_write_buf : ℕ
sock_write_buf = 262144

pub data SockState : Type 0 where
  sock_new sock_listening sock_connected : SockState

-- io.EOF, or a connection error
pub data ReadError : Type 0 where
  eof failed : ReadError

pub record Socket : Type 0 where
  pub domain : ℕ
  pub state : SockState
  pub bound : Option Sockaddr
  pub peer : Option Sockaddr
  pub opts : ℕ → ℕ → Option ℕ
  -- the host's listeners and the connections that they have accepted
  pub lns : List ℕ
  pub accept_q : List ℕ
  pub conn : Option ℕ
  pub rbuf : List ℕ
  pub rerr : Option ReadError
  pub wbuf : List ℕ
  -- what writeLoop has handed to conn.Write and not come back from: the first bytes of wbuf
  pub writing : Option ℕ
  pub werr : Bool
  pub wshut : Bool
  pub wdone : Bool
  pub released : Bool

pub new_socket : ℕ → Socket
new_socket domain = record {
  domain = domain;
  state = sock_new;
  bound = none;
  peer = none;
  opts = λ _ _. none;
  lns = [];
  accept_q = [];
  conn = none;
  rbuf = [];
  rerr = none;
  wbuf = [];
  writing = none;
  werr = false;
  wshut = false;
  wdone = false;
  released = false;
}

abbrev pub is_new : SockState → Bool
is_new sock_new = true
is_new sock_listening = false
is_new sock_connected = false

abbrev pub is_listening : SockState → Bool
is_listening sock_listening = true
is_listening sock_new = false
is_listening sock_connected = false

abbrev pub is_connected : SockState → Bool
is_connected sock_connected = true
is_connected sock_new = false
is_connected sock_listening = false

abbrev pub option_list : Option ℕ → List ℕ
option_list none = []
option_list (some c) = c ∷ []

abbrev pub option_or : Option ℕ → ℕ → ℕ
option_or none d = d
option_or (some v) d = v

-- `listened` is what the host answers: its listeners and the address that they have, or an errno. For a
-- Unix socket the address is the guest's own.
pub bind : Sockaddr → List ℕ × Sockaddr ⊎ ℕ → Socket → ℕ × Socket
bind a listened s =
    if not (a.family == s.domain)
    then (eafnosupport, s)
    else if is_some s.bound || not (is_new s.state)
    then (einval, s)
    else elim listened [
      | inr errno ↦ (errno, s)
      | inl r ↦
          (0, record s { bound = if s.domain == af_unix then some a else some r.1; lns = r.0 })
    ]

pub listen : Socket → ℕ × Socket
listen s =
    if is_listening s.state
    then (0, s)
    else if not (is_new s.state) || is_empty s.lns
    then (einval, s)
    else (0, record s { state = sock_listening })

-- acceptLoop, after ln.Accept(): a released socket closes the connection, and the loop ends.
pub accept_arrives : ℕ → Socket → Bool × Socket
accept_arrives c s =
    if s.released then (false, s) else (true, record s { accept_q = s.accept_q ++ (c ∷ []) })

pub start_conn : ℕ → Socket → Socket
start_conn c s = record s { conn = some c; state = sock_connected }

take_pending : (ℕ → Sockaddr) → Socket → List ℕ → Option Socket × ℕ × Socket
take_pending remote s [] = (none, eagain, s)
take_pending remote s (c ∷ cs) = (
  some (start_conn c (record (new_socket s.domain) { bound = s.bound; peer = some (remote c) })),
  0,
  record s { accept_q = cs },
)

-- `remote` gives the peer's address of a connection, in the socket's domain.
pub accept : (ℕ → Sockaddr) → Socket → Option Socket × ℕ × Socket
unfolding take_pending
accept remote s =
    if not (is_listening s.state) then (none, einval, s) else take_pending remote s s.accept_q

-- `dialed` is the host's answer: a connection with its local address, or an errno.
pub connect : Sockaddr → ℕ × Sockaddr ⊎ ℕ → Socket → ℕ × Socket
connect a dialed s =
    if not (is_new s.state)
    then (eisconn, s)
    else if not (a.family == s.domain)
    then (eafnosupport, s)
    else elim dialed [
      | inr errno ↦ (errno, s)
      | inl r ↦ (
        0,
        start_conn r.0
            (record s { peer = some a; bound = if is_some s.bound then s.bound else some r.1 }),
      )
    ]

-- readLoop goes on to c.Read only while it has not stopped and its buffer has room.
abbrev pub reads_on : Socket → Bool
reads_on s = not (is_some s.rerr) && not s.released && ltb (length s.rbuf) sock_read_ahead

-- One round of readLoop after c.Read: bytes, and an error if any.
pub read_arrives : List ℕ → Option ReadError → Socket → Socket
read_arrives chunk err s =
    let s' : Socket = record s { rbuf = s.rbuf ++ chunk } in
    elim err [ none ↦ s' | some e ↦ record s' { rerr = some e } ]

-- writeLoop at the top of its loop, with the mutex held: it waits, stops, or hands wbuf to c.Write.
pub write_next : Socket → Socket
write_next s =
    if s.wdone || is_some s.writing
    then s
    else if s.werr || (is_empty s.wbuf && s.wshut)
    then record s { wdone = true }
    else if is_empty s.wbuf
    then s
    else record s { writing = some (length s.wbuf) }

-- c.Write has taken n bytes, perhaps with an error.
pub write_returns : ℕ → Bool → Socket → Socket
write_returns n err s = record s { wbuf = drop n s.wbuf; werr = s.werr || err; writing = none }

-- k is len(b)
pub recv : ℕ → Bool → Socket → List ℕ × ℕ × Socket
recv k peek s =
    if not (is_connected s.state)
    then ([], enotconn, s)
    else if k == 0
    then ([], 0, s)
    else if not (is_empty s.rbuf)
    then (take k s.rbuf, 0, if peek then s else record s { rbuf = drop k s.rbuf })
    else elim s.rerr [
      | none ↦ ([], eagain, s)
      | some e ↦ elim e [ eof ↦ ([], 0, s) | failed ↦ ([], econnreset, s) ]
    ]

pub send : List ℕ → Socket → ℕ × ℕ × Socket
send b s =
    if not (is_connected s.state)
    then (0, enotconn, s)
    else if s.werr || s.wshut
    then (0, epipe, s)
    else if is_empty b
    then (0, 0, s)
    else if leb sock_write_buf (length s.wbuf)
    then (0, eagain, s)
    else let n = min (length b) (sock_write_buf - length s.wbuf) in
      (n, 0, record s { wbuf = s.wbuf ++ take n b })

abbrev pub is_failed : Option ReadError → Bool
is_failed (some failed) = true
is_failed (some eof) = false
is_failed none = false

poll_connected : Socket → Events
poll_connected s = record no_events {
  pollin = not (is_empty s.rbuf) || is_some s.rerr;
  pollerr = is_failed s.rerr || s.werr;
  pollout = not s.werr && ltb (length s.wbuf) sock_write_buf && not s.wshut;
  pollhup = is_some s.rerr && (s.wshut || s.werr);
}

poll_in : SockState → Socket → Events
unfolding poll_connected
poll_in sock_new s = no_events
poll_in sock_listening s = record no_events { pollin = not (is_empty s.accept_q) }
poll_in sock_connected s = poll_connected s

pub poll : Socket → Events
unfolding poll_in
poll s = poll_in s.state s

-- SHUT_WR and SHUT_RDWR
pub shutdown : ℕ → Socket → ℕ × Socket
shutdown how s =
    if not (is_connected s.state)
    then (enotconn, s)
    else (0, if how == 2 || how == 3 then record s { wshut = true } else s)

-- The socket, the connections that are closed, and whether the connection gets a write deadline.
pub release : Socket → Socket × List ℕ × Bool
release s = (
  record s { released = true; accept_q = []; wshut = true },
  s.accept_q ++ (if s.wdone then option_list s.conn else []),
  is_some s.conn && not s.wdone,
)

pub getsockname : Socket → Sockaddr
getsockname s = elim s.bound [
  | some a ↦ a
  | none ↦
      if s.domain == af_inet
      then record { family = af_inet; addr = zero_addr; port = 0; path = [] }
      else if s.domain == af_inet6
      then record { family = af_inet6; addr = v6 (replicate 16 0); port = 0; path = [] }
      else record { family = af_unix; addr = zero_addr; port = 0; path = [] }
]

pub getpeername : Socket → Sockaddr ⊎ ℕ
getpeername s =
    if not (is_connected s.state)
    then inr enotconn
    else elim s.peer [ none ↦ inr enotconn | some a ↦ inl a ]

-- SOL_SOCKET, SO_ERROR, SO_TYPE, SO_RCVBUF, SO_SNDBUF, SOCK_STREAM of internal/abi/consts.go
pub getsockopt : ℕ → ℕ → Socket → ℕ
getsockopt level name s =
    if level == 2147483647 && name == 4
    then 0
    else if level == 2147483647 && name == 3
    then 6
    else if level == 2147483647 && name == 8
    then option_or (s.opts level name) sock_read_ahead
    else if level == 2147483647 && name == 7
    then option_or (s.opts level name) sock_write_buf
    else option_or (s.opts level name) 0

pub setsockopt : ℕ → ℕ → ℕ → Socket → Socket
setsockopt level name value s = record s {
  opts = λ l n. if l == level && n == name then some value else s.opts l n;
}
