-- ===== src/Kernel/Host/Transfer.antt =====
-- internal/kernel/host.go, Recv and Send of netHost. What a process has of signals is a parameter, as in
-- Kernel.Io.
pub mod Endings
use pgzero.Base.{
  ℕ, zero, suc, ◌+◌, ◌-◌, ◌*◌, ◌/◌, ◌%◌, ◌^◌, ◌≤◌, ◌<◌, min, max, ◌≡◌, refl, sym, ap, ap₂, subst,
  ◌∙◌, fun_ext, ◌≢◌, ◌↔◌, ◌⊎◌, inl, inr, Bool, true, false, ◌&&◌, ◌||◌, not, Option, none, some,
  List, [], ◌∷◌, ◌++◌, map, arith, dec_lt, dec_le, ℕ_discrete, ltb, leb, ◌==◌, if◌then◌else◌,
  is_empty, is_some, Bool-cases, Option-cases, length, take, drop, update, neg32,
}
use pgzero.Abi.{efault, epipe}
use pgzero.Kernel.Block.{Turn, Outcome, returned, waiting, out_of_fuel, Reply, replies, unwinds}
use pgzero.Kernel.Files
use pgzero.Kernel.Files.{World, set_socket}
use pgzero.Kernel.Guest.{Guest, in_memory, bytes_at}
use pgzero.Kernel.Host.{Caller}
use pgzero.Kernel.Host.Net.{Found, found, not_found, socket_of, put_bytes}
use pgzero.Kernel.Io.{FileOps, io, sigpipe}
use pgzero.Kernel.Socket
use pgzero.Kernel.Socket.{Socket}

-- Of a process: p.ctx, p.interrupted and p.Signal
pub record Signals : Type 0 where
  pub is_cancelled : Caller → Bool
  pub is_interrupted : Caller → Bool
  pub signal : ℕ → Caller → Caller

-- what io uses of the open file a
abbrev pub ops : Signals → ℕ → (Caller → ℕ × ℕ × Caller) → FileOps Caller
ops p a op = record {
  is_cancelled = p.is_cancelled;
  is_interrupted = p.is_interrupted;
  changed = λ c. record c {
    store = record (c.store) { world = Files.changed (c.store.file a) c.store.world };
  };
  op = op;
  nonblock = λ c. c.store.flags a / 4 % 2 == 1;
  signal = p.signal;
}

-- s.recv(b, peek): the bytes go to the guest's memory
pub recv_op : ℕ → ℕ → ℕ → Bool → Caller → ℕ × ℕ × Caller
recv_op i buf n peek c =
    let (b, e, s) = Socket.recv n peek (c.store.world.sockets i) in
    (
      length b,
      e,
      record c {
        store = record (c.store) { world = set_socket i s c.store.world };
        guest = record (c.guest) { byte = put_bytes buf b c.guest.byte };
      },
    )

-- s.send(b)
pub send_op : ℕ → ℕ → ℕ → Caller → ℕ × ℕ × Caller
send_op i buf n c =
    let (k, e, s) = Socket.send (bytes_at buf n c.guest.byte) (c.store.world.sockets i) in
    (k, e, record c { store = record (c.store) { world = set_socket i s c.store.world } })

-- MSG_DONTWAIT: one attempt, without io
abbrev pub at_once : ℕ × ℕ × Caller → List (Turn Caller) → Outcome Reply Caller
at_once (k, e, c) ts = returned (replies (if e == 0 then k else neg32 e)) c ts

-- flags: MSG_PEEK and MSG_DONTWAIT
pub recv : Signals → ℕ → ℕ → ℕ → Bool → Bool → Caller → List (Turn Caller) → Outcome Reply Caller
recv p fd buf n peek dont_wait c ts = elim (socket_of fd c) [
  | not_found r ↦ returned (replies r) c ts
  | found i a ↦
      if not (in_memory buf n c.guest)
      then returned (replies (neg32 efault)) c ts
      else if dont_wait
      then at_once (recv_op i buf n peek c) ts
      else io (ops p a (recv_op i buf n peek)) c ts
]

-- after the attempt or io
signalled : Signals → Bool → Outcome Reply Caller → Outcome Reply Caller
signalled p no_signal (returned (replies r) c ts) =
    if r == neg32 epipe && not no_signal
    then returned (replies r) (p.signal sigpipe c) ts
    else returned (replies r) c ts
signalled p no_signal (returned unwinds c ts) = returned unwinds c ts
signalled p no_signal (waiting c) = waiting c
signalled p no_signal out_of_fuel = out_of_fuel

-- flags: MSG_DONTWAIT and MSG_NOSIGNAL
pub send : Signals → ℕ → ℕ → ℕ → Bool → Bool → Caller → List (Turn Caller) → Outcome Reply Caller
unfolding signalled
send p fd buf n dont_wait no_signal c ts = elim (socket_of fd c) [
  | not_found r ↦ returned (replies r) c ts
  | found i a ↦
      if not (in_memory buf n c.guest)
      then returned (replies (neg32 efault)) c ts
      else signalled p no_signal (
          if dont_wait then at_once (send_op i buf n c) ts else io (ops p a (send_op i buf n)) c ts)
]
