-- ===== src/Kernel/Host/Net.antt =====
-- internal/kernel/host.go, netHost without Recv and Send: the calls on sockets. A call returns `none`
-- where encode panics.
pub mod Accepting
mod Tests
use pgzero.Base.{
  ℕ, zero, suc, ◌+◌, ◌-◌, ◌*◌, ◌/◌, ◌%◌, ◌^◌, ◌≤◌, ◌<◌, min, max, ◌≡◌, refl, sym, ap, ap₂, subst,
  ◌∙◌, fun_ext, ◌≢◌, ◌↔◌, ◌⊎◌, inl, inr, Bool, true, false, ◌&&◌, ◌||◌, not, Option, none, some,
  List, [], ◌∷◌, ◌++◌, map, arith, dec_lt, dec_le, ℕ_discrete, ltb, leb, ◌==◌, if◌then◌else◌,
  is_empty, is_some, Bool-cases, Option-cases, length, take, drop, update, neg32,
}
use pgzero.Abi.{einval, efault, ebadf, enotsock, eprotonosupport, eafnosupport}
use pgzero.Kernel.FdTable.{get}
use pgzero.Kernel.Files.{
  FileObject, World, pipe_reader, pipe_writer, socket_file, shm_file, reader_file, writer_file,
  null_file, set_socket,
}
use pgzero.Kernel.Guest.{Guest, in_memory, read_u32, write_u32, bytes_at}
use pgzero.Kernel.Host.{Caller, open_file, close}
use pgzero.Kernel.Sockaddr.{Sockaddr, decode, encode, stored, af_inet, af_inet6, af_unix}
use pgzero.Kernel.Socket
use pgzero.Kernel.Socket.{Socket, new_socket}

-- Process.socket
pub data Found : Type 0 where
  -- the socket and its open file
  found : ℕ → ℕ → Found
  not_found : ℕ → Found

abbrev pub as_socket : ℕ → FileObject → Found
as_socket a (socket_file i) = found i a
as_socket a _ = not_found (neg32 enotsock)

pub socket_of : ℕ → Caller → Found
socket_of fd c = elim (get fd c.table) [
  | none ↦ not_found (neg32 ebadf)
  | some a ↦ as_socket a (c.store.file a)
]

-- sockaddrArg
pub sockaddr_arg : ℕ → ℕ → Guest → Sockaddr ⊎ ℕ
sockaddr_arg addr n g =
    if not (in_memory addr n g)
    then inr (neg32 efault)
    else elim (decode (bytes_at addr n g.byte)) [ inl a ↦ inl a | inr errno ↦ inr (neg32 errno) ]

-- copy
pub put_bytes : ℕ → List ℕ → (ℕ → ℕ) → ℕ → ℕ
put_bytes addr [] byte = byte
put_bytes addr (b ∷ bs) byte = put_bytes (addr + 1) bs (update byte addr b)

-- writeSockaddr of an encoded address into a buffer of `room` bytes
pub store_sockaddr : List ℕ → ℕ → ℕ → ℕ → Guest → ℕ × Guest
store_sockaddr enc room addr len_addr g =
    let (b, n) = stored enc room in
    if not (in_memory addr (length b) g)
    then (neg32 efault, g)
    else (0, (write_u32 len_addr n (record g { byte = put_bytes addr b g.byte })).1)

-- writeSockaddr; none: encode panics
pub write_sockaddr : Sockaddr → ℕ → ℕ → Guest → Option (ℕ × Guest)
write_sockaddr a addr len_addr g =
    if addr == 0 || len_addr == 0 then some (0, g) else elim (read_u32 len_addr g) [
      | none ↦ some (neg32 efault, g)
      | some room ↦ elim (encode a) [
        | none ↦ none
        | some enc ↦ some (store_sockaddr enc room addr len_addr g)
      ]
    ]

set_world : World → Caller → Caller
set_world w c = record c { store = record (c.store) { world = w } }

-- newSocket and its place among the sockets
pub add_socket : Socket → Caller → ℕ × Caller
unfolding set_world
add_socket s c =
    let w : World = c.store.world in
    (
      w.next_socket,
      set_world
          (record w { sockets = update w.sockets w.next_socket s; next_socket = w.next_socket + 1 })
          c,
    )

-- flags & SOCK_NONBLOCK as O_NONBLOCK
abbrev pub nonblock_flag : ℕ → ℕ
nonblock_flag flags = flags / 16384 % 2 * 4

-- flags & SOCK_CLOEXEC != 0
abbrev pub cloexec_flag : ℕ → Bool
cloexec_flag flags = flags / 8192 % 2 == 1

-- Socket; 6 is SOCK_STREAM
pub socket : ℕ → ℕ → Caller → ℕ × Caller
socket domain socktype c =
    if not (domain == af_inet || domain == af_inet6 || domain == af_unix)
    then (neg32 eafnosupport, c)
    else if not (socktype - socktype / 8192 % 4 * 8192 == 6)
    then (neg32 eprotonosupport, c)
    else let (i, c') = add_socket (new_socket domain) c in
      open_file (socket_file i) (nonblock_flag socktype) (cloexec_flag socktype) c'

-- -s.op(...): a number and the socket after it
abbrev negated : ℕ → ℕ × Socket → Caller → ℕ × Caller
negated i (errno, s) c = (neg32 errno, set_world (set_socket i s c.store.world) c)

on_socket : Found → (ℕ → Socket → ℕ × Caller) → Caller → ℕ × Caller
on_socket (found i a) f c = f i (c.store.world.sockets i)
on_socket (not_found r) f c = (r, c)

-- Bind; `listened` is the host's answer to an address
pub bind : ℕ → ℕ → ℕ → (Sockaddr → List ℕ × Sockaddr ⊎ ℕ) → Caller → ℕ × Caller
unfolding on_socket set_world
bind fd addr n listened c =
    on_socket (socket_of fd c)
      (λ i s. elim (sockaddr_arg addr n c.guest) [
        | inr r ↦ (r, c)
        | inl a ↦ negated i (Socket.bind a (listened a) s) c
      ])
      c

-- Connect; `dialed` is the host's answer to an address
pub connect : ℕ → ℕ → ℕ → (Sockaddr → ℕ × Sockaddr ⊎ ℕ) → Caller → ℕ × Caller
unfolding on_socket set_world
connect fd addr n dialed c =
    on_socket (socket_of fd c)
      (λ i s. elim (sockaddr_arg addr n c.guest) [
        | inr r ↦ (r, c)
        | inl a ↦ negated i (Socket.connect a (dialed a) s) c
      ])
      c

-- Listen
pub listen : ℕ → Caller → ℕ × Caller
unfolding on_socket set_world
listen fd c = on_socket (socket_of fd c) (λ i s. negated i (Socket.listen s) c) c

-- Shutdown
pub shutdown : ℕ → ℕ → Caller → ℕ × Caller
unfolding on_socket set_world
shutdown fd how c = on_socket (socket_of fd c) (λ i s. negated i (Socket.shutdown how s) c) c

-- Setsockopt
pub setsockopt : ℕ → ℕ → ℕ → ℕ → ℕ → Caller → ℕ × Caller
unfolding on_socket set_world
setsockopt fd level name val n c =
    on_socket (socket_of fd c)
      (λ i s. elim (if leb 4 n then read_u32 val c.guest else some 0) [
        | none ↦ (neg32 efault, c)
        | some v ↦ (0, set_world (set_socket i (Socket.setsockopt level name v s) c.store.world) c)
      ])
      c

-- both stores of Getsockopt
store_option : ℕ → ℕ → ℕ → Guest → Bool × Guest
store_option val len_addr v g =
    let (ok, g') = write_u32 val v g in if ok then write_u32 len_addr 4 g' else (false, g')

-- Getsockopt
pub getsockopt : ℕ → ℕ → ℕ → ℕ → ℕ → Caller → ℕ × Caller
unfolding on_socket store_option
getsockopt fd level name val len_addr c =
    on_socket (socket_of fd c)
      (λ i s. elim (read_u32 len_addr c.guest) [
        | none ↦ (neg32 efault, c)
        | some room ↦
            let (ok, g) = store_option val len_addr (Socket.getsockopt level name s) c.guest in
            if ltb room 4
            then (neg32 einval, c)
            else (if ok then 0 else neg32 efault, record c { guest = g })
      ])
      c

-- return p.writeSockaddr(...)
abbrev after_address : Caller → Option (ℕ × Guest) → Option (ℕ × Caller)
after_address c none = none
after_address c (some (e, g)) = some (e, record c { guest = g })

-- Getsockname
pub getsockname : ℕ → ℕ → ℕ → Caller → Option (ℕ × Caller)
getsockname fd addr len_addr c = elim (socket_of fd c) [
  | not_found r ↦ some (r, c)
  | found i a ↦
      after_address c
        (write_sockaddr (Socket.getsockname (c.store.world.sockets i)) addr len_addr c.guest)
]

-- Getpeername
pub getpeername : ℕ → ℕ → ℕ → Caller → Option (ℕ × Caller)
getpeername fd addr len_addr c = elim (socket_of fd c) [
  | not_found r ↦ some (r, c)
  | found i a ↦ elim (Socket.getpeername (c.store.world.sockets i)) [
    | inr e ↦ some (neg32 e, c)
    | inl peer ↦ after_address c (write_sockaddr peer addr len_addr c.guest)
  ]
]

-- Accept after writeSockaddr: none is its panic
abbrev pub after_store : ℕ → Caller → Option (ℕ × Guest) → Option (ℕ × Caller)
after_store nfd c none = none
after_store nfd c (some (e, g)) =
    let c' : Caller = record c { guest = g } in
    some (if not (e == 0) then (e, (close nfd c').1) else (nfd, c'))

-- Accept for a peer's address, if there is one
abbrev pub after_peer : ℕ → ℕ → ℕ → Caller → Option Sockaddr → Option (ℕ × Caller)
after_peer nfd addr len_addr c none = some (nfd, c)
after_peer nfd addr len_addr c (some a) = after_store nfd c (write_sockaddr a addr len_addr c.guest)

-- Accept once io has the connection's socket: a descriptor for it, and the peer's address
pub finish_accept : Socket → ℕ → ℕ → ℕ → Caller → Option (ℕ × Caller)
finish_accept ns addr len_addr flags c =
    let (i, c1) = add_socket ns c in
    let (nfd, c2) = open_file (socket_file i) (nonblock_flag flags) (cloexec_flag flags) c1 in
    after_peer nfd addr len_addr c2 ns.peer
