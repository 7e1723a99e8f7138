-- ===== src/Kernel/Unix.antt =====
-- internal/kernel/kernel.go: the Unix sockets inside the kernel, DialUnix, listenUnix, createSocketFile and
-- virtualListener. Listeners and connections are numbers. A select that waits is a step for each of its
-- cases, once the case can fire: a dial offers its server end until an Accept takes it, the listener is
-- closed or the context is done. The lookup of a dial under unixMu is a step before.
pub mod Served
pub mod Draining
mod Tests
use pgzero.Base.{
  ℕ, zero, suc, ◌+◌, ◌-◌, ◌*◌, ◌/◌, ◌%◌, ◌^◌, ◌≤◌, ◌<◌, min, max, ◌≡◌, refl, sym, ap, ap₂, subst,
  ◌∙◌, fun_ext, ◌≢◌, ◌↔◌, ◌⊎◌, inl, inr, Bool, true, false, ◌&&◌, ◌||◌, not, Option, none, some,
  List, [], ◌∷◌, ◌++◌, map, arith, dec_lt, dec_le, ℕ_discrete, ltb, leb, ◌==◌, if◌then◌else◌,
  is_empty, is_some, Bool-cases, Option-cases, length, take, drop,
}
use pgzero.Abi.{econnrefused, eaddrinuse}
use pgzero.Paths.{Bytes, clean, same_bytes}
use pgzero.Kernel.Mounts.{Mount, mount_for}

-- `closing` is between the two parts of Close
pub data Phase : Type 0 where
  listening closing closed : Phase

pub record Listener : Type 0 where
  pub addr : Bytes
  pub phase : Phase
  -- the server ends that dials offer on conns
  pub offers : List ℕ

-- What has become of a connection; `dialling l` is before the select of a dial that found the listener l.
pub data Conn : Type 0 where
  dialling : ℕ → Conn
  offered accepted broken : Conn

pub record Unix : Type 0 where
  pub unix : Bytes → Option ℕ
  pub made : ℕ
  pub listeners : ℕ → Listener
  pub dialled : ℕ
  pub conns : ℕ → Conn

abbrev pub no_listener : Listener
no_listener = record { addr = []; phase = closed; offers = [] }

abbrev pub new_unix : Unix
new_unix = record {
  unix = λ a. none;
  made = 0;
  listeners = λ l. no_listener;
  dialled = 0;
  conns = λ c. broken;
}

abbrev pub is_closed : Phase → Bool
is_closed listening = false
is_closed closing = false
is_closed closed = true

abbrev pub is_listening : Phase → Bool
is_listening listening = true
is_listening closing = false
is_listening closed = false

abbrev pub is_closing : Phase → Bool
is_closing closing = true
is_closing listening = false
is_closing closed = false

-- the map's entry for an address
abbrev pub put_addr : Bytes → Option ℕ → (Bytes → Option ℕ) → Bytes → Option ℕ
put_addr a v t b = if same_bytes a b then v else t b

abbrev pub put_at : {A : Type 0} → ℕ → A → (ℕ → A) → ℕ → A
put_at k v f j = if k == j then v else f j

abbrev pub is_entry : ℕ → Option ℕ → Bool
is_entry l none = false
is_entry l (some m) = m == l

abbrev pub contains : ℕ → List ℕ → Bool
contains c [] = false
contains c (d ∷ ds) = d == c || contains c ds

abbrev pub is_dialling : ℕ → Conn → Bool
is_dialling l (dialling m) = m == l
is_dialling l offered = false
is_dialling l accepted = false
is_dialling l broken = false

abbrev pub without : ℕ → List ℕ → List ℕ
without c [] = []
without c (d ∷ ds) = let rest = without c ds in if d == c then rest else d ∷ rest

-- a listener, or an errno
unfoldable pub listen_unix : Bytes → Unix → (ℕ ⊎ ℕ) × Unix
listen_unix path s =
    let a = clean path in
    if is_some (s.unix a) then (inr eaddrinuse, s) else (
      inl s.made,
      record s {
        unix = put_addr a (some s.made) s.unix;
        made = s.made + 1;
        listeners = put_at s.made (record { addr = a; phase = listening; offers = [] }) s.listeners;
      },
    )

-- What runs under unixMu: the connection of a dial that has found its listener, or an errno.
unfoldable pub dial_unix : Bytes → Unix → (ℕ ⊎ ℕ) × Unix
dial_unix path s = elim (s.unix (clean path)) [
  | none ↦ (inr econnrefused, s)
  | some l ↦ (
    inl s.dialled,
    record s { dialled = s.dialled + 1; conns = put_at s.dialled (dialling l) s.conns },
  )
]

abbrev pub offer_to : ℕ → Conn → Unix → Unix
offer_to c (dialling l) s =
    let o = s.listeners l in
    record s {
      listeners = put_at l (record o { offers = c ∷ o.offers }) s.listeners;
      conns = put_at c offered s.conns;
    }
offer_to c offered s = s
offer_to c accepted s = s
offer_to c broken s = s

-- The dial reaches its select, and offers the server end to the listener that it found, closed or not.
unfoldable pub offer : ℕ → Unix → Unix
offer c s = offer_to c (s.conns c) s

-- the end of a dial's select: `c` is no more offered
unfoldable pub settle : ℕ → ℕ → Conn → Unix → Unix
settle l c v s =
    let o = s.listeners l in
    record s {
      listeners = put_at l (record o { offers = without c o.offers }) s.listeners;
      conns = put_at c v s.conns;
    }

-- Accept takes a connection, and the dial returns the client end
unfoldable pub accept : ℕ → ℕ → Unix → Unix
accept l c s = if contains c (s.listeners l).offers then settle l c accepted s else s

-- the dial sees that the listener is closed
unfoldable pub refuse : ℕ → ℕ → Unix → Unix
refuse l c s =
    if contains c (s.listeners l).offers && not (is_listening (s.listeners l).phase)
    then settle l c broken s
    else s

-- the dial's context is done
unfoldable pub cancel : ℕ → ℕ → Unix → Unix
cancel l c s = if contains c (s.listeners l).offers then settle l c broken s else s

-- Close, in once.Do: close(l.closed), and then what runs under unixMu
unfoldable pub begin_close : ℕ → Unix → Unix
begin_close l s =
    let o = s.listeners l in
    if is_listening o.phase
    then record s { listeners = put_at l (record o { phase = closing }) s.listeners }
    else s

unfoldable pub end_close : ℕ → Unix → Unix
end_close l s =
    let o = s.listeners l in
    if is_closing o.phase
    then record s {
      unix = if is_entry l (s.unix o.addr) then put_addr o.addr none s.unix else s.unix;
      listeners = put_at l (record o { phase = closed }) s.listeners;
    }
    else s

-- the file that createSocketFile opens in a mount's filesystem, with O_CREATE
unfoldable pub create_socket_file : List Mount → Bytes → Option (Mount × Bytes)
create_socket_file ms guest = elim (mount_for ms guest) [
  | none ↦ none
  | some (m, rel) ↦ if not m.has_fs || is_empty rel then none else some (m, rel)
]
