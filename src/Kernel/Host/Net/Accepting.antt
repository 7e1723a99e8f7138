-- ===== src/Kernel/Host/Net/Accepting.antt =====
-- What Accept leaves in the descriptor table.
use pgzero.Base.{
  true, ◌%◌, is_some, false, ◌^◌, ◌≢◌, ◌/◌, ℕ, ◌≡◌, ◌⊎◌, Bool, Option, none, some, List, ◌==◌,
  if◌then◌else◌, length, neg32, lookup,
}
use pgzero.Abi.{efault}
use pgzero.Kernel.FdTable
use pgzero.Kernel.FdTable.{Entry}
use pgzero.Kernel.Files.{socket_file}
use pgzero.Kernel.Guest.{Guest, in_memory, read_u32}
use pgzero.Kernel.Host.{Caller}
use pgzero.Kernel.Sockaddr.{Sockaddr, encode, stored}
use pgzero.Kernel.Socket.{Socket}

-- Why an address cannot be stored: there is where, but its length cannot be read, or what fits of the
-- address lies outside the memory.
abbrev pub Faults : Sockaddr → ℕ → ℕ → Guest → Type 0
Faults a addr len_addr g =
    (addr ≢ 0)
    × (len_addr ≢ 0)
    × ((read_u32 len_addr g ≡ none)
        ⊎ ((room : ℕ) × (enc : List ℕ) × (read_u32 len_addr g ≡ some room)
            × (encode a ≡ some enc)
            × (in_memory addr (length (stored enc room).0) g ≡ false)))

-- There is where to store an address of which encode panics.
abbrev pub Panics : Sockaddr → ℕ → ℕ → Guest → Type 0
Panics a addr len_addr g =
    (addr ≢ 0) × (len_addr ≢ 0) × (is_some (read_u32 len_addr g) ≡ true) × (encode a ≡ none)

abbrev Stores : Sockaddr → ℕ → ℕ → Guest → Option (ℕ × Guest) → Type 0
Stores a addr len_addr g none = Panics a addr len_addr g
Stores a addr len_addr g (some r) = (r.0 ≡ 0) ⊎ ((r.0 ≡ neg32 efault) × Faults a addr len_addr g)

-- O_NONBLOCK where SOCK_NONBLOCK is among the flags, and whether SOCK_CLOEXEC is
abbrev pub asked_flags : ℕ → ℕ
asked_flags flags = if flags / 2 ^ 14 % 2 == 1 then 4 else 0

abbrev pub asked_cloexec : ℕ → Bool
asked_cloexec flags = flags / 2 ^ 13 % 2 == 1

-- A descriptor for the new connection, with its flags, and nothing else; the socket ns is stored.
abbrev pub Opened : Socket → ℕ → Caller → ℕ × Caller → Type 0
Opened ns flags c (r, c') =
    (lookup r c.table ≡ none)
    × ((k : ℕ)
        → lookup k c'.table ≡ (
            if r == k
            then some (record { of = c.store.next; cloexec = asked_cloexec flags })
            else lookup k c.table))
    × (c'.store.file c.store.next ≡ socket_file c.store.world.next_socket)
    × (c'.store.flags c.store.next ≡ asked_flags flags)
    × (c'.store.world.sockets c.store.world.next_socket ≡ ns)

-- That, or EFAULT and the descriptors from before, where the peer's address cannot be stored.
abbrev pub Accepted : Socket → ℕ → ℕ → ℕ → Caller → ℕ × Caller → Type 0
Accepted ns addr len_addr flags c (r, c') =
    Opened ns flags c (r, c')
    ⊎ ((r ≡ neg32 efault)
        × ((k : ℕ) → lookup k c'.table ≡ lookup k c.table)
        × ((a : Sockaddr) × (ns.peer ≡ some a) × Faults a addr len_addr c.guest))

abbrev pub Accepts : Socket → ℕ → ℕ → ℕ → Caller → Option (ℕ × Caller) → Type 0
Accepts ns addr len_addr flags c none =
    (a : Sockaddr) × (ns.peer ≡ some a) × Panics a addr len_addr c.guest
Accepts ns addr len_addr flags c (some result) = Accepted ns addr len_addr flags c result
