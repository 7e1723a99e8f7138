-- ===== src/Kernel/Host/Shm.antt =====
-- internal/kernel/host.go, shmHost: the calls on shared memory. `ok` is the operating system's answer, as in
-- Kernel.Shm, and `code` numbers the names, different ones differently.
pub mod Opening
mod Tests
use pgzero.Base.{
  ℕ, zero, suc, ◌+◌, ◌-◌, ◌*◌, ◌/◌, ◌%◌, ◌^◌, ◌≤◌, ◌<◌, min, max, ◌≡◌, refl, sym, ap, ap₂, subst,
  ◌∙◌, fun_ext, ◌≢◌, ◌↔◌, ◌⊎◌, inl, inr, Bool, true, false, ◌&&◌, ◌||◌, not, Option, none, some,
  List, [], ◌∷◌, ◌++◌, map, arith, dec_lt, dec_le, ℕ_discrete, ltb, leb, ◌==◌, if◌then◌else◌,
  is_empty, is_some, Bool-cases, Option-cases, length, take, drop, update, neg32,
}
use pgzero.Abi.{einval, efault, ebadf}
use pgzero.Kernel.FdTable.{get}
use pgzero.Kernel.Files.{
  FileObject, World, pipe_reader, pipe_writer, socket_file, shm_file, reader_file, writer_file,
  null_file,
}
use pgzero.Kernel.Guest.{Guest, in_memory, bytes_at}
use pgzero.Kernel.Host.{Caller, open_file}
use pgzero.Kernel.Shm.{ShmTable, Attachment, Proc}
use pgzero.Kernel.Shm

-- a process with what it has attached
pub record Mapper : Type 0 where
  pub caller : Caller
  pub attachments : List Attachment

abbrev pub table_of : Caller → ShmTable
table_of c = c.store.world.shm

abbrev pub set_table : ShmTable → Caller → Caller
set_table t c = record c { store = record (c.store) { world = record (c.store.world) { shm = t } } }

-- a call that changes the table only
abbrev pub on_table : ℕ × ShmTable → Caller → ℕ × Caller
on_table (r, t) c = (r, set_table t c)

-- a call that maps or unmaps
abbrev pub on_proc : (Proc → ShmTable → ℕ × Proc × ShmTable) → Mapper → ℕ × Mapper
on_proc f m =
    let c = m.caller in
    let (r, p, t) = f (record { mem = c.guest.mem; attachments = m.attachments }) (table_of c) in
    (
      r,
      record {
        caller = record (set_table t c) { guest = record (c.guest) { mem = p.mem } };
        attachments = p.attachments;
      },
    )

unfoldable pub create : Bool → ℕ → Caller → ℕ × Caller
create ok size c = on_table (Shm.create ok size (table_of c)) c

unfoldable pub size : ℕ → Caller → ℕ
size id c = Shm.size id (table_of c)

unfoldable pub attach : Bool → ℕ → ℕ → Mapper → ℕ × Mapper
attach ok id addr m = on_proc (Shm.attach ok id addr) m

unfoldable pub remove : ℕ → Caller → ℕ × Caller
remove id c = on_table (Shm.remove id (table_of c)) c

-- the object of a descriptor, or an errno
abbrev pub as_shm : FileObject → ℕ ⊎ ℕ
as_shm (shm_file i) = inl i
as_shm _ = inr (neg32 einval)

unfoldable pub shm_fd : ℕ → Caller → ℕ ⊎ ℕ
shm_fd fd c = elim (get fd c.table) [ none ↦ inr (neg32 ebadf) | some a ↦ as_shm (c.store.file a) ]

-- shmTable's open, once the name is read: it has its object, and gives it a descriptor
unfoldable pub open_named : ℕ → Bool → Bool → Caller → ℕ × Caller
open_named name creat excl c =
    let (r, t) = Shm.open_object name creat excl (table_of c) in
    elim r [
      | inr errno ↦ (errno, set_table t c)
      | inl id ↦ open_file (shm_file id) 0 false (set_table t c)
    ]

unfoldable pub open_shm : (List ℕ → ℕ) → ℕ → ℕ → ℕ → Caller → ℕ × Caller
open_shm code addr n flags c =
    if not (in_memory addr n c.guest)
    then (neg32 efault, c)
    else open_named (code (bytes_at addr n c.guest.byte)) (flags / 4096 % 2 == 1)
        (flags / 16384 % 2 == 1) c

unfoldable pub unlink : (List ℕ → ℕ) → ℕ → ℕ → Caller → ℕ × Caller
unlink code addr n c =
    if not (in_memory addr n c.guest)
    then (neg32 efault, c)
    else on_table (Shm.unlink (code (bytes_at addr n c.guest.byte)) (table_of c)) c

unfoldable pub truncate : Bool → ℕ → ℕ → Caller → ℕ × Caller
truncate ok fd size c = elim (shm_fd fd c) [
  | inr errno ↦ (errno, c)
  | inl id ↦ on_table (Shm.truncate ok id size (table_of c)) c
]

unfoldable pub fd_size : ℕ → Caller → ℕ
fd_size fd c = elim (shm_fd fd c) [ inr errno ↦ errno | inl id ↦ Shm.fd_size id (table_of c) ]

unfoldable pub map_fd : Bool → ℕ → ℕ → ℕ → Mapper → ℕ × Mapper
map_fd ok fd addr n m = elim (shm_fd fd m.caller) [
  | inr errno ↦ (errno, m)
  | inl id ↦ on_proc (Shm.map_fd ok id addr n) m
]

unfoldable pub unmap : Bool → ℕ → ℕ → Mapper → ℕ × Mapper
unmap ok addr n m = on_proc (Shm.unmap ok addr n) m
