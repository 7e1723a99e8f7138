-- ===== src/Kernel/Host.antt =====
-- internal/kernel/host.go, fdHost but Read, Write and Poll: calls on descriptors. A process is its table, the
-- store of open files that all processes share, and its memory.
pub mod Ends
pub mod Net
pub mod Transfer
pub mod Shm
pub mod Keeping
pub mod Calls
use pgzero.Base.{
  is_neg32, update, neg32, add32, ℕ, zero, suc, ◌+◌, ◌-◌, ◌*◌, ◌/◌, ◌%◌, ◌^◌, ◌≤◌, ◌<◌, min, max,
  ◌≡◌, refl, sym, ap, ap₂, subst, ◌∙◌, fun_ext, ◌≢◌, ◌↔◌, ◌⊎◌, inl, inr, Bool, true, false, ◌&&◌,
  ◌||◌, not, Option, none, some, List, [], ◌∷◌, ◌++◌, map, arith, dec_lt, dec_le, ℕ_discrete, ltb,
  leb, ◌==◌, if◌then◌else◌, is_empty, is_some, Bool-cases, Option-cases, length, take, drop,
}
use pgzero.Kernel.FdTable
use pgzero.Kernel.FdTable.{FdTable, Store, new_open_file, add, get, get_cloexec, set_cloexec}
use pgzero.Kernel.Files
use pgzero.Kernel.Files.{FileObject, World, release, pipe_reader, pipe_writer, null_file, set_pipe}
use pgzero.Kernel.Guest.{Guest, write_u32}
use pgzero.Kernel.Pipe.{new_pipe}
use pgzero.Abi.{einval, efault, ebadf, fd_base}

pub record Caller : Type 0 where
  pub table : FdTable
  pub store : Store FileObject World
  pub guest : Guest

-- O_NONBLOCK
abbrev pub o_nonblock : ℕ → ℕ
o_nonblock flags = flags / 4 % 2 * 4

-- A new open file with a descriptor for it.
unfoldable pub open_file : FileObject → ℕ → Bool → Caller → ℕ × Caller
open_file f flags cloexec c =
    let (a, s) = new_open_file f flags c.store in
    let (fd, t, s') = add a cloexec c.table s in (fd, record c { table = t; store = s' })

pub close : ℕ → Caller → ℕ × Caller
close fd c =
    let (r, t, s) = FdTable.close release fd c.table c.store in
    (r, record c { table = t; store = s })

-- newPipe: the pipe's number
pub make_pipe : Caller → ℕ × Caller
make_pipe c =
    let w : World = c.store.world in
    (
      w.next_pipe,
      record c {
        store = record (c.store) {
          world = record w {
            pipes = update w.pipes w.next_pipe new_pipe;
            next_pipe = w.next_pipe + 1;
          };
        };
      },
    )

-- both stores of Pipe: the second is tried only after the first
pub store_pair : ℕ → ℕ → ℕ → Guest → Bool × Guest
store_pair addr rfd wfd g =
    let (ok, g') = write_u32 addr rfd g in
    if ok then write_u32 (add32 addr 4) wfd g' else (false, g')

-- Pipe
pub pipe : ℕ → ℕ → Caller → ℕ × Caller
pipe addr flags c =
    let (i, c1) = make_pipe c in
    let (rfd, c2) = open_file (pipe_reader i) (o_nonblock flags) false c1 in
    let (wfd, c3) = open_file (pipe_writer i) (o_nonblock flags) false c2 in
    let (ok, g) = store_pair addr rfd wfd c3.guest in
    let c4 : Caller = record c3 { guest = g } in
    if ok then (0, c4) else (neg32 efault, (close wfd (close rfd c4).1).1)

-- the attempt that Read repeats, `of.f.read(b)` with room for k bytes
pub attempt_read : ℕ → ℕ → Caller → List ℕ × ℕ × Caller
attempt_read k a c =
    let (b, e, w) = Files.read k (c.store.file a) c.store.world in
    (b, e, record c { store = record (c.store) { world = w } })

-- the attempt that Write repeats, `of.f.write(b)`
pub attempt_write : ℕ × Bool → List ℕ → ℕ → Caller → ℕ × ℕ × Caller
attempt_write taken b a c =
    let (n, e, w) = Files.write taken b (c.store.file a) c.store.world in
    (n, e, record c { store = record (c.store) { world = w } })

-- Devnull
pub devnull : Caller → ℕ × Caller
devnull c = open_file null_file 0 false c

pub valid_host_fd : ℕ → Bool
valid_host_fd fd = leb fd 2 || (leb fd_base fd && not (is_neg32 fd))

-- Dup; a negative number asks for any
pub dup : ℕ → ℕ → Caller → ℕ × Caller
dup fd new_fd c = elim (get fd c.table) [
  | none ↦ (neg32 ebadf, c)
  | some a ↦
      if is_neg32 new_fd
      then (let (r, t, s) = add a false c.table c.store in (r, record c { table = t; store = s }))
      else if not (valid_host_fd new_fd)
      then (neg32 ebadf, c)
      else if new_fd == fd
      then (new_fd, c)
      else (let (t, s) = FdTable.install release new_fd a false c.table c.store in
          (new_fd, record c { table = t; store = s }))
]

-- the commands of fcntl
pub data Fcntl : Type 0 where
  f_getfd f_setfd f_getfl f_setfl f_dupfd f_dupfd_cloexec unknown : Fcntl

pub on_file : Fcntl → ℕ → ℕ → ℕ → Caller → ℕ × Caller
on_file f_getfd fd arg a c = elim (get_cloexec fd c.table) [
  | none ↦ (0, c)
  | some cloexec ↦ (if cloexec then 1 else 0, c)
]
on_file f_setfd fd arg a c = (0, record c { table = (set_cloexec fd (arg % 2 == 1) c.table).0 })
on_file f_getfl fd arg a c = (c.store.flags a, c)
on_file f_setfl fd arg a c =
    (0, record c { store = record (c.store) { flags = update c.store.flags a (o_nonblock arg) } })
on_file f_dupfd fd arg a c =
    let (r, t, s) = add a false c.table c.store in (r, record c { table = t; store = s })
on_file f_dupfd_cloexec fd arg a c =
    let (r, t, s) = add a true c.table c.store in (r, record c { table = t; store = s })
on_file unknown fd arg a c = (neg32 einval, c)

-- Fcntl
pub fcntl : ℕ → Fcntl → ℕ → Caller → ℕ × Caller
fcntl fd cmd arg c = elim (get fd c.table) [
  | none ↦ (neg32 ebadf, c)
  | some a ↦ on_file cmd fd arg a c
]
