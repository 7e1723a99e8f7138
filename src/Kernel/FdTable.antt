-- ===== src/Kernel/FdTable.antt =====
-- internal/kernel/fdtable.go, the descriptor tables. The open files of all tables live in one store,
-- where an openFile is an address: its file, its flags and its reference count. What `file.release`
-- does to the rest of the kernel (W) is the parameter `release`, which the files' own modules give.
pub mod Lookup
pub mod Refs
mod Tests
use pgzero.Base.{
  ℕ, zero, suc, ◌+◌, ◌-◌, ◌/◌, ◌%◌, Bool, true, false, not, if◌then◌else◌, ◌==◌, ltb, Option, none,
  some, is_some, List, [], ◌∷◌, Assoc, lookup, erase, insert, length, update, neg32,
}
use pgzero.Abi.{ebadf, fd_base}

pub record Store (F W : Type 0) : Type 0 where
  pub file : ℕ → F
  pub flags : ℕ → ℕ
  pub refs : ℕ → ℕ
  -- the addresses in use are those below
  pub next : ℕ
  pub world : W

pub record Entry : Type 0 where
  pub of : ℕ
  pub cloexec : Bool

abbrev pub FdTable : Type 0
FdTable = Assoc Entry

pub new_fd_table : FdTable
new_fd_table = []

-- flags & O_NONBLOCK != 0
pub nonblock : {F W : Type 0} → ℕ → Store F W → Bool
nonblock a s = s.flags a / 4 % 2 == 1

unfoldable pub new_open_file : {F W : Type 0} → F → ℕ → Store F W → ℕ × Store F W
new_open_file f flags s = (
  s.next,
  record s {
    file = update s.file s.next f;
    flags = update s.flags s.next flags;
    refs = update s.refs s.next 0;
    next = s.next + 1;
  },
)

unfoldable pub ref : {F W : Type 0} → ℕ → Store F W → Store F W
ref a s = record s { refs = update s.refs a (s.refs a + 1) }

-- the lowest number from fd on that the table does not have; the fuel bounds the steps
unfoldable pub lowest_free : ℕ → ℕ → FdTable → ℕ
lowest_free zero fd t = fd
lowest_free (suc fuel) fd t =
    let rest = lowest_free fuel (fd + 1) t in if is_some (lookup fd t) then rest else fd

-- No open file is closed here, so the release of files is not needed.
unfoldable pub add : {F W : Type 0} → ℕ → Bool → FdTable → Store F W → ℕ × FdTable × Store F W
add a cloexec t s =
    let fd = lowest_free (length t) fd_base t in
    (fd, insert fd (record { of = a; cloexec = cloexec }) t, ref a s)

unfoldable pub get : ℕ → FdTable → Option ℕ
get fd t = elim (lookup fd t) [ none ↦ none | some e ↦ some e.of ]

unfoldable pub get_cloexec : ℕ → FdTable → Option Bool
get_cloexec fd t = elim (lookup fd t) [ none ↦ none | some e ↦ some e.cloexec ]

unfoldable pub set_cloexec : ℕ → Bool → FdTable → FdTable × Bool
set_cloexec fd cloexec t = elim (lookup fd t) [
  | none ↦ (t, false)
  | some e ↦ (insert fd (record e { cloexec = cloexec }) t, true)
]

-- The child's table. In a map the order of the entries has no meaning.
pub clone_for_exec : {F W : Type 0} → FdTable → Store F W → FdTable × Store F W
clone_for_exec [] s = ([], s)
clone_for_exec ((fd, e) ∷ t) s =
    let (c, s') = clone_for_exec t s in
    if e.cloexec then (c, s') else ((fd, record { of = e.of; cloexec = false }) ∷ c, ref e.of s')

-- sort.Slice over the keys: insertion into a sorted table.
pub insert_sorted : ℕ → Entry → FdTable → FdTable
insert_sorted fd e [] = (fd, e) ∷ []
insert_sorted fd e ((j, d) ∷ t) =
    if ltb fd j then (fd, e) ∷ (j, d) ∷ t else (j, d) ∷ insert_sorted fd e t

pub sort_fds : FdTable → FdTable
unfolding insert_sorted
sort_fds [] = []
sort_fds ((fd, e) ∷ t) = insert_sorted fd e (sort_fds t)

module _ {F W : Type 0} (release : F → W → W) where
  -- of.refs.Add(-1) == 0
  unfoldable pub unref : ℕ → Store F W → Store F W
  unref a s =
      let s' : Store F W = record s { refs = update s.refs a (s.refs a - 1) } in
      if s.refs a == 1 then record s' { world = release (s.file a) s.world } else s'

  -- closes what was at fd
  unfoldable pub install : ℕ → ℕ → Bool → FdTable → Store F W → FdTable × Store F W
  install fd a cloexec t s =
      let t' : FdTable = insert fd (record { of = a; cloexec = cloexec }) t in
      let s' : Store F W = ref a s in
      elim (lookup fd t) [ none ↦ (t', s') | some old ↦ (t', unref old.of s') ]

  unfoldable pub close : ℕ → FdTable → Store F W → ℕ × FdTable × Store F W
  close fd t s = elim (lookup fd t) [
    | none ↦ (neg32 ebadf, t, s)
    | some e ↦ (0, erase fd t, unref e.of s)
  ]

  pub unref_all : FdTable → Store F W → Store F W
  unref_all [] s = s
  unref_all ((fd, e) ∷ t) s = unref_all t (unref e.of s)

  pub close_all : FdTable → Store F W → FdTable × Store F W
  unfolding sort_fds unref_all
  close_all t s = ([], unref_all (sort_fds t) s)
