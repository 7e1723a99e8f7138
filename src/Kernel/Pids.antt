-- ===== src/Kernel/Pids.antt =====
-- internal/kernel/kernel.go, the process ids: `pids`, pidBase, hostPidOf, allocPid, releasePid, pidOwner.
-- The table is one for all kernels of a Go process; a kernel is named by a number.
pub mod Allocation
mod Tests
use pgzero.Base.{
  ℕ, zero, suc, ◌+◌, ◌-◌, ◌*◌, ◌/◌, ◌%◌, ◌^◌, Bool, true, false, Option, none, some, if◌then◌else◌,
  is_some, Table, empty, put, del,
}

abbrev pub pid_bits : ℕ
pid_bits = 11

-- 1 << pidBits
abbrev pub pids_per_host : ℕ
pids_per_host = 2048

-- 1 << 20
abbrev pub host_pid_range : ℕ
host_pid_range = 1048576

pub record Pids : Type 0 where
  pub next : ℕ
  -- owners != nil
  pub made : Bool
  pub owners : Table ℕ

pub no_pids : Pids
no_pids = record { next = 0; made = false; owners = empty }

-- The host's pid is the argument that os.Getpid() returns.
unfoldable pub pid_base : ℕ → ℕ
pid_base host_pid = host_pid % host_pid_range * 2 ^ pid_bits

unfoldable pub host_pid_of : ℕ → ℕ
host_pid_of pid = pid / 2 ^ pid_bits

-- `for range pidsPerHost`, over the rounds left; 0 if none finds a free number
unfoldable pub alloc_loop : ℕ → ℕ → ℕ → Pids → ℕ × Pids
alloc_loop zero base k s = (0, s)
alloc_loop (suc rounds) base k s =
    let s' : Pids = record s { next = s.next % (pids_per_host - 1) + 1 } in
    let rest = alloc_loop rounds base k s' in
    if is_some (s.owners (base + s.next))
    then rest
    else (base + s.next, record s' { owners = put s.owners (base + s.next) k })

unfoldable pub make : Pids → Pids
make s = if s.made then s else record { next = 1; made = true; owners = empty }

unfoldable pub alloc_pid : ℕ → ℕ → Pids → ℕ × Pids
alloc_pid host_pid k s = alloc_loop pids_per_host (pid_base host_pid) k (make s)

unfoldable pub release_pid : ℕ → Pids → Pids
release_pid pid s = record s { owners = del s.owners pid }

unfoldable pub pid_owner : ℕ → Pids → Option ℕ
pid_owner pid s = s.owners pid
