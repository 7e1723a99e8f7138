-- ===== src/Kernel/Pids/Tests.antt =====
-- The first pids of a host process, and one that has none left.
use pgzero.Base.{ℕ, zero, suc, ◌+◌, ◌%◌, ◌≡◌, refl, ◌≢◌, true, none, some, arith}
use pgzero.Kernel.Pids.{host_pid_of, alloc_pid, Pids, no_pids, alloc_loop, make, pid_base}
use pgzero.Kernel.Pids.Allocation.{no_pids-IsValid, alloc_pid-fresh, IsValid}

abbrev all_taken : Pids
all_taken = record { next = 1; made = true; owners = λ _. some 7 }

all_taken-IsValid : IsValid all_taken
all_taken-IsValid = record { ready = λ e. ground arith; unmade = λ e p. ground arith }

loop_taken :
    (rounds next : ℕ)
    → (alloc_loop rounds
        (pid_base 3)
        0
        (record { next = next; made = true; owners = λ _. some 7 })).0
      ≡ 0
unfolding alloc_loop
loop_taken zero next = refl
loop_taken (suc rounds) next = loop_taken rounds (next % 2047 + 1)

first_test : (alloc_pid 3 0 no_pids).0 ≡ 6145
unfolding alloc_pid make alloc_loop no_pids pid_base
first_test = refl

alloc_pid-fresh_example :
    let (r, t) = alloc_pid 3 9 no_pids in
    (no_pids.owners r ≡ none)
    × (t.owners r ≡ some 9)
    × (host_pid_of r ≡ 3)
    × ((p : ℕ) → p ≢ r → t.owners p ≡ no_pids.owners p)
unfolding alloc_pid make alloc_loop no_pids pid_base
alloc_pid-fresh_example = alloc_pid-fresh 3 9 no_pids no_pids-IsValid (λ e. absurd (omega arith))
