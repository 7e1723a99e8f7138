-- ===== src/Vmem/Bounds.antt =====
-- The sizes of a memory: what is visible is accessible, and what is accessible is reserved.
use pgzero.Base.{ℕ, ◌+◌, ◌%◌, ◌^◌, ◌≤◌, ◌<◌, ◌≡◌, Bool, true, some, arith, List, [], ◌∷◌}
use pgzero.Vmem.{
  Memory, Segment, align_up, page_size, reserve, reallocate, slice, free, map_range, unmap,
}

-- Unless it wraps, `alignUp` gives the least multiple of the page size that is not below its argument.
pub align_up_least :
    (n : ℕ)
    → n + 65536 ≤ 2 ^ 64
    → (n ≤ align_up n) × (align_up n < n + page_size) × (align_up n % page_size ≡ 0)
unfolding align_up
align_up_least n h = omega arith

pub record IsValid (m : Memory) : Type 0 where
  pub visible : m.size ≤ m.committed
  pub accessible : m.committed ≤ m.reserved
  pub aligned : m.committed % page_size ≡ 0
  pub reserved_aligned : m.reserved % page_size ≡ 0
  pub reserved_fits : m.reserved ≤ 2 ^ 63

-- The calls on one memory, each with the outcome of its system call.
pub data Call : Type 0 where
  reallocates : Bool → ℕ → Call
  maps : Bool → ℕ → Segment → ℕ → Call
  unmaps : Bool → ℕ → ℕ → Call
  frees : Call

unfoldable pub step : Memory → Call → Memory
step m (reallocates ok size) = (reallocate ok size m).0
step m (maps ok addr seg length) = (map_range ok addr seg length m).0
step m (unmaps ok addr length) = (unmap ok addr length m).0
step m frees = free m

unfoldable pub run : Memory → List Call → Memory
run m [] = m
run m (c ∷ cs) = run (step m c) cs

reserve-IsValid : (max : ℕ) {m : Memory} → max ≤ 2 ^ 62 → reserve true max ≡ some m → IsValid m
unfolding reserve align_up
reserve-IsValid max h e = ground arith

step-IsValid : (m : Memory) (c : Call) → IsValid m → IsValid (step m c)
unfolding step reallocate map_range unmap free align_up
step-IsValid m (reallocates ok size) v = ground arith
step-IsValid m (maps ok addr seg length) v = ground arith
step-IsValid m (unmaps ok addr length) v = ground arith
step-IsValid m frees v = ground arith

run-IsValid : (m : Memory) (cs : List Call) → IsValid m → IsValid (run m cs)
unfolding run
run-IsValid m [] v = v
run-IsValid m (c ∷ cs) v = run-IsValid (step m c) cs (step-IsValid m c v)

-- Whatever calls a memory has seen since it was reserved, and whatever the system calls answered, a
-- slice that the host is given lies within the pages that are accessible, and those in the reservation.
pub slice_in_bounds :
    (max : ℕ) (cs : List Call) (addr n : ℕ) {m : Memory} {from to : ℕ}
    → max ≤ 2 ^ 62
    → reserve true max ≡ some m
    → slice (run m cs) addr n ≡ some (from, to)
    → (from ≡ addr) × (to ≡ addr + n) × (to ≤ (run m cs).committed) × (to ≤ (run m cs).reserved)
unfolding slice
slice_in_bounds max cs addr n {m} h e s =
    let v : IsValid (run m cs) = run-IsValid m cs (reserve-IsValid max h e) in ground arith
