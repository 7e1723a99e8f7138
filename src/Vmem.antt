-- ===== src/Vmem.antt =====
-- internal/vmem/vmem.go. A memory is its sizes and a page table: the host page that backs each guest
-- page. mmap, mprotect and the temporary file of a segment are the operating system's: whether a call
-- succeeds is the argument `ok`, and a successful mmap with MAP_FIXED replaces the pages of its range.
pub mod Bounds
pub mod Pages
mod Tests
use pgzero.Base.{
  ℕ, ◌+◌, ◌-◌, ◌*◌, ◌/◌, ◌%◌, ◌^◌, Bool, true, false, ◌&&◌, ◌||◌, Option, none, some, if◌then◌else◌,
  ltb, leb, ◌==◌, not, add64,
}

abbrev pub page_size : ℕ
page_size = 65536

-- n &^ (PageSize - 1) clears the low 16 bits.
pub align_up : ℕ → ℕ
align_up n = (n + 65535) % 2 ^ 64 / 65536 * 65536

-- What backs a guest page: memory of its own, or a page of a segment.
pub data Backing : Type 0 where
  private : Backing
  shared : ℕ → ℕ → Backing

pub record Memory : Type 0 where
  -- len(m.buf); 0 once freed
  pub reserved : ℕ
  pub committed : ℕ
  pub size : ℕ
  pub page : ℕ → Backing

pub record Segment : Type 0 where
  pub id : ℕ
  pub size : ℕ

pub reserve : Bool → ℕ → Option Memory
reserve ok max =
    if ok
    then some (record {
      reserved = align_up (if max == 0 then page_size else max);
      committed = 0;
      size = 0;
      page = λ _. private;
    })
    else none

-- false: a nil buffer
pub reallocate : Bool → ℕ → Memory → Memory × Bool
reallocate ok size m =
    if ltb m.reserved size
    then (m, false)
    else if ltb m.committed (align_up size)
    then (if ok then (record m { committed = align_up size; size = size }, true) else (m, false))
    else (record m { size = size }, true)

-- The bounds [addr, end) of the slice.
unfoldable pub slice : Memory → ℕ → ℕ → Option (ℕ × ℕ)
slice m addr n = if ltb m.size (addr + n) then none else some (addr, addr + n)

unfoldable pub uint64_ptr : Memory → ℕ → Option ℕ
uint64_ptr m addr = if not (addr % 8 == 0) || ltb m.size (addr + 8) then none else some addr

pub free : Memory → Memory
free m = if m.reserved == 0 then m else record m { reserved = 0; committed = 0; size = 0 }

-- page p lies in [addr, addr + length)
abbrev pub within : ℕ → ℕ → ℕ → Bool
within addr length p = leb (addr / page_size) p && ltb p ((addr + length) / page_size)

pub data MapError : Type 0 where
  not_aligned too_long not_committed failed : MapError

pub map_range : Bool → ℕ → Segment → ℕ → Memory → Memory × Option MapError
map_range ok addr seg length m =
    if not (addr % page_size == 0) || not (length % page_size == 0) || length == 0
    then (m, some not_aligned)
    else if ltb seg.size length
    then (m, some too_long)
    else if ltb m.committed (add64 addr length)
    then (m, some not_committed)
    else if ok
    then (
      record m {
        page = λ p. if within addr length p then shared seg.id (p - addr / page_size) else m.page p;
      },
      none,
    )
    else (m, some failed)

pub unmap : Bool → ℕ → ℕ → Memory → Memory × Option MapError
unmap ok addr length m =
    if not (addr % page_size == 0) || not (length % page_size == 0)
    then (m, some not_aligned)
    else if ltb m.committed (add64 addr length)
    then (m, some not_committed)
    else if ok
    then (record m { page = λ p. if within addr length p then private else m.page p }, none)
    else (m, some failed)

pub new_segment : Bool → ℕ → ℕ → Option Segment
new_segment ok id size = if ok then some (record { id = id; size = align_up size }) else none
