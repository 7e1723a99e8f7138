-- ===== src/Vmem/Pages.antt =====
-- Which bytes of which segment the guest sees where.
use pgzero.Base.{
  ℕ, ◌+◌, ◌-◌, ◌/◌, ◌%◌, ◌^◌, ◌≤◌, ◌<◌, ◌≡◌, Bool, true, none, arith, ◌⊎◌, ◌↔◌, if◌then◌else◌, ltb,
  leb, ◌&&◌,
}
use pgzero.Vmem.{Memory, Segment, Backing, private, shared, page_size, map_range, unmap}

-- Where the byte at a guest address lies: its page's backing and the offset in the page.
abbrev pub place : Memory → ℕ → Backing × ℕ
place m a = (m.page (a / page_size), a % page_size)

-- `MapRange` succeeds exactly for a non-empty page-aligned range of committed memory that is no longer
-- than the segment, where mmap does; the sums do not wrap at 64 bits.
pub map_range_iff :
    (ok : Bool) (addr : ℕ) (seg : Segment) (length : ℕ) (m : Memory)
    → addr < 2 ^ 32
    → length < 2 ^ 63
    → ((map_range ok addr seg length m).1 ≡ none) ↔ (
        (addr % page_size ≡ 0)
        × (length % page_size ≡ 0)
        × (0 < length)
        × (length ≤ seg.size)
        × (addr + length ≤ m.committed)
        × (ok ≡ true))
unfolding map_range
map_range_iff ok addr seg length m a l = (λ h. ground arith, λ h. ground arith)

-- After a successful `MapRange` the byte at each offset of the range is the segment's byte at that
-- offset, and every address outside the range is backed as before.
place-map_range :
    (ok : Bool) (addr : ℕ) (seg : Segment) (length : ℕ) (m : Memory) (a : ℕ)
    → addr < 2 ^ 32
    → (map_range ok addr seg length m).1 ≡ none
    → place (map_range ok addr seg length m).0 a ≡ (
        if leb addr a && ltb a (addr + length)
        then (shared seg.id ((a - addr) / page_size), (a - addr) % page_size)
        else place m a)
unfolding map_range
place-map_range ok addr seg length m a b h = ground arith

-- A successful `Unmap` gives the range private pages, and leaves the backing of every other address.
pub unmap-place :
    (ok : Bool) (addr length : ℕ) (m : Memory) (a : ℕ)
    → (unmap ok addr length m).1 ≡ none
    → (place (unmap ok addr length m).0 a).0
      ≡ (if leb addr a && ltb a (addr + length) then private else (place m a).0)
unfolding unmap
unmap-place ok addr length m a h = ground arith

-- A refused call changes nothing.
pub map_refused :
    (ok : Bool) (addr : ℕ) (seg : Segment) (length : ℕ) (m : Memory)
    → ((map_range ok addr seg length m).1 ≡ none) ⊎ ((map_range ok addr seg length m).0 ≡ m)
unfolding map_range
map_refused ok addr seg length m = ground arith

-- Two processes that map a segment at the same address see the same byte there.
pub mapped_alike :
    (ok ok' : Bool) (addr : ℕ) (seg : Segment) (length : ℕ) (m m' : Memory) (a : ℕ)
    → addr < 2 ^ 32
    → addr ≤ a
    → a < addr + length
    → (map_range ok addr seg length m).1 ≡ none
    → (map_range ok' addr seg length m').1 ≡ none
    → place (map_range ok addr seg length m).0 a ≡ place (map_range ok' addr seg length m').0 a
mapped_alike ok ok' addr seg length m m' a b l u h h' = ground (
  arith,
  place-map_range ok addr seg length m a b h,
  place-map_range ok' addr seg length m' a b h',
)
