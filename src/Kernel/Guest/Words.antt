-- ===== src/Kernel/Guest/Words.antt =====
-- Words in the guest's memory.
use pgzero.Base.{
  ℕ, ◌+◌, ◌*◌, ◌/◌, ◌%◌, ◌^◌, ◌≤◌, ◌<◌, ◌≡◌, ◌⊎◌, inl, inr, none, some, arith, if◌then◌else◌,
  Bool-cases,
}
use pgzero.Kernel.Guest.{Guest, in_memory, read_u32, write_u32}

word_of :
    (v : ℕ)
    → v < 2 ^ 32
    → v % 256 + 256 * (v / 256 % 256) + 65536 * (v / 65536 % 256) + 16777216 * (v / 16777216 % 256)
      ≡ v
word_of v h = omega arith

-- A word that was written reads back, and no byte outside it has changed; outside the memory nothing is
-- written.
read_u32-write_u32 :
    (addr v : ℕ) (g : Guest)
    → v < 2 ^ 32
    → let (ok, h) = write_u32 addr v g in
      (ok ≡ in_memory addr 4 g)
      × (read_u32 addr h ≡ (if in_memory addr 4 g then some v else none))
      × ((a : ℕ) → (a < addr) ⊎ (addr + 4 ≤ a) → h.byte a ≡ g.byte a)
unfolding read_u32 write_u32
read_u32-write_u32 addr v g b = elim (Bool-cases (in_memory addr 4 g)) [
  | inr e ↦ (ground arith, ground arith, λ a o. ground arith)
  | inl e ↦ (ground arith, ground (arith, word_of v b), λ a o. ground arith)
]
