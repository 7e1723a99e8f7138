-- ===== src/Kernel/Guest/Cstrings.antt =====
-- What cstring reads, and that strings comes to an end.
use pgzero.Base.{
  add32, ℕ, zero, suc, ◌+◌, ◌*◌, ◌%◌, ◌^◌, ◌≤◌, ◌<◌, ◌≡◌, refl, ap, ◌∙◌, ◌≢◌, inl, inr, Option,
  none, some, List, arith, dec_lt, ℕ_discrete, Option-cases,
}
use pgzero.Vmem.{slice}
use pgzero.Kernel.Guest.{
  Guest, read_u32, bytes_at, max_len, cstring_from, cstring, Strings, strings_are, bad_address,
  goes_on, and_first, strings_from, strings,
}

-- From a place whose bytes up to k are in the memory and not 0, and byte k is 0, the loop gives the bytes
-- before k.
finds :
    (rounds n k addr : ℕ) (g : Guest)
    → n ≤ k
    → k < n + rounds
    → addr + k < g.mem.size
    → g.mem.size ≤ 2 ^ 32
    → ((i : ℕ) → n ≤ i → i < k → g.byte (addr + i) ≢ 0)
    → g.byte (addr + k) ≡ 0
    → cstring_from rounds n addr g ≡ some (bytes_at addr k g.byte)
unfolding cstring_from slice
finds zero n k addr g a b c d e f = absurd (omega arith)
finds (suc rounds) n k addr g a b c d e f =
    let z : add32 addr n ≡ addr + n = omega arith in
    elim (ℕ_discrete n k) [
      | yes q ↦
          let w : g.byte (addr + n) ≡ 0 = ap (λ m. g.byte (addr + m)) q ∙ f in
          rw (z, w) (ground (arith, ap (λ m. bytes_at addr m g.byte) q))
      | no q ↦
          let w : g.byte (addr + n) ≢ 0 = e n (omega arith) (omega arith) in
          let later : cstring_from rounds (n + 1) addr g ≡ some (bytes_at addr k g.byte) =
            finds rounds (n + 1) k addr g (omega arith) (omega arith) c d
              (λ i l u. e i (omega arith) u) f in
          rw (z) (ground arith)
    ]

-- A C string of fewer than 64 KiB that lies in the memory with its NUL is read whole: cstring gives the
-- bytes up to the first NUL, and not that one.
cstring_whole :
    (addr k : ℕ) (g : Guest)
    → k < max_len
    → addr + k < g.mem.size
    → g.mem.size ≤ 2 ^ 32
    → ((i : ℕ) → i < k → g.byte (addr + i) ≢ 0)
    → g.byte (addr + k) ≡ 0
    → cstring addr g ≡ some (bytes_at addr k g.byte)
unfolding cstring
cstring_whole addr k g l c d e f =
    finds max_len 0 k addr g (omega arith) (omega arith) c d (λ i _ u. e i u) f

-- Pointers that are read lie in the memory.
past_end :
    (addr i : ℕ) (g : Guest)
    → addr + 4 * i < 2 ^ 32
    → g.mem.size < addr + 4 * i + 4
    → read_u32 (add32 addr (4 * i % 2 ^ 32)) g ≡ none
unfolding read_u32 slice
past_end addr i g a b =
    let z : add32 addr (4 * i % 2 ^ 32) ≡ addr + 4 * i = omega arith in rw (z) (ground arith)

-- The loop has used up its fuel.
and_first_goes : (s : Option (List ℕ)) (r : Strings) → and_first s r ≡ goes_on → r ≡ goes_on
unfolding and_first
and_first_goes none r h = cc
and_first_goes (some s) (strings_are ss) h = cc
and_first_goes (some s) bad_address h = cc
and_first_goes (some s) goes_on h = refl

loop_ends :
    (fuel i addr : ℕ) (g : Guest)
    → addr < 2 ^ 32
    → g.mem.size + 4 ≤ 2 ^ 32
    → addr + 4 * i < 2 ^ 32
    → g.mem.size < addr + 4 * (i + fuel)
    → 1 ≤ fuel
    → strings_from fuel i addr g ≢ goes_on
unfolding strings_from
loop_ends zero i addr g a b c d e = absurd (omega arith)
loop_ends (suc fuel) i addr g a b c d e =
    elim (Option-cases (read_u32 (add32 addr (4 * i % 2 ^ 32)) g)) [
      | inl r ↦ rw (r, strings_from) (λ h. cc)
      | inr (ptr, r) ↦
          let inside : addr + 4 * i + 4 ≤ g.mem.size = elim (dec_lt g.mem.size (addr + 4 * i + 4)) [
            | yes u ↦ absurd (ground (arith, past_end addr i g c u))
            | no u ↦ omega arith
          ] in
          let later : strings_from fuel (i + 1) addr g ≢ goes_on =
            loop_ends fuel (i + 1) addr g a b (omega arith) (omega arith) (omega arith) in
          rw (r, strings_from)
            (λ h. ground (arith, and_first_goes (cstring ptr g) (strings_from fuel (i + 1) addr g)))
    ]

-- The loop of strings ends: in a memory that does not fill the whole address space there are at most 2^30
-- pointers before one that is null or outside, whatever the memory holds.
strings_ends :
    (addr fuel : ℕ) (g : Guest)
    → addr < 2 ^ 32
    → g.mem.size + 4 ≤ 2 ^ 32
    → 2 ^ 30 ≤ fuel
    → strings fuel addr g ≢ goes_on
unfolding strings
strings_ends addr fuel g a b f =
    loop_ends fuel 0 addr g a b (omega arith) (omega arith) (omega arith)
