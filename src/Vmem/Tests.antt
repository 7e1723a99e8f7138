-- ===== src/Vmem/Tests.antt =====
-- A memory of two pages with one page of a segment.
use pgzero.Base.{ℕ, ◌+◌, ◌≤◌, ◌≡◌, refl, true, List, [], ◌∷◌, arith}
use pgzero.Vmem.{reallocate, Memory, Segment, map_range, reserve, slice, private, align_up}
use pgzero.Vmem.Bounds.{slice_in_bounds, run, step, Call, reallocates, maps}

abbrev two_pages : Memory
two_pages = record { reserved = 131072; committed = 131072; size = 131072; page = λ _. private }

abbrev one_page : Segment
one_page = record { id = 1; size = 65536 }

abbrev reserved_memory : Memory
reserved_memory = record { reserved = 131072; committed = 0; size = 0; page = λ _. private }

abbrev calls : List Call
calls = reallocates true 100000 ∷ maps true 65536 one_page 65536 ∷ []

abbrev asked : ℕ
asked = 70000

slice_in_bounds_example :
    (asked ≡ asked)
    × (asked + 100 ≡ asked + 100)
    × (asked + 100 ≤ (run reserved_memory calls).committed)
    × (asked + 100 ≤ (run reserved_memory calls).reserved)
unfolding reserve align_up slice run step reallocate map_range
slice_in_bounds_example =
    slice_in_bounds 100000 calls asked 100 {m = reserved_memory} {from = asked} {to = asked + 100}
      (omega arith) refl refl
