-- ===== src/Kernel/Shm/Names.antt =====
-- The objects that open finds by their names.
use pgzero.Base.{ℕ, ◌≡◌, inl, inr, Bool, false, some, arith, Option-cases}
use pgzero.Kernel.Shm.{ShmTable, open_object, new_segment_object}

pub open_object-names :
    (name : ℕ) (creat excl : Bool) (t : ShmTable) (id : ℕ)
    → (open_object name creat excl t).0 ≡ inl id
    → (open_object name creat excl t).1.names name ≡ some id
unfolding open_object new_segment_object
open_object-names name creat excl t id = elim (Option-cases (t.names name)) [
  | inr (i, e) ↦ rw (e, open_object) (λ h. ground (arith, h, e))
  | inl e ↦ rw (e, open_object) (λ h. ground (arith, h))
]

pub open_object_again :
    (name : ℕ) (creat : Bool) (t : ShmTable) (id : ℕ)
    → t.names name ≡ some id
    → (open_object name creat false t).0 ≡ inl id
unfolding open_object
open_object_again name creat t id e = rw (e, open_object) (ground arith)
