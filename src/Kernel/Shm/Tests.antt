-- ===== src/Kernel/Shm/Tests.antt =====
-- A removed segment that one process still maps.
use pgzero.Base.{◌≡◌, empty, ℕ, Bool, true, none, some, List, [], ◌∷◌, arith, ◌==◌, if◌then◌else◌}
use pgzero.Kernel.Shm.{Proc, ShmTable, Attachment, new_object, detach_all}
use pgzero.Kernel.Shm.Lifetime.{detach_all-Holds, Holds}
use pgzero.Vmem.{private, Memory}

abbrev small_memory : Memory
small_memory = record { reserved = 131072; committed = 131072; size = 131072; page = λ _. private }

abbrev mapped_once : List Attachment
mapped_once = record { addr = 65536; len = 65536; id = 1 } ∷ []

abbrev nobody : ℕ → ℕ
nobody a = 0

-- `gone` says whether the segment has been removed
abbrev one_segment : Bool → ShmTable
one_segment gone = record {
  object = λ id.
      if id == 1
      then record { name = none; seg = some 65536; attached = 1; fds = 0; removed = gone }
      else new_object none none;
  listed = λ id. id == 1;
  names = empty;
  next = 2;
}

abbrev holder : Proc
holder = record { mem = small_memory; attachments = mapped_once }

one_segment-Holds : (gone : Bool) → Holds nobody mapped_once (one_segment gone)
one_segment-Holds gone = record {
  alive = record {
    listed_iff = λ id a b. ground arith;
    backed = λ id h. ground arith;
    beyond = λ id h. ground arith;
    from_one = ground arith;
    none_zero = ground arith;
    in_range = λ id e. ground arith;
  };
  counted = λ id. ground arith;
}

detach_all-Holds_example :
    let (p', t') = detach_all holder (one_segment true) in
    (p'.attachments ≡ []) × Holds nobody [] t'
detach_all-Holds_example =
    detach_all-Holds nobody holder (one_segment true) (one_segment-Holds true)
