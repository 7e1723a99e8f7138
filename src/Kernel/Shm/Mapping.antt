-- ===== src/Kernel/Shm/Mapping.antt =====
-- Mapping a segment keeps the counts.
use pgzero.Base.{
  ℕ, ◌+◌, ◌≤◌, ◌<◌, ◌≡◌, ◌⊎◌, inl, inr, Bool, true, false, ◌&&◌, some, List, [], ◌∷◌, ◌++◌, arith,
  leb, is_some, Bool-cases, Option-cases, length,
}
use pgzero.Vmem.{map_range}
use pgzero.Kernel.Shm.Lifetime.{Holds, count, set_object, set-IsAlive, drop-Holds}
use pgzero.Kernel.Shm.{
  Object, Attachment, ShmTable, Proc, maybe_free, usable, attach, map_locked, detach,
  drop_attachments,
}

-- The object can be mapped: it is in the table and sized, and has not been removed or is held open.
abbrev pub Usable : ℕ → ShmTable → Type 0
Usable id t =
    (t.listed id ≡ true)
    × (is_some (t.object id).seg ≡ true)
    × (((t.object id).removed ≡ false) ⊎ (0 < (t.object id).fds))

detach-Usable : (id j : ℕ) (t : ShmTable) → Usable id t → Usable id (detach j t)
unfolding maybe_free
detach-Usable id j t u = ground arith

drop-Usable :
    (id addr length : ℕ) (attachments : List Attachment) (t : ShmTable)
    → Usable id t
    → Usable id (drop_attachments addr length attachments t).1
unfolding drop_attachments
drop-Usable id addr length [] t u = u
drop-Usable id addr length (a ∷ rest) t u =
    elim (Bool-cases (leb addr a.addr && leb (a.addr + a.len) (addr + length))) [
      | inl gone ↦
          rw gone (drop-Usable id addr length rest (detach a.id t) (detach-Usable id a.id t u))
      | inr stays ↦ rw stays (drop-Usable id addr length rest t u)
    ]

abbrev more_attached : Object → Object
more_attached o = record o { attached = o.attached + 1 }

count-append : (id : ℕ) (xs ys : List Attachment) → count id (xs ++ ys) ≡ count id xs + count id ys
count-append id [] ys = omega arith
count-append id (x ∷ xs) ys = omega (arith, count-append id xs ys)

attached-Holds :
    (others : ℕ → ℕ) (a : Attachment) (kept : List Attachment) (t : ShmTable)
    → Holds others kept t
    → Usable a.id t
    → Holds others (kept ++ (a ∷ [])) (set_object a.id (more_attached (t.object a.id)) t)
attached-Holds others a kept t h u =
    let r : (1 ≤ a.id) × (a.id < t.next) = h.alive.in_range a.id u.0 in
    record {
      alive =
          set-IsAlive a.id (more_attached (t.object a.id)) t h.alive r.0 r.1 u.0 (ground arith)
            (λ p. u.1);
      counted = λ j. ground (arith, h.counted j, count-append j kept (a ∷ []));
    }

-- Whatever mapping is tried, the segments stay counted: a failed one changes nothing, and a successful one
-- adds an attachment once those that the new range covers have been dropped.
pub map_locked-Holds :
    (others : ℕ → ℕ) (ok : Bool) (id seg_size addr length : ℕ) (p : Proc) (t : ShmTable)
    → Holds others p.attachments t
    → Usable id t
    → let (r, p', t') = map_locked ok id seg_size addr length p t in Holds others p'.attachments t'
unfolding map_locked
map_locked-Holds others ok id seg_size addr length p t h u =
    elim (Bool-cases
      (is_some (map_range ok addr (record { id = id; size = seg_size }) length p.mem).1)) [
        | inl e ↦ rw e h
        | inr e ↦ rw e (
            attached-Holds others (record { addr = addr; len = length; id = id })
              (drop_attachments addr length p.attachments t).0
              (drop_attachments addr length p.attachments t).1
              (drop-Holds others addr length p.attachments t h)
              (drop-Usable id addr length p.attachments t u))
      ]

usable-Usable : (id n : ℕ) (t : ShmTable) → usable id t ≡ some n → Usable id t
usable-Usable id n t e = ground arith

-- Whatever shmTable.attach is asked, at any address and for any id at all, each segment stays attached
-- as often as the processes have attachments for it, and it is kept or freed as that says.
attach-Holds :
    (others : ℕ → ℕ) (ok : Bool) (id addr : ℕ) (p : Proc) (t : ShmTable)
    → Holds others p.attachments t
    → let (r, p', t') = attach ok id addr p t in Holds others p'.attachments t'
unfolding attach
attach-Holds others ok id addr p t h = elim (Option-cases (usable id t)) [
  | inl e ↦ rw (e, attach) h
  | inr (n, e) ↦
      rw (e, attach) (map_locked-Holds others ok id n addr n p t h (usable-Usable id n t e))
]
