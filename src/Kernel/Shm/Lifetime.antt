-- ===== src/Kernel/Shm/Lifetime.antt =====
-- How long a segment lives: until it has been removed and nothing maps it or holds a descriptor for it.
use pgzero.Base.{
  ℕ, ◌+◌, ◌-◌, ◌≤◌, ◌<◌, ◌≡◌, refl, ◌↔◌, inl, inr, Bool, true, false, ◌&&◌, ◌||◌, not, List, [],
  ◌∷◌, arith, ℕ_discrete, leb, ◌==◌, if◌then◌else◌, is_some, Bool-cases, length, update,
}
use pgzero.Kernel.Shm.{
  Object, Attachment, ShmTable, Proc, maybe_free, detach, drop_attachments, remove, detach_all,
  detach_each,
}

abbrev pub is_free : Object → Bool
is_free o = o.removed && o.attached == 0 && o.fds == 0

-- An object in use is in the table exactly until it is free; whatever is attached has memory.
pub record IsAlive (t : ShmTable) : Type 0 where
  pub listed_iff : (id : ℕ) → 1 ≤ id → id < t.next → t.listed id ≡ not (is_free (t.object id))
  pub backed : (id : ℕ) → 0 < (t.object id).attached → is_some (t.object id).seg ≡ true
  pub beyond : (id : ℕ) → t.next ≤ id → (t.object id).attached ≡ 0
  pub from_one : 1 ≤ t.next
  pub none_zero : (t.object 0).attached ≡ 0
  pub in_range : (id : ℕ) → t.listed id ≡ true → (1 ≤ id) × (id < t.next)

abbrev pub set_object : ℕ → Object → ShmTable → ShmTable
set_object id o t = record t { object = update t.object id o }

maybe_free-IsAlive :
    (id : ℕ) (o : Object) (t : ShmTable)
    → IsAlive t
    → 1 ≤ id
    → id < t.next
    → t.listed id ≡ true
    → (0 < o.attached → is_some o.seg ≡ true)
    → IsAlive (maybe_free id (set_object id o t))
unfolding maybe_free
maybe_free-IsAlive id o t v l u h b = record {
  listed_iff = λ j p q. ground (arith, v.listed_iff j);
  backed = λ j p. ground (arith, v.backed j);
  beyond = λ j p. ground (arith, v.beyond j);
  from_one = ground (arith, v.from_one);
  none_zero = ground (arith, v.none_zero);
  in_range = λ j e. ground (arith, v.in_range j);
}

pub set-IsAlive :
    (id : ℕ) (o : Object) (t : ShmTable)
    → IsAlive t
    → 1 ≤ id
    → id < t.next
    → t.listed id ≡ true
    → is_free o ≡ false
    → (0 < o.attached → is_some o.seg ≡ true)
    → IsAlive (set_object id o t)
set-IsAlive id o t v l u h f b = record {
  listed_iff = λ j p q. ground (arith, v.listed_iff j p q);
  backed = λ j p. ground (arith, v.backed j);
  beyond = λ j p. ground (arith, v.beyond j p);
  from_one = v.from_one;
  none_zero = ground (arith, v.none_zero);
  in_range = λ j e. ground (arith, v.in_range j);
}

abbrev pub count : ℕ → List Attachment → ℕ
count id [] = 0
count id (a ∷ as') = (if a.id == id then 1 else 0) + count id as'

-- A process within the system: `others id` attachments of the object are other processes'.
pub record Holds (others : ℕ → ℕ) (attachments : List Attachment) (t : ShmTable) : Type 0 where
  pub alive : IsAlive t
  pub counted : (id : ℕ) → (t.object id).attached ≡ others id + count id attachments

maybe_free-attached :
    (id : ℕ) (t : ShmTable) (j : ℕ) → ((maybe_free id t).object j).attached ≡ (t.object j).attached
unfolding maybe_free
maybe_free-attached id t j = ground arith

-- An attached object can be used: it is in the table, within the ids given out.
attached_listed :
    (id : ℕ) (t : ShmTable)
    → IsAlive t
    → 0 < (t.object id).attached
    → (1 ≤ id) × (id < t.next) × (t.listed id ≡ true)
attached_listed id t v h =
    let above : 1 ≤ id = ground (arith, v.none_zero, ℕ_discrete id 0) in
    let below : id < t.next = ground (arith, v.beyond id) in
    (above, below, ground (arith, v.listed_iff id above below))

abbrev less_attached : Object → Object
less_attached o = record o { attached = o.attached - 1 }

apart :
    (others : ℕ → ℕ) (a : Attachment) (rest : List Attachment) (t : ShmTable)
    → Holds others (a ∷ rest) t
    → Holds (λ j. others j + count j (a ∷ [])) rest t
apart others a rest t h = record { alive = h.alive; counted = λ j. omega (arith, h.counted j) }

onto :
    (others : ℕ → ℕ) (a : Attachment) {rest : List Attachment} {t : ShmTable}
    → Holds (λ j. others j + count j (a ∷ [])) rest t
    → Holds others (a ∷ rest) t
onto others a h = record { alive = h.alive; counted = λ j. omega (arith, h.counted j) }

detach-Holds :
    (others : ℕ → ℕ) (a : Attachment) (rest : List Attachment) (t : ShmTable)
    → Holds others (a ∷ rest) t
    → Holds others rest (detach a.id t)
detach-Holds others a rest t h =
    let o : Object = less_attached (t.object a.id) in
    let held : 0 < (t.object a.id).attached = ground (arith, h.counted a.id) in
    let l : (1 ≤ a.id) × (a.id < t.next) × (t.listed a.id ≡ true) =
      attached_listed a.id t h.alive held in
    record {
      alive = maybe_free-IsAlive a.id o t h.alive l.0 l.1 l.2 (λ p. h.alive.backed a.id held);
      counted = λ j.
          ground
            (arith, maybe_free-attached a.id (set_object a.id o t) j, h.counted j, h.counted a.id);
    }

pub drop-Holds :
    (others : ℕ → ℕ) (addr length : ℕ) (attachments : List Attachment) (t : ShmTable)
    → Holds others attachments t
    → let (kept, t') = drop_attachments addr length attachments t in Holds others kept t'
unfolding drop_attachments
drop-Holds others addr length [] t h = h
drop-Holds others addr length (a ∷ rest) t h =
    elim (Bool-cases (leb addr a.addr && leb (a.addr + a.len) (addr + length))) [
      | inl gone ↦
          rw gone
            (drop-Holds others addr length rest (detach a.id t) (detach-Holds others a rest t h))
      | inr stays ↦ rw stays (
          onto others a (
            drop-Holds (λ j. others j + count j (a ∷ [])) addr length rest t
              (apart others a rest t h)))
    ]

-- An object that is in the table, with a new state that has the same attachments and memory.
freed-Holds :
    (others : ℕ → ℕ) (id : ℕ) (o : Object) (attachments : List Attachment) (t : ShmTable)
    → Holds others attachments t
    → t.listed id ≡ true
    → o.attached ≡ (t.object id).attached
    → o.seg ≡ (t.object id).seg
    → Holds others attachments (maybe_free id (set_object id o t))
freed-Holds others id o attachments t h l a g =
    let r : (1 ≤ id) × (id < t.next) = h.alive.in_range id l in
    record {
      alive = maybe_free-IsAlive id o t h.alive r.0 r.1 l (λ p. ground (arith, h.alive.backed id));
      counted = λ j. ground (arith, maybe_free-attached id (set_object id o t) j, h.counted j);
    }

detach_each-Holds :
    (others : ℕ → ℕ) (attachments : List Attachment) (t : ShmTable)
    → Holds others attachments t
    → Holds others [] (detach_each attachments t)
unfolding detach_each
detach_each-Holds others [] t h = h
detach_each-Holds others (a ∷ rest) t h =
    detach_each-Holds others rest (detach a.id t) (detach-Holds others a rest t h)

-- When a process ends it has no attachment left, and each segment is counted for the others alone: those
-- that were removed and that nobody else uses are freed.
pub detach_all-Holds :
    (others : ℕ → ℕ) (p : Proc) (t : ShmTable)
    → Holds others p.attachments t
    → let (p', t') = detach_all p t in (p'.attachments ≡ []) × Holds others [] t'
unfolding detach_all
detach_all-Holds others p t h = (refl, detach_each-Holds others p.attachments t h)

-- Removing a segment, whether it exists or not, keeps every count, and frees the segment only if nobody
-- maps it or holds it open.
pub remove-Holds :
    (others : ℕ → ℕ) (id : ℕ) (attachments : List Attachment) (t : ShmTable)
    → Holds others attachments t
    → Holds others attachments (remove id t).1
unfolding remove
remove-Holds others id attachments t h =
    elim (Bool-cases (not (t.listed id) || (t.object id).removed)) [
      | inl e ↦ rw e h
      | inr e ↦ rw e (
          freed-Holds others id (record (t.object id) { removed = true }) attachments t h
            (ground arith) refl refl)
    ]

-- Nobody's mapping is freed under it, and nothing outlives its last use: while the counts hold, a segment
-- that some process has mapped is in the table with its memory; one that was removed, and that no process
-- maps or holds open, is not in the table.
freed_iff_unused :
    (others : ℕ → ℕ) (attachments : List Attachment) (t : ShmTable) (id : ℕ)
    → Holds others attachments t
    → 1 ≤ id
    → id < t.next
    → (0 < others id + count id attachments
        → (t.listed id ≡ true) × (is_some (t.object id).seg ≡ true))
      × ((t.listed id ≡ false) ↔ (
          ((t.object id).removed ≡ true)
          × (others id + count id attachments ≡ 0)
          × ((t.object id).fds ≡ 0)))
freed_iff_unused others attachments t id h a b =
    let c : (t.object id).attached ≡ others id + count id attachments = h.counted id in
    let l : t.listed id ≡ not (is_free (t.object id)) = h.alive.listed_iff id a b in
    (λ q. (ground arith, h.alive.backed id (omega arith)), (λ e. ground arith, λ e. ground arith))
