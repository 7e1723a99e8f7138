-- ===== src/Kernel/Shm.antt =====
-- internal/kernel/shm.go. A segment object is named by its id, since each new one takes the next id. A
-- name is only compared, so it is any number. Whether the operating system gives a segment, or maps it, is
-- the argument `ok`, as in Vmem.
pub mod Lifetime
pub mod Mapping
pub mod Names
mod Tests
use pgzero.Base.{
  ℕ, zero, suc, ◌+◌, ◌-◌, ◌*◌, ◌/◌, ◌%◌, ◌^◌, ◌≤◌, ◌<◌, min, max, ◌≡◌, refl, sym, ap, ap₂, subst,
  ◌∙◌, fun_ext, ◌≢◌, ◌↔◌, ◌⊎◌, inl, inr, Bool, true, false, ◌&&◌, ◌||◌, not, Option, none, some,
  List, [], ◌∷◌, ◌++◌, map, arith, dec_lt, dec_le, ℕ_discrete, ltb, leb, ◌==◌, if◌then◌else◌,
  is_empty, is_some, Bool-cases, Option-cases, length, take, drop, neg32, Table, empty, put, del,
  update,
}
use pgzero.Abi.{einval, enomem, enoent, eexist}
use pgzero.Vmem.{Memory, Segment, map_range, new_segment}
use pgzero.Vmem

pub record Object : Type 0 where
  -- `none` for an anonymous segment
  pub name : Option ℕ
  -- the size of the vmem.Segment, `none` until a named object is sized
  pub seg : Option ℕ
  pub attached : ℕ
  pub fds : ℕ
  pub removed : Bool

pub record Attachment : Type 0 where
  pub addr : ℕ
  pub len : ℕ
  pub id : ℕ

pub record ShmTable : Type 0 where
  pub object : ℕ → Object
  -- the map segs has the id
  pub listed : ℕ → Bool
  pub names : Table ℕ
  pub next : ℕ

-- What the table's operations use of a process.
pub record Proc : Type 0 where
  pub mem : Memory
  pub attachments : List Attachment

abbrev pub new_object : Option ℕ → Option ℕ → Object
new_object name seg = record { name = name; seg = seg; attached = 0; fds = 0; removed = false }

unfoldable pub init : ShmTable
init = record { object = λ _. new_object none none; listed = λ _. false; names = empty; next = 1 }

unfoldable pub new_segment_object : Option ℕ → Option ℕ → ShmTable → ℕ × ShmTable
new_segment_object name seg t = (
  t.next,
  record t {
    object = update t.object t.next (new_object name seg);
    listed = update t.listed t.next true;
    next = t.next + 1;
  },
)

pub maybe_free : ℕ → ShmTable → ShmTable
maybe_free id t =
    let s : Object = t.object id in
    if s.removed && s.attached == 0 && s.fds == 0
    then record t {
      object = update t.object id (record s { seg = none });
      listed = update t.listed id false;
    }
    else t

-- the size that a new segment has
sized : Bool → ℕ → Option ℕ
sized ok size = elim (Vmem.new_segment ok 0 size) [ none ↦ none | some g ↦ some g.size ]

pub create : Bool → ℕ → ShmTable → ℕ × ShmTable
unfolding sized
create ok size t = if size == 0 then (neg32 einval, t) else elim (sized ok size) [
  | none ↦ (neg32 enomem, t)
  | some n ↦ new_segment_object none (some n) t
]

-- s == nil || s.removed || s.seg == nil gives `none`; else the segment's size.
abbrev pub usable : ℕ → ShmTable → Option ℕ
usable id t = if t.listed id && not (t.object id).removed then (t.object id).seg else none

pub size : ℕ → ShmTable → ℕ
size id t = elim (usable id t) [ none ↦ neg32 enoent | some n ↦ n % 2 ^ 32 ]

abbrev pub detach : ℕ → ShmTable → ShmTable
detach id t = maybe_free id (record t {
  object = update t.object id (record (t.object id) { attached = (t.object id).attached - 1 });
})

-- dropAttachmentsLocked: what is kept, and the table
pub drop_attachments : ℕ → ℕ → List Attachment → ShmTable → List Attachment × ShmTable
drop_attachments addr length [] t = ([], t)
drop_attachments addr length (a ∷ as') t =
    let gone = leb addr a.addr && leb (a.addr + a.len) (addr + length) in
    let (kept, t') = drop_attachments addr length as' (if gone then detach a.id t else t) in
    (if gone then kept else a ∷ kept, t')

pub map_locked : Bool → ℕ → ℕ → ℕ → ℕ → Proc → ShmTable → ℕ × Proc × ShmTable
map_locked ok id seg_size addr length p t =
    let (mem, err) = map_range ok addr (record { id = id; size = seg_size }) length p.mem in
    let (kept, t') = drop_attachments addr length p.attachments t in
    if is_some err then (neg32 einval, p, t) else (
      0,
      record p {
        mem = mem;
        attachments = kept ++ (record { addr = addr; len = length; id = id } ∷ []);
      },
      record t' {
        object =
            update t'.object id (record (t'.object id) { attached = (t'.object id).attached + 1 });
      },
    )

pub attach : Bool → ℕ → ℕ → Proc → ShmTable → ℕ × Proc × ShmTable
attach ok id addr p t = elim (usable id t) [
  | none ↦ (neg32 enoent, p, t)
  | some n ↦ map_locked ok id n addr n p t
]

pub remove : ℕ → ShmTable → ℕ × ShmTable
remove id t = if not (t.listed id) || (t.object id).removed then (neg32 enoent, t) else (
  0,
  maybe_free id
      (record t { object = update t.object id (record (t.object id) { removed = true }) }),
)

abbrev pub open_fd : ℕ → ShmTable → ShmTable
open_fd id t = record t {
  object = update t.object id (record (t.object id) { fds = (t.object id).fds + 1 });
}

-- The object of the new descriptor, or the errno; `creat` and `excl` are the flags' bits.
unfoldable pub open_object : ℕ → Bool → Bool → ShmTable → (ℕ ⊎ ℕ) × ShmTable
open_object name creat excl t = elim (t.names name) [
  | some id ↦ if creat && excl then (inr (neg32 eexist), t) else (inl id, open_fd id t)
  | none ↦
      if not creat
      then (inr (neg32 enoent), t)
      else let (id, t') = new_segment_object (some name) none t in
        (inl id, open_fd id (record t' { names = put t'.names name id }))
]

pub unlink : ℕ → ShmTable → ℕ × ShmTable
unlink name t = elim (t.names name) [
  | none ↦ (neg32 enoent, t)
  | some id ↦ (
    0,
    maybe_free id (record t {
      names = del t.names name;
      object = update t.object id (record (t.object id) { removed = true });
    }),
  )
]

pub truncate : Bool → ℕ → ℕ → ShmTable → ℕ × ShmTable
unfolding sized
truncate ok id size t = elim (t.object id).seg [
  | some n ↦ if leb size n then (0, t) else (neg32 einval, t)
  | none ↦ if size == 0 then (0, t) else elim (sized ok size) [
    | none ↦ (neg32 enomem, t)
    | some n ↦ (0, record t { object = update t.object id (record (t.object id) { seg = some n }) })
  ]
]

pub fd_size : ℕ → ShmTable → ℕ
fd_size id t = elim (t.object id).seg [ none ↦ 0 | some n ↦ n % 2 ^ 32 ]

pub map_fd : Bool → ℕ → ℕ → ℕ → Proc → ShmTable → ℕ × Proc × ShmTable
map_fd ok id addr length p t = elim (t.object id).seg [
  | none ↦ (neg32 einval, p, t)
  | some n ↦ map_locked ok id n addr length p t
]

pub unmap : Bool → ℕ → ℕ → Proc → ShmTable → ℕ × Proc × ShmTable
unmap ok addr length p t =
    let (mem, err) = Vmem.unmap ok addr length p.mem in
    let (kept, t') = drop_attachments addr length p.attachments t in
    if is_some err
    then (neg32 einval, p, t)
    else (0, record p { mem = mem; attachments = kept }, t')

detach_each : List Attachment → ShmTable → ShmTable
detach_each [] t = t
detach_each (a ∷ as') t = detach_each as' (detach a.id t)

pub detach_all : Proc → ShmTable → Proc × ShmTable
unfolding detach_each
detach_all p t = (record p { attachments = [] }, detach_each p.attachments t)

-- shmFile.release
pub release_file : ℕ → ShmTable → ShmTable
release_file id t = maybe_free id (record t {
  object = update t.object id (record (t.object id) { fds = (t.object id).fds - 1 });
})

-- closeAll; that the operating system's segments are closed is left out
unfoldable pub close_all : ShmTable → ShmTable
close_all t = record t { listed = λ _. false; names = empty }
