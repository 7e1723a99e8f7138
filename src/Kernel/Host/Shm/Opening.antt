-- ===== src/Kernel/Host/Shm/Opening.antt =====
-- Two descriptors for one name.
use pgzero.Base.{
  ℕ, ◌<◌, ◌≡◌, refl, sym, ap, subst, ◌∙◌, ◌≢◌, inl, Bool, false, Option, none, some, arith,
}
use pgzero.Kernel.FdTable.{get, add, new_open_file, ref}
use pgzero.Kernel.FdTable.Lookup.{add_lowest}
use pgzero.Kernel.Files.{FileObject, shm_file}
use pgzero.Kernel.Host.{Caller, open_file}
use pgzero.Kernel.Shm.{ShmTable}
use pgzero.Kernel.Shm
use pgzero.Kernel.Shm.Names.{open_object-names, open_object_again}
use pgzero.Kernel.Host.Shm.{table_of, set_table, shm_fd, open_named}

-- a descriptor is for an open file that has been made, and this for the object
abbrev IsFor : ℕ → ℕ → Caller → Type 0
IsFor id fd c =
    (a : ℕ) × (get fd c.table ≡ some a) × (a < c.store.next) × (c.store.file a ≡ shm_file id)

IsFor-shm_fd : (id fd : ℕ) (c : Caller) → IsFor id fd c → shm_fd fd c ≡ inl id
unfolding shm_fd
IsFor-shm_fd id fd c (a, g, l, f) = rw (g, shm_fd) (rw f refl)

-- what the new descriptor is for, and the others
module _ (id flags : ℕ) (cloexec : Bool) (c : Caller) where
  opened_IsFor :
      IsFor id
        (open_file (shm_file id) flags cloexec c).0
        (open_file (shm_file id) flags cloexec c).1
  unfolding open_file new_open_file add ref get
  opened_IsFor = (c.store.next, ground arith, omega arith, ground arith)

  other_fd : (fd a : ℕ) → get fd c.table ≡ some a → fd ≢ (open_file (shm_file id) flags cloexec c).0
  unfolding open_file add
  other_fd fd a g e =
      let s = (new_open_file (shm_file id) flags c.store).1 in
      let free = (add_lowest c.store.next cloexec c.table s).0 in
      let p : some a ≡ none = sym g ∙ ap (λ n. get n c.table) e ∙ free in ground (arith, p)

  kept-IsFor : (j fd : ℕ) → IsFor j fd c → IsFor j fd (open_file (shm_file id) flags cloexec c).1
  unfolding open_file new_open_file
  kept-IsFor j fd (a, g, l, f) =
      let s = (new_open_file (shm_file id) flags c.store).1 in
      let (free, least, taken, here, flag, others) = add_lowest c.store.next cloexec c.table s in
      (
        a,
        (unfold get in
            ap (λ e. elim e as (λ _. Option ℕ) [ none ↦ none | some x ↦ some x.of ])
              (others fd (other_fd fd a g))
            ∙ g),
        (unfold add in unfold ref in omega (arith, l)),
        (unfold add in unfold ref in ground (arith, l, f)),
      )

open_named_next :
    (name : ℕ) (creat excl : Bool) (c : Caller) (id : ℕ)
    → (Shm.open_object name creat excl (table_of c)).0 ≡ inl id
    → open_named name creat excl c
      ≡ open_file
          (shm_file id)
          0
          false
          (set_table (Shm.open_object name creat excl (table_of c)).1 c)
unfolding open_named
open_named_next name creat excl c id e = rw (e, open_named) refl

open_file-table :
    (f : FileObject) (flags : ℕ) (cloexec : Bool) (c : Caller)
    → table_of (open_file f flags cloexec c).1 ≡ table_of c
unfolding open_file new_open_file add ref
open_file-table f flags cloexec c = refl

-- two descriptors, the second with the state after both
abbrev AreShared : ℕ → ℕ × Caller → ℕ × Caller → Type 0
AreShared id x y =
    (shm_fd x.0 x.1 ≡ inl id) × (shm_fd y.0 y.1 ≡ inl id) × (shm_fd x.0 y.1 ≡ inl id) × (x.0 ≢ y.0)

-- When shm_open of a name finds or makes an object, and the same name is opened again without O_EXCL (with or
-- without O_CREAT): both descriptors are for that object, the second is another one, and the first is
-- still for the object after the second is open.
pub open_named_shared :
    (name : ℕ) (creat excl again : Bool) (c : Caller) (id : ℕ)
    → (Shm.open_object name creat excl (table_of c)).0 ≡ inl id
    → (let (fd, c1) = open_named name creat excl c in
        let (fd2, c2) = open_named name again false c1 in
        (shm_fd fd c1 ≡ inl id) × (shm_fd fd2 c2 ≡ inl id) × (shm_fd fd c2 ≡ inl id) × (fd ≢ fd2))
open_named_shared name creat excl again c id e =
    let t = Shm.open_object name creat excl (table_of c) in
    let c0 = set_table (t.1) c in
    let o = open_file (shm_file id) 0 false c0 in
    let first : open_named name creat excl c ≡ o = open_named_next name creat excl c id e in
    let listed : (table_of o.1).names name ≡ some id =
      ap (λ x. x.names name) (open_file-table (shm_file id) 0 false c0)
      ∙ open_object-names name creat excl (table_of c) id e in
    let found = open_object_again name again (table_of o.1) id listed in
    let second = open_named_next name again false o.1 id found in
    let d0 = set_table (Shm.open_object name again false (table_of o.1)).1 o.1 in
    let one = opened_IsFor id 0 false c0 in
    let two = opened_IsFor id 0 false d0 in
    let still = kept-IsFor id 0 false d0 id o.0 one in
    subst (λ x. AreShared id x (open_named name again false x.1)) (sym first)
      (subst (AreShared id o) (sym second) (
        IsFor-shm_fd id o.0 o.1 one,
        IsFor-shm_fd id (open_file (shm_file id) 0 false d0).0
            (open_file (shm_file id) 0 false d0).1 two,
        IsFor-shm_fd id o.0 (open_file (shm_file id) 0 false d0).1 still,
        other_fd id 0 false d0 o.0 one.0 one.1,
      ))
