-- ===== src/Kernel/FdTable/Refs.antt =====
-- Reference counts: an open file has as many references as there are descriptors for it, and its file
-- is released with the last one.
use pgzero.Kernel.FdTable.{
  unref_all, sort_fds, insert_sorted, get, close_all, clone_for_exec, lowest_free, Store, Entry,
  unref, ref, install, close, FdTable, set_cloexec, add,
}
use pgzero.Base.{
  neg32, ℕ, ◌+◌, ◌-◌, ◌≡◌, ◌≢◌, refl, ◌⊎◌, inl, inr, Bool, false, Option, none, some, [], ◌∷◌,
  arith, ◌==◌, if◌then◌else◌, Option-cases, length, lookup, erase, IsUnique, erase-IsUnique,
  insert-IsUnique, lookup-erase, count_from-le-length,
}
use pgzero.Abi.{ebadf, fd_base}
use pgzero.Kernel.FdTable.Lookup.{lowest_free_free}

-- The descriptors of a table that refer to the open file a.
abbrev pub refs_in : ℕ → FdTable → ℕ
refs_in a [] = 0
refs_in a ((fd, e) ∷ t) = (if e.of == a then 1 else 0) + refs_in a t

-- A table within the system: `others a` descriptors for a are in the tables of other processes.
pub record Holds {F W : Type 0} (others : ℕ → ℕ) (t : FdTable) (s : Store F W) : Type 0 where
  pub unique : IsUnique t
  pub counted : (a : ℕ) → s.refs a ≡ others a + refs_in a t

abbrev hits : ℕ → Option Entry → ℕ
hits a none = 0
hits a (some e) = if e.of == a then 1 else 0

refs_in-none : (a k : ℕ) (t : FdTable) → lookup k t ≡ none → refs_in a (erase k t) ≡ refs_in a t
refs_in-none a k [] h = refl
refs_in-none a k ((j, e) ∷ t) h = ground (arith, refs_in-none a k t)

refs_in-erase :
    (a k : ℕ) (t : FdTable) → IsUnique t → refs_in a (erase k t) + hits a (lookup k t) ≡ refs_in a t
refs_in-erase a k [] u = refl
refs_in-erase a k ((j, e) ∷ t) u = ground (arith, refs_in-erase a k t u.1, refs_in-none a k t)

pub refs_in-lookup : (fd : ℕ) (d : Entry) (t : FdTable) → lookup fd t ≡ some d → refs_in d.of t ≢ 0
refs_in-lookup fd d [] h = ground arith
refs_in-lookup fd d ((j, e) ∷ t) h = ground (arith, refs_in-lookup fd d t)

pub add-Holds :
    {F W : Type 0} (others : ℕ → ℕ) (a : ℕ) (cloexec : Bool) (t : FdTable) (s : Store F W)
    → Holds others t s
    → let (fd, t', s') = add a cloexec t s in Holds others t' s'
unfolding add ref
add-Holds others a cloexec t s h =
    let fd : ℕ = lowest_free (length t) fd_base t in
    let free : lookup fd t ≡ none =
      (lowest_free_free (length t) fd_base t (count_from-le-length fd_base t)).0 in
    record {
      unique = insert-IsUnique fd (record { of = a; cloexec = cloexec }) t h.unique;
      counted = λ b. ground (arith, h.counted b, refs_in-none b fd t free);
    }

pub set_cloexec-Holds :
    {F W : Type 0} (others : ℕ → ℕ) (fd : ℕ) (cloexec : Bool) (t : FdTable) (s : Store F W)
    → Holds others t s
    → Holds others (set_cloexec fd cloexec t).0 s
unfolding set_cloexec
set_cloexec-Holds others fd cloexec t s h = elim (Option-cases (lookup fd t)) [
  | inl e ↦ rw (e, set_cloexec) h
  | inr (d, e) ↦
      rw (e, set_cloexec)
        (record {
          unique = insert-IsUnique fd (record d { cloexec = cloexec }) t h.unique;
          counted = λ b. ground (arith, h.counted b, refs_in-erase b fd t h.unique);
        })
]

module _ {F W : Type 0} (release : F → W → W) (others : ℕ → ℕ) where
  pub refs-unref :
      (a b : ℕ) (s : Store F W)
      → (unref release a s).refs b ≡ (if a == b then s.refs b - 1 else s.refs b)
  unfolding unref
  refs-unref a b s = ground arith

  pub close-Holds :
      (fd : ℕ) (t : FdTable) (s : Store F W)
      → Holds others t s
      → let (r, t', s') = close release fd t s in Holds others t' s'
  unfolding close
  close-Holds fd t s h = elim (Option-cases (lookup fd t)) [
    | inl e ↦ rw (e, close) h
    | inr (d, e) ↦
        rw (e, close)
          (record {
            unique = erase-IsUnique fd t h.unique;
            counted = λ b.
                ground (arith, h.counted b, refs_in-erase b fd t h.unique, refs-unref d.of b s);
          })
  ]

  -- Putting an open file at a number, taken or not, keeps each open file's count the number of its
  -- descriptors: the file that was there loses one, and the new one gains one.
  pub install-Holds :
      (fd a : ℕ) (cloexec : Bool) (t : FdTable) (s : Store F W)
      → Holds others t s
      → let (t', s') = install release fd a cloexec t s in Holds others t' s'
  unfolding install ref
  install-Holds fd a cloexec t s h = elim (Option-cases (lookup fd t)) [
    | inl e ↦
        rw (e, install)
          (record {
            unique = insert-IsUnique fd (record { of = a; cloexec = cloexec }) t h.unique;
            counted = λ b. ground (arith, h.counted b, refs_in-none b fd t e);
          })
    | inr (d, e) ↦
        rw (e, install)
          (record {
            unique = insert-IsUnique fd (record { of = a; cloexec = cloexec }) t h.unique;
            counted = λ b.
                ground
                  (arith, h.counted b, refs_in-erase b fd t h.unique, refs-unref d.of b (ref a s));
          })
  ]

  -- Closing a descriptor releases the file exactly when it was the last descriptor for the open file in
  -- any table; a number that is not open gives EBADF and changes nothing.
  pub close_releases :
      (fd : ℕ) (t : FdTable) (s : Store F W)
      → Holds others t s
      → let (r, t', s') = close release fd t s in
        ((get fd t ≡ none) × (r ≡ neg32 ebadf) × (t' ≡ t) × (s' ≡ s))
        ⊎ ((a : ℕ) × (get fd t ≡ some a)
            × (r ≡ 0)
            × (get fd t' ≡ none)
            × (s'.world
                ≡ (if others a + refs_in a t' == 0 then release (s.file a) s.world else s.world)))
  unfolding close get
  close_releases fd t s h = elim (Option-cases (lookup fd t)) [
    | inl e ↦ rw (e, close, get) (inl (refl, refl, refl, refl))
    | inr (d, e) ↦
        rw (e, close, get)
          (inr (
            d.of,
            refl,
            refl,
            ground (arith, lookup-erase fd fd t),
            unfold unref in ground (arith, h.counted d.of, refs_in-erase d.of fd t h.unique),
          ))
  ]

  unref_all-refs :
      (t : FdTable) (s : Store F W) (b : ℕ)
      → (unref_all release t s).refs b ≡ s.refs b - refs_in b t
  unfolding unref_all
  unref_all-refs [] s b = omega arith
  unref_all-refs ((fd, e) ∷ t) s b =
      ground (arith, unref_all-refs t (unref release e.of s) b, refs-unref e.of b s)

  refs_in-insert_sorted :
      (b fd : ℕ) (e : Entry) (t : FdTable)
      → refs_in b (insert_sorted fd e t) ≡ refs_in b ((fd, e) ∷ t)
  unfolding insert_sorted
  refs_in-insert_sorted b fd e [] = refl
  refs_in-insert_sorted b fd e ((j, d) ∷ t) = ground (arith, refs_in-insert_sorted b fd e t)

  refs_in-sort_fds : (b : ℕ) (t : FdTable) → refs_in b (sort_fds t) ≡ refs_in b t
  unfolding sort_fds
  refs_in-sort_fds b [] = refl
  refs_in-sort_fds b ((fd, e) ∷ t) =
      ground (arith, refs_in-insert_sorted b fd e (sort_fds t), refs_in-sort_fds b t)

  -- closeAll leaves the table empty, and the references left are those of the other processes.
  close_all-Holds :
      (t : FdTable) (s : Store F W)
      → Holds others t s
      → let (t', s') = close_all release t s in (t' ≡ []) × Holds others t' s'
  unfolding close_all
  close_all-Holds t s h = (
    refl,
    record {
      unique = tt;
      counted =
          λ b. ground (arith, h.counted b, unref_all-refs (sort_fds t) s b, refs_in-sort_fds b t);
    },
  )

clone-refs :
    {F W : Type 0} (t : FdTable) (s : Store F W) (b : ℕ)
    → let (c, s') = clone_for_exec t s in s'.refs b ≡ s.refs b + refs_in b c
unfolding clone_for_exec ref
clone-refs [] s b = omega arith
clone-refs ((fd, e) ∷ t) s b = ground (arith, clone-refs t s b)

-- What a child has for an entry of its parent.
abbrev pub inherited : Option Entry → Option Entry
inherited none = none
inherited (some e) = if e.cloexec then none else some (record { of = e.of; cloexec = false })

lookup-clone_for_exec :
    {F W : Type 0} (t : FdTable) (s : Store F W) (fd : ℕ)
    → IsUnique t
    → lookup fd (clone_for_exec t s).0 ≡ inherited (lookup fd t)
unfolding clone_for_exec
lookup-clone_for_exec [] s fd u = refl
lookup-clone_for_exec ((j, e) ∷ t) s fd u =
    ground (arith, lookup-clone_for_exec t s fd u.1, lookup-clone_for_exec t s j u.1)

clone-IsUnique :
    {F W : Type 0} (t : FdTable) (s : Store F W) → IsUnique t → IsUnique (clone_for_exec t s).0
unfolding clone_for_exec
clone-IsUnique [] s u = tt
clone-IsUnique ((j, e) ∷ t) s u =
    ground (arith, clone-IsUnique t s u.1, lookup-clone_for_exec t s j u.1)

-- A spawned child has exactly the parent's descriptors that are not close-on-exec, at the same numbers,
-- for the same open files and not close-on-exec; its references count besides the parent's.
pub clone_for_exec-Holds :
    {F W : Type 0} (others : ℕ → ℕ) (t : FdTable) (s : Store F W)
    → Holds others t s
    → let (c, s') = clone_for_exec t s in
      ((fd : ℕ) → lookup fd c ≡ inherited (lookup fd t))
      × Holds (λ a. others a + refs_in a c) t s'
      × Holds (λ a. others a + refs_in a t) c s'
clone_for_exec-Holds others t s h = (
  λ fd. lookup-clone_for_exec t s fd h.unique,
  record { unique = h.unique; counted = λ b. omega (arith, h.counted b, clone-refs t s b) },
  record {
    unique = clone-IsUnique t s h.unique;
    counted = λ b. omega (arith, h.counted b, clone-refs t s b);
  },
)
