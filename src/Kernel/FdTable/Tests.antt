-- ===== src/Kernel/FdTable/Tests.antt =====
-- Descriptor tables of two entries for one open file.
use pgzero.Base.{
  neg32, lookup, ℕ, ◌+◌, ◌≡◌, refl, ◌⊎◌, true, false, none, some, [], ◌∷◌, arith, ◌==◌,
  if◌then◌else◌,
}
use pgzero.Kernel.FdTable.{unref, get, close, clone_for_exec, Store, FdTable}
use pgzero.Abi.{ebadf}
use pgzero.Kernel.FdTable.Refs.{close_releases, clone_for_exec-Holds, refs_in, Holds, inherited}

-- The store's files are numbers, and the world counts the releases.
abbrev releases : ℕ → ℕ → ℕ
releases f w = w + 1

abbrev shared_table : FdTable
shared_table =
    (1048576, record { of = 0; cloexec = false })
    ∷ (1048577, record { of = 0; cloexec = true })
    ∷ []

abbrev shared_store : Store ℕ ℕ
shared_store = record {
  file = λ _. 5;
  flags = λ _. 0;
  refs = λ a. if a == 0 then 2 else 0;
  next = 1;
  world = 0;
}

abbrev nobody : ℕ → ℕ
nobody a = 0

shared-Holds : Holds nobody shared_table shared_store
shared-Holds = record { unique = ground arith; counted = λ a. ground arith }

close_twice_test :
    (close releases 1048577
      (close releases 1048576 shared_table shared_store).1
      (close releases 1048576 shared_table shared_store).2).2.world
    ≡ 1
unfolding close unref
close_twice_test = refl

close_releases_example :
    let (r, t', s') = close releases 1048576 shared_table shared_store in
    ((get 1048576 shared_table ≡ none)
      × (r ≡ neg32 ebadf)
      × (t' ≡ shared_table)
      × (s' ≡ shared_store))
    ⊎ ((a : ℕ) × (get 1048576 shared_table ≡ some a)
        × (r ≡ 0)
        × (get 1048576 t' ≡ none)
        × (s'.world ≡ (
            if nobody a + refs_in a t' == 0
            then releases (shared_store.file a) shared_store.world
            else shared_store.world)))
close_releases_example =
    close_releases releases nobody 1048576 shared_table shared_store shared-Holds

clone_for_exec-Holds_example :
    let (c, s') = clone_for_exec shared_table shared_store in
    ((fd : ℕ) → lookup fd c ≡ inherited (lookup fd shared_table))
    × Holds (λ a. nobody a + refs_in a c) shared_table s'
    × Holds (λ a. nobody a + refs_in a shared_table) c s'
clone_for_exec-Holds_example = clone_for_exec-Holds nobody shared_table shared_store shared-Holds
