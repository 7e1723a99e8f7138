-- ===== src/Kernel/FdTable/Lookup.antt =====
-- What a table has at each number after each call.
use pgzero.Kernel.FdTable.{Store, get_cloexec, FdTable, get, lowest_free, add}
use pgzero.Base.{
  lookup-insert, zero, count_from-lt, count_from-le-length, inr, inr, length, ◌+◌, inl, inl, ◌≢◌,
  ℕ_discrete, suc, suc, some, Option-cases, arith, true, none, ◌≡◌, is_some, lookup, ◌<◌, ◌≤◌,
  count_from, Bool, ℕ,
}
use pgzero.Abi.{fd_base}

pub lowest_free_free :
    (fuel fd : ℕ) (t : FdTable)
    → count_from fd t ≤ fuel
    → (lookup (lowest_free fuel fd t) t ≡ none) × (fd ≤ lowest_free fuel fd t)
unfolding lowest_free
lowest_free_free zero fd t h = elim (Option-cases (lookup fd t)) [
  | inl e ↦ (e, omega arith)
  | inr (v, e) ↦ absurd (omega (arith, count_from-lt fd t v e))
]
lowest_free_free (suc fuel) fd t h = elim (Option-cases (lookup fd t)) [
  | inl e ↦ rw e (e, omega arith)
  | inr (v, e) ↦ rw e (
      let ih = lowest_free_free fuel (fd + 1) t (omega (arith, count_from-lt fd t v e)) in
      (ih.0, omega (arith, ih.1)))
]

lowest_free_least :
    (fuel fd : ℕ) (t : FdTable) (j : ℕ)
    → fd ≤ j
    → j < lowest_free fuel fd t
    → is_some (lookup j t) ≡ true
unfolding lowest_free
lowest_free_least zero fd t j l u = absurd (omega arith)
lowest_free_least (suc fuel) fd t j l u = elim (ℕ_discrete fd j) [
  | yes e ↦ ground arith
  | no n ↦ ground (arith, lowest_free_least fuel (fd + 1) t j)
]

-- `add` gives the lowest number from FDBase on that was free, and the table then has the open file there,
-- with every other descriptor as before.
pub add_lowest :
    {F W : Type 0} (a : ℕ) (cloexec : Bool) (t : FdTable) (s : Store F W)
    → let (fd, t', s') = add a cloexec t s in
      (get fd t ≡ none)
      × (fd_base ≤ fd)
      × ((j : ℕ) → fd_base ≤ j → j < fd → is_some (get j t) ≡ true)
      × (get fd t' ≡ some a)
      × (get_cloexec fd t' ≡ some cloexec)
      × ((j : ℕ) → j ≢ fd → lookup j t' ≡ lookup j t)
unfolding add get get_cloexec
add_lowest a cloexec t s =
    let fd : ℕ = lowest_free (length t) fd_base t in
    let free : (lookup fd t ≡ none) × (fd_base ≤ fd) =
      lowest_free_free (length t) fd_base t (count_from-le-length fd_base t) in
    (
      ground (arith, free),
      free.1,
      λ j l u. ground (arith, lowest_free_least (length t) fd_base t j l u),
      ground arith,
      ground arith,
      λ j n. ground (arith, lookup-insert fd j (record { of = a; cloexec = cloexec }) t),
    )
