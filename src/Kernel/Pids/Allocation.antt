-- ===== src/Kernel/Pids/Allocation.antt =====
-- A pid that is given out is free, recognisable and kept; none is refused while one is free.
use pgzero.Base.{
  ℕ, zero, suc, ◌+◌, ◌-◌, ◌%◌, ◌≤◌, ◌<◌, ◌≡◌, ◌≢◌, true, false, none, some, is_some, arith, refl,
  subst, inl, inr, Bool-cases, ◌∙◌, sym,
}
use pgzero.Kernel.Pids.{
  Pids, pids_per_host, host_pid_range, pid_base, host_pid_of, alloc_loop, alloc_pid, make, no_pids,
  release_pid,
}

abbrev pub IsReady : Pids → Type 0
IsReady s = (1 ≤ s.next) × (s.next < pids_per_host)

-- What an allocation of pid `r` for kernel `k` in the block of `base` does to the table.
pub record Allocates (base k : ℕ) (s : Pids) (r : ℕ) (t : Pids) : Type 0 where
  pub above : base < r
  pub below : r < base + pids_per_host
  pub was_free : s.owners r ≡ none
  pub owned : t.owners r ≡ some k
  pub others : (p : ℕ) → p ≢ r → t.owners p ≡ s.owners p

alloc_loop-Allocates :
    (rounds base k : ℕ) (s : Pids)
    → IsReady s
    → (alloc_loop rounds base k s).0 ≢ 0
    → Allocates base k s (alloc_loop rounds base k s).0 (alloc_loop rounds base k s).1
unfolding alloc_loop
alloc_loop-Allocates zero base k s v h = absurd (h refl)
alloc_loop-Allocates (suc rounds) base k s v h =
    elim (Bool-cases (is_some (s.owners (base + s.next)))) [
      | inl taken ↦
          let s' : Pids = record s { next = s.next % (pids_per_host - 1) + 1 } in
          let ih : Allocates base k s' (alloc_loop rounds base k s').0
              (alloc_loop rounds base k s').1 =
            alloc_loop-Allocates rounds base k s' (omega arith) (λ e. h (rw taken e)) in
          rw taken (record {
            above = ih.above;
            below = ih.below;
            was_free = ih.was_free;
            owned = ih.owned;
            others = ih.others;
          })
      | inr free ↦ rw free (record {
        above = omega arith;
        below = omega arith;
        was_free = ground arith;
        owned = ground arith;
        others = λ p n. ground arith;
      })
    ]

alloc_loop-IsReady :
    (rounds base k : ℕ) (s : Pids) → IsReady s → IsReady (alloc_loop rounds base k s).1
unfolding alloc_loop
alloc_loop-IsReady zero base k s v = v
alloc_loop-IsReady (suc rounds) base k s v =
    ground (
      arith,
      alloc_loop-IsReady rounds base k (record s { next = s.next % (pids_per_host - 1) + 1 }),
    )

alloc_loop-full :
    (rounds base k : ℕ) (s : Pids) (i : ℕ)
    → IsReady s
    → (alloc_loop rounds base k s).0 ≡ 0
    → i < rounds
    → is_some (s.owners (base + ((s.next - 1 + i) % 2047 + 1))) ≡ true
unfolding alloc_loop
alloc_loop-full zero base k s i v h l = absurd (omega arith)
alloc_loop-full (suc rounds) base k s zero v h l =
    let e : (s.next - 1 + 0) % 2047 + 1 ≡ s.next = omega arith in rw e (ground arith)
alloc_loop-full (suc rounds) base k s (suc i) v h l =
    let s' : Pids = record s { next = s.next % (pids_per_host - 1) + 1 } in
    let e : (s.next - 1 + suc i) % 2047 + 1 ≡ (s'.next - 1 + i) % 2047 + 1 = omega arith in
    rw e (alloc_loop-full rounds base k s' i (omega arith) (ground arith) (omega arith))

make-IsReady : (s : Pids) → (s.made ≡ true → IsReady s) → IsReady (make s)
unfolding make
make-IsReady s v = ground (arith, v)

-- The table between two calls: the counter is in its range once the table was made, and is empty before.
pub record IsValid (s : Pids) : Type 0 where
  pub ready : s.made ≡ true → IsReady s
  pub unmade : s.made ≡ false → (p : ℕ) → s.owners p ≡ none

pub no_pids-IsValid : IsValid no_pids
unfolding no_pids
no_pids-IsValid = record { ready = λ e. cc; unmade = λ e p. refl }

owners-make : (s : Pids) (p : ℕ) → IsValid s → (make s).owners p ≡ s.owners p
unfolding make
owners-make s p v = elim (Bool-cases s.made) [
  | inl e ↦ rw (e, make) refl
  | inr e ↦ rw (e, make) (sym (v.unmade e p))
]

made-alloc_loop : (rounds base k : ℕ) (s : Pids) → (alloc_loop rounds base k s).1.made ≡ s.made
unfolding alloc_loop
made-alloc_loop zero base k s = refl
made-alloc_loop (suc rounds) base k s =
    ground
      (arith, made-alloc_loop rounds base k (record s { next = s.next % (pids_per_host - 1) + 1 }))

made_after : (s : Pids) → (make s).made ≡ true
unfolding make
made_after s = ground arith

pub alloc_pid-IsValid : (host_pid k : ℕ) (s : Pids) → IsValid s → IsValid (alloc_pid host_pid k s).1
unfolding alloc_pid
alloc_pid-IsValid host_pid k s v =
    let base : ℕ = pid_base host_pid in
    let e : (alloc_loop pids_per_host base k (make s)).1.made ≡ true =
      made-alloc_loop pids_per_host base k (make s) ∙ made_after s in
    record {
      ready = λ m. alloc_loop-IsReady pids_per_host base k (make s) (make-IsReady s v.ready);
      unmade = λ m. cc;
    }

pub release_pid-IsValid : (pid : ℕ) (s : Pids) → IsValid s → IsValid (release_pid pid s)
unfolding release_pid
release_pid-IsValid pid s v = record {
  ready = v.ready;
  unmade = λ m p. ground (arith, v.unmade m p);
}

pid_of_block :
    (host_pid r : ℕ)
    → pid_base host_pid < r
    → r < pid_base host_pid + pids_per_host
    → host_pid_of r ≡ host_pid % host_pid_range
unfolding pid_base host_pid_of
pid_of_block host_pid r a b = omega arith

-- A pid that `allocPid` returns was nobody's, belongs to the kernel afterwards, and tells the host process
-- that it comes from; no other pid changes hands.
pub alloc_pid-fresh :
    (host_pid k : ℕ) (s : Pids)
    → IsValid s
    → (alloc_pid host_pid k s).0 ≢ 0
    → let (r, t) = alloc_pid host_pid k s in
      (s.owners r ≡ none)
      × (t.owners r ≡ some k)
      × (host_pid_of r ≡ host_pid % host_pid_range)
      × ((p : ℕ) → p ≢ r → t.owners p ≡ s.owners p)
unfolding alloc_pid
alloc_pid-fresh host_pid k s v h =
    let base : ℕ = pid_base host_pid in
    let s' : Pids = make s in
    let r : ℕ = (alloc_loop pids_per_host base k s').0 in
    let a : Allocates base k s' r (alloc_loop pids_per_host base k s').1 =
      alloc_loop-Allocates pids_per_host base k s' (make-IsReady s v.ready) h in
    (
      sym (owners-make s r v) ∙ a.was_free,
      a.owned,
      pid_of_block host_pid r a.above a.below,
      λ p n. a.others p n ∙ owners-make s p v,
    )

-- `allocPid` returns 0 only if each of the 2047 pids of this host process has an owner.
alloc_pid-full :
    (host_pid k : ℕ) (s : Pids) (n : ℕ)
    → IsValid s
    → (alloc_pid host_pid k s).0 ≡ 0
    → 1 ≤ n
    → n < pids_per_host
    → is_some (s.owners (pid_base host_pid + n)) ≡ true
unfolding alloc_pid
alloc_pid-full host_pid k s n v h l u =
    let s' : Pids = make s in
    let i : ℕ = (n + 2047 - s'.next) % 2047 in
    let ready : IsReady s' = make-IsReady s v.ready in
    let e : (s'.next - 1 + i) % 2047 + 1 ≡ n = omega arith in
    rw (← owners-make s (pid_base host_pid + n) v) (
      subst (λ m. is_some (s'.owners (pid_base host_pid + m)) ≡ true) e
        (alloc_loop-full pids_per_host (pid_base host_pid) k s' i ready h (omega arith)))
