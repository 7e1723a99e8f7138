-- ===== src/Kernel/Host/Keeping.antt =====
-- What the calls on descriptors keep: the counts of references, and the ends of pipes.
use pgzero.Base.{
  ℕ, ◌%◌, ◌≤◌, ◌<◌, ◌≡◌, refl, ◌≢◌, inl, inr, Bool, true, false, some, arith, ◌==◌, if◌then◌else◌,
  Option-cases, lookup, is_neg32,
}
use pgzero.Kernel.FdTable
use pgzero.Kernel.FdTable.{
  FdTable, Store, Entry, new_open_file, add, get, get_cloexec, set_cloexec, ref, unref, install,
}
use pgzero.Kernel.FdTable.Refs.{
  Holds, refs_in-lookup, add-Holds, set_cloexec-Holds, close-Holds, install-Holds,
}
use pgzero.Kernel.Files.{FileObject, World, release, null_file}
use pgzero.Kernel.Files.PipeEnds.{End, reading, writing, is_end}
use pgzero.Kernel.Host.{
  Caller, Fcntl, open_file, close, devnull, dup, fcntl, on_file, f_getfd, f_setfd, f_getfl, f_setfl,
  f_dupfd, f_dupfd_cloexec, unknown,
}
use pgzero.Kernel.Host.Ends.{
  IsPiped, IsFresh, open_new, unref-IsPiped, ref-IsPiped, open_new-IsPiped,
}

-- the addresses that are not in use have no references
abbrev pub HasUnused : Store FileObject World → Type 0
HasUnused s = (a : ℕ) → s.next ≤ a → s.refs a ≡ 0

-- A process whose table and store agree: `others a` descriptors for a are in other processes.
pub record IsKept (others : ℕ → ℕ) (c : Caller) : Type 0 where
  pub holds : Holds others c.table c.store
  pub unused : HasUnused c.store
  pub piped : (e : End) → IsPiped e c.store

unref-HasUnused : (a : ℕ) (s : Store FileObject World) → HasUnused s → HasUnused (unref release a s)
unfolding unref
unref-HasUnused a s h b i = ground (arith, h b)

ref-HasUnused :
    (a : ℕ) (s : Store FileObject World) → a < s.next → HasUnused s → HasUnused (ref a s)
unfolding ref
ref-HasUnused a s j h b i = ground (arith, h b)

null_file-end : (e : End) → is_end e null_file ≡ false
null_file-end (reading i) = refl
null_file-end (writing i) = refl

module _ (others : ℕ → ℕ) where
  -- an open file with a descriptor
  in_use :
      (fd : ℕ) (d : Entry) (c : Caller)
      → IsKept others c
      → lookup fd c.table ≡ some d
      → (d.of < c.store.next) × (c.store.refs d.of ≢ 0)
  in_use fd d c h l =
      let n : c.store.refs d.of ≢ 0 =
        ground (arith, h.holds.counted d.of, refs_in-lookup fd d c.table l) in
      (ground (arith, h.unused d.of, n), n)

  pub close-IsKept : (fd : ℕ) (c : Caller) → IsKept others c → IsKept others (close fd c).1
  unfolding close FdTable.close
  close-IsKept fd c h = elim (Option-cases (lookup fd c.table)) [
    | inl n ↦ rw (n, close, FdTable.close) h
    | inr (d, l) ↦ record {
      holds = close-Holds release others fd c.table c.store h.holds;
      unused = rw (l, close, FdTable.close) (unref-HasUnused d.of c.store h.unused);
      piped =
          rw (l, close, FdTable.close)
            (λ e. unref-IsPiped e d.of c.store (in_use fd d c h l).0 (h.piped e));
    }
  ]

  pub add-IsKept :
      (fd : ℕ) (d : Entry) (cloexec : Bool) (c : Caller)
      → lookup fd c.table ≡ some d
      → IsKept others c
      → let (r, t, s) = add d.of cloexec c.table c.store in
        IsKept others (record c { table = t; store = s })
  unfolding add ref
  add-IsKept fd d cloexec c l h = record {
    holds = add-Holds others d.of cloexec c.table c.store h.holds;
    unused = ref-HasUnused d.of c.store (in_use fd d c h l).0 h.unused;
    piped = λ e. unfold ref in ref-IsPiped e d.of c.store (in_use fd d c h l).1 (h.piped e);
  }

  pub open_file-IsKept :
      (f : FileObject) (flags : ℕ) (cloexec : Bool) (c : Caller)
      → ((e : End) → is_end e f ≡ true → IsFresh e c.store)
      → IsKept others c
      → IsKept others (open_file f flags cloexec c).1
  unfolding open_file add new_open_file open_new
  open_file-IsKept f flags cloexec c fresh h = record {
    holds =
        add-Holds others c.store.next cloexec c.table (new_open_file f flags c.store).1 (record {
          unique = h.holds.unique;
          counted = λ b. ground (arith, h.holds.counted b, h.unused b);
        });
    unused = λ b i. unfold ref in ground (arith, h.unused b);
    piped = λ e. open_new-IsPiped e f flags c.store (fresh e) (h.piped e);
  }

  pub install-IsKept :
      (fd new_fd : ℕ) (d : Entry) (cloexec : Bool) (c : Caller)
      → lookup fd c.table ≡ some d
      → IsKept others c
      → let (t, s) = FdTable.install release new_fd d.of cloexec c.table c.store in
        IsKept others (record c { table = t; store = s })
  unfolding install ref
  install-IsKept fd new_fd d cloexec c l h =
      let used : (d.of < c.store.next) × (c.store.refs d.of ≢ 0) = in_use fd d c h l in
      let kept : (e : End) → IsPiped e (ref d.of c.store) =
        λ e. ref-IsPiped e d.of c.store used.1 (h.piped e) in
      let unused : HasUnused (ref d.of c.store) = ref-HasUnused d.of c.store used.0 h.unused in
      elim (Option-cases (lookup new_fd c.table)) [
        | inl n ↦ record {
          holds = install-Holds release others new_fd d.of cloexec c.table c.store h.holds;
          unused = rw (n, install) unused;
          piped = rw (n, install) kept;
        }
        | inr (o, n) ↦ record {
          holds = install-Holds release others new_fd d.of cloexec c.table c.store h.holds;
          unused = rw (n, install) (unref-HasUnused o.of (ref d.of c.store) unused);
          piped =
              rw (n, install)
                (λ e. unref-IsPiped e o.of (ref d.of c.store) (in_use new_fd o c h n).0 (kept e));
        }
      ]

  pub devnull-IsKept : (c : Caller) → IsKept others c → IsKept others (devnull c).1
  unfolding devnull
  devnull-IsKept c h =
      open_file-IsKept null_file 0 false c (λ e k. ground (arith, null_file-end e)) h

  pub IsKept-if :
      (b : Bool) (x y : ℕ × Caller)
      → IsKept others x.1
      → IsKept others y.1
      → IsKept others (if b then x else y).1
  IsKept-if true x y p q = p
  IsKept-if false x y p q = q

  pub dup-IsKept :
      (fd new_fd : ℕ) (c : Caller) → IsKept others c → IsKept others (dup fd new_fd c).1
  unfolding dup get
  dup-IsKept fd new_fd c h = elim (Option-cases (lookup fd c.table)) [
    | inl n ↦ rw (n, dup, get) h
    | inr (d, l) ↦
        rw (l, dup, get)
          (IsKept-if (is_neg32 new_fd) _ _ (add-IsKept fd d false c l h) (
            IsKept-if _ _ _ h
              (IsKept-if (new_fd == fd) _ _ h (install-IsKept fd new_fd d false c l h))))
  ]

  set_flags-IsKept :
      (flags : ℕ → ℕ) (c : Caller)
      → IsKept others c
      → IsKept others (record c { store = record (c.store) { flags = flags } })
  set_flags-IsKept flags c h = record {
    holds = record { unique = h.holds.unique; counted = h.holds.counted };
    unused = h.unused;
    piped = λ e. record {
      counted = (h.piped e).counted;
      distinct = (h.piped e).distinct;
      made = (h.piped e).made;
    };
  }

  on_file-IsKept :
      (cmd : Fcntl) (fd arg : ℕ) (d : Entry) (c : Caller)
      → lookup fd c.table ≡ some d
      → IsKept others c
      → IsKept others (on_file cmd fd arg d.of c).1
  unfolding on_file get_cloexec
  on_file-IsKept f_getfd fd arg d c l h = rw (l, on_file, get_cloexec) h
  on_file-IsKept f_setfd fd arg d c l h = record {
    holds = set_cloexec-Holds others fd (arg % 2 == 1) c.table c.store h.holds;
    unused = h.unused;
    piped = h.piped;
  }
  on_file-IsKept f_getfl fd arg d c l h = h
  on_file-IsKept f_setfl fd arg d c l h = set_flags-IsKept _ c h
  on_file-IsKept f_dupfd fd arg d c l h = add-IsKept fd d false c l h
  on_file-IsKept f_dupfd_cloexec fd arg d c l h = add-IsKept fd d true c l h
  on_file-IsKept unknown fd arg d c l h = h

  pub fcntl-IsKept :
      (fd : ℕ) (cmd : Fcntl) (arg : ℕ) (c : Caller)
      → IsKept others c
      → IsKept others (fcntl fd cmd arg c).1
  unfolding fcntl get
  fcntl-IsKept fd cmd arg c h = elim (Option-cases (lookup fd c.table)) [
    | inl n ↦ rw (n, fcntl, get) h
    | inr (d, l) ↦ rw (l, fcntl, get) (on_file-IsKept cmd fd arg d c l h)
  ]
