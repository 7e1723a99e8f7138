-- ===== src/Memfs/Clone/Sound.antt =====
-- What holds of the nodes copied so far.
use pgzero.Base.{
  ℕ, zero, suc, ◌+◌, ◌≤◌, ◌<◌, ◌≡◌, refl, sym, ap, subst, ◌∙◌, ◌≢◌, ◌⊎◌, inl, inr, true, false,
  none, some, [], ◌∷◌, arith, ltb, ◌==◌, if◌then◌else◌, is_some, Bool-cases, Option-cases, Assoc,
  lookup,
}
use pgzero.Memfs.{Fs}
use pgzero.Memfs.Entries.{Entries}
use pgzero.Memfs.Clone.{Cloning}

-- the entries of a copy are for the copies of what the original's are for
abbrev pub Matches : Assoc ℕ → Entries → Entries → Type 0
Matches m [] [] = Unit
Matches m [] (e ∷ ds) = ⊥
Matches m (e ∷ es) [] = ⊥
Matches m ((x, n) ∷ es) ((y, d) ∷ ds) = (x ≡ y) × (lookup n m ≡ some d) × Matches m es ds

-- the keys below a bound that are missing
abbrev pub missing : ℕ → Assoc ℕ → ℕ
missing zero m = 0
missing (suc b) m = (if is_some (lookup b m) then 0 else 1) + missing b m

pub missing_less :
    (b : ℕ) (m k : Assoc ℕ)
    → ((n c : ℕ) → lookup n m ≡ some c → lookup n k ≡ some c)
    → missing b k ≤ missing b m
missing_less zero m k h = omega arith
missing_less (suc b) m k h = elim (Option-cases (lookup b m)) [
  | inl e ↦ ground (arith, missing_less b m k h)
  | inr (c, e) ↦ ground (arith, e, h b c e, missing_less b m k h)
]

pub missing_next :
    (b n c : ℕ) (m : Assoc ℕ)
    → lookup n m ≡ none
    → missing b ((n, c) ∷ m) + (if ltb n b then 1 else 0) ≡ missing b m
missing_next zero n c m e = ground arith
missing_next (suc b) n c m e = elim (Bool-cases (n == b)) [
  | inl q ↦
      let z : n ≡ b = ground (arith, q) in
      ground (arith, q, e, ap (λ k. lookup k m) z, missing_next b n c m e)
  | inr q ↦ ground (arith, q, e, missing_next b n c m e)
]

module _ (orig : Fs) where
  -- c is the finished copy of n
  pub record IsCopy (s : Cloning) (n c : ℕ) : Type 0 where
    pub kind : (s.fs.node c).is_dir ≡ (orig.node n).is_dir
    pub perm : (s.fs.node c).perm ≡ (orig.node n).perm
    pub contents : (s.fs.node c).contents ≡ (orig.node n).contents
    pub mod_time : (s.fs.node c).mod_time ≡ (orig.node n).mod_time
    pub named :
        (orig.node n).is_dir ≡ true → Matches s.copies (orig.node n).entries (s.fs.node c).entries
    pub no_names : (orig.node n).is_dir ≡ false → (s.fs.node c).entries ≡ []
    pub above :
        (orig.node n).is_dir ≡ true
        → n ≢ orig.root
        → (q : ℕ) × (d : ℕ) × ((orig.node n).parent ≡ some q)
          × (lookup q s.copies ≡ some d)
          × ((s.fs.node c).parent ≡ some d)
    pub no_parent : (orig.node n).is_dir ≡ false → (s.fs.node c).parent ≡ none

  pub record IsSound (s : Cloning) : Type 0 where
    pub base : orig.next ≤ s.fs.next
    pub left : (j : ℕ) → j < orig.next → s.fs.node j ≡ orig.node j
    pub keys :
        (n c : ℕ) → lookup n s.copies ≡ some c → (n < orig.next) × (orig.next ≤ c) × (c < s.fs.next)
    pub distinct : (n m c : ℕ) → lookup n s.copies ≡ some c → lookup m s.copies ≡ some c → n ≡ m

  -- what a call of clone does: what there was stays, and each new copy is finished
  pub record Extends (s t : Cloning) : Type 0 where
    pub kept : (n c : ℕ) → lookup n s.copies ≡ some c → lookup n t.copies ≡ some c
    pub old : (j : ℕ) → j < s.fs.next → t.fs.node j ≡ s.fs.node j
    pub grown : s.fs.next ≤ t.fs.next
    pub fresh :
        (n c : ℕ)
        → lookup n t.copies ≡ some c
        → (lookup n s.copies ≡ some c) ⊎ ((s.fs.next ≤ c) × (c < t.fs.next) × IsCopy t n c)

  Matches-kept :
      (m k : Assoc ℕ) (es ds : Entries)
      → ((n c : ℕ) → lookup n m ≡ some c → lookup n k ≡ some c)
      → Matches m es ds
      → Matches k es ds
  Matches-kept m k [] [] h e = tt
  Matches-kept m k [] (d ∷ ds) h e = absurd e
  Matches-kept m k (e ∷ es) [] h p = absurd p
  Matches-kept m k ((x, n) ∷ es) ((y, d) ∷ ds) h p = (p.0, h n d p.1, Matches-kept m k es ds h p.2)

  -- A copy stays one when its node does and the map grows.
  pub IsCopy-kept :
      (s t : Cloning) (n c : ℕ)
      → ((m e : ℕ) → lookup m s.copies ≡ some e → lookup m t.copies ≡ some e)
      → t.fs.node c ≡ s.fs.node c
      → IsCopy s n c
      → IsCopy t n c
  IsCopy-kept s t n c h e k = record {
    kind = ap (λ v. v.is_dir) e ∙ k.kind;
    perm = ap (λ v. v.perm) e ∙ k.perm;
    contents = ap (λ v. v.contents) e ∙ k.contents;
    mod_time = ap (λ v. v.mod_time) e ∙ k.mod_time;
    named = λ d.
        subst (λ v. Matches t.copies (orig.node n).entries v.entries) (sym e)
          (Matches-kept s.copies t.copies (orig.node n).entries (s.fs.node c).entries h
            (k.named d));
    no_names = λ d. ap (λ v. v.entries) e ∙ k.no_names d;
    above =
        λ d r. let (q, u, x, y, z) = k.above d r in (q, u, x, h q u y, ap (λ v. v.parent) e ∙ z);
    no_parent = λ d. ap (λ v. v.parent) e ∙ k.no_parent d;
  }

  pub Extends-refl : (s : Cloning) → Extends s s
  Extends-refl s = record {
    kept = λ n c h. h;
    old = λ j h. refl;
    grown = omega arith;
    fresh = λ n c h. inl h;
  }

  pub Extends-trans : (s t u : Cloning) → Extends s t → Extends t u → Extends s u
  Extends-trans s t u a b = record {
    kept = λ n c h. b.kept n c (a.kept n c h);
    old = λ j h. b.old j (omega (arith, h, a.grown)) ∙ a.old j h;
    grown = omega (arith, a.grown, b.grown);
    fresh = λ n c h. elim (b.fresh n c h) [
      | inr (x, y, k) ↦ inr (omega (arith, x, a.grown), y, k)
      | inl k ↦ elim (a.fresh n c k) [
        | inl l ↦ inl l
        | inr (x, y, l) ↦
            inr (x, omega (arith, y, b.grown), IsCopy-kept t u n c b.kept (b.old c y) l)
      ]
    ];
  }
