-- ===== src/Memfs/Clone/Copies.antt =====
-- What the variable `clone` of Clone makes of a node.
use pgzero.Base.{
  ℕ, ◌<◌, ◌≡◌, refl, sym, ap, subst, ◌∙◌, ◌≢◌, inl, inr, true, false, Option, none, some, [], arith,
  ◌==◌, if◌then◌else◌, Bool-cases, lookup,
}
use pgzero.Memfs.{Node, Fs}
use pgzero.Memfs.Entries.{Entries}
use pgzero.Memfs.Clone.{Cloning, start_copy, set_entries}
use pgzero.Memfs.Clone.Sound.{Matches, IsCopy, IsSound, Extends, IsCopy-kept}
use pgzero.Memfs.Clone.Loop.{IsBelow}

-- a copy of v with its own entries and parent
abbrev pub copied : Entries → Option ℕ → Node → Node
copied es p v = record v { entries = es; parent = if v.is_dir then p else none }

module _ (orig : Fs) where
  -- where a node's copy is begun
  module _ (n : ℕ) (p : Option ℕ) (s : Cloning) (i : IsSound orig s) (b : n < orig.next)
      (e : lookup n s.copies ≡ none) where
    start_kept :
        (m c : ℕ) → lookup m s.copies ≡ some c → lookup m (start_copy n p s).copies ≡ some c
    unfolding start_copy
    start_kept m c h = elim (Bool-cases (n == m)) [
      | inr q ↦ rw q h
      | inl q ↦
          let z : n ≡ m = ground (arith, q) in ground (arith, e, h, ap (λ k. lookup k s.copies) z)
    ]

    start_old : (j : ℕ) → j < s.fs.next → (start_copy n p s).fs.node j ≡ s.fs.node j
    unfolding start_copy
    start_old j h = ground (arith, h)

    pub start-IsSound : IsSound orig (start_copy n p s)
    unfolding start_copy
    start-IsSound = record {
      base = omega (arith, i.base);
      left = λ j h. start_old j (omega (arith, h, i.base)) ∙ i.left j h;
      keys = λ m c h. ground (arith, h, b, i.base, i.keys m c);
      distinct = λ m k c x y. ground (arith, x, y, i.keys m c, i.keys k c, i.distinct m k c);
    }

    -- the copy's node, before and after its entries
    begun : (start_copy n p s).fs.node s.fs.next ≡ copied [] p (orig.node n)
    unfolding start_copy
    begun =
        let e : (start_copy n p s).fs.node s.fs.next ≡ copied [] p (s.fs.node n) = ground arith in
        e ∙ ap (copied [] p) (i.left n b)

    pub own_key : lookup n (start_copy n p s).copies ≡ some s.fs.next
    unfolding start_copy
    own_key = ground arith

    pub file-IsCopy : (orig.node n).is_dir ≡ false → IsCopy orig (start_copy n p s) n s.fs.next
    file-IsCopy f = record {
      kind = ap (λ v. v.is_dir) begun;
      perm = ap (λ v. v.perm) begun;
      contents = ap (λ v. v.contents) begun;
      mod_time = ap (λ v. v.mod_time) begun;
      named = λ d. ground (arith, d, f);
      no_names = λ d. ap (λ v. v.entries) begun;
      above = λ d. absurd (ground (arith, d, f));
      no_parent = λ d. ap (λ v. v.parent) begun ∙ rw d refl;
    }

    pub file-Extends :
        IsCopy orig (start_copy n p s) n s.fs.next → Extends orig s (start_copy n p s)
    unfolding start_copy
    file-Extends k = record {
      kept = start_kept;
      old = start_old;
      grown = omega arith;
      fresh = λ m c h. elim (Bool-cases (n == m)) [
        | inr q ↦ inl (rw q at h)
        | inl q ↦
            let z : n ≡ m = ground (arith, q) in
            let y : s.fs.next ≡ c = ground (arith, h, q) in
            inr (
              omega (arith, y),
              omega (arith, y),
              subst (λ a. IsCopy orig (start_copy n p s) m a) y
                  (subst (λ a. IsCopy orig (start_copy n p s) a s.fs.next) z k),
            )
      ];
    }

    -- where a directory's copy gets its entries
    module _ (ds : Entries) (t : Cloning) (ext : Extends orig (start_copy n p s) t)
        (j : IsSound orig t) where
      abbrev pub done : Cloning
      done = set_entries s.fs.next ds t

      next_kept : s.fs.next < t.fs.next
      unfolding start_copy
      next_kept = omega (arith, ext.grown)

      done_node : (k : ℕ) → s.fs.next ≢ k → done.fs.node k ≡ t.fs.node k
      unfolding set_entries
      done_node k h = ground (arith, h)

      finished : done.fs.node s.fs.next ≡ copied ds p (orig.node n)
      unfolding set_entries start_copy
      finished =
          let e : done.fs.node s.fs.next ≡ record (t.fs.node s.fs.next) { entries = ds } =
            ground arith in
          e ∙ ap (λ (v : Node). record v { entries = ds }) (ext.old s.fs.next (omega arith) ∙ begun)

      pub done-IsSound : IsSound orig done
      unfolding set_entries
      done-IsSound = record {
        base = j.base;
        left = λ k h. done_node k (λ e. omega (arith, h, i.base, e)) ∙ j.left k h;
        keys = j.keys;
        distinct = j.distinct;
      }

      pub done-IsCopy :
          (orig.node n).is_dir ≡ true
          → IsBelow orig n p s
          → Matches t.copies (orig.node n).entries ds
          → IsCopy orig done n s.fs.next
      unfolding set_entries
      done-IsCopy is_dir below m = record {
        kind = ap (λ v. v.is_dir) finished;
        perm = ap (λ v. v.perm) finished;
        contents = ap (λ v. v.contents) finished;
        mod_time = ap (λ v. v.mod_time) finished;
        named = λ d. subst (λ v. Matches t.copies (orig.node n).entries v.entries) (sym finished) m;
        no_names = λ d. absurd (ground (arith, d, is_dir));
        above = λ d r.
            let (q, a, x, y, z) = below d r in
            (q, a, x, ext.kept q a (start_kept q a y), ap (λ v. v.parent) finished ∙ (rw is_dir z));
        no_parent = λ d. absurd (ground (arith, d, is_dir));
      }

      pub done-Extends : IsCopy orig done n s.fs.next → Extends orig s done
      unfolding set_entries start_copy
      done-Extends k = record {
        kept = λ m c h. ext.kept m c (start_kept m c h);
        old = λ m h.
            done_node m (λ e. omega (arith, h, e)) ∙ ext.old m (omega (arith, h)) ∙ start_old m h;
        grown = omega (arith, next_kept);
        fresh = λ m c h. elim (ext.fresh m c h) [
          | inr (x, y, l) ↦ inr (
            omega (arith, x),
            y,
            IsCopy-kept orig t done m c (λ _ _ a. a) (done_node c (λ e. omega (arith, x, e))) l,
          )
          | inl l ↦ elim (Bool-cases (n == m)) [
            | inr q ↦ inl (rw q at l)
            | inl q ↦
                let z : n ≡ m = ground (arith, q) in
                let y : s.fs.next ≡ c = ground (arith, l, q) in
                inr (
                  omega (arith, y),
                  omega (arith, y, next_kept),
                  subst (λ a. IsCopy orig done m a) y
                      (subst (λ a. IsCopy orig done a s.fs.next) z k),
                )
          ]
        ];
      }
