-- ===== src/Memfs/Clone/Independent.antt =====
-- Clone makes a copy of its own of every node that the root leads to.
use pgzero.Base.{
  ℕ, zero, suc, ◌+◌, ◌<◌, ◌≡◌, refl, sym, ap, subst, ◌∙◌, ◌≢◌, inl, inr, true, false, Option, none,
  some, [], arith, ◌==◌, Bool-cases, Option-cases, Assoc, lookup,
}
use pgzero.Memfs.{Name, Node, Fs, set_node}
use pgzero.Memfs.Entries.{find, AllDiffer}
use pgzero.Memfs.Tree.{view, IsTree}
use pgzero.Memfs.Clone.{Cloning, clone_node, clone}
use pgzero.Memfs.Clone.Sound.{missing, IsCopy, IsSound, Extends}
use pgzero.Memfs.Clone.Loop.{AreHeld, Cloned}
use pgzero.Memfs.Clone.Nodes.{clone_node-Cloned}
use pgzero.Memfs.Clone.Contract.{IsEntry, Matches-IsEntry, IsClone, AreHeld-find}

module _ (fs : Fs) (tree : IsTree (view fs))
    (differ : (d : ℕ) → d < fs.next → AllDiffer (fs.node d).entries) where
  held : (d : ℕ) → d < fs.next → (fs.node d).is_dir ≡ true → AreHeld fs d (fs.node d).entries
  unfolding view
  held d l k =
      AreHeld-find fs d (fs.node d).entries (differ d l)
        (λ x n e. ((tree.held d x n e).0, tree.child d x n e))

  start : Cloning
  start = record { copies = []; fs = fs }

  missing_all : (b : ℕ) → missing b [] < b + 1
  missing_all zero = omega arith
  missing_all (suc b) = omega (arith, missing_all b)

  copied_all : Cloned fs fs.root start (clone_node (fs.next + 1) fs.root none start)
  unfolding view start
  copied_all =
      clone_node-Cloned fs held (fs.next + 1) fs.root none start
        (record {
          base = omega arith;
          left = λ j h. refl;
          keys = λ n c h. ground (arith, h);
          distinct = λ n m c h. ground (arith, h);
        })
        tree.root_made (λ d r. absurd (r refl)) (missing_all fs.next)

  module _ (c : ℕ) (t : Cloning) (e : lookup fs.root t.copies ≡ some c) (ext : Extends fs start t)
      (i : IsSound fs t) where
    result : Fs
    result = record (set_node c (record (t.fs.node c) { parent = some c }) t.fs) { root = c }

    copy : (n d : ℕ) → lookup n t.copies ≡ some d → IsCopy fs t n d
    unfolding start
    copy n d h = elim (ext.fresh n d h) [ inl k ↦ absurd (ground (arith, k)) | inr (x, y, k) ↦ k ]

    result_other : (d : ℕ) → (c == d) ≡ false → result.node d ≡ t.fs.node d
    unfolding result
    result_other d h = rw h refl

    result_root : (result.node c).parent ≡ some c
    unfolding result
    result_root = ground arith

    -- all but the parent is as it was
    result_same :
        {A : Type 0} (g : Node → A)
        → ((v : Node) (q : Option ℕ) → g (record v { parent = q }) ≡ g v)
        → (d : ℕ) → g (result.node d) ≡ g (t.fs.node d)
    unfolding result
    result_same g h d = elim (Bool-cases (c == d)) [
      | inr k ↦ ap g (result_other d k)
      | inl k ↦
          let z : c ≡ d = ground (arith, k) in
          rw k (h (t.fs.node c) (some c) ∙ ap (λ j. g (t.fs.node j)) z)
    ]

    -- only the root's copy is the root
    other_root : (n d : ℕ) → lookup n t.copies ≡ some d → n ≢ fs.root → (c == d) ≡ false
    other_root n d h r = elim (Bool-cases (c == d)) [
      | inr k ↦ k
      | inl k ↦
          let z : c ≡ d = ground (arith, k) in
          absurd (r (i.distinct n fs.root d h (e ∙ ap (λ a. some a) z)))
    ]

    entries_copied :
        (n d : ℕ)
        → lookup n t.copies ≡ some d
        → (x : Name)
        → IsEntry t.copies (find x (fs.node n).entries) (find x (result.node d).entries)
    unfolding view
    entries_copied n d h x =
        subst (λ es. IsEntry t.copies (find x (fs.node n).entries) (find x es))
          (sym (result_same (λ v. v.entries) (λ v q. refl) d))
          (elim (Bool-cases (fs.node n).is_dir) [
            | inl k ↦
                Matches-IsEntry t.copies (fs.node n).entries (t.fs.node d).entries x
                  ((copy n d h).named k)
            | inr k ↦
                rw ((copy n d h).no_names k) (elim (Option-cases (find x (fs.node n).entries)) [
                  | inl o ↦ rw o tt
                  | inr (a, o) ↦ absurd (ground (arith, k, (tree.holder n x a o).1))
                ])
          ])

    parent_copied :
        (n d : ℕ)
        → lookup n t.copies ≡ some d
        → IsEntry t.copies (fs.node n).parent (result.node d).parent
    unfolding view
    parent_copied n d h = elim (Bool-cases (fs.node n).is_dir) [
      | inr k ↦
          let r : n ≢ fs.root =
            λ z. ground (arith, k, ap (λ j. (fs.node j).is_dir) z, tree.root_dir) in
          let a = result_other d (other_root n d h r) in
          rw
            (tree.file_parent n (i.keys n d h).0 k, ap (λ v. v.parent) a ∙ (copy n d h).no_parent k)
            tt
      | inl k ↦ elim (Bool-cases (n == fs.root)) [
        | inr z ↦
            let r : n ≢ fs.root = λ y. ground (arith, z, y) in
            let (q, u, x, y, w) = (copy n d h).above k r in
            let a = result_other d (other_root n d h r) in rw (x, ap (λ v. v.parent) a ∙ w) y
        | inl z ↦
            let y : n ≡ fs.root = ground (arith, z) in
            let g : c ≡ d = ground (arith, h, e, ap (λ j. lookup j t.copies) y) in
            rw
              (
                ap (λ j. (fs.node j).parent) y ∙ tree.root_parent,
                subst (λ j. (result.node j).parent ≡ some c) g result_root,
              )
              e
      ]
    ]

    result-IsClone : IsClone fs t.copies result
    unfolding start result
    result-IsClone = record {
      root = e;
      untouched = λ j l. result_other j (is_new j l) ∙ ext.old j l;
      apart = i.keys;
      distinct = i.distinct;
      alike = λ n d h.
          let k = copy n d h in
          (
            result_same (λ v. v.is_dir) (λ v q. refl) d ∙ k.kind,
            result_same (λ v. v.perm) (λ v q. refl) d ∙ k.perm,
            result_same (λ v. v.contents) (λ v q. refl) d ∙ k.contents,
            result_same (λ v. v.mod_time) (λ v q. refl) d ∙ k.mod_time,
          );
      entry = entries_copied;
      parent = parent_copied;
    }
      where
        is_new : (j : ℕ) → j < fs.next → (c == j) ≡ false
        is_new j l = ground (arith, l, (i.keys fs.root c e).1)

    clone-result :
        clone_node (fs.next + 1) fs.root none start ≡ some (c, t)
        → clone (fs.next + 1) fs ≡ some (result, t.copies)
    unfolding clone start result
    clone-result r = rw (r, clone) refl

  -- Clone of a filesystem whose directories are a tree and have each name once, with fuel for one call more than
  -- it has nodes: there is a result, and in it each copy is a new node of one original only, so that hard
  -- links stay together and the old nodes stay as they are. A copy has its original's kind, permissions,
  -- contents and time; its names are for the copies of what the original's names are for, and so is its
  -- parent; the copied root is the root.
  pub clone-IsClone :
      (m : Assoc ℕ) × (k : Fs) × (clone (fs.next + 1) fs ≡ some (k, m)) × IsClone fs m k
  clone-IsClone =
      let (c, t, r, e, ext, i) = copied_all in
      (t.copies, result c t e ext i, clone-result c t e ext i r, result-IsClone c t e ext i)
