-- ===== src/Memfs/Clone/Nodes.antt =====
-- The variable `clone` of Clone: with fuel for the nodes that are left, it returns a copy.
use pgzero.Base.{
  ℕ, zero, suc, ◌<◌, ◌≡◌, refl, sym, ap, subst, ◌∙◌, inl, inr, true, false, Option, none, some,
  arith, Bool-cases, Option-cases, lookup,
}
use pgzero.Memfs.{Fs}
use pgzero.Memfs.Entries.{Entries}
use pgzero.Memfs.Clone.{Cloning, start_copy, set_entries, clone_entries, clone_node}
use pgzero.Memfs.Clone.Sound.{Matches, missing, missing_next, IsSound, Extends-refl}
use pgzero.Memfs.Clone.Loop.{AreHeld, IsBelow, Cloned, Calls, clone_entries-AllCloned}
use pgzero.Memfs.Clone.Copies.{
  start-IsSound, own_key, file-IsCopy, file-Extends, done-IsSound, done-IsCopy, done-Extends,
}

clone_dir_next :
    (f n : ℕ) (p : Option ℕ) (s : Cloning) {ds : Entries} {t : Cloning}
    → lookup n s.copies ≡ none
    → (s.fs.node n).is_dir ≡ true
    → clone_entries
        (λ m q. clone_node f m (some q))
        s.fs.next
        (s.fs.node n).entries
        (start_copy n p s)
      ≡ some (ds, t)
    → clone_node (suc f) n p s ≡ some (s.fs.next, set_entries s.fs.next ds t)
unfolding clone_node
clone_dir_next f n p s e k r = rw (e, clone_node) (rw k (rw r refl))

module _ (orig : Fs)
    (held : (d : ℕ)
      → d < orig.next
      → (orig.node d).is_dir ≡ true
      → AreHeld orig d (orig.node d).entries) where
  pub clone_node-Cloned :
      (f n : ℕ) (p : Option ℕ) (s : Cloning)
      → IsSound orig s
      → n < orig.next
      → IsBelow orig n p s
      → missing orig.next s.copies < f
      → Cloned orig n s (clone_node f n p s)
  unfolding clone_node set_entries
  clone_node-Cloned zero n p s i b w m = absurd (omega (arith, m))
  clone_node-Cloned (suc f) n p s i b w m = elim (Option-cases (lookup n s.copies)) [
    | inr (c, e) ↦ (c, s, rw (e, clone_node) refl, e, Extends-refl orig s, i)
    | inl e ↦ elim (Bool-cases (s.fs.node n).is_dir) [
      | inr k ↦
          let o : (orig.node n).is_dir ≡ false = ap (λ v. v.is_dir) (sym (i.left n b)) ∙ k in
          (
            s.fs.next,
            start_copy n p s,
            rw (e, clone_node) (rw k refl),
            own_key orig n p s i b e,
            file-Extends orig n p s i b e (file-IsCopy orig n p s i b e o),
            start-IsSound orig n p s i b e,
          )
      | inl k ↦
          let o : (orig.node n).is_dir ≡ true = ap (λ v. v.is_dir) (sym (i.left n b)) ∙ k in
          let call : ℕ → ℕ → Cloning → Option (ℕ × Cloning) = λ a q. clone_node f a (some q) in
          let calls : Calls orig f call = λ a q t. clone_node-Cloned f a (some q) t in
          let es = (s.fs.node n).entries in
          let fuel : missing orig.next (start_copy n p s).copies < f =
            unfold start_copy in
            ground (arith, m, b, missing_next orig.next n s.fs.next s.copies e) in
          let (ds, t, r, y, ext, j) =
            clone_entries-AllCloned orig f call calls n s.fs.next es (start_copy n p s)
              (own_key orig n p s i b e)
              (subst (λ v. AreHeld orig n v.entries) (sym (i.left n b)) (held n b o))
              (start-IsSound orig n p s i b e) fuel in
          let z = subst (λ v. Matches t.copies v.entries ds) (i.left n b) y in
          (
            s.fs.next,
            set_entries s.fs.next ds t,
            clone_dir_next f n p s e k r,
            ext.kept n s.fs.next (own_key orig n p s i b e),
            done-Extends orig n p s i b e ds t ext j
                (done-IsCopy orig n p s i b e ds t ext j o w z),
            done-IsSound orig n p s i b e ds t ext j,
          )
    ]
  ]
