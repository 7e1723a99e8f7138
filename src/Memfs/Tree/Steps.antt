-- ===== src/Memfs/Tree/Steps.antt =====
-- Each change of the namespace keeps the directories a tree.
use pgzero.Base.{
  ℕ, ◌≤◌, ◌<◌, ◌≡◌, refl, subst, ◌∙◌, ◌≢◌, Bool, true, false, Option, none, some, arith, ℕ_discrete,
}
use text.Mathlib.TextEquality.{eq_iff}
use pgzero.Memfs.{Name}
use pgzero.Memfs.Tree.{View, enter, make, reparent, Chain, Avoids, IsTree, IsLoose}

-- A chain stays where the directories, parents and made nodes of the chain do.
Chain-kept :
    (v w : View)
    → w.root ≡ v.root
    → v.next ≤ w.next
    → ((d : ℕ) → d < v.next → w.is_dir d ≡ v.is_dir d)
    → ((d : ℕ) → d < v.next → w.parent d ≡ v.parent d)
    → {d : ℕ} → Chain v d
    → Chain w d
Chain-kept v w r n k p Chain.top = subst (Chain w) r Chain.top
Chain-kept v w r n k p (Chain.up {d} dir made par c) =
    Chain.up (k d made ∙ dir) (omega arith) (p d made ∙ par) (Chain-kept v w r n k p c)

pub enter-IsTree :
    (d : ℕ) (x : Name) (c : ℕ) (v : View)
    → IsTree v
    → d < v.next
    → v.is_dir d ≡ true
    → c < v.next
    → c ≢ v.root
    → (v.is_dir c ≡ true → (v.parent c ≡ some d) × IsLoose c v)
    → IsTree (enter d x (some c) v)
unfolding enter
enter-IsTree d x c v t made dir c_made c_root alone = record {
  root_dir = t.root_dir;
  root_made = t.root_made;
  root_parent = t.root_parent;
  holder = λ e y n h. ground (arith, t.holder e y n);
  held = λ e y n h. ground (arith, t.held e y n);
  child = λ e y n h k. ground (arith, t.child e y n, alone);
  once = λ e y z n h g k.
      let not_y : v.is_dir c ≡ true → v.entry e y ≢ some c = λ q. (alone q).1 e y in
      let not_z : v.is_dir c ≡ true → v.entry e z ≢ some c = λ q. (alone q).1 e z in
      ground (arith, eq_iff x y, eq_iff x z, t.once e y z n);
  chain = λ e m k.
      Chain-kept v (enter d x (some c) v) refl (omega arith) (λ _ _. refl) (λ _ _. refl)
        (t.chain e m k);
  file_parent = t.file_parent;
}

pub leave-IsTree : (d : ℕ) (x : Name) (v : View) → IsTree v → IsTree (enter d x none v)
unfolding enter
leave-IsTree d x v t = record {
  root_dir = t.root_dir;
  root_made = t.root_made;
  root_parent = t.root_parent;
  holder = λ e y n h. ground (arith, t.holder e y n);
  held = λ e y n h. ground (arith, t.held e y n);
  child = λ e y n h k. ground (arith, t.child e y n);
  once = λ e y z n h g k. ground (arith, t.once e y z n);
  chain = λ e m k.
      Chain-kept v (enter d x none v) refl (omega arith) (λ _ _. refl) (λ _ _. refl)
        (t.chain e m k);
  file_parent = t.file_parent;
}

make-Chain : (dir : Bool) (p : Option ℕ) (v : View) {d : ℕ} → Chain v d → Chain (make dir p v) d
unfolding make
make-Chain dir p v c =
    Chain-kept v (make dir p v) refl (omega arith) (λ d h. ground arith) (λ d h. ground arith) c

pub make_file-IsTree : (v : View) → IsTree v → IsTree (make false none v)
unfolding make
make_file-IsTree v t = record {
  root_dir = ground (arith, t.root_dir, t.root_made);
  root_made = ground (arith, t.root_made);
  root_parent = ground (arith, t.root_parent, t.root_made);
  holder = λ e y n h. ground (arith, t.holder e y n);
  held = λ e y n h. ground (arith, t.held e y n);
  child = λ e y n h k. ground (arith, t.child e y n, t.held e y n);
  once = λ e y z n h g k. ground (arith, t.once e y z n, t.held e y n);
  chain = λ e m k. make-Chain false none v (t.chain e (ground arith) (ground arith));
  file_parent = λ c m k. ground (arith, t.file_parent c);
}

pub make_dir-IsTree :
    (d : ℕ) (v : View) → IsTree v → d < v.next → v.is_dir d ≡ true → IsTree (make true (some d) v)
unfolding make
make_dir-IsTree d v t d_made d_dir = record {
  root_dir = ground (arith, t.root_dir, t.root_made);
  root_made = ground (arith, t.root_made);
  root_parent = ground (arith, t.root_parent, t.root_made);
  holder = λ e y n h. ground (arith, t.holder e y n);
  held = λ e y n h. ground (arith, t.held e y n);
  child = λ e y n h k. ground (arith, t.child e y n, t.held e y n);
  once = λ e y z n h g k. ground (arith, t.once e y z n, t.held e y n);
  chain = λ e m k. elim (ℕ_discrete v.next e) [
    | yes q ↦
        Chain.up {d = e} {p = d} (ground arith) (ground arith) (ground arith)
          (make-Chain true (some d) v (t.chain d d_made d_dir))
    | no q ↦ make-Chain true (some d) v (t.chain e (ground arith) (ground arith))
  ];
  file_parent = λ c m k. ground (arith, t.file_parent c);
}

-- The chain of a directory that does not meet n has no use of n's parent.
avoided : (n d : ℕ) (v : View) {e : ℕ} → Avoids v n e → Chain v e → Chain (reparent n d v) e
unfolding reparent
avoided n d v (Avoids.top r) c = Chain.top
avoided n d v (Avoids.up q par a) Chain.top = Chain.top
avoided n d v (Avoids.up {d = e} {p = p} q par a) (Chain.up {p = p'} dir made par' c) =
    let same_p : p' ≡ p = ground arith in
    Chain.up dir made (ground arith) (avoided n d v a (subst (Chain v) same_p c))

moved :
    (n d : ℕ) (v : View) → Chain (reparent n d v) d → {e : ℕ} → Chain v e → Chain (reparent n d v) e
unfolding reparent
moved n d v above Chain.top = Chain.top
moved n d v above (Chain.up {d = e} {p = p} dir made par c) = elim (ℕ_discrete n e) [
  | yes q ↦ Chain.up {d = e} {p = d} dir made (ground arith) above
  | no q ↦ Chain.up {d = e} {p = p} dir made (ground arith) (moved n d v above c)
]

pub reparent-IsTree :
    (n d : ℕ) (v : View)
    → IsTree v
    → n ≢ v.root
    → v.is_dir n ≡ true
    → IsLoose n v
    → d < v.next
    → v.is_dir d ≡ true
    → Avoids v n d
    → IsTree (reparent n d v)
unfolding reparent
reparent-IsTree n d v t n_root n_dir loose made dir a = record {
  root_dir = t.root_dir;
  root_made = t.root_made;
  root_parent = ground (arith, t.root_parent);
  holder = t.holder;
  held = t.held;
  child = λ e y c h k. ground (arith, t.child e y c, loose e y);
  once = t.once;
  chain = λ e m k. moved n d v (avoided n d v a (t.chain d made dir)) (t.chain e m k);
  file_parent = λ c m k. ground (arith, t.file_parent c);
}
