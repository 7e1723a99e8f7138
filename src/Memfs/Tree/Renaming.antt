-- ===== src/Memfs/Tree/Renaming.antt =====
-- RenameAt: its search for the moved directory among the ancestors ends, and the rename keeps the tree.
use pgzero.Base.{
  ℕ, zero, suc, ◌≤◌, ◌<◌, ◌≡◌, refl, sym, ap, subst, ◌∙◌, ◌⊎◌, inl, inr, Bool, true, false, Option,
  none, some, arith, ℕ_discrete, if◌then◌else◌, Bool-cases, Option-cases,
}
use pgzero.Memfs.{einval, Name, Fs}
use pgzero.Memfs.Entries.{find_empty, find}
use pgzero.Memfs.Path.{Located, located, not_located, crashed}
use pgzero.Memfs.Namespace.{Answer, done, refused, crashes, unfinished, remove_entry}
use pgzero.Memfs.Tree.{View, view, enter, reparent, Chain, Avoids, IsTree}
use pgzero.Memfs.Tree.Operations.{Promises, promise}
use pgzero.Memfs.Tree.Views.{view-add_entry, view-remove_entry, view-set_parent}
use pgzero.Memfs.Rename.{
  Ancestry, inside, outside, nil_parent, loops, ancestry, target_error, set_parent, relink, move,
  onto, rename_found, rename_located,
}

outside-Avoids : (fuel n d : ℕ) (fs : Fs) → ancestry fuel n d fs ≡ outside → Avoids (view fs) n d
unfolding ancestry view
outside-Avoids zero n d fs h = cc
outside-Avoids (suc fuel) n d fs h = elim (ℕ_discrete d fs.root) [
  | yes r ↦ subst (Avoids (view fs) n) (sym r) (Avoids.top (λ e. ground arith))
  | no r ↦ elim (Option-cases (fs.node d).parent) [
    | inl e ↦ absurd (ground arith)
    | inr (p, e) ↦
        Avoids.up {d = d} {p = p} (λ q. ground arith) e (outside-Avoids fuel n p fs (ground arith))
  ]
]

-- The loop has an answer with any fuel from k on.
abbrev pub Ends : ℕ → ℕ → Fs → ℕ → Type 0
Ends n d fs k = (m : ℕ) → k ≤ m → (ancestry m n d fs ≡ inside) ⊎ (ancestry m n d fs ≡ outside)

one_up : (n d p k : ℕ) (fs : Fs) → (fs.node d).parent ≡ some p → Ends n p fs k → Ends n d fs (suc k)
unfolding ancestry
one_up n d p k fs e h zero l = absurd (omega arith)
one_up n d p k fs e h (suc m) l = ground (arith, h m (omega arith))

at_root : (n : ℕ) (fs : Fs) → Ends n fs.root fs 1
unfolding ancestry
at_root n fs zero l = absurd (omega arith)
at_root n fs (suc m) l = ground arith

Chain-Ends : (n : ℕ) (fs : Fs) {d : ℕ} → Chain (view fs) d → (k : ℕ) × Ends n d fs k
unfolding view
Chain-Ends n fs Chain.top = (1, at_root n fs)
Chain-Ends n fs (Chain.up {d = d} {p = p} dir made par c) =
    let (k, h) = Chain-Ends n fs c in (suc k, one_up n d p k fs par h)

-- The search of RenameAt ends: in a tree, from any directory there is fuel enough for an answer, with
-- which, and with any more, the loop finds the directory inside or outside.
pub ancestry-Ends :
    (n d : ℕ) (fs : Fs)
    → IsTree (view fs)
    → d < fs.next
    → (fs.node d).is_dir ≡ true
    → (k : ℕ) × Ends n d fs k
unfolding view
ancestry-Ends n d fs t made dir = Chain-Ends n fs (t.chain d made dir)

-- The namespace after n has got a new name.
abbrev pub renamed : ℕ → Name → ℕ → Name → ℕ → View → View
renamed odir obase ndir nbase n v =
    enter ndir nbase (some n) (enter odir obase none (if v.is_dir n then reparent n ndir v else v))

abbrev pub Moves : ℕ → Name → ℕ → Name → ℕ → Fs → View → Type 0
Moves odir obase ndir nbase n fs v =
    ((fs.node n).is_dir ≡ true → Avoids (view fs) n ndir)
    × (v ≡ renamed odir obase ndir nbase n (view fs))

view-relink :
    (now odir : ℕ) (obase : Name) (ndir : ℕ) (nbase : Name) (n : ℕ) (fs : Fs)
    → view (relink now odir obase ndir nbase n fs)
      ≡ enter ndir nbase (some n) (enter odir obase none (view fs))
unfolding relink
view-relink now odir obase ndir nbase n fs =
    view-add_entry now ndir nbase n (remove_entry now odir obase fs)
    ∙ ap (enter ndir nbase (some n)) (view-remove_entry now odir obase fs)

view_parent : (n d : ℕ) (fs : Fs) → view (set_parent n d fs) ≡ reparent n d (view fs)
unfolding set_parent
view_parent n d fs = view-set_parent n d fs

chosen :
    (v : View) (n d : ℕ) (b : Bool)
    → v.is_dir n ≡ b
    → (if v.is_dir n then reparent n d v else v) ≡ (if b then reparent n d v else v)
chosen v n d b k = ap (λ c. if c then reparent n d v else v) k

move_dir-Promises :
    (fuel now odir : ℕ) (obase : Name) (ndir : ℕ) (nbase : Name) (n : ℕ) (fs : Fs) (a : Ancestry)
    → ancestry fuel n ndir fs ≡ a
    → (fs.node n).is_dir ≡ true
    → Promises (Moves odir obase ndir nbase n fs) (move fuel now odir obase ndir nbase n fs) fs
unfolding move view
move_dir-Promises fuel now odir obase ndir nbase n fs inside e k =
    promise (Moves odir obase ndir nbase n fs) fs (refused einval, fs) (rw (k, e, move) refl) refl
move_dir-Promises fuel now odir obase ndir nbase n fs nil_parent e k =
    promise (Moves odir obase ndir nbase n fs) fs (crashes, fs) (rw (k, e, move) refl) refl
move_dir-Promises fuel now odir obase ndir nbase n fs loops e k =
    promise (Moves odir obase ndir nbase n fs) fs (unfinished, fs) (rw (k, e, move) refl) refl
move_dir-Promises fuel now odir obase ndir nbase n fs outside e k =
    promise (Moves odir obase ndir nbase n fs) fs
      (done, relink now odir obase ndir nbase n (set_parent n ndir fs)) (rw (k, e, move) refl)
      (
        (λ _. outside-Avoids fuel n ndir fs e),
        view-relink now odir obase ndir nbase n (set_parent n ndir fs)
            ∙ ap (λ w. enter ndir nbase (some n) (enter odir obase none w))
                (view_parent n ndir fs ∙ sym (chosen (view fs) n ndir true k)),
      )

move-Promises :
    (fuel now odir : ℕ) (obase : Name) (ndir : ℕ) (nbase : Name) (n : ℕ) (fs : Fs)
    → Promises (Moves odir obase ndir nbase n fs) (move fuel now odir obase ndir nbase n fs) fs
unfolding view move
move-Promises fuel now odir obase ndir nbase n fs = elim (Bool-cases (fs.node n).is_dir) [
  | inl k ↦ move_dir-Promises fuel now odir obase ndir nbase n fs (ancestry fuel n ndir fs) refl k
  | inr k ↦
      promise (Moves odir obase ndir nbase n fs) fs (done, relink now odir obase ndir nbase n fs)
        (rw (k, move) refl)
        (
          (λ q. absurd (ground arith)),
          view-relink now odir obase ndir nbase n fs
              ∙ ap (λ w. enter ndir nbase (some n) (enter odir obase none w))
                  (sym (chosen (view fs) n ndir false k)),
        )
]

-- What RenameAt does to the namespace where it is done: nothing where both names are the node's; otherwise
-- the node has the new name instead of the old one, a target that had the name was of the same kind and
-- had no entries, and a directory does not go into its own subtree.
abbrev pub Renames : Located → Located → Fs → View → Type 0
Renames old new fs v =
    (odir : ℕ) × (obase : Name) × (ndir : ℕ) × (nbase : Name) × (n : ℕ) × (old ≡ located odir obase)
    × (new ≡ located ndir nbase)
    × ((view fs).entry odir obase ≡ some n)
    × ((((view fs).entry ndir nbase ≡ some n) × (v ≡ view fs))
        ⊎ (((t : ℕ)
              → (view fs).entry ndir nbase ≡ some t
              → ((view fs).is_dir t ≡ (view fs).is_dir n)
                × ((view fs).is_dir t ≡ true → (x : Name) → (view fs).entry t x ≡ none))
            × Moves odir obase ndir nbase n fs v))

promise_map :
    (c d : View → Type 0) (r : Answer × Fs) (fs : Fs)
    → ((v : View) → c v → d v)
    → Promises c r fs
    → Promises d r fs
promise_map c d (done, t) fs k h = k (view t) h
promise_map c d (refused e, t) fs k h = h
promise_map c d (crashes, t) fs k h = h
promise_map c d (unfinished, t) fs k h = h

target_fits :
    (n t : ℕ) (fs : Fs)
    → target_error n t fs ≡ none
    → ((fs.node t).is_dir ≡ (fs.node n).is_dir)
      × ((fs.node t).is_dir ≡ true → (x : Name) → find x (fs.node t).entries ≡ none)
unfolding target_error
target_fits n t fs h = (ground arith, λ k x. find_empty (fs.node t).entries (ground arith) x)

onto-Promises :
    (fuel now odir : ℕ) (obase : Name) (ndir : ℕ) (nbase : Name) (fs : Fs) (n : ℕ) (o : Option ℕ)
    → find obase (fs.node odir).entries ≡ some n
    → find nbase (fs.node ndir).entries ≡ o
    → Promises
        (Renames (located odir obase) (located ndir nbase) fs)
        (onto fuel now odir obase ndir nbase fs n o)
        fs
unfolding onto view
onto-Promises fuel now odir obase ndir nbase fs n none e f =
    promise_map (Moves odir obase ndir nbase n fs)
      (Renames (located odir obase) (located ndir nbase) fs)
      (move fuel now odir obase ndir nbase n fs) fs
      (λ v h. (odir, obase, ndir, nbase, n, refl, refl, e, inr ((λ t g. absurd (ground arith)), h)))
      (move-Promises fuel now odir obase ndir nbase n fs)
onto-Promises fuel now odir obase ndir nbase fs n (some t) e f = elim (ℕ_discrete t n) [
  | yes q ↦
      promise (Renames (located odir obase) (located ndir nbase) fs) fs (done, fs) (ground arith)
        (odir, obase, ndir, nbase, n, refl, refl, e, inl (f ∙ ap some q, refl))
  | no q ↦ elim (Option-cases (target_error n t fs)) [
    | inr (x, g) ↦
        promise (Renames (located odir obase) (located ndir nbase) fs) fs (refused x, fs)
          (ground arith) refl
    | inl g ↦
        promise (Renames (located odir obase) (located ndir nbase) fs) fs
          (move fuel now odir obase ndir nbase n fs) (ground arith)
          (promise_map (Moves odir obase ndir nbase n fs)
            (Renames (located odir obase) (located ndir nbase) fs)
            (move fuel now odir obase ndir nbase n fs) fs
            (λ v h. (
              odir,
              obase,
              ndir,
              nbase,
              n,
              refl,
              refl,
              e,
              inr (
                λ u i.
                    let same_u : t ≡ u = ground arith in
                    subst
                      (λ u.
                        ((fs.node u).is_dir ≡ (fs.node n).is_dir)
                        × ((fs.node u).is_dir ≡ true
                            → (x : Name) → find x (fs.node u).entries ≡ none))
                      same_u (target_fits n t fs g),
                h,
              ),
            ))
            (move-Promises fuel now odir obase ndir nbase n fs))
  ]
]

found-Promises :
    (fuel now odir : ℕ) (obase : Name) (ndir : ℕ) (nbase : Name) (fs : Fs) (o : Option ℕ)
    → find obase (fs.node odir).entries ≡ o
    → Promises
        (Renames (located odir obase) (located ndir nbase) fs)
        (rename_found fuel now odir obase ndir nbase fs o)
        fs
unfolding rename_found
found-Promises fuel now odir obase ndir nbase fs none e = refl
found-Promises fuel now odir obase ndir nbase fs (some n) e =
    onto-Promises fuel now odir obase ndir nbase fs n (find nbase (fs.node ndir).entries) e refl

-- RenameAt of two names, located in their directories, with any fuel: if it is not done it has changed
-- nothing; if it is done, the namespace has changed as `Renames` says and in no other way.
pub rename_located-Promises :
    (fuel now : ℕ) (old new : Located) (fs : Fs)
    → Promises (Renames old new fs) (rename_located fuel now old new fs) fs
unfolding rename_located
rename_located-Promises fuel now (located odir obase) (located ndir nbase) fs =
    found-Promises fuel now odir obase ndir nbase fs (find obase (fs.node odir).entries) refl
rename_located-Promises fuel now (located odir obase) (not_located e) fs = refl
rename_located-Promises fuel now (located odir obase) crashed fs = refl
rename_located-Promises fuel now (not_located e) new fs = refl
rename_located-Promises fuel now crashed new fs = refl
