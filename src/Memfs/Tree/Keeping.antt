-- ===== src/Memfs/Tree/Keeping.antt =====
-- Any operations on a filesystem, in any order, keep its directories a tree.
use pgzero.Base.{
  ℕ, ◌<◌, ◌≡◌, refl, sym, ap, subst, ◌∙◌, ◌≢◌, ◌⊎◌, inl, inr, true, false, Option, none, some,
  arith, if◌then◌else◌, Bool-cases, Option-cases,
}
use text.Mathlib.TextEquality.{eq_iff}
use pgzero.Memfs.{eperm, eexist, Name, Fs, FsError}
use pgzero.Memfs.Entries.{find}
use pgzero.Memfs.Path.{
  Walked, at, fails, panics, Located, located, not_located, crashed, resolve, resolve_parent,
}
use pgzero.Memfs.Namespace.{done, refused, add_entry, new_dir}
use pgzero.Memfs.Tree.{View, view, enter, reparent, Avoids, IsTree, IsLoose}
use pgzero.Memfs.Tree.Steps.{enter-IsTree, leave-IsTree, reparent-IsTree}
use pgzero.Memfs.Tree.Operations.{promise, Promises, kept}
use pgzero.Memfs.Tree.Views.{view-add_entry, resolve_made, resolve_parent-IsGood, IsGood}
use pgzero.Memfs.Tree.Renaming.{renamed, Renames, rename_located-Promises}
use pgzero.Memfs.Rename.{
  rename_located, rename_at, rename_into, link_into, other_dir, link_at, link_walked, link_in,
}

Avoids-kept :
    (v w : View) (n : ℕ)
    → w.root ≡ v.root
    → w.parent ≡ v.parent
    → {d : ℕ} → Avoids v n d
    → Avoids w n d
Avoids-kept v w n r p (Avoids.top q) = subst (Avoids w n) r (Avoids.top (λ e. q (sym r ∙ e)))
Avoids-kept v w n r p (Avoids.up {d = d} {p = u} q par a) =
    Avoids.up {d = d} {p = u} q (ap (λ f. f d) p ∙ par) (Avoids-kept v w n r p a)

-- After its only name is gone, a directory is loose.
left-IsLoose :
    (d : ℕ) (x : Name) (n : ℕ) (v : View)
    → IsTree v
    → v.entry d x ≡ some n
    → v.is_dir n ≡ true
    → IsLoose n (enter d x none v)
unfolding enter
left-IsLoose d x n v t h k e y g =
    ground (arith, t.child e y n, t.child d x n h k, eq_iff x y, t.once d x y n h)

renamed_dir-IsTree :
    (odir : ℕ) (obase : Name) (ndir : ℕ) (nbase : Name) (n : ℕ) (v : View)
    → IsTree v
    → v.entry odir obase ≡ some n
    → v.is_dir n ≡ true
    → ndir < v.next
    → v.is_dir ndir ≡ true
    → Avoids v n ndir
    → IsTree (enter ndir nbase (some n) (enter odir obase none (reparent n ndir v)))
unfolding enter reparent
renamed_dir-IsTree odir obase ndir nbase n v t h k made dir a =
    let left : View = enter odir obase none v in
    let loose : IsLoose n left = left-IsLoose odir obase n v t h k in
    let moved : IsTree (reparent n ndir left) =
      reparent-IsTree n ndir left (leave-IsTree odir obase v t) (t.held odir obase n h).1 k loose
        made dir (Avoids-kept v left n refl refl a) in
    enter-IsTree ndir nbase n (reparent n ndir left) moved made dir (t.held odir obase n h).0
      (t.held odir obase n h).1 (λ _. (ground arith, loose))

renamed_file-IsTree :
    (odir : ℕ) (obase : Name) (ndir : ℕ) (nbase : Name) (n : ℕ) (v : View)
    → IsTree v
    → v.entry odir obase ≡ some n
    → v.is_dir n ≡ false
    → ndir < v.next
    → v.is_dir ndir ≡ true
    → IsTree (enter ndir nbase (some n) (enter odir obase none v))
unfolding enter
renamed_file-IsTree odir obase ndir nbase n v t h k made dir =
    enter-IsTree ndir nbase n (enter odir obase none v) (leave-IsTree odir obase v t) made dir
      (t.held odir obase n h).0 (t.held odir obase n h).1 (λ q. absurd (ground arith))

renamed-IsTree :
    (odir : ℕ) (obase : Name) (ndir : ℕ) (nbase : Name) (n : ℕ) (v : View)
    → IsTree v
    → v.entry odir obase ≡ some n
    → ndir < v.next
    → v.is_dir ndir ≡ true
    → (v.is_dir n ≡ true → Avoids v n ndir)
    → IsTree (renamed odir obase ndir nbase n v)
renamed-IsTree odir obase ndir nbase n v t h made dir a = elim (Bool-cases (v.is_dir n)) [
  | inl k ↦
      subst
        (λ b.
          IsTree (
            enter ndir nbase (some n) (enter odir obase none (if b then reparent n ndir v else v))))
        (sym k) (renamed_dir-IsTree odir obase ndir nbase n v t h k made dir (a k))
  | inr k ↦
      subst
        (λ b.
          IsTree (
            enter ndir nbase (some n) (enter odir obase none (if b then reparent n ndir v else v))))
        (sym k) (renamed_file-IsTree odir obase ndir nbase n v t h k made dir)
]

rename_located-IsTree :
    (fuel now : ℕ) (old new : Located) (fs : Fs)
    → IsTree (view fs)
    → IsGood new fs
    → IsTree (view (rename_located fuel now old new fs).1)
unfolding view
rename_located-IsTree fuel now old new fs t good =
    kept (Renames old new fs) (rename_located fuel now old new fs) fs t
      (rename_located-Promises fuel now old new fs)
      (λ v (odir, obase, ndir, nbase, n, lo, ln, h, w). elim w [
        | inl (same_node, e) ↦ subst IsTree (sym e) t
        | inr (fits, m) ↦ subst IsTree (sym m.1) (
            renamed-IsTree odir obase ndir nbase n (view fs) t h (good ndir nbase ln).0
              (good ndir nbase ln).1 m.0)
      ])

other_dir_made :
    (new_dir : Option ℕ) (nd : ℕ) (fs : Fs)
    → ((d : ℕ) → new_dir ≡ some d → d < fs.next)
    → other_dir new_dir fs ≡ inl nd
    → nd < fs.next
unfolding other_dir
other_dir_made none nd fs made h = cc
other_dir_made (some d) nd fs made h = ground (arith, made d refl)

rename_into-IsTree :
    (fuel now dir : ℕ) (old new : Name) (fs : Fs) (to : ℕ ⊎ FsError)
    → IsTree (view fs)
    → ((nd : ℕ) → to ≡ inl nd → nd < fs.next)
    → IsTree (view (rename_into fuel now old new dir fs to).1)
unfolding rename_into
rename_into-IsTree fuel now dir old new fs (inr e) t made = t
rename_into-IsTree fuel now dir old new fs (inl nd) t made =
    rename_located-IsTree fuel now (resolve_parent old dir fs) (resolve_parent new nd fs) fs t
      (resolve_parent-IsGood new nd fs t (made nd refl))

pub rename_at-IsTree :
    (fuel now dir : ℕ) (old : Name) (new_dir : Option ℕ) (new : Name) (fs : Fs)
    → IsTree (view fs)
    → ((d : ℕ) → new_dir ≡ some d → d < fs.next)
    → IsTree (view (rename_at fuel now old new_dir new dir fs).1)
unfolding rename_at
rename_at-IsTree fuel now dir old new_dir new fs t made =
    rename_into-IsTree fuel now dir old new fs (other_dir new_dir fs) t
      (λ nd e. other_dir_made new_dir nd fs made e)

-- LinkAt gives a regular file one more name, that was free.
abbrev pub Link : Walked → Located → Fs → View → Type 0
Link w l fs v =
    (n : ℕ) × (d : ℕ) × (b : Name) × (w ≡ at n)
    × (l ≡ located d b)
    × ((view fs).is_dir n ≡ false)
    × ((view fs).entry d b ≡ none)
    × (v ≡ enter d b (some n) (view fs))

link_in-Promises :
    (now n : ℕ) (l : Located) (fs : Fs)
    → (fs.node n).is_dir ≡ false
    → Promises (Link (at n) l fs) (link_in now n l fs) fs
unfolding link_in view
link_in-Promises now n (located d b) fs k = elim (Option-cases (find b (fs.node d).entries)) [
  | inr (c, e) ↦
      promise (Link (at n) (located d b) fs) fs (refused eexist, fs) (rw (e, link_in) refl) refl
  | inl e ↦
      promise (Link (at n) (located d b) fs) fs (done, add_entry now d b n fs)
        (rw (e, link_in) refl) (n, d, b, refl, refl, k, e, view-add_entry now d b n fs)
]
link_in-Promises now n (not_located e) fs k = refl
link_in-Promises now n crashed fs k = refl

link_walked-Promises :
    (now : ℕ) (w : Walked) (l : Located) (fs : Fs)
    → Promises (Link w l fs) (link_walked now w l fs) fs
unfolding link_walked
link_walked-Promises now (at n) l fs = elim (Bool-cases (fs.node n).is_dir) [
  | inl k ↦ promise (Link (at n) l fs) fs (refused eperm, fs) (rw (k, link_walked) refl) refl
  | inr k ↦
      promise (Link (at n) l fs) fs (link_in now n l fs) (rw (k, link_walked) refl)
        (link_in-Promises now n l fs k)
]
link_walked-Promises now (fails e) l fs = refl
link_walked-Promises now panics l fs = refl

not_root : (n : ℕ) (fs : Fs) → IsTree (view fs) → (fs.node n).is_dir ≡ false → n ≢ fs.root
unfolding view
not_root n fs t k q = ground (arith, t.root_dir)

link_into-IsTree :
    (now dir : ℕ) (old new : Name) (fs : Fs) (to : ℕ ⊎ FsError)
    → IsTree (view fs)
    → dir < fs.next
    → ((nd : ℕ) → to ≡ inl nd → nd < fs.next)
    → IsTree (view (link_into now old new dir fs to).1)
unfolding link_into view
link_into-IsTree now dir old new fs (inr e) t dir_made made = t
link_into-IsTree now dir old new fs (inl nd) t dir_made made =
    let w : Walked = resolve old dir fs in
    let l : Located = resolve_parent new nd fs in
    kept (Link w l fs) (link_walked now w l fs) fs t (link_walked-Promises now w l fs)
      (λ v (n, d, b, ew, el, k, free, e).
        let good : (d < fs.next) × ((fs.node d).is_dir ≡ true) =
          resolve_parent-IsGood new nd fs t (made nd refl) d b el in
        subst IsTree (sym e) (
          enter-IsTree d b n (view fs) t good.0 good.1 (resolve_made old dir n fs t dir_made ew)
            (λ q. absurd (not_root n fs t k q)) (λ q. absurd (ground arith))))

pub link_at-IsTree :
    (now dir : ℕ) (old : Name) (new_dir : Option ℕ) (new : Name) (fs : Fs)
    → IsTree (view fs)
    → dir < fs.next
    → ((d : ℕ) → new_dir ≡ some d → d < fs.next)
    → IsTree (view (link_at now old new_dir new dir fs).1)
unfolding link_at
link_at-IsTree now dir old new_dir new fs t dir_made made =
    link_into-IsTree now dir old new fs (other_dir new_dir fs) t dir_made
      (λ nd e. other_dir_made new_dir nd fs made e)
