-- ===== src/Memfs/Listing/Pages.antt =====
-- Reading a directory page by page.
use pgzero.Base.{
  if◌then◌else◌, take-append-drop, ℕ, zero, suc, ◌+◌, ◌-◌, ◌≤◌, ◌<◌, ◌≡◌, refl, sym, ap, ◌∙◌, ◌≢◌,
  inl, inr, true, false, Option, none, some, List, [], ◌∷◌, ◌++◌, map, arith, dec_lt, ltb, leb,
  ◌==◌, Bool-cases, length, take, drop,
}
use text.Mathlib.TextEquality.{eq_iff}
use pgzero.Memfs.{Name, Fs, File, ok, err, eof}
use pgzero.Memfs.Entries.{same, find, AllDiffer, Entries}
use pgzero.Memfs.Listing.{Info, insert_name, sort_names, entry_info, read_dir}

-- A caller that reads `count` entries at a time until the end; none: still at it when the fuel is used up.
pub read_all : ℕ → ℕ → File → Fs → Option (List Info)
read_all zero count f fs = none
read_all (suc fuel) count f fs =
    let (page, f') = read_dir count f fs in
    let rest = read_all fuel count f' fs in
    elim page [
      | ok infos ↦ elim rest [ none ↦ none | some more ↦ some (infos ++ more) ]
      | err e ↦ some []
    ]

length-insert_name : (e : Name × ℕ) (es : Entries) → length (insert_name e es) ≡ suc (length es)
unfolding insert_name
length-insert_name e [] = refl
length-insert_name e (d ∷ ds) = ground (arith, length-insert_name e ds)

length-sort_names : (es : Entries) → length (sort_names es) ≡ length es
unfolding sort_names
length-sort_names [] = refl
length-sort_names (e ∷ es) = length-insert_name e (sort_names es) ∙ ap suc (length-sort_names es)

drop_nil : {A : Type 0} (n : ℕ) → drop {A = A} n [] ≡ []
drop_nil zero = refl
drop_nil (suc n) = refl

drop-drop : {A : Type 0} (p n : ℕ) (xs : List A) → drop n (drop p xs) ≡ drop (p + n) xs
drop-drop zero n xs = ap (λ k. drop k xs) (omega arith)
drop-drop (suc p) n [] = drop_nil n ∙ sym (drop_nil (suc p + n))
drop-drop (suc p) n (x ∷ xs) =
    let sum : suc (p + n) ≡ suc p + n = omega arith in
    drop-drop p n xs ∙ ap (λ k. drop k (x ∷ xs)) sum

drop_all : {A : Type 0} (n : ℕ) (xs : List A) → length xs ≤ n → drop n xs ≡ []
drop_all zero [] h = refl
drop_all (suc n) [] h = refl
drop_all zero (x ∷ xs) h = absurd (omega (arith, h))
drop_all (suc n) (x ∷ xs) h = drop_all n xs (omega arith)

map-append : {A B : Type 0} (f : A → B) (xs ys : List A) → map f (xs ++ ys) ≡ map f xs ++ map f ys
map-append f [] ys = refl
map-append f (x ∷ xs) ys = ap (λ zs. f x ∷ zs) (map-append f xs ys)

-- a page from p to e and what is left
page-drop :
    {A B : Type 0} (f : A → B) (p e : ℕ) (xs : List A)
    → p ≤ e
    → map f (take (e - p) (drop p xs)) ++ map f (drop e xs) ≡ map f (drop p xs)
page-drop f p e xs h =
    sym (map-append f (take (e - p) (drop p xs)) (drop e xs))
    ∙ ap (λ ys. map f (take (e - p) (drop p xs) ++ ys))
        (ap (λ k. drop k xs) (omega arith) ∙ sym (drop-drop p (e - p) xs))
    ∙ ap (map f) (take-append-drop (e - p) (drop p xs))

read_dir-end :
    (count : ℕ) (f : File) (fs : Fs)
    → (fs.node f.inode).is_dir ≡ true
    → count ≢ 0
    → length (sort_names (fs.node f.inode).entries) ≤ f.dir_pos
    → read_dir count f fs ≡ (err eof, f)
unfolding read_dir
read_dir-end count f fs d n h =
    let past : leb (length (sort_names (fs.node f.inode).entries)) f.dir_pos ≡ true =
      ground arith in
    let some_count : (count == 0) ≡ false = ground arith in rw (d, past, some_count, read_dir) refl

read_dir-page :
    (count : ℕ) (f : File) (fs : Fs)
    → (fs.node f.inode).is_dir ≡ true
    → count ≢ 0
    → f.dir_pos < length (sort_names (fs.node f.inode).entries)
    → (e : ℕ) × (f.dir_pos < e)
      × (read_dir count f fs ≡ (
        ok (
            map
              (entry_info fs)
              (take (e - f.dir_pos) (drop f.dir_pos (sort_names (fs.node f.inode).entries)))),
        record f { dir_pos = e },
      ))
unfolding read_dir
read_dir-page count f fs d n h =
    let names : Entries = sort_names (fs.node f.inode).entries in
    let inside : leb (length names) f.dir_pos ≡ false = ground arith in
    let some_count : (count == 0) ≡ false = ground arith in
    elim (Bool-cases (ltb (f.dir_pos + count) (length names))) [
      | inl l ↦ (f.dir_pos + count, omega arith, rw (d, inside, some_count, l, read_dir) refl)
      | inr l ↦ (length names, h, rw (d, inside, some_count, l, read_dir) refl)
    ]

read_all-drop :
    (fuel count : ℕ) (f : File) (fs : Fs)
    → (fs.node f.inode).is_dir ≡ true
    → count ≢ 0
    → length (sort_names (fs.node f.inode).entries) - f.dir_pos < fuel
    → read_all fuel count f fs
      ≡ some (map (entry_info fs) (drop f.dir_pos (sort_names (fs.node f.inode).entries)))
unfolding read_all
read_all-drop zero count f fs d n h = absurd (omega arith)
read_all-drop (suc fuel) count f fs d n h =
    let names : Entries = sort_names (fs.node f.inode).entries in
    elim (dec_lt f.dir_pos (length names)) [
      | yes l ↦
          let (e, m, page) = read_dir-page count f fs d n l in
          let rest : read_all fuel count (read_dir count f fs).1 fs
              ≡ some (map (entry_info fs) (drop e names)) =
            ap (λ r. read_all fuel count r.1 fs) page
            ∙ read_all-drop fuel count (record f { dir_pos = e }) fs d n (omega (arith, h, m, l)) in
          rw (page, read_all)
            (rw rest (ap some (page-drop (entry_info fs) f.dir_pos e names (omega (arith, m)))))
      | no l ↦
          rw (read_dir-end count f fs d n (omega (arith, l)), read_all)
            (ap (λ ys. some (map (entry_info fs) ys))
              (sym (drop_all f.dir_pos names (omega (arith, l)))))
    ]

find-insert_name :
    (k : Name) (e : Name × ℕ) (es : Entries)
    → find e.0 es ≡ none
    → find k (insert_name e es) ≡ (if same e.0 k then some e.1 else find k es)
unfolding insert_name
find-insert_name k e [] h = refl
find-insert_name k e (d ∷ ds) h =
    ground (arith, eq_iff e.0 k, eq_iff d.0 k, eq_iff d.0 e.0, find-insert_name k e ds)

find-sort_names : (k : Name) (es : Entries) → AllDiffer es → find k (sort_names es) ≡ find k es
unfolding sort_names
find-sort_names k [] u = refl
find-sort_names k (e ∷ es) u = ground (
  arith,
  find-insert_name k e (sort_names es),
  find-sort_names e.0 es u.1,
  find-sort_names k es u.1,
)

-- Reading a directory with different names that does not change, from its start and any number of entries
-- above 0 at a time, ends, and all pages together list each name of the directory once, with its node's
-- data.
pub read_all-lists :
    (count : ℕ) (f : File) (fs : Fs)
    → (fs.node f.inode).is_dir ≡ true
    → f.dir_pos ≡ 0
    → count ≢ 0
    → AllDiffer (fs.node f.inode).entries
    → (names : Entries) × (read_all (suc (length (fs.node f.inode).entries)) count f fs
        ≡ some (map (entry_info fs) names))
      × (length names ≡ length (fs.node f.inode).entries)
      × ((k : Name) → find k names ≡ find k (fs.node f.inode).entries)
read_all-lists count f fs d z n u =
    let es : Entries = (fs.node f.inode).entries in
    (
      sort_names es,
      read_all-drop (suc (length es)) count f fs d n (omega (arith, length-sort_names es))
          ∙ ap (λ p. some (map (entry_info fs) (drop p (sort_names es)))) z,
      length-sort_names es,
      λ k. find-sort_names k es u,
    )
