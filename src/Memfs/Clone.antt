-- ===== src/Memfs/Clone.antt =====
-- internal/memfs/memfs.go, Clone. The copy has its nodes in the same heap as the original. `none` is out of
-- fuel; a nested call of the code's `clone` takes one unit.
pub mod Sound
pub mod Loop
pub mod Copies
pub mod Nodes
pub mod Contract
pub mod Independent
mod Tests
use pgzero.Base.{
  ℕ, zero, suc, ◌+◌, ◌-◌, ◌*◌, ◌/◌, ◌%◌, ◌^◌, ◌≤◌, ◌<◌, min, max, ◌≡◌, refl, sym, ap, ap₂, subst,
  ◌∙◌, fun_ext, ◌≢◌, ◌↔◌, ◌⊎◌, inl, inr, Bool, true, false, ◌&&◌, ◌||◌, not, Option, none, some,
  List, [], ◌∷◌, ◌++◌, map, arith, dec_lt, dec_le, ℕ_discrete, ltb, leb, ◌==◌, if◌then◌else◌,
  is_empty, is_some, Bool-cases, Option-cases, length, take, drop, Assoc, lookup,
}
use pgzero.Memfs.{Name, Node, Fs, set_node}
use pgzero.Memfs.Entries.{Entries}

-- the map `copies`, and the heap
pub record Cloning : Type 0 where
  pub copies : Assoc ℕ
  pub fs : Fs

-- c, with no entries yet; n is not a key of copies
unfoldable pub start_copy : ℕ → Option ℕ → Cloning → Cloning
start_copy n p s =
    let v = s.fs.node n in
    let c = s.fs.next in
    record {
      copies = (n, c) ∷ s.copies;
      fs =
          record (set_node c (record v { entries = []; parent = if v.is_dir then p else none })
            s.fs) { next = c + 1 };
    }

unfoldable pub set_entries : ℕ → Entries → Cloning → Cloning
set_entries c es s = record s { fs = set_node c (record (s.fs.node c) { entries = es }) s.fs }

-- the loop over a directory's entries, by `call`
unfoldable pub clone_entries :
    (ℕ → ℕ → Cloning → Option (ℕ × Cloning)) → ℕ → Entries → Cloning → Option (Entries × Cloning)
clone_entries call c [] s = some ([], s)
clone_entries call c ((x, n) ∷ es) s = elim (call n c s) [
  | none ↦ none
  | some (d, t) ↦ elim (clone_entries call c es t) [
    | none ↦ none
    | some (ds, u) ↦ some ((x, d) ∷ ds, u)
  ]
]

-- the variable `clone`: the copy of a node
unfoldable pub clone_node : ℕ → ℕ → Option ℕ → Cloning → Option (ℕ × Cloning)
clone_node zero n p s = none
clone_node (suc f) n p s = elim (lookup n s.copies) [
  | some c ↦ some (c, s)
  | none ↦
      let c = s.fs.next in
      if (s.fs.node n).is_dir
      then elim (clone_entries (λ m q. clone_node f m (some q)) c (s.fs.node n).entries
          (start_copy n p s)) [ none ↦ none | some (es, t) ↦ some (c, set_entries c es t) ]
      else some (c, start_copy n p s)
]

-- Clone: the heap with the copy, whose root is its own parent
unfoldable pub clone : ℕ → Fs → Option (Fs × Assoc ℕ)
clone fuel fs = elim (clone_node fuel fs.root none (record { copies = []; fs = fs })) [
  | none ↦ none
  | some (r, s) ↦
      some
        (record (set_node r (record (s.fs.node r) { parent = some r }) s.fs) { root = r }, s.copies)
]
