-- ===== src/Memfs/Tree.antt =====
-- The namespace of internal/memfs/memfs.go without its nodes' contents: what a filesystem is to those who
-- look up names, the changes that its operations promise, and that directories are a tree.
pub mod Steps
pub mod Views
pub mod Operations
pub mod Renaming
pub mod Keeping
pub mod Opening
pub mod Runs
pub mod Crashes
mod Tests
use pgzero.Base.{
  update, ℕ, zero, suc, ◌+◌, ◌-◌, ◌*◌, ◌/◌, ◌%◌, ◌^◌, ◌≤◌, ◌<◌, min, max, ◌≡◌, refl, sym, ap, ap₂,
  subst, ◌∙◌, fun_ext, ◌≢◌, ◌↔◌, ◌⊎◌, inl, inr, Bool, true, false, ◌&&◌, ◌||◌, not, Option, none,
  some, List, [], ◌∷◌, ◌++◌, map, arith, dec_lt, dec_le, ℕ_discrete, ltb, leb, ◌==◌, if◌then◌else◌,
  is_empty, is_some, Bool-cases, Option-cases, length, take, drop,
}
use pgzero.Memfs.{Name, Node, Fs}
use pgzero.Memfs.Entries.{same, find}

pub record View : Type 0 where
  pub is_dir : ℕ → Bool
  pub entry : ℕ → Name → Option ℕ
  pub parent : ℕ → Option ℕ
  pub root : ℕ
  pub next : ℕ

unfoldable pub view : Fs → View
view fs = record {
  is_dir = λ d. (fs.node d).is_dir;
  entry = λ d x. find x (fs.node d).entries;
  parent = λ d. (fs.node d).parent;
  root = fs.root;
  next = fs.next;
}

-- the name x of the directory d is for c, or for nothing
unfoldable pub enter : ℕ → Name → Option ℕ → View → View
enter d x c v = record v { entry = λ e y. if e == d && same x y then c else v.entry e y }

unfoldable pub make : Bool → Option ℕ → View → View
make dir p v = record v {
  is_dir = update v.is_dir v.next dir;
  parent = update v.parent v.next p;
  entry = λ e y. if v.next == e then none else v.entry e y;
  next = v.next + 1;
}

unfoldable pub reparent : ℕ → ℕ → View → View
reparent n d v = record v { parent = update v.parent n (some d) }

-- Up from a directory to the root.
pub data Chain (v : View) : ℕ → Type 0 where
  top : Chain v v.root
  up : {d p : ℕ} → v.is_dir d ≡ true → d < v.next → v.parent d ≡ some p → Chain v p → Chain v d

-- The same, without meeting n.
pub data Avoids (v : View) (n : ℕ) : ℕ → Type 0 where
  top : v.root ≢ n → Avoids v n v.root
  up : {d p : ℕ} → d ≢ n → v.parent d ≡ some p → Avoids v n p → Avoids v n d

pub record IsTree (v : View) : Type 0 where
  pub root_dir : v.is_dir v.root ≡ true
  pub root_made : v.root < v.next
  pub root_parent : v.parent v.root ≡ some v.root
  pub holder :
      (d : ℕ) (x : Name) (c : ℕ) → v.entry d x ≡ some c → (d < v.next) × (v.is_dir d ≡ true)
  pub held : (d : ℕ) (x : Name) (c : ℕ) → v.entry d x ≡ some c → (c < v.next) × (c ≢ v.root)
  pub child :
      (d : ℕ) (x : Name) (c : ℕ) → v.entry d x ≡ some c → v.is_dir c ≡ true → v.parent c ≡ some d
  pub once :
      (d : ℕ) (x y : Name) (c : ℕ)
      → v.entry d x ≡ some c
      → v.entry d y ≡ some c
      → v.is_dir c ≡ true
      → x ≡ y
  pub chain : (d : ℕ) → d < v.next → v.is_dir d ≡ true → Chain v d
  pub file_parent : (c : ℕ) → c < v.next → v.is_dir c ≡ false → v.parent c ≡ none

-- No directory has an entry for n.
abbrev pub IsLoose : ℕ → View → Type 0
IsLoose n v = (d : ℕ) (x : Name) → v.entry d x ≢ some n
