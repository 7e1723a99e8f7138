-- ===== src/Memfs/Path.antt =====
-- internal/memfs/memfs.go, resolve: the parts of a path, and the walk along them.
use Prim.Native.Char.{Char, code}
use Prim.Native.String
use mathlib.Core.List.{reverse}
use pgzero.Base.{ℕ, Bool, false, ◌&&◌, ◌||◌, not, none, some, List, [], ◌∷◌, ◌==◌, if◌then◌else◌}
use pgzero.Memfs.{Name, FsError, Fs, eperm, einval, enoent, enotdir}
use pgzero.Memfs.Entries.{same, find}

-- c == '/'
abbrev pub is_slash : Char → Bool
is_slash c = code c == 47

-- strings.HasPrefix(name, "/")
unfoldable pub starts_slash : Name → Bool
starts_slash String.[] = false
starts_slash (String.◌∷◌ c s) = is_slash c

-- strings.HasSuffix(name, "/")
unfoldable pub ends_slash : Name → Bool
ends_slash String.[] = false
ends_slash (String.◌∷◌ c s) = let rest = ends_slash s in if same s "" then is_slash c else rest

-- The first part has another character in front; Split never gives no part.
unfoldable pub push_front : Char → List Name → List Name
push_front c [] = (String.◌∷◌ c String.[]) ∷ []
push_front c (p ∷ ps) = String.◌∷◌ c p ∷ ps

-- strings.Split(name, "/")
unfoldable pub split : Name → List Name
unfolding push_front
split String.[] = "" ∷ []
split (String.◌∷◌ c s) =
    let parts = split s in if is_slash c then "" ∷ parts else push_front c parts

-- where a walk ends; `panics` is the use of a nil node
pub data Walked : Type 0 where
  at : ℕ → Walked
  fails : FsError → Walked
  panics : Walked

-- cur.parent of a regular file is nil. The loop goes on with it, but whatever part comes next, or none,
-- uses the nil node.
unfoldable pub go_up : ℕ → Fs → Walked
go_up cur fs =
    if cur == fs.root
    then fails eperm
    else elim (fs.node cur).parent [ none ↦ panics | some p ↦ at p ]

unfoldable pub go_down : Name → ℕ → Fs → Walked
go_down p cur fs =
    if not (fs.node cur).is_dir
    then fails enotdir
    else elim (find p (fs.node cur).entries) [ none ↦ fails enoent | some n ↦ at n ]

unfoldable pub go : Name → ℕ → Fs → Walked
go p cur fs =
    if same p "" || same p "."
    then at cur
    else if same p ".."
    then go_up cur fs
    else go_down p cur fs

-- what the walk does after its first part
unfoldable pub and_then : Walked → (ℕ → Walked) → Walked
and_then (at n) k = k n
and_then (fails e) k = fails e
and_then panics k = panics

unfoldable pub walk : List Name → ℕ → Fs → Walked
walk [] cur fs = at cur
walk (p ∷ ps) cur fs = and_then (go p cur fs) (λ n. walk ps n fs)

unfoldable pub resolve : Name → ℕ → Fs → Walked
resolve name dir fs =
    if starts_slash name
    then fails eperm
    else and_then (walk (split name) dir fs)
        (λ n. if not (fs.node n).is_dir && ends_slash name then fails enotdir else at n)

-- Trailing empty parts are dropped, but not the only part; the parts are given last first.
unfoldable pub trim : List Name → List Name
trim [] = []
trim (p ∷ []) = p ∷ []
trim (p ∷ q ∷ ps) = let rest = trim (q ∷ ps) in if same p "" then rest else p ∷ q ∷ ps

pub data Located : Type 0 where
  located : ℕ → Name → Located
  not_located : FsError → Located
  crashed : Located

unfoldable pub at_base : Name → Fs → Walked → Located
at_base base fs (at n) = if not (fs.node n).is_dir then not_located enotdir else located n base
at_base base fs (fails e) = not_located e
at_base base fs panics = crashed

unfoldable pub locate_base : List Name → ℕ → Fs → Located
unfolding at_base
locate_base [] dir fs = not_located einval
locate_base (base ∷ before) dir fs =
    if same base "" || same base "." || same base ".."
    then not_located einval
    else at_base base fs (walk (reverse before) dir fs)

-- resolve with parentOnly: the directory and the last part.
unfoldable pub resolve_parent : Name → ℕ → Fs → Located
unfolding locate_base
resolve_parent name dir fs =
    if starts_slash name
    then not_located eperm
    else locate_base (trim (reverse (split name))) dir fs
