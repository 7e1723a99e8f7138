-- ===== src/Paths.antt =====
-- Paths of Go's package path, as bytes: what internal/kernel/kernel.go, internal/osfs/osfs.go,
-- internal/memfs/memfs.go and pgzero.go use of it, by the rules that its documentation gives. On the hosts
-- that are served, path/filepath is the same.
pub mod Splitting
pub mod Cleaning
pub mod Relative
pub mod Prefixes
pub mod Joining
use pgzero.Base.{
  ℕ, zero, suc, ◌+◌, ◌-◌, ◌*◌, ◌/◌, ◌%◌, ◌^◌, ◌≤◌, ◌<◌, min, max, ◌≡◌, refl, sym, ap, ap₂, subst,
  ◌∙◌, fun_ext, ◌≢◌, ◌↔◌, ◌⊎◌, inl, inr, Bool, true, false, ◌&&◌, ◌||◌, not, Option, none, some,
  List, [], ◌∷◌, ◌++◌, map, arith, dec_lt, dec_le, ℕ_discrete, ltb, leb, ◌==◌, if◌then◌else◌,
  is_empty, is_some, Bool-cases, Option-cases, length, take, drop,
}

abbrev pub Bytes : Type 0
Bytes = List ℕ

-- '/' and '.'
abbrev pub slash : ℕ
slash = 47

abbrev pub dot : ℕ
dot = 46

abbrev pub same_bytes : Bytes → Bytes → Bool
same_bytes [] [] = true
same_bytes [] (b ∷ bs) = false
same_bytes (a ∷ xs) [] = false
same_bytes (a ∷ xs) (b ∷ bs) = let rest = same_bytes xs bs in a == b && rest

abbrev pub push_byte : ℕ → List Bytes → List Bytes
push_byte c [] = (c ∷ []) ∷ []
push_byte c (p ∷ ps) = (c ∷ p) ∷ ps

-- strings.Split(p, "/"): never without a part
abbrev pub split : Bytes → List Bytes
split [] = [] ∷ []
split (c ∷ p) = let parts = split p in if c == slash then [] ∷ parts else push_byte c parts

-- strings.Join(parts, "/")
abbrev pub join : List Bytes → Bytes
join [] = []
join (p ∷ []) = p
join (p ∷ q ∷ ps) = p ++ slash ∷ join (q ∷ ps)

-- path.IsAbs
abbrev pub is_abs : Bytes → Bool
is_abs [] = false
is_abs (c ∷ p) = c == slash

abbrev pub is_dot : Bytes → Bool
is_dot (c ∷ []) = c == dot
is_dot [] = false
is_dot (c ∷ d ∷ p) = false

abbrev pub is_up : Bytes → Bool
is_up (c ∷ d ∷ []) = c == dot && d == dot
is_up [] = false
is_up (c ∷ []) = false
is_up (c ∷ d ∷ e ∷ p) = false

abbrev pub up : Bytes
up = dot ∷ dot ∷ []

abbrev pub drop_last : List Bytes → List Bytes
drop_last [] = []
drop_last (p ∷ []) = []
drop_last (p ∷ q ∷ ps) = p ∷ drop_last (q ∷ ps)

abbrev pub last_is_up : List Bytes → Bool
last_is_up [] = false
last_is_up (p ∷ []) = is_up p
last_is_up (p ∷ q ∷ ps) = last_is_up (q ∷ ps)

-- Clean's step for ".."
abbrev pub go_up : Bool → List Bytes → List Bytes
go_up rooted st =
    if is_empty st
    then (if rooted then [] else up ∷ [])
    else if last_is_up st
    then st ++ up ∷ []
    else drop_last st

-- one part after those that are kept so far
unfoldable pub push : Bool → List Bytes → Bytes → List Bytes
push rooted st p =
    if is_empty p || is_dot p then st else if is_up p then go_up rooted st else st ++ p ∷ []

unfoldable pub norm : Bool → List Bytes → List Bytes → List Bytes
norm rooted st [] = st
norm rooted st (p ∷ ps) = norm rooted (push rooted st p) ps

-- the parts of a path once it is cleaned
unfoldable pub parts : Bytes → List Bytes
parts p = norm (is_abs p) [] (split p)

unfoldable pub render : Bool → List Bytes → Bytes
render rooted ps = if rooted then slash ∷ join ps else if is_empty ps then dot ∷ [] else join ps

-- path.Clean
unfoldable pub clean : Bytes → Bytes
clean p = render (is_abs p) (parts p)

-- path.Join of two elements: an empty one is left out
unfoldable pub join_path : Bytes → Bytes → Bytes
join_path a b =
    if is_empty a
    then (if is_empty b then [] else clean b)
    else if is_empty b
    then clean a
    else clean (a ++ slash ∷ b)

-- strings.HasPrefix
abbrev pub has_prefix : Bytes → Bytes → Bool
has_prefix [] p = true
has_prefix (c ∷ q) [] = false
has_prefix (c ∷ q) (d ∷ p) = let rest = has_prefix q p in c == d && rest

-- strings.TrimPrefix
unfoldable pub trim_prefix : Bytes → Bytes → Bytes
trim_prefix q p = if has_prefix q p then drop (length q) p else p

-- strings.TrimSuffix(p, "/")
abbrev pub trim_slash : Bytes → Bytes
trim_slash [] = []
trim_slash (c ∷ []) = if c == slash then [] else c ∷ []
trim_slash (c ∷ d ∷ p) = c ∷ trim_slash (d ∷ p)
