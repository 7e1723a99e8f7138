-- ===== src/Server/ConnString/Quoting.antt =====
-- A reader of connection strings by libpq's documentation, and that it reads what ConnString prints.
use pgzero.Base.{
  subst, ltb, ◌-◌, ◌≤◌, ◌*◌, ℕ, zero, suc, ◌+◌, ◌/◌, ◌%◌, ◌<◌, ◌≡◌, refl, sym, ap, ◌∙◌, ◌⊎◌, inl,
  inr, Bool, true, false, ◌&&◌, ◌||◌, not, Option, none, some, List, [], ◌∷◌, ◌++◌, arith, leb,
  ◌==◌, if◌then◌else◌, is_empty, Bool-cases, length,
}
use mathlib.Core.List.{append_assoc}
use pgzero.Paths.{Bytes}
use pgzero.Server.ConnString.{
  blank, quote, backslash, has_special, escape, quote_conn_value, digits, decimal, socket_dir,
  superuser, conn_string, setting, host_key, port_key, user_key, dbname_key, sslmode_key, disable,
}

-- isspace
abbrev pub is_space : ℕ → Bool
is_space c = c == blank || (leb 9 c && leb c 13)

-- a value without quotes, and what follows; `esc` is after a backslash
abbrev pub read_plain : Bool → Bytes → Bytes × Bytes
read_plain esc [] = ([], [])
read_plain esc (c ∷ p) =
    let rest = read_plain (not esc && c == backslash) p in
    if esc
    then (c ∷ rest.0, rest.1)
    else if c == backslash
    then rest
    else if is_space c
    then ([], c ∷ p)
    else (c ∷ rest.0, rest.1)

abbrev pub cons_value : ℕ → Option (Bytes × Bytes) → Option (Bytes × Bytes)
cons_value c none = none
cons_value c (some (v, p)) = some (c ∷ v, p)

-- a value from after its quote on
abbrev pub read_quoted : Bool → Bytes → Option (Bytes × Bytes)
read_quoted esc [] = none
read_quoted esc (c ∷ p) =
    let rest = read_quoted (not esc && c == backslash) p in
    if esc
    then cons_value c rest
    else if c == backslash
    then rest
    else if c == quote
    then some ([], p)
    else cons_value c rest

abbrev pub read_value : Bytes → Option (Bytes × Bytes)
read_value [] = some ([], [])
read_value (c ∷ p) = if c == quote then read_quoted false p else some (read_plain false (c ∷ p))

abbrev pub skip_spaces : Bytes → Bytes
skip_spaces [] = []
skip_spaces (c ∷ p) = let rest = skip_spaces p in if is_space c then rest else c ∷ p

-- a key up to its "="
abbrev pub read_key : Bytes → Option (Bytes × Bytes)
read_key [] = none
read_key (c ∷ p) =
    let rest = read_key p in
    if c == 61 then some ([], p) else if is_space c then none else cons_value c rest

abbrev pub Settings : Type 0
Settings = List (Bytes × Bytes)

abbrev pub cons_setting : Bytes × Bytes → Option Settings → Option Settings
cons_setting kv none = none
cons_setting kv (some s) = some (kv ∷ s)

-- `next` reads what follows
abbrev pub after_value :
    Bytes → (Bytes → Option Settings) → Option (Bytes × Bytes) → Option Settings
after_value k next none = none
after_value k next (some (v, p)) = cons_setting (k, v) (next p)

abbrev pub after_key : (Bytes → Option Settings) → Option (Bytes × Bytes) → Option Settings
after_key next none = none
after_key next (some (k, p)) = after_value k next (read_value (skip_spaces p))

abbrev pub read_from : (Bytes → Option Settings) → Bytes → Option Settings
read_from next [] = some []
read_from next (c ∷ p) = after_key next (read_key (c ∷ p))

-- at most as many settings as the first argument says
unfoldable pub read_settings : ℕ → Bytes → Option Settings
read_settings zero p = none
read_settings (suc f) p = read_from (read_settings f) (skip_spaces p)

-- no white space but blanks
abbrev pub has_other_space : Bytes → Bool
has_other_space [] = false
has_other_space (c ∷ v) = (leb 9 c && leb c 13) || has_other_space v

-- the end, or white space
abbrev pub IsApart : Bytes → Type 0
IsApart [] = Unit
IsApart (c ∷ p) = is_space c ≡ true

read_plain-append :
    (v rest : Bytes)
    → has_special v ≡ false
    → has_other_space v ≡ false
    → IsApart rest
    → read_plain false (v ++ rest) ≡ (v, rest)
read_plain-append [] [] h o a = refl
read_plain-append [] (c ∷ rest) h o a = ground (arith, a)
read_plain-append (c ∷ v) rest h o a =
    let ih = read_plain-append v rest (ground (arith, h)) (ground (arith, o)) a in
    let nb : (c == backslash) ≡ false = ground (arith, h) in
    let ns : is_space c ≡ false = ground (arith, h, o) in rw (nb, ns, ih) refl

read_quoted-escape :
    (v rest : Bytes) → read_quoted false (escape v ++ quote ∷ rest) ≡ some (v, rest)
read_quoted-escape [] rest = refl
read_quoted-escape (c ∷ v) rest =
    let ih = read_quoted-escape v rest in
    elim (Bool-cases (c == backslash)) [
      | inl e ↦ rw (e, ih) refl
      | inr e ↦ elim (Bool-cases (c == quote)) [
        | inl q ↦ rw (e, q, ih) refl
        | inr q ↦ rw (e, q) (rw (e, q, ih) refl)
      ]
    ]

-- a value that the reader gets back: white space other than blanks only where there are quotes
abbrev pub IsReadable : Bytes → Type 0
IsReadable v = (has_special v ≡ true) ⊎ (has_other_space v ≡ false)

read_value-quote :
    (v rest : Bytes)
    → IsReadable v
    → IsApart rest
    → read_value (quote_conn_value v ++ rest) ≡ some (v, rest)
unfolding quote_conn_value
read_value-quote [] rest r a = refl
read_value-quote (c ∷ v) rest r a = elim (Bool-cases (has_special (c ∷ v))) [
  | inl e ↦ rw e (
      ap (read_quoted false) (append_assoc (escape (c ∷ v)) (quote ∷ []) rest)
      ∙ read_quoted-escape (c ∷ v) rest)
  | inr e ↦
      let q : (c == quote) ≡ false = ground (arith, e) in
      let o : has_other_space (c ∷ v) ≡ false = ground (arith, r, e) in
      rw e (rw q (ap some (read_plain-append (c ∷ v) rest e o a)))
]

-- where a value starts, there is nothing to skip
quote-starts :
    (v rest : Bytes)
    → IsReadable v
    → skip_spaces (quote_conn_value v ++ rest) ≡ quote_conn_value v ++ rest
unfolding quote_conn_value
quote-starts [] rest r = refl
quote-starts (c ∷ v) rest r = elim (Bool-cases (has_special (c ∷ v))) [
  | inl e ↦ rw e refl
  | inr e ↦ let o : is_space c ≡ false = ground (arith, r, e) in rw e (rw o refl)
]

abbrev IsKey : Bytes → Type 0
IsKey [] = Unit
IsKey (c ∷ k) = (is_space c ≡ false) × ((c == 61) ≡ false) × IsKey k

abbrev is_key : Bytes → Bool
is_key [] = true
is_key (c ∷ k) = let rest = is_key k in not (is_space c) && not (c == 61) && rest

is_key-IsKey : (k : Bytes) → is_key k ≡ true → IsKey k
is_key-IsKey [] h = tt
is_key-IsKey (c ∷ k) h = (ground (arith, h), ground (arith, h), is_key-IsKey k (ground (arith, h)))

read_key-append : (k p : Bytes) → IsKey k → read_key (k ++ 61 ∷ p) ≡ some (k, p)
read_key-append [] p h = refl
read_key-append (c ∷ k) p h = rw (h.1, h.0, read_key-append k p h.2) refl

-- One setting.
read_setting :
    (f : ℕ) (c : ℕ) (k v rest : Bytes)
    → IsKey (c ∷ k)
    → IsReadable v
    → IsApart rest
    → read_settings (suc f) ((c ∷ k) ++ 61 ∷ (quote_conn_value v ++ rest))
      ≡ cons_setting (c ∷ k, v) (read_settings f rest)
unfolding read_settings
read_setting f c k v rest i r a =
    let q = quote_conn_value v ++ rest in
    let next = read_settings f in
    let here : skip_spaces ((c ∷ k) ++ 61 ∷ q) ≡ (c ∷ k) ++ 61 ∷ q = rw (i.0) refl in
    ap (read_from next) here
    ∙ ap (after_key next) (read_key-append (c ∷ k) q i)
    ∙ ap (after_value (c ∷ k) next)
        (ap read_value (quote-starts v rest r) ∙ read_value-quote v rest r a)

skip_blank : (f : ℕ) (p : Bytes) → read_settings (suc f) (blank ∷ p) ≡ read_settings (suc f) p
unfolding read_settings
skip_blank f p = refl

read_setting_next :
    (f : ℕ) (c : ℕ) (k v rest : Bytes)
    → IsKey (c ∷ k)
    → IsReadable v
    → IsApart rest
    → read_settings (suc f) (blank ∷ (setting (c ∷ k) (quote_conn_value v) ++ rest))
      ≡ cons_setting (c ∷ k, v) (read_settings f rest)
unfolding setting
read_setting_next f c k v rest i r a =
    skip_blank f (setting (c ∷ k) (quote_conn_value v) ++ rest)
    ∙ ap (read_settings (suc f)) (append_assoc (c ∷ k) (61 ∷ quote_conn_value v) rest)
    ∙ read_setting f c k v rest i r a

-- what can be printed without quotes
IsBare : Bytes → Type 0
IsBare v = (is_empty v ≡ false) × (has_special v ≡ false) × (has_other_space v ≡ false)

bare-quote : (v : Bytes) → IsBare v → quote_conn_value v ≡ v
unfolding quote_conn_value IsBare
bare-quote v b = rw (b.0, b.1) refl

IsBare-IsReadable : (v : Bytes) → IsBare v → IsReadable v
unfolding IsBare
IsBare-IsReadable v b = inr b.2

IsBare-append : (v w : Bytes) → IsBare v → IsBare w → IsBare (v ++ w)
unfolding IsBare
IsBare-append v w a b = (filled v a.0, special v a.1, space v a.2)
  where
    filled : (v : Bytes) → is_empty v ≡ false → is_empty (v ++ w) ≡ false
    filled [] h = b.0
    filled (c ∷ v) h = refl

    special : (v : Bytes) → has_special v ≡ false → has_special (v ++ w) ≡ false
    special [] h = b.1
    special (c ∷ v) h = ground (arith, h, special v (ground (arith, h)))

    space : (v : Bytes) → has_other_space v ≡ false → has_other_space (v ++ w) ≡ false
    space [] h = b.2
    space (c ∷ v) h = ground (arith, h, space v (ground (arith, h)))

digit-IsBare : (d : ℕ) → d < 10 → IsBare ((48 + d) ∷ [])
unfolding IsBare
digit-IsBare d h = (refl, ground (arith, h), ground (arith, h))

digits-small : (f n : ℕ) → ltb n 10 ≡ true → digits (suc f) n ≡ (48 + n) ∷ []
digits-small f n l = rw (l, digits) refl

digits-big :
    (f n : ℕ) → ltb n 10 ≡ false → digits (suc f) n ≡ digits f (n / 10) ++ (48 + n % 10) ∷ []
digits-big f n l = rw (l, digits) refl

digits-IsBare : (f n : ℕ) → IsBare (digits f n)
digits-IsBare zero n = digit-IsBare (n % 10) (omega arith)
digits-IsBare (suc f) n = elim (Bool-cases (ltb n 10)) [
  | inl l ↦ subst IsBare (sym (digits-small f n l)) (digit-IsBare n (ground (arith, l)))
  | inr l ↦ subst IsBare (sym (digits-big f n l)) (
      IsBare-append (digits f (n / 10)) ((48 + n % 10) ∷ []) (digits-IsBare f (n / 10))
        (digit-IsBare (n % 10) (omega arith)))
]

decimal-IsBare : (n : ℕ) → IsBare (decimal n)
unfolding decimal
decimal-IsBare n = digits-IsBare n n

-- the number after one more digit; none: it is not one
abbrev next_digit : Option ℕ → ℕ → Option ℕ
next_digit none c = none
next_digit (some n) c = if leb 48 c && leb c 57 then some (10 * n + (c - 48)) else none

abbrev pub read_digits : Option ℕ → Bytes → Option ℕ
read_digits acc [] = acc
read_digits acc (c ∷ p) = read_digits (next_digit acc c) p

-- a reader of decimal numbers
abbrev pub read_decimal : Bytes → Option ℕ
read_decimal p = if is_empty p then none else read_digits (some 0) p

read_digits-append :
    (acc : Option ℕ) (p q : Bytes) → read_digits acc (p ++ q) ≡ read_digits (read_digits acc p) q
read_digits-append acc [] q = refl
read_digits-append acc (c ∷ p) q = read_digits-append (next_digit acc c) p q

next_digit-some : (n d : ℕ) → d < 10 → next_digit (some n) (48 + d) ≡ some (10 * n + d)
next_digit-some n d h = ground arith

read_digits-digits : (f n : ℕ) → n ≤ f → read_digits (some 0) (digits f n) ≡ some n
read_digits-digits zero n h = next_digit-some 0 (n % 10) (omega arith) ∙ ap some (omega arith)
read_digits-digits (suc f) n h = elim (Bool-cases (ltb n 10)) [
  | inl l ↦
      ap (read_digits (some 0)) (digits-small f n l)
      ∙ next_digit-some 0 n (ground (arith, l))
      ∙ ap some (omega arith)
  | inr l ↦
      let big : 10 ≤ n = ground (arith, l) in
      ap (read_digits (some 0)) (digits-big f n l)
      ∙ read_digits-append (some 0) (digits f (n / 10)) ((48 + n % 10) ∷ [])
      ∙ ap (λ a. next_digit a (48 + n % 10)) (read_digits-digits f (n / 10) (omega arith))
      ∙ next_digit-some (n / 10) (n % 10) (omega arith)
      ∙ ap some (omega arith)
]

read_decimal-decimal : (n : ℕ) → read_decimal (decimal n) ≡ some n
unfolding decimal
read_decimal-decimal n =
    let filled : is_empty (digits n n) ≡ false = unfold IsBare in (digits-IsBare n n).0 in
    rw filled (read_digits-digits n n (omega arith))

-- each setting with a blank in front
print : List (Bytes × Bytes) → Bytes
print [] = []
print ((k, v) ∷ s) = blank ∷ (setting k (quote_conn_value v) ++ print s)

abbrev given : ℕ → Bytes → Settings
given port database =
    (host_key, socket_dir)
    ∷ (port_key, decimal port)
    ∷ (user_key, superuser)
    ∷ (dbname_key, database)
    ∷ (sslmode_key, disable)
    ∷ []

conn_string-print :
    (port : ℕ) (database : Bytes) → blank ∷ conn_string port database ≡ print (given port database)
unfolding conn_string print setting
conn_string-print port database =
    rw
      (
        bare-quote socket_dir (unfold IsBare in (refl, refl, refl)),
        bare-quote (decimal port) (decimal-IsBare port),
        bare-quote superuser (unfold IsBare in (refl, refl, refl)),
        bare-quote disable (unfold IsBare in (refl, refl, refl)),
      )
      refl

-- with keys that are words, and values that read_value gets back
abbrev AreReadable : Settings → Type 0
AreReadable [] = Unit
AreReadable ((k, v) ∷ s) = (is_empty k ≡ false) × (is_key k ≡ true) × IsReadable v × AreReadable s

print-IsApart : (s : Settings) → IsApart (print s)
unfolding print
print-IsApart [] = tt
print-IsApart (kv ∷ s) = refl

read_settings-print :
    (s : Settings) → AreReadable s → read_settings (suc (length s)) (print s) ≡ some s
unfolding print
read_settings-print [] h = unfold read_settings in refl
read_settings-print (([], v) ∷ s) h = ground (arith, h.0)
read_settings-print ((c ∷ k, v) ∷ s) h =
    read_setting_next (suc (length s)) c k v (print s) (is_key-IsKey (c ∷ k) h.1) h.2
      (print-IsApart s)
    ∙ ap (cons_setting (c ∷ k, v)) (read_settings-print s h.3)

read_settings-given :
    (port : ℕ) (database : Bytes)
    → IsReadable database
    → read_settings 6 (conn_string port database) ≡ some (given port database)
read_settings-given port database r =
    sym (skip_blank 5 (conn_string port database))
    ∙ ap (read_settings 6) (conn_string-print port database)
    ∙ read_settings-print (given port database) (
      refl,
      refl,
      inr refl,
      (
        refl,
        refl,
        IsBare-IsReadable (decimal port) (decimal-IsBare port),
        (refl, refl, inr refl, (refl, refl, r, (refl, refl, inr refl, tt))),
      ),
    )

-- ConnString of any port and any database name in which no tab or line break stands without a blank, a quote
-- or a backslash somewhere in the name: a reader of libpq's syntax gets back the five settings, the name
-- among them as it was given, and the port as text from which a reader of decimal numbers gets it back.
pub read_settings-conn_string :
    (port : ℕ) (database : Bytes)
    → IsReadable database
    → (text : Bytes) × (read_decimal text ≡ some port)
      × (read_settings 6 (conn_string port database)
          ≡ some (
              (host_key, socket_dir)
              ∷ (port_key, text)
              ∷ (user_key, superuser)
              ∷ (dbname_key, database)
              ∷ (sslmode_key, disable)
              ∷ []))
read_settings-conn_string port database r =
    (decimal port, read_decimal-decimal port, read_settings-given port database r)
