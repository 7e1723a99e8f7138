-- ===== src/Server/ConnString.antt =====
-- pgzero.go, ConnString, quoteConnValue and TCPAddr. Strings are bytes.
pub mod Quoting
use pgzero.Base.{
  ℕ, zero, suc, ◌+◌, ◌-◌, ◌*◌, ◌/◌, ◌%◌, ◌^◌, ◌≤◌, ◌<◌, min, max, ◌≡◌, refl, sym, ap, ap₂, subst,
  ◌∙◌, fun_ext, ◌≢◌, ◌↔◌, ◌⊎◌, inl, inr, Bool, true, false, ◌&&◌, ◌||◌, not, Option, none, some,
  List, [], ◌∷◌, ◌++◌, map, arith, dec_lt, dec_le, ℕ_discrete, ltb, leb, ◌==◌, if◌then◌else◌,
  is_empty, is_some, Bool-cases, Option-cases, length, take, drop,
}
use pgzero.Paths.{Bytes}

-- ' ', '\'' and '\\'
abbrev pub blank : ℕ
blank = 32

abbrev pub quote : ℕ
quote = 39

abbrev pub backslash : ℕ
backslash = 92

-- strings.ContainsAny(v, " '\\")
abbrev pub has_special : Bytes → Bool
has_special [] = false
has_special (c ∷ v) = c == blank || c == quote || c == backslash || has_special v

-- the replacer: a backslash before each backslash and each quote
abbrev pub escape : Bytes → Bytes
escape [] = []
escape (c ∷ v) =
    let rest = escape v in if c == backslash || c == quote then backslash ∷ c ∷ rest else c ∷ rest

unfoldable pub quote_conn_value : Bytes → Bytes
quote_conn_value v =
    if not (is_empty v) && not (has_special v) then v else quote ∷ (escape v ++ quote ∷ [])

-- the digits of a number not above the first argument
abbrev pub digits : ℕ → ℕ → Bytes
digits zero n = (48 + n % 10) ∷ []
digits (suc f) n = elim (ltb n 10) [
  | true ↦ (48 + n) ∷ []
  | false ↦ digits f (n / 10) ++ (48 + n % 10) ∷ []
]

-- %d
unfoldable pub decimal : ℕ → Bytes
decimal n = digits n n

-- "/tmp"
abbrev pub socket_dir : Bytes
socket_dir = 47 ∷ 116 ∷ 109 ∷ 112 ∷ []

-- "postgres"
abbrev pub superuser : Bytes
superuser = 112 ∷ 111 ∷ 115 ∷ 116 ∷ 103 ∷ 114 ∷ 101 ∷ 115 ∷ []

-- "host"
abbrev pub host_key : Bytes
host_key = 104 ∷ 111 ∷ 115 ∷ 116 ∷ []

-- "port"
abbrev pub port_key : Bytes
port_key = 112 ∷ 111 ∷ 114 ∷ 116 ∷ []

-- "user"
abbrev pub user_key : Bytes
user_key = 117 ∷ 115 ∷ 101 ∷ 114 ∷ []

-- "dbname"
abbrev pub dbname_key : Bytes
dbname_key = 100 ∷ 98 ∷ 110 ∷ 97 ∷ 109 ∷ 101 ∷ []

-- "sslmode"
abbrev pub sslmode_key : Bytes
sslmode_key = 115 ∷ 115 ∷ 108 ∷ 109 ∷ 111 ∷ 100 ∷ 101 ∷ []

-- "disable"
abbrev pub disable : Bytes
disable = 100 ∷ 105 ∷ 115 ∷ 97 ∷ 98 ∷ 108 ∷ 101 ∷ []

-- "%s=%s" for a key and its value
unfoldable pub setting : Bytes → Bytes → Bytes
setting k v = k ++ 61 ∷ v

unfoldable pub conn_string : ℕ → Bytes → Bytes
conn_string port database =
    setting host_key socket_dir
    ++ (blank
        ∷ (setting port_key (decimal port)
            ++ (blank
                ∷ (setting user_key superuser
                    ++ (blank
                        ∷ (setting dbname_key (quote_conn_value database)
                            ++ blank ∷ setting sslmode_key disable))))))

-- "/.s.PGSQL.": where Dial finds the server
unfoldable pub socket_path : ℕ → Bytes
socket_path port =
    socket_dir ++ ((47 ∷ 46 ∷ 115 ∷ 46 ∷ 80 ∷ 71 ∷ 83 ∷ 81 ∷ 76 ∷ 46 ∷ []) ++ decimal port)

-- "127.0.0.1:"
unfoldable pub tcp_addr : Bool → ℕ → Bytes
tcp_addr tcp port =
    if not tcp then [] else (49 ∷ 50 ∷ 55 ∷ 46 ∷ 48 ∷ 46 ∷ 48 ∷ 46 ∷ 49 ∷ 58 ∷ []) ++ decimal port
