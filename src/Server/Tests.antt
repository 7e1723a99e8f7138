-- ===== src/Server/Tests.antt =====
-- A long log, and a database with a name that wants quotes.
use pgzero.Base.{
  ℕ, ◌*◌, ◌≤◌, ◌≡◌, refl, inl, true, none, some, List, [], ◌∷◌, ◌++◌, arith, length, replicate,
}
use pgzero.Server.Template.{Entry, directory, regular, makes_dir, writes, bad_path, extract}
use pgzero.Server.Template.Inside.{AreInside, extract-AreInside}
use pgzero.Server.Template.{target}
use pgzero.Paths.{Bytes, join_path, clean, parts, norm, push, render}
use pgzero.Server.Startup.{probe, not_ready, startup_message, startup_params, from_be32}
use pgzero.Server.Startup.Answers.{Answer, error, message, kind_of, body_of, probe-verdict}
use pgzero.Server.LogTail.{new_log, last, tail, write_all, concat, log_tail_size, write_all-tail}
use pgzero.Server.ConnString.{
  conn_string, decimal, socket_dir, superuser, host_key, port_key, user_key, dbname_key,
  sslmode_key, disable, setting, quote_conn_value,
}
use pgzero.Server.ConnString.Quoting.{read_decimal, read_settings, read_settings-conn_string}

-- 9000, 3 and 8000 bytes
abbrev pieces : List (List ℕ)
pieces = replicate 9000 97 ∷ (98 ∷ 98 ∷ 99 ∷ []) ∷ replicate 8000 100 ∷ []

write_all-tail_example :
    (tail (write_all pieces (new_log {W = ℕ} none) 0).0 ≡ last log_tail_size (concat pieces))
    × (length (write_all pieces (new_log {W = ℕ} none) 0).0.buf ≤ 2 * log_tail_size)
write_all-tail_example = write_all-tail {W = ℕ} none pieces 0

-- "it's \\ x", of it's, a backslash and x with a tab between
abbrev database : Bytes
database = 105 ∷ 116 ∷ 39 ∷ 115 ∷ 32 ∷ 92 ∷ 9 ∷ 120 ∷ []

read_settings-conn_string_example :
    (text : Bytes) × (read_decimal text ≡ some 5432)
    × (read_settings 6 (conn_string 5432 database)
        ≡ some (
            (host_key, socket_dir)
            ∷ (port_key, text)
            ∷ (user_key, superuser)
            ∷ (dbname_key, database)
            ∷ (sslmode_key, disable)
            ∷ []))
read_settings-conn_string_example = read_settings-conn_string 5432 database (inl refl)

port_text : decimal 5432 ≡ 53 ∷ 52 ∷ 51 ∷ 50 ∷ []
unfolding decimal
port_text = refl

-- a tab alone is left without quotes, and not read back
tab_unquoted :
    read_settings 6 (setting dbname_key (quote_conn_value (97 ∷ 9 ∷ [])))
    ≡ some ((dbname_key, 97 ∷ []) ∷ [])
unfolding read_settings setting quote_conn_value
tab_unquoted = refl

-- code 57P03 and message "no", and the next answer's first byte
abbrev refusal : Answer
refusal = error ((67, 53 ∷ 55 ∷ 80 ∷ 48 ∷ 51 ∷ []) ∷ (77, 110 ∷ 111 ∷ []) ∷ [])

probe-verdict_example :
    probe true true (message (kind_of refusal) (body_of refusal) ++ 90 ∷ []) ≡ not_ready
probe-verdict_example =
    probe-verdict refusal (90 ∷ [])
      (
        refl,
        (refl, (refl, (refl, (refl, (refl, (refl, tt)))))),
        (refl, (refl, (refl, (refl, tt))), tt),
      )
      (omega arith)

-- the four bytes of the length count the whole message
startup_test : (length startup_message ≡ 41) × (from_be32 startup_message ≡ 41)
unfolding startup_message startup_params
startup_test = (refl, refl)

-- "base", "base/../x" and "../y"
abbrev entries : List Entry
entries =
    directory (98 ∷ 97 ∷ 115 ∷ 101 ∷ [])
    ∷ regular (98 ∷ 97 ∷ 115 ∷ 101 ∷ 47 ∷ 46 ∷ 46 ∷ 47 ∷ 120 ∷ []) (1 ∷ [])
    ∷ regular (46 ∷ 46 ∷ 47 ∷ 121 ∷ []) []
    ∷ []

-- "/d"
extract-AreInside_example :
    AreInside (47 ∷ 100 ∷ []) (extract (λ a. true) (47 ∷ 100 ∷ []) entries).1
extract-AreInside_example = extract-AreInside (λ a. true) (47 ∷ 100 ∷ []) entries refl

extract_test : extract (λ a. true) (47 ∷ 100 ∷ []) entries ≡ (
  bad_path,
  makes_dir (47 ∷ 100 ∷ 47 ∷ 98 ∷ 97 ∷ 115 ∷ 101 ∷ [])
      ∷ writes (47 ∷ 100 ∷ 47 ∷ 120 ∷ []) (1 ∷ [])
      ∷ [],
)
unfolding extract target join_path clean parts norm push render
extract_test = refl
