-- ===== src/Policy/Mysql/Queried.antt =====
-- What an accepted MySQL command asks of the database.
use windmill_gate.Base.{
  Bool, true, false, List, [], ◌∷◌, ◌++◌, Option, none, some, ==_iff, if◌then◌else◌, Bytes, codes,
  cut_prefix, is, length, leb, take, drop, has_prefix, has_suffix, ◌==◌, ◌&&◌, ◌||◌, ◌-◌,
  Bool-cases, sym, ◌≡◌, refl, ap, ◌∙◌, arith, subst, ◌⊎◌, inl, inr, Option-cases, All,
}
use windmill_gate.Policy.Shell.{ShellWord}
use windmill_gate.Base.Suffixes.{has_suffix-append}
use windmill_gate.Policy.Paths.{clean_literal}
use windmill_gate.Policy.Network.{value_at, word_is}
use windmill_gate.Policy.Mysql.{
  allowed_voice_database, quote_at, mixed_at, direct_mysql_query, query_is, validate_mysql_read,
  validate_mysql_shell_read, cut_text, quoted_shell_query, contains_any, shell_query,
  database_query, client_query, mysql_shell_query,
}
use windmill_gate.Sql.Token.{SqlToken}
use windmill_gate.Sql.Scan.{scan_sql}
use windmill_gate.Sql.Grammar.{validate_read_only_sql}
use windmill_gate.Sql.Grammar.Words.{IsHarmless}
use windmill_gate.Sql.Grammar.Safe.{BeginsWith, read_verbs, validate_read_only_sql-IsHarmless}

-- A query whose tokens begin with a verb of reading and hold none of the nine words.
pub record IsRead (query : Bytes) : Type 0 where
  pub tokens : List SqlToken
  pub scanned : scan_sql query ≡ some tokens
  pub verb : BeginsWith read_verbs tokens
  pub harmless : All IsHarmless tokens

harmless-IsRead : (query : Bytes) → validate_read_only_sql query ≡ true → IsRead query
harmless-IsRead query h =
    let (ts, scanned, verb, harmless) = validate_read_only_sql-IsHarmless query h in
    record { tokens = ts; scanned = scanned; verb = verb; harmless = harmless }

query_is-some :
    (p : Bytes → Bool) (o : Option Bytes)
    → query_is p o ≡ true
    → (query : Bytes) × (o ≡ some query) × (p query ≡ true)
query_is-some p none h = ground arith
query_is-some p (some query) h = (query, refl, h)

pub cut_prefix-append : (p s rest : Bytes) → cut_prefix p s ≡ some rest → s ≡ p ++ rest
unfolding cut_prefix
cut_prefix-append [] s rest h = ground arith
cut_prefix-append (b ∷ p) [] rest h = ground arith
cut_prefix-append (b ∷ p) (c ∷ s) rest h = ground (arith, ==_iff b c, cut_prefix-append p s rest)

cut_text-append :
    (separator s before after : Bytes)
    → cut_text separator s ≡ (before, some after)
    → s ≡ before ++ (separator ++ after)
unfolding cut_text
cut_text-append separator [] before after h = elim (Option-cases (cut_prefix separator [])) [
  | inl absent ↦ ground arith
  | inr (rest, found) ↦ ground (arith, cut_prefix-append separator [] rest found)
]
cut_text-append separator (c ∷ cs) before after h =
    elim (Option-cases (cut_prefix separator (c ∷ cs))) [
      | inl absent ↦
          let found : cut_text separator cs ≡ ((cut_text separator cs).0, some after) =
            ground arith in
          let front : c ∷ (cut_text separator cs).0 ≡ before = ground arith in
          ap (λ s. c ∷ s) (cut_text-append separator cs (cut_text separator cs).0 after found)
          ∙ ap (λ b. b ++ (separator ++ after)) front
      | inr (rest, found) ↦ ground (arith, cut_prefix-append separator (c ∷ cs) rest found)
    ]

-- One of the two databases.
abbrev pub is_voice : Bytes → Bool
is_voice database = is database "asterisk" || is database "asteriskcdrdb"

-- A query in quotes that a shell takes as it is: in double quotes without what is expanded or ends
-- them, or, between escaped quotes, without any operator of the shell either.
pub data InQuotes (query : Bytes) : Bytes → Type 0 where
  double :
      contains_any (b'"' ∷ b'\\' ∷ b'$' ∷ b'`' ∷ []) query ≡ false
      → InQuotes query (b'"' ∷ query ++ b'"' ∷ [])
  escaped :
      contains_any (b'"' ∷ b'\\' ∷ b'$' ∷ b'`' ∷ []) query ≡ false
      → contains_any (codes "';&|<>()*?[]{}~#") query ≡ false
      → InQuotes query (b'\\' ∷ b'"' ∷ query ++ b'\\' ∷ b'"' ∷ [])

-- The word for the shell in the container: the client, a database, and a query in quotes.
pub record IsQuoted (word query : Bytes) : Type 0 where
  pub database : Bytes
  pub quoted : Bytes
  pub word_eq :
      word
      ≡ codes "mysql -uroot -p${MARIADB_ROOT_PASSWORD} -N -B "
        ++ (database ++ (codes " -e " ++ quoted))
  pub allowed : is_voice database ≡ true
  pub in_quotes : InQuotes query quoted

-- `mysql` itself, with the query as its last argument, in one pair of quotes.
pub record IsDirect (words : List ShellWord) (query : Bytes) : Type 0 where
  pub seven : length words ≡ 7
  pub client :
      (word_is words 0 "/usr/bin/mysql"
        && word_is words 1 "--defaults-file=/root/.my.cnf"
        && word_is words 2 "-N"
        && word_is words 3 "--batch"
        && word_is words 5 "-e")
      ≡ true
  pub database : is_voice (value_at words 4) ≡ true
  pub quotes : (quote_at words 6 == b'"' || quote_at words 6 == b'\'') ≡ true
  pub whole : mixed_at words 6 ≡ false
  pub asked : value_at words 6 ≡ query

-- The shell of the database's container, given one word in single quotes.
pub record IsShell (words : List ShellWord) (query : Bytes) : Type 0 where
  pub nine : length words ≡ 9
  pub container :
      (word_is words 0 "runagent"
        && word_is words 1 "-m"
        && word_is words 3 "podman"
        && word_is words 4 "exec"
        && word_is words 5 "mariadb"
        && word_is words 6 "sh"
        && word_is words 7 "-c")
      ≡ true
  pub module_name : clean_literal (value_at words 2) ≡ true
  pub quotes : quote_at words 8 ≡ b'\''
  pub asked : IsQuoted (value_at words 8) query

in_double :
    (value query : Bytes)
    → leb 2 (length value) ≡ true
    → has_prefix (codes "\"") value ≡ true
    → has_suffix (codes "\"") value ≡ true
    → drop 1 (take (length value - 1) value) ≡ query
    → value ≡ b'"' ∷ query ++ b'"' ∷ []
unfolding has_prefix
in_double value query long opens closes h =
    let (front, same, taken) = has_suffix-append (codes "\"") value closes in
    whole front same (sym h ∙ ap (drop 1) taken)
  where
    whole :
        (front : Bytes)
        → value ≡ front ++ b'"' ∷ []
        → query ≡ drop 1 front
        → value ≡ b'"' ∷ query ++ b'"' ∷ []
    whole [] same cut = ground arith
    whole (c ∷ front) same cut = ground arith

in_escaped :
    (value query : Bytes)
    → leb 4 (length value) ≡ true
    → has_prefix (codes "\\\"") value ≡ true
    → has_suffix (codes "\\\"") value ≡ true
    → drop 2 (take (length value - 2) value) ≡ query
    → value ≡ b'\\' ∷ b'"' ∷ query ++ b'\\' ∷ b'"' ∷ []
unfolding has_prefix
in_escaped value query long opens closes h =
    let (front, same, taken) = has_suffix-append (codes "\\\"") value closes in
    whole front same (sym h ∙ ap (drop 2) taken)
  where
    whole :
        (front : Bytes)
        → value ≡ front ++ b'\\' ∷ b'"' ∷ []
        → query ≡ drop 2 front
        → value ≡ b'\\' ∷ b'"' ∷ query ++ b'\\' ∷ b'"' ∷ []
    whole [] same cut = ground arith
    whole (c ∷ []) same cut = ground arith
    whole (c ∷ d ∷ front) same cut = ground arith

abbrev opens_escaped : Bytes → Bool
opens_escaped quoted = has_prefix (codes "\\\"") quoted

quoted_shell_query-forms :
    (quoted query : Bytes)
    → quoted_shell_query quoted ≡ some query
    → (quoted ≡ b'"' ∷ query ++ b'"' ∷ [])
      ⊎ ((opens_escaped quoted ≡ true) × (quoted ≡ b'\\' ∷ b'"' ∷ query ++ b'\\' ∷ b'"' ∷ []))
unfolding quoted_shell_query
quoted_shell_query-forms quoted query h =
    elim (Bool-cases
      (leb 2 (length quoted) && has_prefix (codes "\"") quoted && has_suffix (codes "\"") quoted)) [
        | inl plain ↦
            inl (in_double quoted query (ground arith) (ground arith) (ground arith) (ground arith))
        | inr other ↦
            elim (Bool-cases
              (leb 4 (length quoted) && opens_escaped quoted && has_suffix (codes "\\\"") quoted)) [
                | inl both ↦ inr (
                  ground arith,
                  in_escaped quoted query (ground arith) (ground arith) (ground arith)
                      (ground arith),
                )
                | inr neither ↦ ground arith
              ]
      ]

shell_query-checked :
    (quoted query : Bytes)
    → shell_query quoted ≡ some query
    → (quoted_shell_query quoted ≡ some query)
      × (contains_any (codes "\"\\$`") query ≡ false)
      × ((opens_escaped quoted && contains_any (codes "';&|<>()*?[]{}~#") query) ≡ false)
unfolding shell_query
shell_query-checked quoted query h = elim (Option-cases (quoted_shell_query quoted)) [
  | inl unquoted ↦ ground arith
  | inr (found, q) ↦
      let same : found ≡ query = ground arith in
      (
        q ∙ ap some same,
        subst (λ s. contains_any (codes "\"\\$`") s ≡ false) same (ground arith),
        subst (λ s. (opens_escaped quoted && contains_any (codes "';&|<>()*?[]{}~#") s) ≡ false)
            same (ground arith),
      )
]

shell_query-InQuotes :
    (quoted query : Bytes) → shell_query quoted ≡ some query → InQuotes query quoted
shell_query-InQuotes quoted query h =
    let (q, inert, guarded) = shell_query-checked quoted query h in
    elim (quoted_shell_query-forms quoted query q) [
      | inl plain ↦ subst (InQuotes query) (sym plain) (double inert)
      | inr (opens, form) ↦ subst (InQuotes query) (sym form) (escaped inert (ground arith))
    ]

database_query-IsQuoted :
    (word command query : Bytes)
    → word ≡ codes "mysql -uroot -p${MARIADB_ROOT_PASSWORD} -N -B " ++ command
    → database_query (cut_text (codes " -e ") command) ≡ some query
    → IsQuoted word query
unfolding database_query allowed_voice_database
database_query-IsQuoted word command query w h =
    let database = (cut_text (codes " -e ") command).0 in
    elim (Option-cases (cut_text (codes " -e ") command).1) [
      | inl absent ↦ ground arith
      | inr (quoted, found) ↦
          let cut : cut_text (codes " -e ") command ≡ (database, some quoted) = ground arith in
          let allowed : is_voice database ≡ true = ground arith in
          let inner : shell_query quoted ≡ some query = ground arith in
          record {
            database = database;
            quoted = quoted;
            word_eq =
                w
                ∙ ap (λ s. codes "mysql -uroot -p${MARIADB_ROOT_PASSWORD} -N -B " ++ s)
                    (cut_text-append (codes " -e ") command database quoted cut);
            allowed = allowed;
            in_quotes = shell_query-InQuotes quoted query inner;
          }
    ]

client_query-IsQuoted : (word query : Bytes) → client_query word ≡ some query → IsQuoted word query
unfolding client_query
client_query-IsQuoted word query h =
    let prefix = codes "mysql -uroot -p${MARIADB_ROOT_PASSWORD} -N -B " in
    elim (Option-cases (cut_prefix prefix word)) [
      | inl absent ↦ ground arith
      | inr (command, found) ↦
          database_query-IsQuoted word command query (cut_prefix-append prefix word command found)
            (ground arith)
    ]

if-some :
    (b : Bool) (o : Option Bytes) (query : Bytes)
    → (if b then o else none) ≡ some query
    → (b ≡ true) × (o ≡ some query)
if-some true o query h = (refl, h)
if-some false o query h = ground arith

some-eq : (a b : Bytes) → ◌≡◌ {A = Option Bytes} (some a) (some b) → a ≡ b
some-eq a b h = cc

direct_mysql_query-IsDirect :
    (words : List ShellWord) (query : Bytes)
    → direct_mysql_query words ≡ some query
    → IsDirect words query
unfolding direct_mysql_query allowed_voice_database
direct_mysql_query-IsDirect words query h =
    let (passes, asked) = if-some _ _ query h in
    record {
      seven = ground arith;
      client = ground arith;
      database = ground arith;
      quotes = ground arith;
      whole = ground arith;
      asked = some-eq (value_at words 6) query asked;
    }

all_ten :
    (a b c d e f g h i j : Bool)
    → (a && b && c && d && e && f && g && h && i && j) ≡ true
    → (a ≡ true) × ((b && c && e && f && g && h && i) ≡ true) × (d ≡ true) × (j ≡ true)
all_ten a b c d e f g h i j k = (ground arith, ground arith, ground arith, ground arith)

mysql_shell_query-IsShell :
    (words : List ShellWord) (query : Bytes)
    → mysql_shell_query words ≡ some query
    → IsShell words query
unfolding mysql_shell_query
mysql_shell_query-IsShell words query h =
    let (passes, asked) = if-some _ _ query h in
    let (nine, container, named, quotes) =
      all_ten (length words == 9) (word_is words 0 "runagent") (word_is words 1 "-m")
        (clean_literal (value_at words 2)) (word_is words 3 "podman") (word_is words 4 "exec")
        (word_is words 5 "mariadb") (word_is words 6 "sh") (word_is words 7 "-c")
        (quote_at words 8 == b'\'') passes in
    record {
      nine = (==_iff (length words) 9).0 nine;
      container = container;
      module_name = named;
      quotes = (==_iff (quote_at words 8) b'\'').0 quotes;
      asked = client_query-IsQuoted (value_at words 8) query asked;
    }

-- A command that `mysql_read` or `mysql_shell_read` accepts asks one query, whose tokens begin with
-- SELECT, SHOW, DESCRIBE or DESC and hold no word INTO, OUTFILE, DUMPFILE, UNION, FOR, LOCK,
-- PROCEDURE, USING or WITH. The first is the fixed client with one of two databases and the query
-- as its last argument, in one pair of quotes; the second hands the shell of the container, in
-- single quotes, the fixed client command, one of two databases and the query, in double quotes
-- without a double quote, backslash, dollar or backquote, or in escaped quotes without these and
-- without the shell's operators, patterns, groups, braces, tilde and comments.
pub validated-IsRead :
    (words : List ShellWord)
    → (validate_mysql_read words ≡ true) ⊎ (validate_mysql_shell_read words ≡ true)
    → (query : Bytes) × (IsDirect words query ⊎ IsShell words query) × IsRead query
unfolding validate_mysql_read validate_mysql_shell_read
validated-IsRead words (inl h) =
    let (query, direct, reads) =
      query_is-some validate_read_only_sql (direct_mysql_query words) h in
    (query, inl (direct_mysql_query-IsDirect words query direct), harmless-IsRead query reads)
validated-IsRead words (inr h) =
    let (query, shell, reads) = query_is-some validate_read_only_sql (mysql_shell_query words) h in
    (query, inr (mysql_shell_query-IsShell words query shell), harmless-IsRead query reads)
