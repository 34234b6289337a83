-- ===== src/Policy/Mysql.antt =====
-- The front of the validators of internal/policy/mysql.go: where the query stands in the words of
-- a command, and how it is quoted.
pub mod Queried
use windmill_gate.Base.{
  ℕ, ◌-◌, Bool, true, false, not, ◌&&◌, ◌||◌, List, [], ◌∷◌, Option, none, some, ◌==◌, leb,
  if◌then◌else◌, Bytes, codes, is, length, any, take, drop, get_elem?, has_byte, has_prefix,
  has_suffix, cut_prefix,
}
use windmill_gate.Policy.Shell.{ShellWord}
use windmill_gate.Policy.Network.{word_is, value_at}
use windmill_gate.Policy.Paths.{clean_literal}
use windmill_gate.Sql.Grammar.{validate_read_only_sql, validate_select_sql}

-- `words[i].quote`, for an index that the length allows
abbrev pub quote_at : List ShellWord → ℕ → ℕ
quote_at words i = elim (get_elem? words i) [ none ↦ 0 | some w ↦ w.quote ]

abbrev pub mixed_at : List ShellWord → ℕ → Bool
mixed_at words i = elim (get_elem? words i) [ none ↦ false | some w ↦ w.mixed ]

-- a word that stands in one pair of quotes
abbrev pub quoted_at : List ShellWord → ℕ → Bool
quoted_at words i =
    (quote_at words i == b'"' || quote_at words i == b'\'') && not (mixed_at words i)

unfoldable pub allowed_voice_database : Bytes → Bool
allowed_voice_database value = is value "asterisk" || is value "asteriskcdrdb"

-- `directMySQLQuery`
unfoldable pub direct_mysql_query : List ShellWord → Option Bytes
unfolding allowed_voice_database
direct_mysql_query words =
    if length words == 7
      && word_is words 0 "/usr/bin/mysql"
      && word_is words 1 "--defaults-file=/root/.my.cnf"
      && word_is words 2 "-N"
      && word_is words 3 "--batch"
      && allowed_voice_database (value_at words 4)
      && word_is words 5 "-e"
      && quoted_at words 6
    then some (value_at words 6)
    else none

abbrev pub query_is : (Bytes → Bool) → Option Bytes → Bool
query_is p none = false
query_is p (some query) = p query

unfoldable pub validate_mysql_read : List ShellWord → Bool
validate_mysql_read words = query_is validate_read_only_sql (direct_mysql_query words)

unfoldable pub validate_mysql_select : List ShellWord → Bool
validate_mysql_select words = query_is validate_select_sql (direct_mysql_query words)

-- `strings.Cut(s, separator)`
unfoldable pub cut_text : Bytes → Bytes → Bytes × Option Bytes
unfolding cut_prefix
cut_text separator [] = elim (cut_prefix separator []) [
  | none ↦ ([], none)
  | some rest ↦ ([], some rest)
]
cut_text separator (c ∷ cs) =
    let (before, after) = cut_text separator cs in
    elim (cut_prefix separator (c ∷ cs)) [
      | some rest ↦ ([], some rest)
      | none ↦ (c ∷ before, after)
    ]

-- `quotedShellQuery`: between quotes, or between escaped quotes
unfoldable pub quoted_shell_query : Bytes → Option Bytes
unfolding has_prefix has_suffix
quoted_shell_query value =
    if leb 2 (length value) && has_prefix (codes "\"") value && has_suffix (codes "\"") value
    then some (drop 1 (take (length value - 1) value))
    else if leb 4 (length value)
        && has_prefix (codes "\\\"") value
        && has_suffix (codes "\\\"") value
    then some (drop 2 (take (length value - 2) value))
    else none

-- `strings.ContainsAny(s, set)`
abbrev pub contains_any : Bytes → Bytes → Bool
contains_any set s = any (λ c. has_byte c set) s

-- the query of the command behind ` -e `, if the database is allowed
unfoldable pub shell_query : Bytes → Option Bytes
unfolding quoted_shell_query has_byte
shell_query command = elim (quoted_shell_query command) [
  | none ↦ none
  | some query ↦
      if contains_any (codes "\"\\$`") query
        || has_prefix (codes "\\\"") command && contains_any (codes "';&|<>()*?[]{}~#") query
      then none
      else some query
]

unfoldable pub database_query : Bytes × Option Bytes → Option Bytes
unfolding allowed_voice_database shell_query
database_query (database, none) = none
database_query (database, some command) =
    if allowed_voice_database database then shell_query command else none

-- the query of the word that the shell of the container is given
unfoldable pub client_query : Bytes → Option Bytes
unfolding database_query cut_text cut_prefix
client_query word =
    elim (cut_prefix (codes "mysql -uroot -p${MARIADB_ROOT_PASSWORD} -N -B ") word) [
      | none ↦ none
      | some command ↦ database_query (cut_text (codes " -e ") command)
    ]

-- what `validateMySQLShellRead` gives to the parser
unfoldable pub mysql_shell_query : List ShellWord → Option Bytes
unfolding client_query
mysql_shell_query words =
    if length words == 9
      && word_is words 0 "runagent"
      && word_is words 1 "-m"
      && clean_literal (value_at words 2)
      && word_is words 3 "podman"
      && word_is words 4 "exec"
      && word_is words 5 "mariadb"
      && word_is words 6 "sh"
      && word_is words 7 "-c"
      && quote_at words 8 == b'\''
    then client_query (value_at words 8)
    else none

unfoldable pub validate_mysql_shell_read : List ShellWord → Bool
validate_mysql_shell_read words = query_is validate_read_only_sql (mysql_shell_query words)
