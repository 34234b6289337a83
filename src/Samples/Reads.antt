-- ===== src/Samples/Reads.antt =====
-- The validators of internal/policy on words that they accept and refuse.
use windmill_gate.Policy.Diagnostic.{parse_read_options}
use windmill_gate.Base.Maps.{insert, lookup}
use windmill_gate.Policy.Paths.{clean_literal, clean_path}
use windmill_gate.Sql.Token.{rank, same_kind}
use windmill_gate.Sql.Scan.{
  comparison, pattern_byte, scan_comparison, scan_decimals, scan_from, scan_identifier,
  scan_literal, scan_number, scan_one, scan_sql, scan_symbol, space_byte, span, word_byte,
}
use windmill_gate.Sql.Grammar.{
  accepts, boolean_expression, boolean_term, call, call_paren, column, comparison_rest,
  describe_statement, limit, literal, named, nonnegative_integer, order_direction, order_list,
  positive_integer, read_statement, scalar, scalar_rule, select_list, select_statement,
  show_pattern, show_statement, table_reference, tables, tables_loop, tables_turn, term_rule,
  validate_read_only_sql, whole_number,
}
use windmill_gate.Policy.Values.{decimal}
use windmill_gate.Base.Unicode.{decode_rune, is_control, is_space, runes, runes_from}
use windmill_gate.Sql.Parser.{
  at_end, branch, current_kind, equal_fold, identifier, keyword, kind, looping, repeat,
  reserved_sql_word, test, token,
}
use windmill_gate.Base.{
  true, false, ◌≡◌, refl, Bytes, String, codes, List, ◌∷◌, [], inr, ◌⊎◌, ascii_digit, ascii_letter,
  cut_prefix, equal, has_byte, has_prefix, has_suffix, is_empty, join, member, split, to_upper,
}
use windmill_gate.Policy.Shell.{ShellWord}
use windmill_gate.Policy.Network.{
  alphanumeric, bounded_decimal, bounded_identifier, identifier_byte,
}
use windmill_gate.Policy.Mysql.{
  validate_mysql_shell_read, allowed_voice_database, client_query, cut_text, database_query,
  mysql_shell_query, quoted_shell_query, shell_query,
}
use windmill_gate.Policy.Mysql.Queried.{IsDirect, IsShell, IsRead, validated-IsRead}
use windmill_gate.Policy.Journal.{validate_scoped_journal}
use windmill_gate.Policy.Reads.{validate_journal_read}
use windmill_gate.Policy.Containers.{validate_container_startup}
use windmill_gate.Policy.Files.{validate_module_checksums, validate_asterisk_config_slice}
use windmill_gate.Policy.Grep.{validate_source_grep, validate_pgrep, parse_grep_operands}

abbrev plain : String → ShellWord
plain text = record { value = codes text; start = 0; end = 0; quote = 0; mixed = false }

abbrev quoted : String → ShellWord
quoted text = record { value = codes text; start = 0; end = 0; quote = b'\''; mixed = false }

abbrev mysql_words : List ShellWord
mysql_words =
    plain "runagent"
    ∷ plain "-m"
    ∷ plain "nethvoice1"
    ∷ plain "podman"
    ∷ plain "exec"
    ∷ plain "mariadb"
    ∷ plain "sh"
    ∷ plain "-c"
    ∷ quoted "mysql -uroot -p${MARIADB_ROOT_PASSWORD} -N -B asterisk -e \"SELECT id FROM users\""
    ∷ []

mysql_accepted : validate_mysql_shell_read mysql_words ≡ true
unfolding validate_mysql_shell_read branch ascii_digit cut_prefix has_byte has_prefix has_suffix
    member to_upper decode_rune runes_from allowed_voice_database client_query cut_text
    database_query quoted_shell_query shell_query decimal accepts boolean_expression boolean_term
    call call_paren column comparison_rest describe_statement limit literal named
    nonnegative_integer order_direction order_list positive_integer read_statement scalar
    scalar_rule select_list select_statement show_pattern show_statement table_reference tables
    tables_loop tables_turn term_rule whole_number at_end current_kind equal_fold identifier keyword
    kind looping repeat reserved_sql_word test token comparison pattern_byte scan_comparison
    scan_decimals scan_literal scan_number scan_symbol rank same_kind mysql_shell_query equal
    clean_literal is_empty runes is_control is_space validate_read_only_sql scan_sql scan_from
    scan_one space_byte ascii_letter scan_identifier span word_byte
mysql_accepted = refl

validated-IsRead_example :
    (query : Bytes) × (IsDirect mysql_words query ⊎ IsShell mysql_words query) × IsRead query
validated-IsRead_example = validated-IsRead mysql_words (inr mysql_accepted)

scoped_accepted :
    validate_scoped_journal (
      plain "journalctl"
      ∷ plain "_UID=1001"
      ∷ plain "--since=2024-02-29T10:00:00Z"
      ∷ plain "--until=2024-03-01 9:00:00.5 UTC"
      ∷ plain "--no-pager"
      ∷ plain "-n"
      ∷ plain "100"
      ∷ plain "-g"
      ∷ plain "reload|failed"
      ∷ [])
    ≡ true
unfolding validate_scoped_journal is_empty lookup insert bounded_decimal
scoped_accepted = refl

-- there is no such day
day_refused :
    validate_scoped_journal (
      plain "journalctl"
      ∷ plain "_UID=1001"
      ∷ plain "--since=2023-02-29T10:00:00Z"
      ∷ plain "--no-pager"
      ∷ plain "-n"
      ∷ plain "100"
      ∷ [])
    ≡ false
unfolding validate_scoped_journal is_empty lookup insert bounded_decimal
day_refused = refl

journal_accepted :
    validate_journal_read (
      plain "journalctl"
      ∷ plain "-b"
      ∷ plain "-1"
      ∷ plain "-u"
      ∷ plain "sshd"
      ∷ plain "_PID=1"
      ∷ [])
    ≡ true
unfolding validate_journal_read
journal_accepted = refl

vacuum_refused : validate_journal_read (plain "journalctl" ∷ plain "--vacuum-size=1M" ∷ []) ≡ false
unfolding validate_journal_read
vacuum_refused = refl

startup_accepted :
    validate_container_startup (
      plain "podman"
      ∷ plain "inspect"
      ∷ quoted "--format={{.Args}} {{json .Config.Cmd}}"
      ∷ plain "app"
      ∷ [])
    ≡ true
unfolding validate_container_startup bounded_identifier alphanumeric identifier_byte
startup_accepted = refl

environment_refused :
    validate_container_startup
      (plain "podman" ∷ plain "inspect" ∷ quoted "--format={{.Config.Env}}" ∷ plain "app" ∷ [])
    ≡ false
unfolding validate_container_startup
environment_refused = refl

checksums_accepted :
    validate_module_checksums (plain "sha256sum" ∷ plain "/home/m1/.config/bin/run" ∷ []) ≡ true
unfolding validate_module_checksums clean_path is_empty clean_literal runes is_control is_space
    has_byte join bounded_identifier alphanumeric identifier_byte
checksums_accepted = refl

slice_refused :
    validate_asterisk_config_slice
      (plain "sed" ∷ plain "-n" ∷ quoted "1,1001p" ∷ plain "/etc/asterisk/pjsip.endpoint.conf" ∷ [])
    ≡ false
unfolding validate_asterisk_config_slice equal
slice_refused = refl

grep_accepted :
    validate_source_grep (plain "grep" ∷ plain "-rnA3" ∷ quoted "a b" ∷ plain "/var/log/x" ∷ [])
    ≡ true
unfolding validate_source_grep parse_grep_operands clean_path clean_literal runes is_control
    is_space split join
grep_accepted = refl

pgrep_accepted : validate_pgrep (plain "-u" ∷ plain "root" ∷ plain "sshd" ∷ []) ≡ true
unfolding validate_pgrep parse_read_options equal has_byte clean_literal is_space
pgrep_accepted = refl
