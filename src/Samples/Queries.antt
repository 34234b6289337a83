-- ===== src/Samples/Queries.antt =====
-- internal/policy/mysql.go on queries.
use windmill_gate.Policy.Values.{decimal}
use windmill_gate.Base.{
  ◌≢◌, ◌⊎◌, none, ℕ, arith, true, false, List, [], ◌∷◌, some, ◌≡◌, refl, Bytes, codes, All,
  ascii_digit, ascii_letter, equal, has_byte, member, to_upper,
}
use Prim.Native.String.{String}
use windmill_gate.Sql.Token.{SqlToken, sql_identifier, same_kind, rank}
use windmill_gate.Sql.Scan.{
  scan_sql, scan_from, scan_one, comparison, pattern_byte, scan_comparison, scan_decimals,
  scan_identifier, scan_literal, scan_number, scan_symbol, space_byte, span, word_byte,
}
use windmill_gate.Sql.Scan.Passes.{Passes}
use windmill_gate.Sql.Scan.Plain.{scan_sql-Passes}
use windmill_gate.Sql.Scan.Fuel.{Refuses, scan_from_fuel}
use windmill_gate.Sql.Parser.{
  current_kind, at_end, token, kind, keyword, equal_fold, reserved_sql_word, identifier, branch,
  test, repeat, looping,
}
use windmill_gate.Sql.Grammar.{
  validate_read_only_sql, accepts, read_statement, select_statement, scalar, boolean_term,
  select_list, tables, tables_turn, tables_loop, table_reference, order_list, boolean_expression,
  describe_statement, show_statement, named, literal, column, scalar_rule, term_rule,
  comparison_rest, limit, call, call_paren, nonnegative_integer, order_direction, positive_integer,
  show_pattern, whole_number,
}
use windmill_gate.Sql.Grammar.Safe.{BeginsWith, read_verbs, validate_read_only_sql-IsHarmless}
use windmill_gate.Sql.Grammar.Words.{IsHarmless}

abbrev read_query : Bytes
read_query = codes "SELECT COUNT(*) FROM cdr WHERE src = 'a'"

abbrev write_query : Bytes
write_query = codes "SELECT a FROM b INTO OUTFILE 'x'"

read_query_accepted : validate_read_only_sql read_query ≡ true
unfolding validate_read_only_sql accepts read_statement scan_sql scan_from scan_one space_byte
    ascii_letter scan_identifier span word_byte scan_symbol scan_comparison comparison scan_literal
    branch same_kind to_upper select_statement keyword equal_fold select_list kind ascii_digit equal
    has_byte member decimal boolean_expression boolean_term call call_paren column comparison_rest
    describe_statement limit literal named nonnegative_integer order_direction order_list
    positive_integer scalar scalar_rule show_pattern show_statement table_reference tables
    tables_loop tables_turn term_rule whole_number at_end current_kind identifier looping repeat
    reserved_sql_word test token pattern_byte scan_decimals scan_number rank
read_query_accepted = refl

write_query_refused : validate_read_only_sql write_query ≡ false
unfolding validate_read_only_sql accepts scan_sql scan_from scan_one space_byte ascii_letter
    scan_identifier span word_byte scan_symbol scan_literal branch read_statement same_kind to_upper
    select_statement keyword equal_fold ascii_digit equal has_byte member decimal boolean_expression
    boolean_term call call_paren column comparison_rest describe_statement limit literal named
    nonnegative_integer order_direction order_list positive_integer scalar scalar_rule select_list
    show_pattern show_statement table_reference tables tables_loop tables_turn term_rule
    whole_number at_end current_kind identifier kind looping repeat reserved_sql_word test token
    comparison pattern_byte scan_comparison scan_decimals scan_number rank
write_query_refused = refl

abbrev short_query : Bytes
short_query = codes "SHOW TABLES"

abbrev word : ℕ → ℕ → String → SqlToken
word from to text = record { kind = sql_identifier; value = codes text; start = from; end = to }

abbrev short_tokens : List SqlToken
short_tokens = word 0 4 "SHOW" ∷ word 5 11 "TABLES" ∷ []

short_query_scanned : scan_sql short_query ≡ some short_tokens
unfolding scan_sql scan_from scan_one space_byte ascii_letter scan_identifier span word_byte
short_query_scanned = refl

validate_read_only_sql-IsHarmless_example :
    (ts : List SqlToken) × (scan_sql read_query ≡ some ts)
    × BeginsWith read_verbs ts
    × All IsHarmless ts
validate_read_only_sql-IsHarmless_example =
    validate_read_only_sql-IsHarmless read_query read_query_accepted

scan_sql-Passes_example : Passes false short_query false []
scan_sql-Passes_example = scan_sql-Passes short_query short_tokens short_query_scanned

scan_from_fuel_example :
    (scan_from 40 0 short_query ≡ scan_from 11 0 short_query)
    × ((scan_from 40 0 short_query ≢ none) ⊎ Refuses 0 short_query)
scan_from_fuel_example = scan_from_fuel 40 11 0 short_query (omega arith) (omega arith)
