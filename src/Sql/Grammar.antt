-- ===== src/Sql/Grammar.antt =====
-- The rules of `sqlParser` in internal/policy/mysql.go, in the source's order of tests. The flag
-- `extended` is the parser's field; `room` is 64 - `p.depth`, which the source's guard
-- `p.depth > 64` finds used up at 0, and which `defer` restores when a rule returns.
pub mod Words
mod Calls
mod Rules
pub mod Safe
use windmill_gate.Base.{
  ℕ, zero, suc, ◌+◌, Bool, true, false, not, ◌&&◌, ◌||◌, List, [], ◌∷◌, Option, none, some, ◌==◌,
  if◌then◌else◌, Bytes, String, codes, is, equal, has_byte, to_upper, is_some,
}
use windmill_gate.Policy.Values.{decimal}
use windmill_gate.Sql.Token.{
  SqlTokenKind, sql_identifier, sql_number, sql_string, sql_comma, sql_left_paren, sql_right_paren,
  sql_star, sql_dot, sql_comparison, sql_pattern, SqlToken, same_kind,
}
use windmill_gate.Sql.Scan.{scan_sql}
use windmill_gate.Sql.Parser.{
  Parse, current_kind, at_end, token, kind, kw, reserved_sql_word, identifier, branch, succeed,
  fail, ◌▸◌, ◌<|>◌, optional, when, test, repeat, looping,
}

-- a number without a decimal point: `positiveInteger` and `nonnegativeInteger`
unfoldable pub whole_number : Bool → SqlToken → Bool
unfolding same_kind has_byte decimal
whole_number allow_zero t =
    same_kind t.kind sql_number && not (has_byte b'.' t.value) && decimal t.value allow_zero

unfoldable pub positive_integer : Parse
unfolding token
positive_integer = token (whole_number false)

unfoldable pub nonnegative_integer : Parse
unfolding token
nonnegative_integer = token (whole_number true)

-- `limit`: a first number of 0 is accepted only before a comma
unfoldable pub limit : Parse
unfolding positive_integer nonnegative_integer
limit [] = none
limit (t ∷ ts) =
    if whole_number true t
    then branch (kind sql_comma) positive_integer
        (if decimal t.value false then when (kw "OFFSET") nonnegative_integer else fail) ts
    else none

unfoldable pub order_direction : Parse
order_direction = branch (kw "ASC") succeed (optional (kw "DESC"))

unfoldable pub show_pattern : Parse
show_pattern = kind sql_string <|> kind sql_pattern

-- `booleanExpression` over its term
unfoldable pub boolean_expression : Parse → Parse
boolean_expression term = term ▸ looping (repeat (kw "AND" <|> kw "OR") term)

-- `COUNT`, `SUM`, `AVG`, `MIN`, `MAX`
abbrev aggregate : Bytes → Bool
aggregate name = is name "COUNT" || is name "SUM" || is name "AVG" || is name "MIN" || is name "MAX"

-- The parenthesis behind the name: `start` of the token must be `end` of the name.
unfoldable pub call_paren : ℕ → Parse
unfolding token same_kind
call_paren end = token (λ t. same_kind t.kind sql_left_paren && end == t.start)

abbrev pub is_count : Bytes → Bool
is_count name = is name "COUNT"

-- The arguments of a call of the function `name`, which is in upper case. `argument` is
-- `scalar(true)` one level down, `expression` is `booleanExpression` there.
unfoldable pub call : Bool → Parse → Parse → Bytes → Parse
unfolding equal
call extended argument expression name =
    if aggregate name
    then (if extended
        then (let plain = optional (kw "DISTINCT") ▸ expression ▸ kind sql_right_paren in
            if is_count name then branch (kind sql_star) (kind sql_right_paren) plain else plain)
        else fail)
    else if is name "UPPER" || is name "LOWER"
    then argument ▸ kind sql_right_paren
    else if is name "REPLACE"
    then argument ▸ kind sql_comma ▸ argument ▸ kind sql_comma ▸ argument ▸ kind sql_right_paren
    else fail

-- behind a name that no parenthesis follows
unfoldable pub column : Bool → Bytes → Parse
column extended name =
    if reserved_sql_word name
    then fail
    else branch (kind sql_dot)
        (if extended then branch (kind sql_star) succeed identifier else identifier) succeed

-- the part of `scalar` that begins with an identifier
unfoldable pub named : Bool → Parse → Parse → Parse
unfolding same_kind
named extended argument expression [] = none
named extended argument expression (t ∷ ts) =
    if same_kind t.kind sql_identifier
    then test (current_kind sql_left_paren)
        (call_paren t.end ▸ call extended argument expression (to_upper t.value))
        (column extended t.value) ts
    else none

unfoldable pub literal : Parse
literal = kind sql_string <|> kind sql_number <|> kw "NULL" <|> kw "TRUE" <|> kw "FALSE"

-- `scalar(allowLiteral)`, without its count of the depth
unfoldable pub scalar_rule : Bool → Bool → Parse → Parse → Parse
scalar_rule extended allow_literal argument expression =
    if allow_literal
    then literal <|> named extended argument expression
    else named extended argument expression

-- what may follow the scalar of a `booleanTerm`
unfoldable pub comparison_rest : Bool → Parse → Parse
comparison_rest extended value = branch (kind sql_comparison <|> kw "LIKE") value (
    branch (kw "IS") (optional (kw "NOT") ▸ kw "NULL") (
      if extended
      then (let list =
            kind sql_left_paren
            ▸ value
            ▸ looping (repeat (kind sql_comma) value)
            ▸ kind sql_right_paren in
          branch (kw "NOT") (branch (kw "IN") list fail) (branch (kw "IN") list succeed))
      else fail))

-- `booleanTerm`, without its count of the depth: `term` and `value` are one level down
unfoldable pub term_rule : Bool → Parse → Parse → Parse
unfolding comparison_rest
term_rule extended term value =
    let rest =
      branch (kind sql_left_paren) (boolean_expression term ▸ kind sql_right_paren)
        (value ▸ comparison_rest extended value) in
    if extended then branch (kw "NOT") term rest else rest

unfoldable mutual
  pub scalar : ℕ → Bool → Bool → Parse
  scalar zero extended allow_literal = fail
  scalar (suc room) extended allow_literal =
      scalar_rule extended allow_literal (λ ts. scalar room extended true ts)
        (boolean_expression (λ ts. boolean_term room extended ts))

  pub boolean_term : ℕ → Bool → Parse
  boolean_term zero extended = fail
  boolean_term (suc room) extended =
      term_rule extended (λ ts. boolean_term room extended ts) (λ ts. scalar room extended true ts)

-- `for { … }` of `tables`, with its flags as arguments; `scalar` and `booleanTerm` nest 64 deep
abbrev pub max_depth : ℕ
max_depth = 64

unfoldable pub table_reference : Parse
unfolding reserved_sql_word current_kind
table_reference =
    identifier ▸ when (kind sql_dot) identifier ▸ branch (kw "AS") identifier (optional identifier)

-- `if !p.keyword("JOIN") { return !typed }` and the rest of a turn; `next` is the next turn
join : Parse → Parse → Bool → Bool → Parse
unfolding table_reference
join condition next typed cross =
    branch (kw "JOIN")
      (table_reference ▸ branch (kw "ON") condition (if cross then succeed else fail) ▸ next)
      (if typed then fail else succeed)

side : Parse → Parse → Bool → Bool → Parse
unfolding join
side condition next typed cross =
    branch (kw "LEFT" <|> kw "RIGHT") (optional (kw "OUTER") ▸ join condition next true cross)
      (join condition next typed cross)

-- one turn of the loop of `tables`
unfoldable pub tables_turn : Parse → Parse → Parse
unfolding side
tables_turn condition next = branch (kind sql_comma) (table_reference ▸ next) (
    branch (kw "CROSS") (side condition next true true)
      (branch (kw "INNER") (side condition next true false) (side condition next false false)))

unfoldable pub tables_loop : Parse → ℕ → Parse
unfolding tables_turn
tables_loop condition zero = fail
tables_loop condition (suc fuel) = tables_turn condition (λ ts. tables_loop condition fuel ts)

unfoldable pub tables : Parse → Parse
tables condition = table_reference ▸ looping (tables_loop condition)

select_expression : Bool → Parse → Parse
select_expression extended value = value ▸ when (kw "AS") identifier

unfoldable pub select_list : Bool → Parse → Parse
unfolding select_expression
select_list extended value = branch (kind sql_star) succeed (
    select_expression extended value
    ▸ looping (repeat (kind sql_comma) (select_expression extended value)))

unfoldable pub order_list : Parse → Parse
unfolding order_direction
order_list value =
    value ▸ order_direction ▸ looping (repeat (kind sql_comma) (value ▸ order_direction))

from_clause : Bool → Parse → Parse
from_clause extended condition =
    if extended then when (kw "FROM") (tables condition) else (kw "FROM" ▸ identifier)

group_clause : Bool → Parse → Parse
group_clause extended column =
    if extended then when (kw "GROUP") (kw "BY" ▸ order_list column) else succeed

having_clause : Bool → Parse → Parse
having_clause extended condition = if extended then when (kw "HAVING") condition else succeed

unfoldable pub select_statement : Bool → Parse
unfolding from_clause group_clause having_clause
select_statement extended =
    let condition = boolean_expression (boolean_term max_depth extended) in
    let column = scalar max_depth extended false in
    kw "SELECT"
    ▸ (if extended then optional (kw "DISTINCT") else succeed)
    ▸ select_list extended (scalar max_depth extended extended)
    ▸ from_clause extended condition
    ▸ when (kw "WHERE") condition
    ▸ group_clause extended column
    ▸ having_clause extended condition
    ▸ when (kw "ORDER") (kw "BY" ▸ order_list column)
    ▸ when (kw "LIMIT") limit

unfoldable pub describe_statement : Parse
unfolding current_kind
describe_statement =
    (kw "DESCRIBE" <|> kw "DESC")
    ▸ identifier
    ▸ test (current_kind sql_identifier) identifier
        (kind sql_string <|> kind sql_pattern <|> at_end)

from_name : Parse
from_name = (kw "FROM" <|> kw "IN") ▸ identifier

unfoldable pub show_statement : Parse
unfolding from_name show_pattern
show_statement =
    kw "SHOW"
    ▸ branch (kw "TABLES") (when (kw "LIKE") show_pattern) (
        branch (kw "COLUMNS" <|> kw "FIELDS") (from_name ▸ when (kw "LIKE") show_pattern) (
          branch (kw "INDEX" <|> kw "INDEXES" <|> kw "KEYS") from_name
            (branch (kw "CREATE") ((kw "TABLE" <|> kw "VIEW") ▸ identifier) fail)))

-- `readStatement`: the first word, in upper case, chooses the rule
unfoldable pub read_statement : Parse
unfolding equal
read_statement [] = none
read_statement (t ∷ ts) =
    let verb = to_upper t.value in
    if same_kind t.kind sql_identifier
    then (if is verb "SELECT"
          then select_statement true
          else if is verb "SHOW"
          then show_statement
          else if is verb "DESCRIBE" || is verb "DESC"
          then describe_statement
          else fail)
        (t ∷ ts)
    else none

unfoldable pub accepts : Parse → Option (List SqlToken) → Bool
accepts p none = false
accepts p (some ts) = is_some ((p ▸ at_end) ts)

unfoldable pub validate_read_only_sql : Bytes → Bool
unfolding accepts
validate_read_only_sql query = accepts read_statement (scan_sql query)

-- `validateSelectSQL`: the narrower grammar
unfoldable pub validate_select_sql : Bytes → Bool
unfolding accepts
validate_select_sql query = accepts (select_statement false) (scan_sql query)
