-- ===== src/Sql/Token.antt =====
-- The tokens of internal/policy/mysql.go.
use windmill_gate.Base.{ℕ, Bool, ◌==◌, Bytes}

pub data SqlTokenKind : Type 0 where
  sql_identifier sql_number sql_string sql_comma sql_left_paren sql_right_paren : SqlTokenKind
  sql_star sql_dot sql_comparison sql_pattern : SqlTokenKind

-- The number that `iota` gives the kind.
unfoldable pub rank : SqlTokenKind → ℕ
rank sql_identifier = 0
rank sql_number = 1
rank sql_string = 2
rank sql_comma = 3
rank sql_left_paren = 4
rank sql_right_paren = 5
rank sql_star = 6
rank sql_dot = 7
rank sql_comparison = 8
rank sql_pattern = 9

-- `a == b` on kinds.
unfoldable pub same_kind : SqlTokenKind → SqlTokenKind → Bool
unfolding rank
same_kind a b = rank a == rank b

-- `start` and `end` are positions in the query, and 0 where the scanner leaves them unset.
pub record SqlToken : Type 0 where
  pub kind : SqlTokenKind
  pub value : Bytes
  pub start : ℕ
  pub end : ℕ
