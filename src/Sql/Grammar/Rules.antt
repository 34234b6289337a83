-- ===== src/Sql/Grammar/Rules.antt =====
-- The rules of the grammar let none of the nine words through.
use windmill_gate.Base.{
  ℕ, zero, suc, Bool, true, List, [], ◌∷◌, some, ◌≡◌, equal, member, to_upper, Bool-cases, inl, inr,
  if◌then◌else◌,
}
use windmill_gate.Sql.Token.{sql_comma, SqlToken, rank, same_kind}
use windmill_gate.Sql.Parser.{Parse, kind, branch, fail, when, kw}
use windmill_gate.Sql.Parser.Reads.{Reads, read, Sound, Sound-fail}
use windmill_gate.Sql.Grammar.{
  scalar, boolean_term, term_rule, boolean_expression, comparison_rest, tables, tables_turn,
  tables_loop, table_reference, limit, positive_integer, nonnegative_integer, whole_number,
  select_list, order_list,
}
use windmill_gate.Sql.Grammar.Words.{
  write_words, IsHarmless, same_kind_eq, kind-IsHarmless, keyword-IsHarmless, identifier-IsHarmless,
  reserved-write, number-IsHarmless, harmless_rules,
}
use windmill_gate.Sql.Grammar.Calls.{scalar_rule-IsHarmless}

pub expression-IsHarmless :
    (term : Parse) → Sound IsHarmless term → Sound IsHarmless (boolean_expression term)
unfolding boolean_expression member equal to_upper
expression-IsHarmless term h = search harmless_rules depth 9

module _ (extended : Bool) (value : Parse) (sound : Sound IsHarmless value) where
  pub comparison_rest-IsHarmless : Sound IsHarmless (comparison_rest extended value)
  unfolding comparison_rest member equal to_upper same_kind rank
  comparison_rest-IsHarmless = search harmless_rules depth 12

  pub select_list-IsHarmless : Sound IsHarmless (select_list extended value)
  unfolding select_list member equal to_upper same_kind rank
  select_list-IsHarmless = search harmless_rules depth 12

  pub order_list-IsHarmless : Sound IsHarmless (order_list value)
  unfolding order_list member equal to_upper same_kind rank
  order_list-IsHarmless = search harmless_rules depth 12

  pub term_rule-IsHarmless :
      (term : Parse) → Sound IsHarmless term → Sound IsHarmless (term_rule extended term value)
  unfolding term_rule member equal to_upper same_kind rank
  term_rule-IsHarmless term h =
      search (harmless_rules, comparison_rest-IsHarmless, expression-IsHarmless) depth 12

pub table_reference-IsHarmless : Sound IsHarmless table_reference
unfolding table_reference member equal to_upper same_kind rank
table_reference-IsHarmless = search harmless_rules depth 12

module _ (condition : Parse) (sound : Sound IsHarmless condition) where
  pub tables_turn-IsHarmless :
      (next : Parse) → Sound IsHarmless next → Sound IsHarmless (tables_turn condition next)
  unfolding tables_turn member equal to_upper same_kind rank
  tables_turn-IsHarmless next h = search (harmless_rules, table_reference-IsHarmless) depth 14

  pub tables_loop-IsHarmless : (n : ℕ) → Sound IsHarmless (tables_loop condition n)
  unfolding tables_loop
  tables_loop-IsHarmless zero = Sound-fail
  tables_loop-IsHarmless (suc n) = tables_turn-IsHarmless _ (tables_loop-IsHarmless n)

  pub tables-IsHarmless : Sound IsHarmless (tables condition)
  unfolding tables
  tables-IsHarmless =
      search (harmless_rules, table_reference-IsHarmless, tables_loop-IsHarmless) depth 8

mutual
  unfolding scalar boolean_term

  pub scalar-IsHarmless :
      (room : ℕ) (extended literals : Bool) → Sound IsHarmless (scalar room extended literals)
  scalar-IsHarmless zero extended literals = Sound-fail
  scalar-IsHarmless (suc room) extended literals =
      scalar_rule-IsHarmless extended _ _ (scalar-IsHarmless room extended true)
        (expression-IsHarmless _ (boolean_term-IsHarmless room extended)) literals

  pub boolean_term-IsHarmless :
      (room : ℕ) (extended : Bool) → Sound IsHarmless (boolean_term room extended)
  boolean_term-IsHarmless zero extended = Sound-fail
  boolean_term-IsHarmless (suc room) extended =
      term_rule-IsHarmless extended _ (scalar-IsHarmless room extended true) _
        (boolean_term-IsHarmless room extended)

pub limit_rest-IsHarmless :
    (b : Bool)
    → Sound IsHarmless (
        branch
          (kind sql_comma)
          positive_integer
          (if b then when (kw "OFFSET") nonnegative_integer else fail))
unfolding positive_integer nonnegative_integer member equal to_upper same_kind rank
limit_rest-IsHarmless b = search harmless_rules depth 12

limit-Reads : (ts rest : List SqlToken) → limit ts ≡ some rest → Reads IsHarmless ts rest
unfolding limit
limit-Reads [] rest h = cc
limit-Reads (t ∷ ts) rest h = elim (Bool-cases (whole_number true t)) [
  | inr n ↦ cc (rw n at h)
  | inl w ↦ read (number-IsHarmless true t w) ((limit_rest-IsHarmless _).at ts rest (rw w at h))
]

pub limit-IsHarmless : Sound IsHarmless limit
limit-IsHarmless = record { at = limit-Reads }

pub ruleset grammar_rules = (
  harmless_rules, scalar-IsHarmless, boolean_term-IsHarmless, expression-IsHarmless,
  tables-IsHarmless, order_list-IsHarmless, select_list-IsHarmless, limit-IsHarmless,
)
