-- ===== src/Sql/Grammar/Calls.antt =====
-- What `scalar` lets through: no word that does more than read, called or not.
use windmill_gate.Base.{
  ℕ, Bool, true, false, not, List, [], ◌∷◌, some, ◌≡◌, refl, arith, Bytes, codes, equal, member,
  to_upper, member-all, Bool-cases, inl, inr,
}
use windmill_gate.Sql.Token.{sql_identifier, sql_left_paren, SqlToken, rank, same_kind}
use windmill_gate.Sql.Parser.{Parse, current_kind, reserved_sql_word, ◌▸◌, test}
use windmill_gate.Sql.Parser.Reads.{Reads, read, and-some, Reads-trans, Sound, Sound-token}
use windmill_gate.Sql.Grammar.{scalar_rule, call, call_paren, column, named, literal}
use windmill_gate.Sql.Grammar.Words.{
  write_words, IsHarmless, same_kind_eq, reserved-write, harmless_rules,
}

-- The names of the functions that may be called.
abbrev function_names : List Bytes
function_names =
    codes "COUNT"
    ∷ codes "SUM"
    ∷ codes "AVG"
    ∷ codes "MIN"
    ∷ codes "MAX"
    ∷ codes "UPPER"
    ∷ codes "LOWER"
    ∷ codes "REPLACE"
    ∷ []

call_name :
    (extended : Bool) (a e : Parse) (name : Bytes) (ts rest : List SqlToken)
    → call extended a e name ts ≡ some rest
    → member name function_names ≡ true
unfolding call member
call_name extended a e name ts rest h = ground arith

column_name :
    (extended : Bool) (v : Bytes) (ts rest : List SqlToken)
    → column extended v ts ≡ some rest
    → reserved_sql_word v ≡ false
unfolding column
column_name extended v ts rest h = elim (Bool-cases (reserved_sql_word v)) [
  | inl r ↦ absurd (cc (rw r at h))
  | inr n ↦ n
]

function-write :
    (v : Bytes)
    → member (to_upper v) function_names ≡ true
    → member (to_upper v) write_words ≡ false
unfolding member equal
function-write v h =
    ground (arith, member-all (λ w. not (member w write_words)) (to_upper v) function_names refl h)

module _ (extended : Bool) (argument expression : Parse) (ha : Sound IsHarmless argument)
    (he : Sound IsHarmless expression) where
  call-IsHarmless : (name : Bytes) → Sound IsHarmless (call extended argument expression name)
  unfolding call member to_upper same_kind rank
  call-IsHarmless name = search harmless_rules depth 12

  call_paren-IsHarmless : (end : ℕ) → Sound IsHarmless (call_paren end)
  unfolding call_paren
  call_paren-IsHarmless end = Sound-token _ λ t s. record {
    harmless = λ e. absurd (cc (same_kind_eq t.kind sql_left_paren (ground arith), e));
  }

  column-IsHarmless : (name : Bytes) → Sound IsHarmless (column extended name)
  unfolding column same_kind rank
  column-IsHarmless name = search harmless_rules depth 12

  called :
      (t : SqlToken) (ts rest : List SqlToken)
      → (call_paren t.end ▸ call extended argument expression (to_upper t.value)) ts ≡ some rest
      → Reads IsHarmless (t ∷ ts) rest
  called t ts rest h =
      let (mid, p, c) = and-some _ _ ts rest h in
      read
        (record {
          harmless =
              λ _. function-write t.value (call_name extended argument expression _ mid rest c);
        })
        (Reads-trans ((call_paren-IsHarmless t.end).at ts mid p)
          ((call-IsHarmless (to_upper t.value)).at mid rest c))

  uncalled :
      (t : SqlToken) (ts rest : List SqlToken)
      → column extended t.value ts ≡ some rest
      → Reads IsHarmless (t ∷ ts) rest
  uncalled t ts rest h =
      read
        (record { harmless = λ _. reserved-write t.value (column_name extended t.value ts rest h) })
        ((column-IsHarmless t.value).at ts rest h)

  named-Reads :
      (ts rest : List SqlToken)
      → named extended argument expression ts ≡ some rest
      → Reads IsHarmless ts rest
  unfolding named test
  named-Reads [] rest h = cc
  named-Reads (t ∷ ts) rest h = elim (Bool-cases (same_kind t.kind sql_identifier)) [
    | inr n ↦ cc (rw n at h)
    | inl i ↦ elim (Bool-cases (current_kind sql_left_paren ts)) [
      | inl p ↦ called t ts rest (rw (p, test) at (rw i at h))
      | inr p ↦ uncalled t ts rest (rw (p, test) at (rw i at h))
    ]
  ]

  named-IsHarmless : Sound IsHarmless (named extended argument expression)
  named-IsHarmless = record { at = named-Reads }

  pub scalar_rule-IsHarmless :
      (literals : Bool) → Sound IsHarmless (scalar_rule extended literals argument expression)
  unfolding scalar_rule literal member equal to_upper same_kind rank
  scalar_rule-IsHarmless literals = search (harmless_rules, named-IsHarmless) depth 12
