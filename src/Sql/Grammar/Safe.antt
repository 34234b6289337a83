-- ===== src/Sql/Grammar/Safe.antt =====
-- An accepted statement begins with a verb that reads, and holds none of the nine words.
use windmill_gate.Base.{
  Bool, true, List, [], ◌∷◌, Option, none, some, ◌≡◌, refl, arith, Bytes, codes, equal, member,
  to_upper, All, is_some-eq, ap, ◌∙◌,
}
use windmill_gate.Sql.Token.{sql_identifier, SqlToken, rank, same_kind}
use windmill_gate.Sql.Parser.{Parse, at_end}
use windmill_gate.Sql.Parser.Reads.{Reads, and-some, Reads-All, Sound}
use windmill_gate.Sql.Grammar.{
  select_statement, read_statement, validate_read_only_sql, accepts, show_statement,
  describe_statement,
}
use windmill_gate.Sql.Grammar.Words.{IsHarmless, same_kind_eq, harmless_rules}
use windmill_gate.Sql.Grammar.Rules.{grammar_rules}
use windmill_gate.Sql.Scan.{scan_sql}

show_statement-IsHarmless : Sound IsHarmless show_statement
unfolding show_statement member equal to_upper same_kind rank
show_statement-IsHarmless = search harmless_rules depth 12

describe_statement-IsHarmless : Sound IsHarmless describe_statement
unfolding describe_statement member equal to_upper same_kind rank
describe_statement-IsHarmless = search harmless_rules depth 12

select_statement-IsHarmless : (extended : Bool) → Sound IsHarmless (select_statement extended)
unfolding select_statement member equal to_upper same_kind rank
select_statement-IsHarmless extended = search grammar_rules depth 20

abbrev pub read_verbs : List Bytes
read_verbs = codes "SELECT" ∷ codes "SHOW" ∷ codes "DESCRIBE" ∷ codes "DESC" ∷ []

-- The first token is a word among the verbs, in any case of its letters.
abbrev pub BeginsWith : List Bytes → List SqlToken → Type 0
BeginsWith verbs [] = ⊥
BeginsWith verbs (t ∷ ts) = (t.kind ≡ sql_identifier) × (member (to_upper t.value) verbs ≡ true)

read_statement-Reads :
    (ts rest : List SqlToken) → read_statement ts ≡ some rest → Reads IsHarmless ts rest
unfolding read_statement
read_statement-Reads [] rest h = cc
read_statement-Reads (t ∷ ts) rest h = ground (
  arith,
  (select_statement-IsHarmless true).at (t ∷ ts) rest,
  show_statement-IsHarmless.at (t ∷ ts) rest,
  describe_statement-IsHarmless.at (t ∷ ts) rest,
)

read_statement-BeginsWith :
    (ts rest : List SqlToken) → read_statement ts ≡ some rest → BeginsWith read_verbs ts
unfolding read_statement member
read_statement-BeginsWith [] rest h = cc
read_statement-BeginsWith (t ∷ ts) rest h =
    (same_kind_eq t.kind sql_identifier (ground arith), ground arith)

at_end-nil : (ts : List SqlToken) {rest : List SqlToken} → at_end ts ≡ some rest → ts ≡ []
unfolding at_end
at_end-nil [] h = refl
at_end-nil (t ∷ ts) h = cc

accepts-some :
    (p : Parse) (o : Option (List SqlToken))
    → accepts p o ≡ true
    → (ts : List SqlToken) × (o ≡ some ts) × (p ts ≡ some [])
unfolding accepts
accepts-some p none h = cc
accepts-some p (some ts) h =
    let (end, e) = is_some-eq _ h in
    let (mid, q, a) = and-some p at_end ts end e in (ts, refl, q ∙ ap some (at_end-nil mid a))

-- An accepted query scans into tokens that begin with SELECT, SHOW, DESCRIBE or DESC, and among
-- which no word is INTO, OUTFILE, DUMPFILE, UNION, FOR, LOCK, PROCEDURE, USING or WITH, in any
-- case of the letters.
pub validate_read_only_sql-IsHarmless :
    (query : Bytes)
    → validate_read_only_sql query ≡ true
    → (ts : List SqlToken) × (scan_sql query ≡ some ts)
      × BeginsWith read_verbs ts
      × All IsHarmless ts
unfolding validate_read_only_sql
validate_read_only_sql-IsHarmless query h =
    let (ts, s, p) = accepts-some _ _ h in
    (ts, s, read_statement-BeginsWith ts [] p, Reads-All (read_statement-Reads ts [] p) tt)
