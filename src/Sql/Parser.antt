-- ===== src/Sql/Parser.antt =====
-- The primitives of `sqlParser` in internal/policy/mysql.go, as parsers over the tokens that are
-- left: `p.index` is how many have been dropped. `none` is the result `false`. A primitive that
-- returns `false` leaves the index alone, so that `branch` can try another; where a larger rule
-- returns `false`, every caller in the source returns `false` too, and its index is never read.
pub mod Reads
pub mod Loops
use windmill_gate.Base.{
  ℕ, zero, suc, ◌+◌, Bool, true, false, not, ◌&&◌, ◌||◌, List, [], ◌∷◌, Option, none, some, ◌==◌,
  if◌then◌else◌, Bytes, String, codes, length, equal, member, to_upper, has_byte, ◌>>=◌,
}
use windmill_gate.Sql.Token.{SqlTokenKind, sql_identifier, sql_number, SqlToken, rank, same_kind}

abbrev pub Parse : Type 0
Parse = List SqlToken → Option (List SqlToken)

-- `p.currentKind(kind)`
unfoldable pub current_kind : SqlTokenKind → List SqlToken → Bool
unfolding same_kind
current_kind k [] = false
current_kind k (t ∷ ts) = same_kind t.kind k

-- `p.atEnd()`
unfoldable pub at_end : Parse
at_end [] = some []
at_end (t ∷ ts) = none

-- one token that passes a test
unfoldable pub token : (SqlToken → Bool) → Parse
token p [] = none
token p (t ∷ ts) = if p t then some ts else none

-- `p.kind(kind)`
unfoldable pub kind : SqlTokenKind → Parse
unfolding token same_kind
kind k = token (λ t. same_kind t.kind k)

-- `strings.EqualFold`, on the ASCII values of identifiers
unfoldable pub equal_fold : Bytes → Bytes → Bool
unfolding equal to_upper
equal_fold a b = equal (to_upper a) (to_upper b)

-- `p.keyword(value)`
unfoldable pub keyword : Bytes → Parse
unfolding token same_kind
keyword value = token (λ t. same_kind t.kind sql_identifier && equal_fold t.value value)

abbrev pub kw : String → Parse
kw s = keyword (codes s)

abbrev pub reserved_words : List Bytes
reserved_words =
    codes "SELECT"
    ∷ codes "FROM"
    ∷ codes "WHERE"
    ∷ codes "ORDER"
    ∷ codes "BY"
    ∷ codes "LIMIT"
    ∷ codes "OFFSET"
    ∷ codes "AND"
    ∷ codes "OR"
    ∷ codes "AS"
    ∷ codes "ASC"
    ∷ codes "DESC"
    ∷ codes "LIKE"
    ∷ codes "IS"
    ∷ codes "NOT"
    ∷ codes "NULL"
    ∷ codes "TRUE"
    ∷ codes "FALSE"
    ∷ codes "JOIN"
    ∷ codes "INNER"
    ∷ codes "LEFT"
    ∷ codes "RIGHT"
    ∷ codes "CROSS"
    ∷ codes "ON"
    ∷ codes "UNION"
    ∷ codes "INTO"
    ∷ codes "OUTFILE"
    ∷ codes "DUMPFILE"
    ∷ codes "FOR"
    ∷ codes "LOCK"
    ∷ codes "PROCEDURE"
    ∷ codes "SHOW"
    ∷ codes "TABLES"
    ∷ codes "COLUMNS"
    ∷ codes "FIELDS"
    ∷ codes "INDEX"
    ∷ codes "INDEXES"
    ∷ codes "KEYS"
    ∷ codes "CREATE"
    ∷ codes "TABLE"
    ∷ codes "VIEW"
    ∷ codes "DESCRIBE"
    ∷ codes "IN"
    ∷ codes "GROUP"
    ∷ codes "HAVING"
    ∷ codes "OUTER"
    ∷ codes "DISTINCT"
    ∷ codes "USING"
    ∷ codes "WITH"
    ∷ []

unfoldable pub reserved_sql_word : Bytes → Bool
unfolding member to_upper
reserved_sql_word value = member (to_upper value) reserved_words

-- `p.identifier()`
unfoldable pub identifier : Parse
unfolding token same_kind
identifier = token (λ t. same_kind t.kind sql_identifier && not (reserved_sql_word t.value))

-- `if c { p } else { q }`, where `c` is a parser: its tokens stay read only if it succeeds
unfoldable pub branch : Parse → Parse → Parse → Parse
branch c p q ts = elim (c ts) [ some rest ↦ p rest | none ↦ q ts ]

-- A parser that always succeeds and reads nothing, and one that always fails.
abbrev pub succeed : Parse
succeed ts = some ts

abbrev pub fail : Parse
fail ts = none

infixr 60 ◌▸◌ ◌<|>◌
-- `p() && q()`
abbrev pub ◌▸◌ : Parse → Parse → Parse
p ▸ q = branch p q fail

-- `p() || q()`
abbrev pub ◌<|>◌ : Parse → Parse → Parse
p <|> q = branch p succeed q

-- `_ = p()`
abbrev pub optional : Parse → Parse
optional p = branch p succeed succeed

-- `if c() && !p() { return false }`
abbrev pub when : Parse → Parse → Parse
when c p = branch c p succeed

-- `if c(the tokens) { p } else { q }`, for a test that reads nothing
unfoldable pub test : (List SqlToken → Bool) → Parse → Parse → Parse
test c p q ts = elim (c ts) [ true ↦ p ts | false ↦ q ts ]

-- `for c() { if !p() { return false } }`, on fuel
unfoldable pub repeat : Parse → Parse → ℕ → Parse
unfolding branch
repeat c p zero = fail
repeat c p (suc fuel) = branch c (p ▸ (λ ts. repeat c p fuel ts)) succeed

-- A loop with fuel for one turn more than there are tokens.
unfoldable pub looping : (ℕ → Parse) → Parse
looping loop ts = loop (suc (length ts)) ts
