-- ===== src/Sql/Grammar/Words.antt =====
-- Nine words of SQL that have no place in a query of internal/policy/mysql.go, and the primitives of
-- the parser, which let none of them pass.
use windmill_gate.Base.{
  ℕ, zero, suc, Bool, true, false, not, ◌&&◌, List, [], ◌∷◌, Option, none, some, ◌≡◌, refl, arith,
  Bytes, codes, is, equal, equal_iff, member, to_upper, all, All, member-all, member-subset,
  Bool-cases, Option-cases, inl, inr, if◌then◌else◌,
}
use windmill_gate.Sql.Token.{SqlTokenKind, sql_identifier, sql_number, SqlToken, rank, same_kind}
use windmill_gate.Sql.Parser.{
  token, kind, keyword, reserved_words, reserved_sql_word, identifier, equal_fold,
}
use windmill_gate.Sql.Parser.Reads.{
  Reads, stop, read, Sound, Sound-token, Sound-branch, Sound-if, Sound-looping, Sound-repeat,
  Sound-fail, Sound-succeed, sound_rules,
}
use windmill_gate.Sql.Grammar.{whole_number}

-- The nine words: by them SQL stores a result, runs a procedure, locks rows or chains a query.
abbrev pub write_words : List Bytes
write_words =
    codes "INTO"
    ∷ codes "OUTFILE"
    ∷ codes "DUMPFILE"
    ∷ codes "UNION"
    ∷ codes "FOR"
    ∷ codes "LOCK"
    ∷ codes "PROCEDURE"
    ∷ codes "USING"
    ∷ codes "WITH"
    ∷ []

-- The token is no such word, in any case of its letters.
pub record IsHarmless (t : SqlToken) : Type 0 where
  pub harmless : t.kind ≡ sql_identifier → member (to_upper t.value) write_words ≡ false

whole_number_kind : (b : Bool) (t : SqlToken) → whole_number b t ≡ true → t.kind ≡ sql_number
unfolding whole_number rank
whole_number_kind b t h = ground arith

pub same_kind_eq : (a b : SqlTokenKind) → same_kind a b ≡ true → a ≡ b
unfolding same_kind rank
same_kind_eq a b h = ground arith

pub same_kind_refl : (a : SqlTokenKind) → same_kind a a ≡ true
unfolding same_kind rank
same_kind_refl a = ground arith

pub kind-IsHarmless :
    (k : SqlTokenKind) → same_kind k sql_identifier ≡ false → Sound IsHarmless (kind k)
unfolding kind
kind-IsHarmless k h = Sound-token _ λ t s. record { harmless = λ e. absurd (other t s e) }
  where
    other : (t : SqlToken) → same_kind t.kind k ≡ true → t.kind ≡ sql_identifier → ⊥
    other t s e = cc (same_kind_eq t.kind k s)

fold-write :
    (v w : Bytes)
    → member (to_upper w) write_words ≡ false
    → equal_fold v w ≡ true
    → member (to_upper v) write_words ≡ false
unfolding equal_fold
fold-write v w h e = rw ((equal_iff (to_upper v) (to_upper w)).0 e) h

pub keyword-IsHarmless :
    (value : Bytes) → member (to_upper value) write_words ≡ false → Sound IsHarmless (keyword value)
unfolding keyword
keyword-IsHarmless value h =
    Sound-token _ λ t s. record { harmless = λ e. fold-write t.value value h (ground arith) }

pub reserved-write :
    (v : Bytes) → reserved_sql_word v ≡ false → member (to_upper v) write_words ≡ false
unfolding reserved_sql_word
reserved-write v h = member-subset (to_upper v) write_words reserved_words refl h

pub identifier-IsHarmless : Sound IsHarmless identifier
unfolding identifier
identifier-IsHarmless =
    Sound-token _ λ t s. record { harmless = λ e. reserved-write t.value (ground arith) }

pub number-IsHarmless : (b : Bool) (t : SqlToken) → whole_number b t ≡ true → IsHarmless t
number-IsHarmless b t s = record { harmless = λ e. absurd (cc (whole_number_kind b t s, e)) }

pub whole_number-IsHarmless : (b : Bool) → Sound IsHarmless (token (whole_number b))
whole_number-IsHarmless b = Sound-token _ (number-IsHarmless b)

pub ruleset harmless_rules = (
  sound_rules, kind-IsHarmless, keyword-IsHarmless, identifier-IsHarmless, whole_number-IsHarmless,
  refl,
)
