-- ===== src/Sql/Scan.antt =====
-- `scanSQL` of internal/policy/mysql.go. The position and the rest of the query stand for `index`;
-- one turn of the loop is `scan_one`, and the loop runs on fuel (Scan/Fuel shows it is enough).
pub mod Fuel
pub mod Passes
pub mod Plain
use windmill_gate.Base.{
  ℕ, zero, suc, ◌+◌, Bool, true, false, ◌&&◌, ◌||◌, List, [], ◌∷◌, ◌++◌, Option, none, some, ◌==◌,
  if◌then◌else◌, Bytes, codes, is, length, ascii_letter, ascii_digit, equal, ◌>>=◌,
}
use windmill_gate.Sql.Token.{
  SqlTokenKind, sql_identifier, sql_number, sql_string, sql_comma, sql_left_paren, sql_right_paren,
  sql_star, sql_dot, sql_comparison, sql_pattern, SqlToken,
}

-- What one turn of the loop leaves: the token that it appends, if any, and the unread bytes.
pub record Turn : Type 0 where
  pub token : Option SqlToken
  pub index : ℕ
  pub rest : Bytes

-- `for index < len(query) && p(query[index])`: the bytes that pass, and the others
unfoldable pub span : (ℕ → Bool) → Bytes → Bytes × Bytes
span p [] = ([], [])
span p (c ∷ cs) = let (taken, rest) = span p cs in if p c then (c ∷ taken, rest) else ([], c ∷ cs)

unfoldable pub word_byte : ℕ → Bool
unfolding ascii_letter ascii_digit
word_byte c = ascii_letter c || ascii_digit c || c == b'_'

unfoldable pub pattern_byte : ℕ → Bool
unfolding ascii_letter ascii_digit
pattern_byte c = c == b'%' || c == b'_' || ascii_letter c || ascii_digit c

unfoldable pub space_byte : ℕ → Bool
space_byte c = c == b' ' || c == b'\t' || c == b'\n' || c == b'\r'

abbrev pub emit : SqlTokenKind → Bytes → ℕ → Bytes → Option Turn
emit kind value index rest = some (record {
  token = some (record { kind = kind; value = value; start = 0; end = 0 });
  index = index;
  rest = rest;
})

-- letters, digits and underscores from `start` on
unfoldable pub scan_identifier : ℕ → ℕ → Bytes → Option Turn
scan_identifier start c cs =
    let (more, rest) = span word_byte cs in
    let end = start + 1 + length more in
    some (record {
      token = some (record { kind = sql_identifier; value = c ∷ more; start = start; end = end });
      index = end;
      rest = rest;
    })

-- the decimal part: at least one digit behind the point
unfoldable pub scan_decimals : ℕ → Bytes → Bytes → Option Turn
scan_decimals index whole [] = emit sql_number whole index []
scan_decimals index whole (d ∷ ds) =
    let (decimals, rest) = span ascii_digit ds in
    if d == b'.'
    then (if length decimals == 0
        then none
        else emit sql_number (whole ++ d ∷ decimals) (index + 1 + length decimals) rest)
    else emit sql_number whole index (d ∷ ds)

unfoldable pub scan_number : ℕ → Bytes → Option Turn
scan_number start s =
    let (whole, rest) = span ascii_digit s in scan_decimals (start + length whole) whole rest

-- a literal behind its opening quote; the flag says that a quote has just been read, which
-- closes the literal unless another follows at once
unfoldable pub scan_literal : Bool → ℕ → Bytes → Bytes → Option Turn
scan_literal true index literal [] = emit sql_string literal index []
scan_literal false index literal [] = none
scan_literal true index literal (c ∷ cs) =
    let doubled = scan_literal false (index + 1) (literal ++ b'\'' ∷ []) cs in
    if c == b'\'' then doubled else emit sql_string literal index (c ∷ cs)
scan_literal false index literal (c ∷ cs) =
    let quote = scan_literal true (index + 1) literal cs in
    let plain = scan_literal false (index + 1) (literal ++ c ∷ []) cs in
    if c == b'\\' then none else if c == b'\'' then quote else plain

-- the operators `!`, `==`, `>>` and `!!` are refused
unfoldable pub comparison : ℕ → Bytes → Bytes → Option Turn
comparison index operator rest =
    if is operator "!" || is operator "==" || is operator ">>" || is operator "!!"
    then none
    else emit sql_comparison operator index rest

unfoldable pub scan_comparison : ℕ → ℕ → Bytes → Option Turn
scan_comparison index c [] = comparison (index + 1) (c ∷ []) []
scan_comparison index c (d ∷ ds) =
    if d == b'=' || c == b'<' && d == b'>'
    then comparison (index + 2) (c ∷ d ∷ []) ds
    else comparison (index + 1) (c ∷ []) (d ∷ ds)

-- the `switch` at the end of the loop's body
unfoldable pub scan_symbol : ℕ → ℕ → Bytes → Option Turn
scan_symbol index c cs =
    if c == b'\''
    then scan_literal false (index + 1) [] cs
    else if c == b','
    then emit sql_comma (codes ",") (index + 1) cs
    else if c == b'('
    then some (record {
      token = some (record { kind = sql_left_paren; value = codes "("; start = index; end = 0 });
      index = index + 1;
      rest = cs;
    })
    else if c == b')'
    then emit sql_right_paren (codes ")") (index + 1) cs
    else if c == b'*'
    then emit sql_star (codes "*") (index + 1) cs
    else if c == b'.'
    then emit sql_dot (codes ".") (index + 1) cs
    else if c == b'=' || c == b'<' || c == b'>' || c == b'!'
    then scan_comparison index c cs
    else if c == b'%'
    then (let (more, rest) = span pattern_byte cs in
        emit sql_pattern (c ∷ more) (index + 1 + length more) rest)
    else none

-- one turn of the loop, at the byte `c` and those behind it
unfoldable pub scan_one : ℕ → ℕ → Bytes → Option Turn
scan_one index c cs =
    if space_byte c
    then some (record { token = none; index = index + 1; rest = cs })
    else if ascii_letter c || c == b'_'
    then scan_identifier index c cs
    else if ascii_digit c
    then scan_number index (c ∷ cs)
    else scan_symbol index c cs

abbrev pub add_token : Option SqlToken → List SqlToken → List SqlToken
add_token none ts = ts
add_token (some t) ts = t ∷ ts

-- the loop: `none` is `return nil, false`
unfoldable pub scan_from : ℕ → ℕ → Bytes → Option (List SqlToken)
scan_from fuel index [] = some []
scan_from zero index (c ∷ cs) = none
scan_from (suc fuel) index (c ∷ cs) = do
  turn ← scan_one index c cs
  tokens ← scan_from fuel turn.index turn.rest
  some (add_token turn.token tokens)

non_empty : List SqlToken → Option (List SqlToken)
non_empty [] = none
non_empty (t ∷ ts) = some (t ∷ ts)

unfoldable pub scan_sql : Bytes → Option (List SqlToken)
unfolding non_empty
scan_sql query = do tokens ← scan_from (length query) 0 query; non_empty tokens
