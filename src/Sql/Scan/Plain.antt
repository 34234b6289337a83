-- ===== src/Sql/Scan/Plain.antt =====
-- The scanner admits no byte outside a string literal by which SQL could end a statement, comment,
-- name a variable or compute, and no backslash at all.
use windmill_gate.Base.{
  ℕ, zero, suc, ◌+◌, ◌≤◌, Bool, true, false, List, [], ◌∷◌, Option, some, none, ◌≡◌, arith, length,
  Bytes, bind-eq-some, ascii_digit,
}
use windmill_gate.Sql.Token.{SqlToken}
use windmill_gate.Sql.Scan.{
  Turn, span, scan_identifier, scan_number, scan_comparison, scan_symbol, scan_one, scan_from,
  scan_sql, comparison, pattern_byte, word_byte,
}
use windmill_gate.Sql.Scan.Passes.{
  Passes, Passes-trans, length-Passes, word-plain, pattern-plain, digit-plain, span-Passes, Through,
  scan_literal-Through, scan_decimals-Through, scan_one-Through, done,
}

-- The turn leaves no more than `n` bytes.
record Leaves (n : ℕ) (o : Option Turn) : Type 0 where
  at : (turn : Turn) → o ≡ some turn → length turn.rest ≤ n

Leaves-some : (n : ℕ) (turn : Turn) → length turn.rest ≤ n → Leaves n (some turn)
Leaves-some n turn h = record { at = λ t e. ground arith }

Leaves-none : (n : ℕ) → Leaves n none
Leaves-none n = record { at = λ t e. cc }

Through-Leaves : (a : Bool) (s : Bytes) (o : Option Turn) → Through a s o → Leaves (length s) o
Through-Leaves a s none h = Leaves-none _
Through-Leaves a s (some turn) h = Leaves-some _ turn (length-Passes h)

Leaves-le : (m n : ℕ) (o : Option Turn) → m ≤ n → Leaves m o → Leaves n o
Leaves-le m n o h k = record { at = λ t e. omega (arith, k.at t e) }

comparison-Leaves :
    (index : ℕ) (operator rest : Bytes) → Leaves (length rest) (comparison index operator rest)
unfolding comparison
comparison-Leaves index operator rest = record { at = λ t e. ground arith }

le-suc : (n : ℕ) → n ≤ suc n
le-suc n = omega arith

scan_comparison-Leaves :
    (index c : ℕ) (cs : Bytes) → Leaves (length cs) (scan_comparison index c cs)
unfolding scan_comparison
scan_comparison-Leaves index c [] = comparison-Leaves _ _ []
scan_comparison-Leaves index c (d ∷ ds) = record {
  at = λ t e. ground (
    arith,
    (comparison-Leaves (index + 2) (c ∷ d ∷ []) ds).at t,
    (comparison-Leaves (index + 1) (c ∷ []) (d ∷ ds)).at t,
  );
}

scan_number-Leaves :
    (index c : ℕ) (cs : Bytes)
    → ascii_digit c ≡ true
    → Leaves (length cs) (scan_number index (c ∷ cs))
unfolding scan_number span
scan_number-Leaves index c cs d = rw d (
    Leaves-le _ _ _ (length-Passes (span-Passes ascii_digit digit-plain cs)) (
      Through-Leaves _ _ _
        (scan_decimals-Through _ (c ∷ (span ascii_digit cs).0) (span ascii_digit cs).1)))

scan_symbol-Leaves : (index c : ℕ) (cs : Bytes) → Leaves (length cs) (scan_symbol index c cs)
unfolding scan_symbol
scan_symbol-Leaves index c cs = record {
  at = λ t e. ground (
    arith,
    (Through-Leaves _ _ _ (scan_literal-Through false (index + 1) [] cs)).at t,
    (scan_comparison-Leaves index c cs).at t,
    length-Passes (span-Passes pattern_byte pattern-plain cs),
  );
}

-- A turn reads at least one byte.
pub scan_one-shorter :
    (index c : ℕ) (cs : Bytes) (turn : Turn)
    → scan_one index c cs ≡ some turn
    → length turn.rest ≤ length cs
unfolding scan_one scan_identifier
scan_one-shorter index c cs t e = ground (
  arith,
  length-Passes (span-Passes word_byte word-plain cs),
  λ (d : ascii_digit c ≡ true). (scan_number-Leaves index c cs d).at t,
  (scan_symbol-Leaves index c cs).at t,
)

scan_from-Passes :
    (fuel index : ℕ) (s : Bytes) (ts : List SqlToken)
    → scan_from fuel index s ≡ some ts
    → Passes false s false []
unfolding scan_from
scan_from-Passes fuel index [] ts h = done
scan_from-Passes zero index (c ∷ cs) ts h = cc
scan_from-Passes (suc fuel) index (c ∷ cs) ts h =
    let (turn, one, later) = bind-eq-some (scan_one index c cs) _ h in
    let (more, rest, _) = bind-eq-some (scan_from fuel turn.index turn.rest) _ later in
    Passes-trans (rw one at (scan_one-Through index c cs))
      (scan_from-Passes fuel turn.index turn.rest more rest)

-- A query that the scanner accepts consists of spaces, ASCII letters and digits, the marks
-- `_ . , ( ) * = < > ! %`, and closed string literals that hold no backslash: so no statement
-- separator, comment, variable or identifier quote stands outside its literals.
pub scan_sql-Passes :
    (query : Bytes) (ts : List SqlToken) → scan_sql query ≡ some ts → Passes false query false []
unfolding scan_sql
scan_sql-Passes query ts h =
    let (found, scanned, _) = bind-eq-some (scan_from (length query) 0 query) _ h in
    scan_from-Passes (length query) 0 query found scanned
