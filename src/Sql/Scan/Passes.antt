-- ===== src/Sql/Scan/Passes.antt =====
-- How `scanSQL` of internal/policy/mysql.go goes over plain bytes and literals.
use windmill_gate.Base.{
  ℕ, ◌+◌, ◌≤◌, Bool, true, false, ◌&&◌, ◌||◌, [], ◌∷◌, ◌++◌, Option, some, none, ◌≡◌, ◌≢◌, refl,
  arith, length, Bytes, ◌==◌, if◌then◌else◌, Bool-cases, ==_iff, inl, inr, ascii_digit,
  ascii_letter, has_byte, codes,
}
use windmill_gate.Sql.Scan.{
  Turn, span, scan_identifier, scan_decimals, scan_number, scan_literal, scan_comparison,
  scan_symbol, scan_one, comparison, pattern_byte, word_byte, space_byte,
}

-- Spaces, ASCII letters and digits, and `_ . , ( ) * = < > ! %`.
pub plain_byte : ℕ → Bool
unfolding space_byte ascii_letter ascii_digit has_byte
plain_byte c = space_byte c || ascii_letter c || ascii_digit c || has_byte c (codes "_.,()*=<>!%")

-- Bytes read one by one, by a reader that knows no more of SQL than its quotes. The flag says that
-- it stands inside a literal; a doubled quote closes the literal and opens it again.
pub data Passes : Bool → Bytes → Bool → Bytes → Type 0 where
  done : {inside : Bool} {s : Bytes} → Passes inside s inside s
  plain :
      {c : ℕ} {s rest : Bytes} {after : Bool}
      → plain_byte c ≡ true
      → Passes false s after rest
      → Passes false (c ∷ s) after rest
  open_quote :
      {c : ℕ} {s rest : Bytes} {after : Bool}
      → c ≡ b'\''
      → Passes true s after rest
      → Passes false (c ∷ s) after rest
  literal :
      {c : ℕ} {s rest : Bytes} {after : Bool}
      → c ≢ b'\''
      → c ≢ b'\\'
      → Passes true s after rest
      → Passes true (c ∷ s) after rest
  close_quote :
      {c : ℕ} {s rest : Bytes} {after : Bool}
      → c ≡ b'\''
      → Passes false s after rest
      → Passes true (c ∷ s) after rest

pub Passes-trans : {a b c : Bool} {s t u : Bytes} → Passes a s b t → Passes b t c u → Passes a s c u
Passes-trans done k = k
Passes-trans (plain p h) k = plain p (Passes-trans h k)
Passes-trans (open_quote e h) k = open_quote e (Passes-trans h k)
Passes-trans (literal n m h) k = literal n m (Passes-trans h k)
Passes-trans (close_quote e h) k = close_quote e (Passes-trans h k)

pub length-Passes : {a b : Bool} {s t : Bytes} → Passes a s b t → length t ≤ length s
length-Passes done = omega arith
length-Passes (plain p h) = omega (arith, length-Passes h)
length-Passes (open_quote e h) = omega (arith, length-Passes h)
length-Passes (literal n m h) = omega (arith, length-Passes h)
length-Passes (close_quote e h) = omega (arith, length-Passes h)

pub word-plain : (c : ℕ) → word_byte c ≡ true → plain_byte c ≡ true
unfolding word_byte plain_byte
word-plain c h = ground arith

pub pattern-plain : (c : ℕ) → pattern_byte c ≡ true → plain_byte c ≡ true
unfolding pattern_byte plain_byte
pattern-plain c h = ground arith

pub digit-plain : (c : ℕ) → ascii_digit c ≡ true → plain_byte c ≡ true
unfolding plain_byte
digit-plain c h = ground arith

pub span-Passes :
    (p : ℕ → Bool)
    → ((c : ℕ) → p c ≡ true → plain_byte c ≡ true)
    → (s : Bytes) → Passes false s false (span p s).1
unfolding span
span-Passes p h [] = done
span-Passes p h (c ∷ cs) = elim (Bool-cases (p c)) [
  | inl y ↦ rw y (plain (h c y) (span-Passes p h cs))
  | inr n ↦ rw n done
]

-- where the turn leaves off
abbrev pub Through : Bool → Bytes → Option Turn → Type 0
Through inside s none = Unit
Through inside s (some turn) = Passes inside s false turn.rest

pub Through-map :
    {a b : Bool} {s t : Bytes} (o : Option Turn)
    → ((rest : Bytes) → Passes a s false rest → Passes b t false rest)
    → Through a s o
    → Through b t o
Through-map none f h = tt
Through-map (some turn) f h = f turn.rest h

pub scan_literal-Through :
    (quoted : Bool) (index : ℕ) (acc s : Bytes)
    → Through (if quoted then false else true) s (scan_literal quoted index acc s)
unfolding scan_literal
scan_literal-Through true index acc [] = done
scan_literal-Through false index acc [] = tt
scan_literal-Through true index acc (c ∷ cs) = elim (Bool-cases (c == b'\'')) [
  | inl y ↦ rw y (
      Through-map _ (λ r h. open_quote (ground arith) h)
        (scan_literal-Through false (index + 1) (acc ++ b'\'' ∷ []) cs))
  | inr n ↦ rw n done
]
scan_literal-Through false index acc (c ∷ cs) = elim (Bool-cases (c == b'\\')) [
  | inl y ↦ rw y tt
  | inr n ↦ rw n (elim (Bool-cases (c == b'\'')) [
    | inl q ↦ rw q (
        Through-map _ (λ r h. close_quote (ground arith) h)
          (scan_literal-Through true (index + 1) acc cs))
    | inr m ↦ rw m (
        Through-map _ (λ r h. literal (ground arith) (ground arith) h)
          (scan_literal-Through false (index + 1) (acc ++ c ∷ []) cs))
  ])
]

pub comparison-Through :
    (index : ℕ) (operator rest s : Bytes)
    → Passes false s false rest
    → Through false s (comparison index operator rest)
unfolding comparison
comparison-Through index operator rest s h = ground arith

pub scan_decimals-Through :
    (index : ℕ) (whole s : Bytes) → Through false s (scan_decimals index whole s)
unfolding scan_decimals plain_byte
scan_decimals-Through index whole [] = done
scan_decimals-Through index whole (d ∷ ds) = elim (Bool-cases (d == b'.')) [
  | inl y ↦ rw y (elim (Bool-cases (length (span ascii_digit ds).0 == 0)) [
    | inl z ↦ rw z tt
    | inr n ↦ rw n (plain (ground arith) (span-Passes ascii_digit digit-plain ds))
  ])
  | inr n ↦ rw n done
]

pub scan_number-Through : (index : ℕ) (s : Bytes) → Through false s (scan_number index s)
unfolding scan_number
scan_number-Through index s =
    Through-map _ (λ r h. Passes-trans (span-Passes ascii_digit digit-plain s) h)
      (scan_decimals-Through (index + length (span ascii_digit s).0) (span ascii_digit s).0
        (span ascii_digit s).1)

pub Turn-if :
    (P : Option Turn → Type 0) (b : Bool) (x y : Option Turn)
    → (b ≡ true → P x)
    → (b ≡ false → P y)
    → P (if b then x else y)
Turn-if P true x y f g = f refl
Turn-if P false x y f g = g refl

pub space-plain : (c : ℕ) → space_byte c ≡ true → plain_byte c ≡ true
unfolding plain_byte
space-plain c h = ground arith

pub symbol-plain : (c d : ℕ) → plain_byte d ≡ true → (c == d) ≡ true → plain_byte c ≡ true
symbol-plain c d h e = rw ((==_iff c d).0 e) h

pub comparison-plain :
    (c : ℕ) → (c == b'=' || c == b'<' || c == b'>' || c == b'!') ≡ true → plain_byte c ≡ true
unfolding plain_byte
comparison-plain c h = ground arith

pub letter-word : (c : ℕ) → (ascii_letter c || c == b'_') ≡ true → word_byte c ≡ true
unfolding word_byte
letter-word c h = ground arith

pub second-plain : (c d : ℕ) → (d == b'=' || c == b'<' && d == b'>') ≡ true → plain_byte d ≡ true
unfolding plain_byte
second-plain c d h = ground arith

pub scan_comparison-Through :
    (index c : ℕ) (cs : Bytes)
    → plain_byte c ≡ true
    → Through false (c ∷ cs) (scan_comparison index c cs)
unfolding scan_comparison
scan_comparison-Through index c [] h = comparison-Through _ _ _ _ (plain h done)
scan_comparison-Through index c (d ∷ ds) h =
    Turn-if (Through false (c ∷ d ∷ ds)) _ _ _
      (λ e. comparison-Through _ _ ds _ (plain h (plain (second-plain c d e) done)))
      (λ e. comparison-Through _ _ (d ∷ ds) _ (plain h done))

pub scan_symbol-Through :
    (index c : ℕ) (cs : Bytes) → Through false (c ∷ cs) (scan_symbol index c cs)
unfolding scan_symbol plain_byte
scan_symbol-Through index c cs =
    Turn-if (Through false (c ∷ cs)) _ _ _
      (λ e.
        Through-map _ (λ r h. open_quote ((==_iff c b'\'').0 e) h)
          (scan_literal-Through false (index + 1) [] cs))
      λ _. Turn-if (Through false (c ∷ cs)) _ _ _ (mark b',' refl) λ _.
        Turn-if (Through false (c ∷ cs)) _ _ _ (mark b'(' refl) λ _.
          Turn-if (Through false (c ∷ cs)) _ _ _ (mark b')' refl) λ _.
            Turn-if (Through false (c ∷ cs)) _ _ _ (mark b'*' refl) λ _.
              Turn-if (Through false (c ∷ cs)) _ _ _ (mark b'.' refl) λ _.
                Turn-if (Through false (c ∷ cs)) _ _ _
                  (λ e. scan_comparison-Through index c cs (comparison-plain c e))
                  λ _.
                    Turn-if (Through false (c ∷ cs)) _ _ _
                      (λ e.
                        plain (symbol-plain c b'%' refl e)
                          (span-Passes pattern_byte pattern-plain cs))
                      λ _. tt
  where
    mark : (d : ℕ) → plain_byte d ≡ true → (c == d) ≡ true → Passes false (c ∷ cs) false cs
    mark d h e = plain (symbol-plain c d h e) done

pub scan_one-Through : (index c : ℕ) (cs : Bytes) → Through false (c ∷ cs) (scan_one index c cs)
unfolding scan_one scan_identifier plain_byte
scan_one-Through index c cs =
    Turn-if (Through false (c ∷ cs)) _ _ _ (λ e. plain (space-plain c e) done)
      λ _.
        Turn-if (Through false (c ∷ cs)) _ _ _
          (λ e. plain (word-plain c (letter-word c e)) (span-Passes word_byte word-plain cs))
          λ _.
            Turn-if (Through false (c ∷ cs)) _ _ _ (λ e. scan_number-Through index (c ∷ cs))
              λ _. scan_symbol-Through index c cs
