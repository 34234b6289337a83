-- ===== src/Policy/Shell/Inert.antt =====
-- A line that the tokenizer of internal/policy/shell.go accepts: what a shell finds in it. The bytes
-- are listed here again, apart from the tokenizer's own tests.
use windmill_gate.Base.{
  ℕ, Bool, true, false, not, ◌&&◌, ◌||◌, leb, ascii_letter, ascii_digit, List, [], ◌∷◌, ◌==◌, ◌≡◌,
  ◌≢◌, refl, arith, if◌then◌else◌, Bytes, has_byte, Bool-cases, ==_iff, ◌⊎◌, inl, inr,
}
use windmill_gate.Base.Results.{ok, bind-eq-ok}
use windmill_gate.Policy.Shell.{
  ShellWord, Mode, between, in_word, in_escape, in_quote, Scanner, control, shell_expansion_at,
  follows_dollar, metacharacters, fresh, word_step, quote_step, escape_step, finish_word, step_in,
  finish, scan, initial, tokenize_shell,
}

-- Where in a line a shell stands: between words, in a word, behind a backslash, inside a quote.
pub data Context : Type 0 where
  gap bare escaped : Context
  quoted : ℕ → Context

-- The bytes of a shell's operators, redirections, backquotes, patterns, groups and comments.
abbrev pub operators : Bytes
operators = b';' ∷ b'|' ∷ b'&' ∷ b'>' ∷ b'<' ∷ b'`' ∷ b'*' ∷ b'?' ∷ b'[' ∷ b'(' ∷ b')' ∷ b'#' ∷ []

-- What stands behind a dollar begins a command, an arithmetic or a parameter expansion: an opening
-- parenthesis or brace, a name, a position or a special parameter.
abbrev pub begins_expansion : Bytes → Bool
begins_expansion [] = false
begins_expansion (c ∷ _) =
    has_byte c (b'(' ∷ b'{' ∷ b'_' ∷ b'@' ∷ b'*' ∷ b'#' ∷ b'?' ∷ b'-' ∷ b'$' ∷ b'!' ∷ [])
    || leb b'a' c && leb c b'z'
    || leb b'A' c && leb c b'Z'
    || leb b'0' c && leb c b'9'

-- A byte that is no control character of ASCII.
abbrev pub is_printing : ℕ → Bool
is_printing c = leb 0x20 c && not (c == 0x7f)

-- An unquoted byte of a word, with the bytes behind it.
pub record IsLiteral (c : ℕ) (rest : Bytes) : Type 0 where
  pub not_space : c ≢ b' '
  pub not_quote : (c ≢ b'\'') × (c ≢ b'"') × (c ≢ b'\\')
  pub no_operator : has_byte c operators ≡ false
  pub no_control : is_printing c ≡ true
  pub no_expansion : c ≡ b'$' → begins_expansion rest ≡ false

-- A byte inside the quote `q`; within double quotes it is no expansion, backquote or backslash.
pub record IsQuoted (q c : ℕ) (rest : Bytes) : Type 0 where
  pub not_end : c ≢ q
  pub no_control : is_printing c ≡ true
  pub no_expansion :
      q ≡ b'"' → (c ≢ b'`') × (c ≢ b'\\') × (c ≡ b'$' → begins_expansion rest ≡ false)

pub data Inert : Context → Bytes → Type 0 where
  end_gap : Inert gap []
  end_word : Inert bare []
  gap_space : {c : ℕ} {s : Bytes} → c ≡ b' ' → Inert gap s → Inert gap (c ∷ s)
  word_space : {c : ℕ} {s : Bytes} → c ≡ b' ' → Inert gap s → Inert bare (c ∷ s)
  -- a word begins with no tilde
  first_byte : {c : ℕ} {s : Bytes} → IsLiteral c s → c ≢ b'~' → Inert bare s → Inert gap (c ∷ s)
  byte : {c : ℕ} {s : Bytes} → IsLiteral c s → Inert bare s → Inert bare (c ∷ s)
  first_quote :
      {c : ℕ} {s : Bytes}
      → (c == b'\'' || c == b'"') ≡ true
      → Inert (quoted c) s
      → Inert gap (c ∷ s)
  quote :
      {c : ℕ} {s : Bytes}
      → (c == b'\'' || c == b'"') ≡ true
      → Inert (quoted c) s
      → Inert bare (c ∷ s)
  inside : {q c : ℕ} {s : Bytes} → IsQuoted q c s → Inert (quoted q) s → Inert (quoted q) (c ∷ s)
  unquote : {q c : ℕ} {s : Bytes} → c ≡ q → Inert bare s → Inert (quoted q) (c ∷ s)
  first_escape : {c : ℕ} {s : Bytes} → c ≡ b'\\' → Inert escaped s → Inert gap (c ∷ s)
  escape : {c : ℕ} {s : Bytes} → c ≡ b'\\' → Inert escaped s → Inert bare (c ∷ s)
  kept : {c : ℕ} {s : Bytes} → is_printing c ≡ true → Inert bare s → Inert escaped (c ∷ s)

control-printing : (c : ℕ) → control c ≡ false → is_printing c ≡ true
unfolding control
control-printing c h = ground arith

no_expansion_at :
    (c : ℕ) (rest : Bytes)
    → shell_expansion_at (c ∷ rest) ≡ false
    → c ≡ b'$'
    → begins_expansion rest ≡ false
unfolding shell_expansion_at follows_dollar has_byte ascii_letter ascii_digit
no_expansion_at c [] h e = refl
no_expansion_at c (next ∷ rest) h e = ground arith

operator_free : (c : ℕ) → has_byte c metacharacters ≡ false → has_byte c operators ≡ false
unfolding has_byte
operator_free c h = ground arith

abbrev context : Mode → Context
context between = gap
context in_word = bare
context in_escape = escaped
context (in_quote q) = quoted q

-- What a byte of a word is, where the tokenizer goes on behind it.
data Read (s next : Scanner) (c : ℕ) (rest : Bytes) : Type 0 where
  as_quote : (c == b'\'' || c == b'"') ≡ true → next.mode ≡ in_quote c → Read s next c rest
  as_escape : c ≡ b'\\' → next.mode ≡ in_escape → Read s next c rest
  as_byte :
      IsLiteral c rest
      → (s.index ≡ s.draft.start → c ≢ b'~')
      → next.mode ≡ in_word
      → Read s next c rest

word_step-Read :
    (s next : Scanner) (c : ℕ) (rest : Bytes)
    → (c == b' ') ≡ false
    → word_step s c rest ≡ ok next
    → Read s next c rest
unfolding word_step
word_step-Read s next c rest n h = elim (Bool-cases (c == b'\'' || c == b'"')) [
  | inl q ↦ as_quote q (ground arith)
  | inr nq ↦ elim (Bool-cases (c == b'\\')) [
    | inl e ↦ as_escape (ground arith) (ground arith)
    | inr ne ↦
        as_byte
          (record {
            not_space = ground arith;
            not_quote = (ground arith, ground arith, ground arith);
            no_operator = operator_free c (ground arith);
            no_control = control-printing c (ground arith);
            no_expansion = λ e. no_expansion_at c rest (ground arith) e;
          })
          (ground arith) (ground arith)
  ]
]

word-Inert :
    (s next : Scanner) (c : ℕ) (rest : Bytes)
    → Read s next c rest
    → Inert (context next.mode) rest
    → Inert bare (c ∷ rest)
word-Inert s next c rest (as_quote q m) h = quote q (rw m at h)
word-Inert s next c rest (as_escape e m) h = escape e (rw m at h)
word-Inert s next c rest (as_byte l t m) h = byte l (rw m at h)

first-Inert :
    (s next : Scanner) (c : ℕ) (rest : Bytes)
    → s.index ≡ s.draft.start
    → Read s next c rest
    → Inert (context next.mode) rest
    → Inert gap (c ∷ rest)
first-Inert s next c rest i (as_quote q m) h = first_quote q (rw m at h)
first-Inert s next c rest i (as_escape e m) h = first_escape e (rw m at h)
first-Inert s next c rest i (as_byte l t m) h = first_byte l (t i) (rw m at h)

-- Where a quoted segment goes on.
quote_step-mode :
    (s next : Scanner) (q c : ℕ) (rest : Bytes)
    → s.mode ≡ in_quote q
    → quote_step s q c rest ≡ ok next
    → next.mode ≡ (if c == q then in_word else in_quote q)
unfolding quote_step
quote_step-mode s next q c rest m h = ground arith

quote-Inert :
    (s next : Scanner) (q c : ℕ) (rest : Bytes)
    → s.mode ≡ in_quote q
    → quote_step s q c rest ≡ ok next
    → Inert (context next.mode) rest
    → Inert (quoted q) (c ∷ rest)
unfolding quote_step
quote-Inert s next q c rest m h k = elim (Bool-cases (c == q)) [
  | inl e ↦ unquote ((==_iff c q).0 e) (rw (mode, e) at k)
  | inr n ↦
      inside
        (record {
          not_end = ground arith;
          no_control = control-printing c (ground arith);
          no_expansion =
              λ double. (ground arith, ground arith, λ e. no_expansion_at c rest (ground arith) e);
        })
        (rw (mode, n) at k)
]
  where
    mode : next.mode ≡ (if c == q then in_word else in_quote q)
    mode = quote_step-mode s next q c rest m h

escape_step-mode :
    (s next : Scanner) (c : ℕ)
    → escape_step s c ≡ ok next
    → (next.mode ≡ in_word) × (is_printing c ≡ true)
unfolding escape_step
escape_step-mode s next c h = (ground arith, control-printing c (ground arith))

-- After a space the tokenizer is between words.
space-mode :
    (input : Bytes) (m : Mode) (s next : Scanner) (c : ℕ) (rest : Bytes)
    → s.mode ≡ m
    → (m ≡ between) ⊎ (m ≡ in_word)
    → c ≡ b' '
    → step_in input m s c rest ≡ ok next
    → next.mode ≡ between
unfolding step_in finish_word
space-mode input between s next c rest e o y h = ground arith
space-mode input in_word s next c rest e o y h = ground arith
space-mode input in_escape s next c rest e o y h = ground arith
space-mode input (in_quote q) s next c rest e o y h = ground arith

step_in-Inert :
    (input : Bytes) (m : Mode) (s next : Scanner) (c : ℕ) (rest : Bytes)
    → s.mode ≡ m
    → step_in input m s c rest ≡ ok next
    → Inert (context next.mode) rest
    → Inert (context m) (c ∷ rest)
unfolding step_in
step_in-Inert input between s next c rest e h k = elim (Bool-cases (c == b' ')) [
  | inl y ↦
      let space = (==_iff c b' ').0 y in
      gap_space space (rw (space-mode input between s next c rest e (inl refl) space h) at k)
  | inr n ↦
      let begun = record s { mode = in_word; draft = fresh s.index } in
      first-Inert begun next c rest refl (word_step-Read begun next c rest n (rw n at h)) k
]
step_in-Inert input in_word s next c rest e h k = elim (Bool-cases (c == b' ')) [
  | inl y ↦
      let space = (==_iff c b' ').0 y in
      word_space space (rw (space-mode input in_word s next c rest e (inr refl) space h) at k)
  | inr n ↦ word-Inert s next c rest (word_step-Read s next c rest n (rw n at h)) k
]
step_in-Inert input (in_quote q) s next c rest e h k = quote-Inert s next q c rest e h k
step_in-Inert input in_escape s next c rest e h k =
    let (m, n) = escape_step-mode s next c h in kept n (rw m at k)

finish-Inert :
    (input : Bytes) (m : Mode) (s : Scanner) (ws : List ShellWord)
    → finish input m s ≡ ok ws
    → Inert (context m) []
unfolding finish
finish-Inert input between s ws h = end_gap
finish-Inert input in_word s ws h = end_word
finish-Inert input (in_quote q) s ws h = absurd (cc)
finish-Inert input in_escape s ws h = absurd (cc)

scan-Inert :
    (input : Bytes) (s : Scanner) (rest : Bytes) (ws : List ShellWord)
    → scan input s rest ≡ ok ws
    → Inert (context s.mode) rest
unfolding scan
scan-Inert input s [] ws h = finish-Inert input s.mode s ws h
scan-Inert input s (c ∷ rest) ws h =
    let (next, first, later) = bind-eq-ok (step_in input s.mode s c rest) _ h in
    step_in-Inert input s.mode s next c rest refl first (scan-Inert input next rest ws later)

pub tokenize_shell-Inert :
    (input : Bytes) (ws : List ShellWord) → tokenize_shell input ≡ ok ws → Inert gap input
unfolding tokenize_shell
tokenize_shell-Inert input ws h = scan-Inert input initial input ws (ground arith)
