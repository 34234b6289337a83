-- ===== src/Policy/Shell.antt =====
-- `tokenizeShell` of internal/policy/shell.go. Its nested loops over the bytes are one loop here,
-- with a mode for the loop that it stands in.
pub mod Inert
pub mod Fields
use windmill_gate.Base.{
  ℕ, zero, suc, ◌+◌, ◌-◌, Bool, true, false, not, ◌&&◌, ◌||◌, List, [], ◌∷◌, ◌++◌, Option, none,
  some, ◌==◌, ltb, leb, if◌then◌else◌, Bytes, codes, length, take, drop, get_elem?, any, has_byte,
  ascii_letter, ascii_digit,
}
use windmill_gate.Base.Results.{Result, ok, err, ◌>>=◌}
use windmill_gate.Base.Unicode.{Rune, runes, valid_string, is_control, is_space}

pub record ShellWord : Type 0 where
  pub value : Bytes
  pub start : ℕ
  pub end : ℕ
  pub quote : ℕ
  pub mixed : Bool

pub data ShellError : Type 0 where
  invalid_utf8 control_or_whitespace control_character expansion_or_escape : ShellError
  unterminated_quote composition expansion invalid_escape empty_word empty_command : ShellError

-- Which loop the tokenizer is in: between two words, in a word, in a quoted segment with its
-- quote, or behind a backslash.
pub data Mode : Type 0 where
  between in_word in_escape : Mode
  in_quote : ℕ → Mode

-- The word that is being read; `quote` is 0 until a quote has been seen.
pub record Draft : Type 0 where
  pub start : ℕ
  pub value : Bytes
  pub quote : ℕ
  pub mixed : Bool
  pub quoted_segments : ℕ
  pub unquoted_segment : Bool

pub record Scanner : Type 0 where
  pub mode : Mode
  pub index : ℕ
  pub draft : Draft
  pub words : List ShellWord

unfoldable pub control : ℕ → Bool
control c = ltb c 0x20 || c == 0x7f

unfoldable pub follows_dollar : ℕ → Bool
follows_dollar next = has_byte next (codes "({?*@$!#-_") || ascii_letter next || ascii_digit next

-- `shellExpansionAt`, at the bytes from the index on
unfoldable pub shell_expansion_at : Bytes → Bool
unfolding follows_dollar has_byte ascii_letter ascii_digit
shell_expansion_at [] = false
shell_expansion_at (c ∷ []) = false
shell_expansion_at (c ∷ next ∷ _) = c == b'$' && follows_dollar next

abbrev pub fresh : ℕ → Draft
fresh index = record {
  start = index;
  value = [];
  quote = 0;
  mixed = false;
  quoted_segments = 0;
  unquoted_segment = false;
}

abbrev pub metacharacters : Bytes
metacharacters = codes ";|&><`*?[()#"

-- `value.WriteByte(ch)` outside quotes
abbrev pub write : Scanner → ℕ → Scanner
write s c = record s {
  mode = in_word;
  index = s.index + 1;
  draft = record s.draft { value = s.draft.value ++ c ∷ []; unquoted_segment = true };
}

abbrev pub open_quote : Scanner → ℕ → Scanner
open_quote s q = record s {
  mode = in_quote q;
  index = s.index + 1;
  draft = record s.draft {
    quoted_segments = s.draft.quoted_segments + 1;
    quote = if s.draft.quote == 0 then q else s.draft.quote;
    mixed = if s.draft.quote == 0 then s.draft.mixed else s.draft.mixed || not (s.draft.quote == q);
  };
}

-- the `switch` on a byte of a word, with the bytes behind it
unfoldable pub word_step : Scanner → ℕ → Bytes → Result ShellError Scanner
unfolding control has_byte
word_step s c rest =
    if control c
    then err control_character
    else if c == b'\'' || c == b'"'
    then ok (open_quote s c)
    else if has_byte c metacharacters
    then err composition
    else if c == b'~'
    then (if s.index == s.draft.start then err expansion else ok (write s c))
    else if c == b'$'
    then (if shell_expansion_at (c ∷ rest) then err expansion else ok (write s c))
    else if c == b'\\'
    then ok (record s {
      mode = in_escape;
      index = s.index + 1;
      draft = record s.draft { unquoted_segment = true; mixed = true };
    })
    else ok (write s c)

-- a byte of a quoted segment
unfoldable pub quote_step : Scanner → ℕ → ℕ → Bytes → Result ShellError Scanner
unfolding control
quote_step s q c rest =
    if c == q
    then ok (record s { mode = in_word; index = s.index + 1 })
    else if control c
    then err control_character
    else if q == b'"' && (c == b'`' || c == b'\\' || shell_expansion_at (c ∷ rest))
    then err expansion_or_escape
    else ok (record s {
      index = s.index + 1;
      draft = record s.draft { value = s.draft.value ++ c ∷ [] };
    })

-- the byte behind a backslash
unfoldable pub escape_step : Scanner → ℕ → Result ShellError Scanner
unfolding control
escape_step s c = if control c then err invalid_escape else ok (write s c)

-- `input[start:end]`
abbrev pub slice : Bytes → ℕ → ℕ → Bytes
slice input start end = take (end - start) (drop start input)

abbrev pub byte_is : Option ℕ → ℕ → Bool
byte_is none q = false
byte_is (some c) q = c == q

-- the quote stands at both ends of the raw word
unfoldable pub wrapped : Bytes → ℕ → Bool
wrapped raw q =
    leb 2 (length raw) && byte_is (get_elem? raw 0) q && byte_is (get_elem? raw (length raw - 1)) q

-- the word that a draft becomes, with its ambiguity
unfoldable pub word_of : Bytes → Scanner → ShellWord
unfolding wrapped
word_of input s =
    let d = s.draft in
    let raw = slice input d.start s.index in
    let ambiguous = not (d.quote == 0) && not (wrapped raw d.quote) in
    let several = ltb 1 d.quoted_segments || ltb 0 d.quoted_segments && d.unquoted_segment in
    record {
      value = d.value;
      start = d.start;
      end = s.index;
      quote = d.quote;
      mixed = d.mixed || ambiguous || several;
    }

-- what follows the loop over a word
unfoldable pub finish_word : Bytes → Scanner → Result ShellError (List ShellWord)
finish_word input s =
    if length s.draft.value == 0 && s.index == s.draft.start
    then err empty_word
    else ok (s.words ++ word_of input s ∷ [])

-- one byte, in a mode, with the bytes behind it
unfoldable pub step_in : Bytes → Mode → Scanner → ℕ → Bytes → Result ShellError Scanner
step_in input between s c rest =
    if c == b' '
    then ok (record s { index = s.index + 1 })
    else word_step (record s { mode = in_word; draft = fresh s.index }) c rest
step_in input in_word s c rest =
    if c == b' '
    then (do
      words ← finish_word input s
      ok (record s { mode = between; index = s.index + 1; words = words }))
    else word_step s c rest
step_in input (in_quote q) s c rest = quote_step s q c rest
step_in input in_escape s c rest = escape_step s c

abbrev pub some_words : List ShellWord → Result ShellError (List ShellWord)
some_words [] = err empty_command
some_words (w ∷ ws) = ok (w ∷ ws)

-- the end of the input, in a mode
unfoldable pub finish : Bytes → Mode → Scanner → Result ShellError (List ShellWord)
finish input between s = some_words s.words
finish input in_word s = do words ← finish_word input s; some_words words
finish input (in_quote q) s = err unterminated_quote
finish input in_escape s = err invalid_escape

unfoldable pub scan : Bytes → Scanner → Bytes → Result ShellError (List ShellWord)
scan input s [] = finish input s.mode s
scan input s (c ∷ rest) = do next ← step_in input s.mode s c rest; scan input next rest

abbrev pub initial : Scanner
initial = record { mode = between; index = 0; draft = fresh 0; words = [] }

-- the first loop, over the runes
refused_rune : Rune → Bool
refused_rune r = is_control r.value || is_space r.value && not (r.value == b' ')

unfoldable pub tokenize_shell : Bytes → Result ShellError (List ShellWord)
unfolding refused_rune
tokenize_shell input =
    if not (valid_string input)
    then err invalid_utf8
    else if any refused_rune (runes input)
    then err control_or_whitespace
    else scan input initial input

-- `HasUnsafeComposition` of internal/policy/policy.go
unfoldable pub has_unsafe_composition : Bytes → Bool
has_unsafe_composition command = elim (tokenize_shell command) [ ok _ ↦ false | err _ ↦ true ]
