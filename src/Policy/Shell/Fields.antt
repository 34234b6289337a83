-- ===== src/Policy/Shell/Fields.antt =====
-- The values of the words that the tokenizer of internal/policy/shell.go gives, beside a description
-- of word splitting and quote removal.
use windmill_gate.Base.{
  ℕ, ◌+◌, true, false, ◌||◌, List, [], ◌∷◌, ◌++◌, Option, none, some, ◌==◌, ◌≡◌, refl, ap, sym, ◌∙◌,
  arith, if◌then◌else◌, Bytes, Bool-cases, inl, inr, map, append_assoc, append-nil,
}
use mathlib.Core.List.{map-append}
use windmill_gate.Base.Results.{ok, bind-eq-ok}
use windmill_gate.Policy.Shell.{
  ShellWord, Mode, between, in_word, in_escape, in_quote, Draft, Scanner, word_step, fresh,
  quote_step, escape_step, word_of, finish_word, step_in, finish, some_words, scan, initial,
  tokenize_shell,
}

-- How a shell reads the next byte.
data Quoting : Type 0 where
  bare escaped : Quoting
  quoted : ℕ → Quoting

abbrev opened : Option Bytes → Bytes
opened none = []
opened (some w) = w

abbrev flushed : Option Bytes → List Bytes → List Bytes
flushed none ws = ws
flushed (some w) ws = w ∷ ws

-- The words of a line, with quotes and backslashes removed: spaces outside quotes separate, a
-- quote runs to the next one of its kind, a backslash outside quotes keeps the byte behind it.
fields_from : Quoting → Option Bytes → Bytes → List Bytes
fields_from q none [] = []
fields_from q (some w) [] = w ∷ []
fields_from bare word (c ∷ s) =
    let next = fields_from bare none s in
    let inside = fields_from (quoted c) (some (opened word)) s in
    let behind = fields_from escaped (some (opened word)) s in
    let more = fields_from bare (some (opened word ++ c ∷ [])) s in
    if c == b' '
    then flushed word next
    else if c == b'\'' || c == b'"'
    then inside
    else if c == b'\\'
    then behind
    else more
fields_from (quoted q) word (c ∷ s) =
    let closed = fields_from bare word s in
    let more = fields_from (quoted q) (some (opened word ++ c ∷ [])) s in
    if c == q then closed else more
fields_from escaped word (c ∷ s) = fields_from bare (some (opened word ++ c ∷ [])) s

pub fields : Bytes → List Bytes
fields s = fields_from bare none s

abbrev quoting : Mode → Quoting
quoting between = bare
quoting in_word = bare
quoting in_escape = escaped
quoting (in_quote q) = quoted q

abbrev pending : Mode → Draft → Option Bytes
pending between d = none
pending _ d = some d.value

abbrev values : List ShellWord → List Bytes
values = map (λ w. w.value)

-- What the words will be, from a state of the tokenizer on.
abbrev outlook : Scanner → Bytes → List Bytes
outlook s rest = fields_from (quoting s.mode) (pending s.mode s.draft) rest

word_step-outlook :
    (s next : Scanner) (word : Option Bytes) (c : ℕ) (rest : Bytes)
    → opened word ≡ s.draft.value
    → (c == b' ') ≡ false
    → word_step s c rest ≡ ok next
    → (next.words ≡ s.words) × (outlook next rest ≡ fields_from bare word (c ∷ rest))
unfolding word_step fields_from
word_step-outlook s next word c rest o n h = ground arith

quote_step-outlook :
    (s next : Scanner) (q c : ℕ) (rest : Bytes)
    → s.mode ≡ in_quote q
    → quote_step s q c rest ≡ ok next
    → (next.words ≡ s.words)
      × (outlook next rest ≡ fields_from (quoted q) (some s.draft.value) (c ∷ rest))
unfolding quote_step fields_from
quote_step-outlook s next q c rest m h = ground arith

escape_step-outlook :
    (s next : Scanner) (c : ℕ) (rest : Bytes)
    → escape_step s c ≡ ok next
    → (next.words ≡ s.words)
      × (outlook next rest ≡ fields_from escaped (some s.draft.value) (c ∷ rest))
unfolding escape_step fields_from
escape_step-outlook s next c rest h = ground arith

finish_word-values :
    (input : Bytes) (s : Scanner) (ws : List ShellWord)
    → finish_word input s ≡ ok ws
    → values ws ≡ values s.words ++ s.draft.value ∷ []
unfolding finish_word word_of
finish_word-values input s ws h =
    rw (added h) (map-append (λ w. w.value) s.words (word_of input s ∷ []))
  where
    added : finish_word input s ≡ ok ws → ws ≡ s.words ++ word_of input s ∷ []
    added e = ground arith

-- An outlook that is kept, the words already read in front of it.
abbrev Keeps : Scanner → Scanner → Bytes → List Bytes → Type 0
Keeps s next rest before = (next.words ≡ s.words) × (outlook next rest ≡ before)

Keeps-values :
    (s next : Scanner) (rest : Bytes) (before : List Bytes)
    → Keeps s next rest before
    → values next.words ++ outlook next rest ≡ values s.words ++ before
Keeps-values s next rest before (w, o) = rw (w, o)

between-outlook :
    (input : Bytes) (s next : Scanner) (c : ℕ) (rest : Bytes)
    → s.mode ≡ between
    → step_in input between s c rest ≡ ok next
    → Keeps s next rest (fields_from bare none (c ∷ rest))
unfolding step_in fields_from
between-outlook input s next c rest e h = elim (Bool-cases (c == b' ')) [
  | inl y ↦ ground arith
  | inr n ↦
      word_step-outlook (record s { mode = in_word; draft = fresh s.index }) next none c rest refl n
        (ground arith)
]

space-outlook :
    (input : Bytes) (s next : Scanner) (c : ℕ) (rest : Bytes)
    → (c == b' ') ≡ true
    → step_in input in_word s c rest ≡ ok next
    → values next.words ++ outlook next rest
      ≡ values s.words ++ fields_from bare (some s.draft.value) (c ∷ rest)
unfolding step_in
space-outlook input s next c rest y h =
    let (ws, f, e) = bind-eq-ok (finish_word input s) _ (rw y at h) in
    let shut : next ≡ record s { mode = between; index = s.index + 1; words = ws } = cc in
    rw shut (
      rw (finish_word-values input s ws f) (
        append_assoc _ (s.draft.value ∷ []) _
        ∙ ap (λ l. values s.words ++ l) (fields-space s.draft.value c rest y)))
  where
    fields-space :
        (v : Bytes) (c : ℕ) (rest : Bytes)
        → (c == b' ') ≡ true
        → (v ∷ []) ++ fields_from bare none rest ≡ fields_from bare (some v) (c ∷ rest)
    fields-space v c rest y = unfold fields_from in rw y

-- One step keeps the outlook.
step_in-outlook :
    (input : Bytes) (m : Mode) (s next : Scanner) (c : ℕ) (rest : Bytes)
    → s.mode ≡ m
    → step_in input m s c rest ≡ ok next
    → values next.words ++ outlook next rest
      ≡ values s.words ++ fields_from (quoting m) (pending m s.draft) (c ∷ rest)
unfolding step_in
step_in-outlook input between s next c rest e h =
    Keeps-values s next rest _ (between-outlook input s next c rest e h)
step_in-outlook input in_word s next c rest e h = elim (Bool-cases (c == b' ')) [
  | inl y ↦ space-outlook input s next c rest y h
  | inr n ↦
      Keeps-values s next rest _
        (word_step-outlook s next (some s.draft.value) c rest refl n (rw n at h))
]
step_in-outlook input (in_quote q) s next c rest e h =
    Keeps-values s next rest _ (quote_step-outlook s next q c rest e h)
step_in-outlook input in_escape s next c rest e h =
    Keeps-values s next rest _ (escape_step-outlook s next c rest h)

some_words-eq : (ws us : List ShellWord) → some_words ws ≡ ok us → us ≡ ws
some_words-eq [] us h = cc
some_words-eq (w ∷ ws) us h = cc

finish-outlook :
    (input : Bytes) (m : Mode) (s : Scanner) (ws : List ShellWord)
    → finish input m s ≡ ok ws
    → values ws ≡ values s.words ++ fields_from (quoting m) (pending m s.draft) []
unfolding finish fields_from
finish-outlook input between s ws h =
    rw (some_words-eq s.words ws h) (sym (append-nil (values s.words)))
finish-outlook input in_word s ws h =
    let (us, f, e) = bind-eq-ok (finish_word input s) _ h in
    rw (some_words-eq us ws e) (finish_word-values input s us f)
finish-outlook input (in_quote q) s ws h = cc
finish-outlook input in_escape s ws h = cc

scan-fields :
    (input : Bytes) (s : Scanner) (rest : Bytes) (ws : List ShellWord)
    → scan input s rest ≡ ok ws
    → values ws ≡ values s.words ++ outlook s rest
unfolding scan
scan-fields input s [] ws h = finish-outlook input s.mode s ws h
scan-fields input s (c ∷ rest) ws h =
    let (next, first, later) = bind-eq-ok (step_in input s.mode s c rest) _ h in
    scan-fields input next rest ws later ∙ step_in-outlook input s.mode s next c rest refl first

-- The tokenizer, where it accepts a line, yields the words of `fields`, an independent description
-- of splitting at spaces and of removing quotes and backslashes. Brace lists and a dollar before a
-- quote, which a shell goes on to expand, are plain bytes for both.
pub tokenize_shell-fields :
    (input : Bytes) (ws : List ShellWord)
    → tokenize_shell input ≡ ok ws
    → map (λ w. w.value) ws ≡ fields input
unfolding tokenize_shell fields
tokenize_shell-fields input ws h = scan-fields input initial input ws (ground arith)
