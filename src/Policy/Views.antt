-- ===== src/Policy/Views.antt =====
-- `commandViews` of internal/policy/shell.go and `tokenizeTLSRedirect` of
-- internal/policy/network.go: the payload, and what its runagent and podman wrappers run.
pub mod Contained
use windmill_gate.Base.{
  ℕ, suc, ◌+◌, ◌-◌, Bool, true, false, not, ◌&&◌, ◌||◌, List, [], ◌∷◌, ◌++◌, Option, none, some,
  ◌==◌, ltb, if◌then◌else◌, Bytes, codes, is, equal, length, take, drop, has_byte, has_suffix,
  cut_prefix, any, ◌>>=◌,
}
use windmill_gate.Base.Results.{Result, ok, err}
use windmill_gate.Policy.Shell.{ShellWord, tokenize_shell}
use windmill_gate.Policy.Network.{
  word_is, value_at, identifier_byte, alphanumeric, diagnostic_identifier, validate_tls_probe,
}

-- `CommandView`: `none` stands for the words of a text that is not tokenized.
pub record CommandView : Type 0 where
  pub text : Bytes
  pub words : Option (List ShellWord)

-- ` (.+)$` behind the identifier: a space, and at least one byte, none of them a newline
inner_text : Bytes → Option Bytes
inner_text [] = none
inner_text (c ∷ []) = none
inner_text (c ∷ d ∷ s) = if c == b' ' && not (has_byte b'\n' (d ∷ s)) then some (d ∷ s) else none

after_identifier : Bytes → Option Bytes
after_identifier [] = none
after_identifier (c ∷ cs) =
    let more = after_identifier cs in if identifier_byte c then more else inner_text (c ∷ cs)

-- `[a-zA-Z0-9][a-zA-Z0-9_.-]* (.+)$`
identified : Bytes → Option Bytes
identified [] = none
identified (c ∷ cs) = if alphanumeric c then after_identifier cs else none

-- `runagentView` and `podmanExecView`: what the wrapper runs
unfoldable pub runagent_view : Bytes → Option Bytes
unfolding identified after_identifier inner_text
runagent_view command = do rest ← cut_prefix (codes "runagent -m ") command; identified rest

unfoldable pub podman_exec_view : Bytes → Option Bytes
unfolding identified after_identifier inner_text
podman_exec_view command = do rest ← cut_prefix (codes "podman exec ") command; identified rest

abbrev bare_word : Bytes → ShellWord
bare_word value = record { value = value; start = 0; end = 0; quote = 0; mixed = false }

abbrev pub redirect : Bytes
redirect = codes " < /dev/null 2>&1"

unwrapped : List ShellWord → List ShellWord
unwrapped words =
    if ltb 2 (length words)
      && word_is words 0 "runagent"
      && word_is words 1 "-m"
      && diagnostic_identifier (value_at words 2)
    then drop 3 words
    else words

-- the words of the probe, and whether it is a valid one
unfoldable pub tokenize_tls_redirect : Bytes → Option (List ShellWord)
unfolding unwrapped has_suffix
tokenize_tls_redirect input =
    if has_suffix redirect input
    then elim (tokenize_shell (take (length input - length redirect) input)) [
      | err _ ↦ none
      | ok words ↦
          let all_words =
            words
            ++ bare_word (codes "<")
              ∷ bare_word (codes "/dev/null")
              ∷ bare_word (codes "2>&1")
              ∷ [] in
          if validate_tls_probe (unwrapped all_words) then some all_words else none
    ]
    else none

-- `tokenizeShell`, or the one redirect that is recognized
view_words : Bytes → Option (List ShellWord)
view_words text = elim (tokenize_shell text) [
  | ok words ↦ some words
  | err _ ↦ tokenize_tls_redirect text
]

view_of : Bytes → CommandView
view_of text = record { text = text; words = view_words text }

inner_views : Bytes → List CommandView
inner_views inner = elim (podman_exec_view inner) [ none ↦ [] | some nested ↦ view_of nested ∷ [] ]

-- the views after the first, which is the payload itself
wrapped_views : Bytes → List CommandView
unfolding view_of inner_views
wrapped_views command = elim (runagent_view command) [
  | none ↦ inner_views command
  | some inner ↦ view_of inner ∷ inner_views inner
]

unfoldable pub views : Bytes → List CommandView
unfolding wrapped_views view_words
views command = view_of command ∷ wrapped_views command

leaf : CommandView → List CommandView → CommandView
leaf v [] = v
leaf v (w ∷ ws) = leaf w ws

-- a wrapper that no view has taken off
is_wrapper : Option (List ShellWord) → Bool
is_wrapper none = false
is_wrapper (some words) =
    word_is words 0 "runagent" || word_is words 0 "podman" && word_is words 1 "exec"

untokenized : CommandView → Bool
untokenized v = elim v.words [ none ↦ true | some _ ↦ false ]

-- `parseErr != nil`
unfoldable pub parse_error : List CommandView → Bool
unfolding leaf is_wrapper untokenized
parse_error [] = true
parse_error (v ∷ vs) = any untokenized (v ∷ vs) || is_wrapper (leaf v vs).words
