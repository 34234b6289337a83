-- ===== src/Policy/Views/Contained.antt =====
-- What is known of every view of a payload that can be tokenized.
use windmill_gate.Base.{
  ◌-◌, true, false, List, [], ◌∷◌, Option, none, some, ◌≡◌, refl, arith, Bytes, length, take,
  has_suffix, codes, any, All, Bool-cases, Option-cases, inl, inr,
}
use windmill_gate.Base.Results.{Result-cases}
use windmill_gate.Policy.Shell.{ShellWord, tokenize_shell}
use windmill_gate.Policy.Shell.Inert.{Inert, gap, tokenize_shell-Inert}
use windmill_gate.Policy.Views.{
  CommandView, views, parse_error, redirect, tokenize_tls_redirect, view_words, view_of,
  wrapped_views, inner_views, untokenized, runagent_view, podman_exec_view,
}

-- A line without operators, redirections, patterns, comments and dollar expansions, but for the one
-- recognized ending ` < /dev/null 2>&1`.
pub data IsContained (text : Bytes) : Type 0 where
  inert : Inert gap text → IsContained text
  redirected :
      has_suffix (codes " < /dev/null 2>&1") text ≡ true
      → Inert gap (take (length text - 17) text)
      → IsContained text

tokenize_tls_redirect-IsContained :
    (text : Bytes) (ws : List ShellWord) → tokenize_tls_redirect text ≡ some ws → IsContained text
unfolding tokenize_tls_redirect
tokenize_tls_redirect-IsContained text ws h = elim (Bool-cases (has_suffix redirect text)) [
  | inr n ↦ absurd (cc (rw n at h))
  | inl y ↦ elim (Result-cases (tokenize_shell (take (length text - length redirect) text))) [
    | inl (ws', e) ↦ redirected y (tokenize_shell-Inert _ ws' e)
    | inr (x, e) ↦ absurd (cc (rw (y, e) at h))
  ]
]

view_words-IsContained :
    (text : Bytes) (ws : List ShellWord) → view_words text ≡ some ws → IsContained text
unfolding view_words
view_words-IsContained text ws h = elim (Result-cases (tokenize_shell text)) [
  | inl (ws', e) ↦ inert (tokenize_shell-Inert text ws' e)
  | inr (x, e) ↦ tokenize_tls_redirect-IsContained text ws (rw (e, view_words) at h)
]

abbrev IsFine : CommandView → Type 0
IsFine v = untokenized v ≡ false → IsContained v.text

view_of-IsFine : (text : Bytes) → IsFine (view_of text)
unfolding untokenized view_of
view_of-IsFine text h = elim (Option-cases (view_words text)) [
  | inr (ws, e) ↦ view_words-IsContained text ws e
  | inl n ↦ absurd (cc (rw (n, untokenized, view_of) at h))
]

nested_views-IsFine :
    (o : Option Bytes) → All IsFine (elim o [ none ↦ [] | some nested ↦ view_of nested ∷ [] ])
nested_views-IsFine none = tt
nested_views-IsFine (some nested) = (view_of-IsFine nested, tt)

inner_views-IsFine : (inner : Bytes) → All IsFine (inner_views inner)
unfolding inner_views
inner_views-IsFine inner = nested_views-IsFine (podman_exec_view inner)

unwrapped_views-IsFine :
    (command : Bytes) (o : Option Bytes)
    → All IsFine
        (elim o [ none ↦ inner_views command | some inner ↦ view_of inner ∷ inner_views inner ])
unwrapped_views-IsFine command none = inner_views-IsFine command
unwrapped_views-IsFine command (some inner) = (view_of-IsFine inner, inner_views-IsFine inner)

views-IsFine : (command : Bytes) → All IsFine (views command)
unfolding views wrapped_views
views-IsFine command =
    (view_of-IsFine command, unwrapped_views-IsFine command (runagent_view command))

All-IsContained :
    (vs : List CommandView)
    → All IsFine vs
    → any untokenized vs ≡ false
    → All (λ v. IsContained v.text) vs
All-IsContained [] f h = tt
All-IsContained (v ∷ vs) f h = (f.0 (ground arith), All-IsContained vs f.1 (ground arith))

tokenized : (vs : List CommandView) → parse_error vs ≡ false → any untokenized vs ≡ false
unfolding parse_error
tokenized [] h = refl
tokenized (v ∷ vs) h = ground arith

pub views-IsContained :
    (command : Bytes)
    → parse_error (views command) ≡ false
    → All (λ v. IsContained v.text) (views command)
views-IsContained command h =
    All-IsContained (views command) (views-IsFine command) (tokenized (views command) h)
