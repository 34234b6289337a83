-- ===== src/Samples/Policies.antt =====
-- internal/policy on a line, with an engine that allows the command `uptime`.
use windmill_gate.Policy.Values.{decimal}
use windmill_gate.Policy.Paths.{clean_literal, clean_path}
use Prim.Native.String.{String}
use windmill_gate.Policy.Diagnostic.{
  validate_cat, validate_tail, tail_count, validate_ls, reads_options, parse_read_options,
  tail_from,
}
use windmill_gate.Policy.Diagnostic.{cat_options, ls_options}
use windmill_gate.Policy.Diagnostic.Arguments.{Accounts, IsOption, IsTailOption}
use windmill_gate.Policy.Diagnostic.Operands.{
  validate_cat-Accounts, validate_tail-Accounts, validate_ls-Accounts,
}
use Engine.{compile_rule}
use windmill_gate.Base.Maps.{insert, lookup}
use windmill_gate.Base.Unicode.{is_control, is_space, runes, valid_string}
use windmill_gate.Base.{
  true, false, List, [], ◌∷◌, ◌++◌, ◌||◌, some, none, ◌≡◌, refl, ◌↔◌, Bytes, codes, any, map, equal,
  cut, has_byte, has_prefix, is_empty, split, join, member,
}
use windmill_gate.Base.Results.{Result, ok}
use windmill_gate.Policy.Shell.{
  ShellWord, tokenize_shell, finish, finish_word, quote_step, scan, step_in, word_of, word_step,
}
use windmill_gate.Policy.Shell.Inert.{Inert}
use windmill_gate.Policy.Shell.Fields.{fields, tokenize_shell-fields}
use windmill_gate.Policy.Views.{views, parse_error}
use windmill_gate.Policy.Engine
use windmill_gate.Policy.Engine.{
  Matching, Engine, allow, deny, PolicyError, evaluate, allow_for_target, detach_target,
  temporary_rules, temporary_of,
}
use windmill_gate.Policy.Engine.Decisions.{
  denied_view, any_match, allowed_view, evaluate-deny_iff, evaluate-allow_iff,
}
use windmill_gate.Policy.Engine.Targets.{allow_for_target_scope, detach_target_scope}

-- patterns that match a text as a whole, in place of regular expressions
abbrev pub exact : Matching
exact = record {
  Pattern = Bytes;
  compile = λ p. some p;
  match_string = equal;
  validator = λ name. none;
}

abbrev pub uptime : Bytes
uptime = codes "uptime"

abbrev pub engine : Engine exact
engine = record {
  allowed = record { pattern = uptime; regexp = uptime } ∷ [];
  validated = [];
  denied = record { pattern = codes "reboot"; regexp = codes "reboot" } ∷ [];
  temporary = [];
}

abbrev granted_engine : Engine exact
granted_engine = record engine {
  temporary = (codes "tgt_1", record { pattern = codes "df"; regexp = codes "df" } ∷ []) ∷ [];
}

abbrev line : Bytes
line = codes "a 'b c'"

abbrev line_words : List ShellWord
line_words =
    record { value = codes "a"; start = 0; end = 1; quote = 0; mixed = false }
    ∷ record { value = codes "b c"; start = 2; end = 7; quote = b'\''; mixed = false }
    ∷ []

line_tokenized : tokenize_shell line ≡ ok line_words
unfolding tokenize_shell valid_string is_control is_space scan step_in word_step finish_word
    quote_step finish word_of
line_tokenized = refl

tokenize_shell-fields_example : map (λ w. w.value) line_words ≡ fields line
tokenize_shell-fields_example = tokenize_shell-fields line line_words line_tokenized

evaluate-deny_iff_example :
    ((evaluate exact engine (codes "tgt_1") (codes "reboot")).decision ≡ deny)
    ↔ (denied_view exact engine (views (codes "reboot")) ≡ true)
evaluate-deny_iff_example = evaluate-deny_iff exact engine (codes "tgt_1") (codes "reboot")

evaluate-allow_iff_example : ((evaluate exact engine (codes "tgt_1") uptime).decision ≡ allow) ↔ (
    (denied_view exact engine (views uptime) ≡ false)
    × (parse_error (views uptime) ≡ false)
    × ((any_match exact (temporary_of exact engine (codes "tgt_1")) uptime
          || any (allowed_view exact engine) (views uptime))
        ≡ true))
evaluate-allow_iff_example = evaluate-allow_iff exact engine (codes "tgt_1") uptime

df_granted :
    ◌≡◌ {A = Result PolicyError (Engine exact)}
      (allow_for_target exact engine (codes "tgt_1") (codes "df"))
      (ok granted_engine)
unfolding allow_for_target is_empty compile_rule insert temporary_of lookup
df_granted = refl

allow_for_target_scope_example :
    (temporary_rules exact granted_engine (codes "tgt_1")
      ≡ temporary_rules exact engine (codes "tgt_1") ++ codes "df" ∷ [])
    × ((other command : Bytes)
        → equal (codes "tgt_1") other ≡ false
        → evaluate exact granted_engine other command ≡ evaluate exact engine other command)
    × ((other command : Bytes)
        → ((evaluate exact granted_engine other command).decision ≡ deny)
          ↔ ((evaluate exact engine other command).decision ≡ deny))
allow_for_target_scope_example =
    allow_for_target_scope exact engine granted_engine (codes "tgt_1") (codes "df") df_granted

detach_target_scope_example :
    (temporary_rules exact (detach_target exact granted_engine (codes "tgt_1")) (codes "tgt_1")
      ≡ [])
    × ((other command : Bytes)
        → equal (codes "tgt_1") other ≡ false
        → evaluate exact (detach_target exact granted_engine (codes "tgt_1")) other command
          ≡ evaluate exact granted_engine other command)
detach_target_scope_example = detach_target_scope exact granted_engine (codes "tgt_1")

abbrev plain_word : String → ShellWord
plain_word text = record { value = codes text; start = 0; end = 0; quote = 0; mixed = false }

abbrev cat_arguments : List ShellWord
cat_arguments = plain_word "-n" ∷ plain_word "/var/log/messages" ∷ []

abbrev ls_arguments : List ShellWord
ls_arguments = plain_word "-l" ∷ plain_word "--sort" ∷ plain_word "size" ∷ plain_word "/var" ∷ []

cat_accepted : validate_cat cat_arguments ≡ true
unfolding validate_cat parse_read_options equal has_prefix has_byte clean_path is_empty
    clean_literal runes is_control is_space split join
cat_accepted = refl

ls_accepted : validate_ls ls_arguments ≡ true
unfolding validate_ls parse_read_options equal has_prefix has_byte member cut clean_literal is_empty
    runes is_control is_space clean_path split join
ls_accepted = refl

parent_refused : validate_cat (plain_word "/var/../etc/shadow" ∷ []) ≡ false
unfolding validate_cat parse_read_options equal has_prefix clean_path is_empty clean_literal runes
    is_control is_space has_byte split
parent_refused = refl

validate_cat-Accounts_example :
    Accounts (IsOption cat_options) clean_literal reads_options cat_arguments
validate_cat-Accounts_example = validate_cat-Accounts cat_arguments cat_accepted

validate_ls-Accounts_example :
    Accounts (IsOption ls_options) clean_literal reads_options ls_arguments
validate_ls-Accounts_example = validate_ls-Accounts ls_arguments ls_accepted

abbrev tail_arguments : List ShellWord
tail_arguments = plain_word "-n" ∷ plain_word "50" ∷ plain_word "/var/log/messages" ∷ []

tail_accepted : validate_tail tail_arguments ≡ true
unfolding validate_tail tail_from equal member tail_count has_prefix decimal clean_path is_empty
    clean_literal runes is_control is_space has_byte split join
tail_accepted = refl

validate_tail-Accounts_example : Accounts IsTailOption tail_count reads_options tail_arguments
validate_tail-Accounts_example = validate_tail-Accounts tail_arguments tail_accepted
