-- ===== src/Policy/Engine.antt =====
-- internal/policy/policy.go: the compiled rules and the three-way decision. The regular
-- expressions of the rules come from a policy file and are compiled by Go's `regexp`; the engine
-- only matches them, so they are a parameter, with no law assumed. So is the table of validators.
-- Reading the file as YAML is not modelled: `compile_config` begins where the file is decoded.
pub mod Decisions
pub mod Targets
use windmill_gate.Base.{
  ℕ, Bool, true, false, not, ◌&&◌, ◌||◌, List, [], ◌∷◌, ◌++◌, Option, none, some, if◌then◌else◌,
  Bytes, is_empty, any, map,
}
use windmill_gate.Base.Maps
use windmill_gate.Base.Maps.{Map}
use windmill_gate.Base.Results.{Result, ok, err, ◌>>=◌}
use windmill_gate.Policy.Shell.{ShellWord}
use windmill_gate.Policy.Views.{CommandView, views, parse_error}

pub data Decision : Type 0 where
  allow ask deny : Decision

-- Where the decision comes from.
pub data Source : Type 0 where
  persistent target default_source : Source

-- `Result` of the source; `rule` is empty where no rule decided.
pub record Verdict : Type 0 where
  pub decision : Decision
  pub rule : Bytes
  pub source : Source

pub record ValidatedRule : Type 0 where
  pub regexp : Bytes
  pub validator : Bytes

pub record Config : Type 0 where
  pub allow_rules : List Bytes
  pub validated_allow : List ValidatedRule
  pub deny_rules : List Bytes

pub data PolicyError : Type 0 where
  empty_rule bad_pattern unknown_validator no_target : PolicyError

-- `regexp.Compile` and `MatchString`, and the validators by their names.
pub record Matching : Type 1 where
  pub Pattern : Type 0
  pub compile : Bytes → Option Pattern
  pub match_string : Pattern → Bytes → Bool
  pub validator : Bytes → Option (List ShellWord → Bool)

module _ (m : Matching) where
  open m use {Pattern, compile, match_string, validator}

  pub record CompiledRule : Type 0 where
    pub pattern : Bytes
    pub regexp : Pattern

  pub record CompiledValidatedRule : Type 0 where
    pub rule : CompiledRule
    pub name : Bytes

  pub record Engine : Type 0 where
    pub allowed : List CompiledRule
    pub validated : List CompiledValidatedRule
    pub denied : List CompiledRule
    pub temporary : Map (List CompiledRule)

  pub rule_matches : CompiledRule → Bytes → Bool
  rule_matches r text = match_string r.regexp text

  -- `compileRules`, a rule at a time
  unfoldable pub compile_rule : Bytes → Result PolicyError CompiledRule
  compile_rule p = if is_empty p then err empty_rule else elim (compile p) [
    | none ↦ err bad_pattern
    | some r ↦ ok (record { pattern = p; regexp = r })
  ]

  unfoldable pub compile_rules : List Bytes → Result PolicyError (List CompiledRule)
  unfolding compile_rule
  compile_rules [] = ok []
  compile_rules (p ∷ ps) = do r ← compile_rule p; rs ← compile_rules ps; ok (r ∷ rs)

  known : Bytes → Result PolicyError (Unit {0})
  known name = elim (validator name) [ none ↦ err unknown_validator | some _ ↦ ok tt ]

  unfoldable pub compile_validated_rules :
      List ValidatedRule → Result PolicyError (List CompiledValidatedRule)
  unfolding compile_rule known
  compile_validated_rules [] = ok []
  compile_validated_rules (v ∷ vs) = if is_empty v.regexp then err empty_rule else do
    _ ← known v.validator
    r ← compile_rule v.regexp
    rs ← compile_validated_rules vs
    ok (record { rule = r; name = v.validator } ∷ rs)

  -- `Parse`, behind the decoding of the file: the validated rules are compiled last
  unfoldable pub compile_config : Config → Result PolicyError Engine
  unfolding compile_rules compile_validated_rules
  compile_config c = do
    allowed ← compile_rules c.allow_rules
    denied ← compile_rules c.deny_rules
    validated ← compile_validated_rules c.validated_allow
    ok (record { allowed = allowed; validated = validated; denied = denied; temporary = [] })

  -- the first rule that matches the text
  unfoldable pub first_match : List CompiledRule → Bytes → Option CompiledRule
  unfolding rule_matches
  first_match [] text = none
  first_match (r ∷ rs) text = if rule_matches r text then some r else first_match rs text

  -- `for _, view := range views { for _, rule := range e.deny { … } }`
  unfoldable pub first_denied : List CompiledRule → List CommandView → Option CompiledRule
  unfolding first_match
  first_denied rules [] = none
  first_denied rules (v ∷ vs) =
      let later = first_denied rules vs in
      elim (first_match rules v.text) [ some r ↦ some r | none ↦ later ]

  words_of : Option (List ShellWord) → List ShellWord
  words_of none = []
  words_of (some ws) = ws

  -- `validators[rule.validator](view.words)`; compiled rules name known validators only
  pub validates : Bytes → CommandView → Bool
  unfolding words_of
  validates name v = elim (validator name) [ none ↦ false | some f ↦ f (words_of v.words) ]

  pub validated_matches : CompiledValidatedRule → CommandView → Bool
  unfolding rule_matches validates
  validated_matches r v = rule_matches r.rule v.text && validates r.name v

  unfoldable pub first_validated : List CompiledValidatedRule → CommandView → Option CompiledRule
  unfolding validated_matches
  first_validated [] v = none
  first_validated (r ∷ rs) v = if validated_matches r v then some r.rule else first_validated rs v

  -- the last loop: in each view the plain rules come before the validated ones
  unfoldable pub first_allowed : Engine → List CommandView → Option CompiledRule
  unfolding first_match first_validated
  first_allowed e [] = none
  first_allowed e (v ∷ vs) =
      let later = first_allowed e vs in
      elim (first_match e.allowed v.text) [
        | some r ↦ some r
        | none ↦ elim (first_validated e.validated v) [ some r ↦ some r | none ↦ later ]
      ]

  unfoldable pub temporary_of : Engine → Bytes → List CompiledRule
  temporary_of e id = elim (Maps.lookup id e.temporary) [ none ↦ [] | some rules ↦ rules ]

  unfoldable pub verdict : Decision → CompiledRule → Source → Verdict
  verdict d r s = record { decision = d; rule = r.pattern; source = s }

  abbrev asked : Verdict
  asked = record { decision = ask; rule = []; source = default_source }

  -- `Evaluate`, once its views are known; the views begin with the payload's own
  unfoldable pub evaluate_views : Engine → Bytes → Bytes → List CommandView → Verdict
  evaluate_views e id command vs = elim (first_denied e.denied vs) [
    | some r ↦ verdict deny r persistent
    | none ↦ if parse_error vs then asked else elim (first_match (temporary_of e id) command) [
      | some r ↦ verdict allow r target
      | none ↦ elim (first_allowed e vs) [ some r ↦ verdict allow r persistent | none ↦ asked ]
    ]
  ]

  unfoldable pub evaluate : Engine → Bytes → Bytes → Verdict
  evaluate e id command = evaluate_views e id command (views command)

  -- `AllowForTarget`
  unfoldable pub allow_for_target : Engine → Bytes → Bytes → Result PolicyError Engine
  allow_for_target e id pattern = if is_empty id then err no_target else do
    r ← compile_rule pattern
    ok (record e { temporary = Maps.insert id (temporary_of e id ++ r ∷ []) e.temporary })

  -- `TemporaryRules`
  unfoldable pub temporary_rules : Engine → Bytes → List Bytes
  temporary_rules e id = map (λ r. r.pattern) (temporary_of e id)

  -- `DetachTarget`
  unfoldable pub detach_target : Engine → Bytes → Engine
  detach_target e id = record e { temporary = Maps.delete id e.temporary }
