-- ===== src/Policy/Engine/Decisions.antt =====
-- When a command is denied, and what an automatic allow rests on.
use windmill_gate.Base.{
  Bool, true, false, ◌||◌, List, [], ◌∷◌, Option, none, some, ◌≡◌, refl, ◌↔◌, arith, Bytes, any,
}
use windmill_gate.Policy.Views.{CommandView, views, parse_error}
use windmill_gate.Policy.Engine.{
  Matching, allow, deny, CompiledRule, CompiledValidatedRule, Engine, rule_matches,
  validated_matches, first_match, first_denied, first_validated, first_allowed, temporary_of,
  evaluate_views, evaluate, verdict,
}

module _ (m : Matching) where
  -- Some rule of the list matches the text.
  abbrev pub any_match : List (CompiledRule m) → Bytes → Bool
  any_match rules text = any (λ r. rule_matches m r text) rules

  -- Some view matches some deny rule.
  abbrev pub denied_view : Engine m → List CommandView → Bool
  denied_view e vs = any (λ v. any_match e.denied v.text) vs

  -- A view matches an allow rule, or a validated rule whose validator accepts its words.
  abbrev pub allowed_view : Engine m → CommandView → Bool
  allowed_view e v = any_match e.allowed v.text || any (λ r. validated_matches m r v) e.validated

  abbrev found {ℓ} : {A : Type ℓ} → Option A → Bool
  found (some a) = true
  found none = false

  first_match-any :
      (rules : List (CompiledRule m)) (text : Bytes)
      → found (first_match m rules text) ≡ any_match rules text
  unfolding first_match
  first_match-any [] text = refl
  first_match-any (r ∷ rs) text = ground (arith, first_match-any rs text)

  first_validated-any :
      (rules : List (CompiledValidatedRule m)) (v : CommandView)
      → found (first_validated m rules v) ≡ any (λ r. validated_matches m r v) rules
  unfolding first_validated
  first_validated-any [] v = refl
  first_validated-any (r ∷ rs) v = ground (arith, first_validated-any rs v)

  first_denied-any :
      (rules : List (CompiledRule m)) (vs : List CommandView)
      → found (first_denied m rules vs) ≡ any (λ v. any_match rules v.text) vs
  unfolding first_denied
  first_denied-any rules [] = refl
  first_denied-any rules (v ∷ vs) =
      ground (arith, first_denied-any rules vs, first_match-any rules v.text)

  first_allowed-any :
      (e : Engine m) (vs : List CommandView)
      → found (first_allowed m e vs) ≡ any (allowed_view e) vs
  unfolding first_allowed
  first_allowed-any e [] = refl
  first_allowed-any e (v ∷ vs) = ground (
    arith,
    first_allowed-any e vs,
    first_match-any e.allowed v.text,
    first_validated-any e.validated v,
  )

  evaluate_views-deny :
      (e : Engine m) (id command : Bytes) (vs : List CommandView)
      → ((evaluate_views m e id command vs).decision ≡ deny) ↔ (denied_view e vs ≡ true)
  unfolding evaluate_views verdict
  evaluate_views-deny e id command vs = ground (arith, first_denied-any e.denied vs)

  -- A command is denied exactly when one of its views matches a deny rule: whatever else matches,
  -- whether or not the payload can be tokenized, and whatever was allowed for its target.
  pub evaluate-deny_iff :
      (e : Engine m) (id command : Bytes)
      → ((evaluate m e id command).decision ≡ deny) ↔ (denied_view e (views command) ≡ true)
  unfolding evaluate
  evaluate-deny_iff e id command = evaluate_views-deny e id command (views command)

  evaluate_views-allow :
      (e : Engine m) (id command : Bytes) (vs : List CommandView)
      → ((evaluate_views m e id command vs).decision ≡ allow) ↔ (
          (denied_view e vs ≡ false)
          × (parse_error vs ≡ false)
          × ((any_match (temporary_of m e id) command || any (allowed_view e) vs) ≡ true))
  unfolding evaluate_views verdict
  evaluate_views-allow e id command vs = ground (
    arith,
    first_denied-any e.denied vs,
    first_match-any (temporary_of m e id) command,
    first_allowed-any e vs,
  )

  -- A command is allowed without a human exactly when no view of it matches a deny rule, every
  -- view can be tokenized and no wrapper is left over, and either a rule of its own target matches
  -- the payload itself, or some view matches an allow rule, or some view matches a validated rule
  -- and the rule's validator accepts the view's words.
  pub evaluate-allow_iff :
      (e : Engine m) (id command : Bytes)
      → ((evaluate m e id command).decision ≡ allow) ↔ (
          (denied_view e (views command) ≡ false)
          × (parse_error (views command) ≡ false)
          × ((any_match (temporary_of m e id) command || any (allowed_view e) (views command))
              ≡ true))
  unfolding evaluate
  evaluate-allow_iff e id command = evaluate_views-allow e id command (views command)
