-- ===== src/Policy/Engine/Targets.antt =====
-- Rules that an operator grants to one target, and their end when the target is detached.
use windmill_gate.Base.{
  false, List, [], ◌∷◌, ◌++◌, ◌≡◌, refl, sym, ◌∙◌, ◌↔◌, arith, Bytes, equal, is_empty, Bool-cases,
  inl, inr,
}
use mathlib.Core.List.{map-append}
use windmill_gate.Base.Maps.{
  Map, insert, delete, lookup-insert_self, lookup-insert_ne, lookup-delete_ne, lookup-delete_self,
}
use windmill_gate.Base.Results.{ok, bind-eq-ok, ok-eq}
use windmill_gate.Policy.Views.{CommandView, views}
use windmill_gate.Policy.Engine.{
  Matching, deny, CompiledRule, Engine, first_allowed, temporary_of, evaluate_views, evaluate,
  allow_for_target, temporary_rules, detach_target, compile_rule,
}
use windmill_gate.Policy.Engine.Decisions.{evaluate-deny_iff}

iff_trans : {A B C : Type 0} → A ↔ B → B ↔ C → A ↔ C
iff_trans f g = (λ a. g.0 (f.0 a), λ c. f.1 (g.1 c))

iff_symm : {A B : Type 0} → A ↔ B → B ↔ A
iff_symm f = (f.1, f.0)

compile_rule-pattern :
    (m : Matching) (p : Bytes) (r : CompiledRule m) → compile_rule m p ≡ ok r → r.pattern ≡ p
unfolding compile_rule
compile_rule-pattern m p r h = ground arith

module _ (m : Matching) where
  abbrev with_temporary : Engine m → Map (List (CompiledRule m)) → Engine m
  with_temporary e t = record e { temporary = t }

  first_allowed-temporary :
      (e : Engine m) (t : Map (List (CompiledRule m))) (vs : List CommandView)
      → first_allowed m (with_temporary e t) vs ≡ first_allowed m e vs
  unfolding first_allowed
  first_allowed-temporary e t [] = refl
  first_allowed-temporary e t (v ∷ vs) = ground (arith, first_allowed-temporary e t vs)

  -- A decision depends on the granted rules only through those of its own target.
  evaluate-temporary :
      (e : Engine m) (t : Map (List (CompiledRule m))) (id command : Bytes)
      → temporary_of m (with_temporary e t) id ≡ temporary_of m e id
      → evaluate m (with_temporary e t) id command ≡ evaluate m e id command
  unfolding evaluate evaluate_views
  evaluate-temporary e t id command h = ground (arith, first_allowed-temporary e t (views command))

  temporary_of-insert_ne :
      (e : Engine m) (id other : Bytes) (rules : List (CompiledRule m))
      → equal id other ≡ false
      → temporary_of m (with_temporary e (insert id rules e.temporary)) other
        ≡ temporary_of m e other
  unfolding temporary_of
  temporary_of-insert_ne e id other rules n =
      rw (lookup-insert_ne id other rules e.temporary n, temporary_of)

  temporary_of-insert_self :
      (e : Engine m) (id : Bytes) (rules : List (CompiledRule m))
      → temporary_of m (with_temporary e (insert id rules e.temporary)) id ≡ rules
  unfolding temporary_of
  temporary_of-insert_self e id rules = rw (lookup-insert_self id rules e.temporary, temporary_of)

  temporary_of-delete_ne :
      (e : Engine m) (id other : Bytes)
      → equal id other ≡ false
      → temporary_of m (detach_target m e id) other ≡ temporary_of m e other
  unfolding temporary_of detach_target
  temporary_of-delete_ne e id other n = rw (lookup-delete_ne id other e.temporary n, temporary_of)

  temporary_of-delete_self :
      (e : Engine m) (id : Bytes) → temporary_of m (detach_target m e id) id ≡ []
  unfolding temporary_of detach_target
  temporary_of-delete_self e id = rw (lookup-delete_self id e.temporary, temporary_of)

  -- What a grant makes of the engine.
  granted :
      (e e' : Engine m) (id pattern : Bytes)
      → allow_for_target m e id pattern ≡ ok e'
      → (r : CompiledRule m) × (e'
          ≡ with_temporary e (insert id (temporary_of m e id ++ r ∷ []) e.temporary))
        × (r.pattern ≡ pattern)
  unfolding allow_for_target
  granted e e' id pattern h = elim (Bool-cases (is_empty id)) [
    | inl y ↦ absurd (cc (rw y at h))
    | inr n ↦
        let (r, c, made) = bind-eq-ok (compile_rule m pattern) _ (rw n at h) in
        (r, sym (ok-eq made), compile_rule-pattern m pattern r c)
  ]

  -- A grant adds its pattern behind the rules of its target, and changes no decision for another
  -- target. For its own target and for others, what was denied is denied, and nothing else is.
  pub allow_for_target_scope :
      (e e' : Engine m) (id pattern : Bytes)
      → allow_for_target m e id pattern ≡ ok e'
      → (temporary_rules m e' id ≡ temporary_rules m e id ++ pattern ∷ [])
        × ((other command : Bytes)
            → equal id other ≡ false
            → evaluate m e' other command ≡ evaluate m e other command)
        × ((other command : Bytes)
            → ((evaluate m e' other command).decision ≡ deny)
              ↔ ((evaluate m e other command).decision ≡ deny))
  unfolding temporary_rules
  allow_for_target_scope e e' id pattern h =
      let (r, made, p) = granted e e' id pattern h in
      let rules = temporary_of m e id ++ r ∷ [] in
      let t = insert id rules e.temporary in
      rw made (
        rw (temporary_of-insert_self e id rules)
            (map-append (λ r. r.pattern) (temporary_of m e id) (r ∷ []) ∙ rw p),
        λ other command n.
            evaluate-temporary e t other command (temporary_of-insert_ne e id other rules n),
        λ other command.
            iff_trans (evaluate-deny_iff m (with_temporary e t) other command)
              (iff_symm (evaluate-deny_iff m e other command)),
      )

  -- Detaching a target takes its rules away and leaves those of the other targets: their
  -- decisions are the same as before, and no rule is left for the target itself.
  pub detach_target_scope :
      (e : Engine m) (id : Bytes)
      → (temporary_rules m (detach_target m e id) id ≡ [])
        × ((other command : Bytes)
            → equal id other ≡ false
            → evaluate m (detach_target m e id) other command ≡ evaluate m e other command)
  unfolding temporary_rules
  detach_target_scope e id = (
    rw (temporary_of-delete_self e id),
    λ other command n.
        unfold detach_target in
        evaluate-temporary e (delete id e.temporary) other command
          (temporary_of-delete_ne e id other n),
  )
