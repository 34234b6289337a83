-- ===== src/Target/Registry.antt =====
-- The registry never rebinds an identifier, and forgets exactly what it is told to.
use windmill_gate.Base.{
  ℕ, zero, suc, false, Option, none, some, ◌≡◌, refl, sym, ◌∙◌, subst, arith, if◌then◌else◌, Bytes,
  equal, equal_refl, Bool-cases, Option-cases, inl, inr,
}
use windmill_gate.Base.Maps.{lookup, insert, lookup-insert, lookup-delete}
use windmill_gate.Base.Results.{Result, ok, err, bind-eq-ok, ok-eq}
use windmill_gate.Target.{
  Target, Binding, TargetError, not_found, no_random, Bindings, is_blank, validate_display_name,
  allocate, add, resolve, remove,
}

-- What a new target is: an identifier that nothing was bound to, with every other binding kept.
pub record IsAdded (backend backend_id name : Bytes) (old new : Bindings) (t : Target)
    : Type 0 where
  pub was_free : resolve t.id old ≡ err not_found
  pub resolves : resolve t.id new ≡ ok (record { public_target = t; backend_id = backend_id })
  pub others : (id : Bytes) → equal t.id id ≡ false → resolve id new ≡ resolve id old
  pub named : t.display_name ≡ name
  pub on_backend : t.backend ≡ backend

module _ (now : ℕ) (backend backend_id name : Bytes) (old : Bindings) where
  abbrev fresh : Bytes → Target
  fresh id = record { id = id; display_name = name; backend = backend; created_at = now }

  abbrev bound : Bytes → Bindings
  bound id = insert id (record { public_target = fresh id; backend_id = backend_id }) old

  bound-IsAdded :
      (id : Bytes)
      → lookup id old ≡ none
      → IsAdded backend backend_id name old (bound id) (fresh id)
  unfolding resolve
  bound-IsAdded id free = record {
    was_free = ground arith;
    resolves = ground (
      arith,
      lookup-insert id id (record { public_target = fresh id; backend_id = backend_id }) old,
      equal_refl id,
    );
    others = λ j n. ground (
      arith,
      lookup-insert id j (record { public_target = fresh id; backend_id = backend_id }) old,
    );
    named = refl;
    on_backend = refl;
  }

  -- One attempt: it ends the loop, or leaves it to the next.
  abbrev outcome : (left attempt : ℕ) → (ℕ → Option Bytes) → Result TargetError (Target × Bindings)
  outcome left attempt random = allocate left attempt random now backend backend_id name old

  attempt-taken :
      (left attempt : ℕ) (random : ℕ → Option Bytes) (id : Bytes) (b : Binding)
      → random attempt ≡ some id
      → lookup id old ≡ some b
      → outcome (suc left) attempt random ≡ outcome left (suc attempt) random
  unfolding allocate
  attempt-taken left attempt random id b r l = ground arith

  attempt-free :
      (left attempt : ℕ) (random : ℕ → Option Bytes) (id : Bytes)
      → random attempt ≡ some id
      → lookup id old ≡ none
      → outcome (suc left) attempt random ≡ ok (fresh id, bound id)
  unfolding allocate
  attempt-free left attempt random id r l = ground arith

  attempt_fails :
      (left attempt : ℕ) (random : ℕ → Option Bytes)
      → random attempt ≡ none
      → outcome (suc left) attempt random ≡ err no_random
  unfolding allocate
  attempt_fails left attempt random r = ground arith

  allocate-IsAdded :
      (left attempt : ℕ) (random : ℕ → Option Bytes) (new : Bindings) (t : Target)
      → outcome left attempt random ≡ ok (t, new)
      → IsAdded backend backend_id name old new t
  allocate-IsAdded zero attempt random new t h = absurd (unfold allocate in cc)
  allocate-IsAdded (suc left) attempt random new t h = elim (Option-cases (random attempt)) [
    | inl n ↦ absurd (cc (attempt_fails left attempt random n))
    | inr (id, r) ↦ elim (Option-cases (lookup id old)) [
      | inr (b, l) ↦
          allocate-IsAdded left (suc attempt) random new t
            (sym (attempt-taken left attempt random id b r l) ∙ h)
      | inl free ↦
          let e : ◌≡◌ {A = Target × Bindings} (fresh id, bound id) (t, new) =
            ok-eq (sym (attempt-free left attempt random id r free) ∙ h) in
          subst (λ p. IsAdded backend backend_id name old p.1 p.0) e (bound-IsAdded id free)
    ]
  ]

-- An added target gets an identifier that was free, resolves to the backend's own identifier, and
-- disturbs no other target.
pub add-IsAdded :
    (random : ℕ → Option Bytes) (now : ℕ) (backend backend_id name : Bytes) (old new : Bindings)
    (t : Target)
    → add random now backend backend_id name old ≡ ok (t, new)
    → IsAdded backend backend_id name old new t
unfolding add
add-IsAdded random now backend backend_id name old new t h =
    elim (Bool-cases (is_blank backend_id)) [
      | inl y ↦ absurd (cc (rw y at h))
      | inr n ↦
          let (_, _, later) = bind-eq-ok (validate_display_name name) _ (rw n at h) in
          allocate-IsAdded now backend backend_id name old 8 0 random new t later
    ]

-- A removed target was bound to what is returned and no longer resolves; the others resolve as
-- before.
pub remove-resolve :
    (id : Bytes) (b : Binding) (old new : Bindings)
    → remove id old ≡ ok (b, new)
    → (resolve id old ≡ ok b)
      × ((j : Bytes) → resolve j new ≡ (if equal id j then err not_found else resolve j old))
unfolding remove resolve
remove-resolve id b old new h = (ground arith, λ j. ground (arith, lookup-delete id j old))
