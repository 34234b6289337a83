-- ===== src/Target.antt =====
-- internal/target/registry.go: opaque identifiers for targets, and the private mapping to the
-- backend's own. The random source and the clock are arguments. `List` sorts by identifier, which
-- is not modelled: the bindings are listed in the order of the map.
pub mod Registry
use windmill_gate.Base.{
  ℕ, zero, suc, Bool, true, false, not, ◌&&◌, ◌||◌, List, Option, none, some, if◌then◌else◌, Bytes,
  ltb, length, all, any, map, ◌+◌,
}
use windmill_gate.Base.Maps
use windmill_gate.Base.Maps.{Map, map_values}
use windmill_gate.Base.Results.{Result, ok, err, ◌>>=◌}
use windmill_gate.Base.Unicode.{runes, valid_string, is_control, is_space}

-- `Target`, which an agent may see, and `Binding`.
pub record Target : Type 0 where
  pub id : Bytes
  pub display_name : Bytes
  pub backend : Bytes
  pub created_at : ℕ

pub record Binding : Type 0 where
  pub public_target : Target
  pub backend_id : Bytes

pub data TargetError : Type 0 where
  no_backend_id bad_display_name no_random no_unique_id not_found : TargetError

abbrev pub Bindings : Type 0
Bindings = Map Binding

-- `strings.TrimSpace(value) == ""`
unfoldable pub is_blank : Bytes → Bool
is_blank value = all (λ r. is_space r.value) (runes value)

unfoldable pub validate_display_name : Bytes → Result TargetError (Unit {0})
validate_display_name value =
    if is_blank value || ltb 256 (length value) || not (valid_string value)
    then err bad_display_name
    else if any (λ r. is_control r.value) (runes value)
    then err bad_display_name
    else ok tt

-- The attempts that are left of the eight, with the random source by the number of the attempt.
unfoldable pub allocate :
    ℕ
    → ℕ
    → (ℕ → Option Bytes)
    → ℕ
    → Bytes
    → Bytes
    → Bytes
    → Bindings
    → Result TargetError (Target × Bindings)
allocate zero attempt random now backend backend_id name bindings = err no_unique_id
allocate (suc left) attempt random now backend backend_id name bindings =
    let again = allocate left (suc attempt) random now backend backend_id name bindings in
    elim (random attempt) [
      | none ↦ err no_random
      | some id ↦ elim (Maps.lookup id bindings) [
        | some _ ↦ again
        | none ↦
            let public : Target = record {
              id = id;
              display_name = name;
              backend = backend;
              created_at = now;
            } in
            ok (
              public,
              Maps.insert id (record { public_target = public; backend_id = backend_id }) bindings,
            )
      ]
    ]

-- `Add`: the target, and the new bindings
unfoldable pub add :
    (ℕ → Option Bytes)
    → ℕ
    → Bytes
    → Bytes
    → Bytes
    → Bindings
    → Result TargetError (Target × Bindings)
add random now backend backend_id name bindings =
    if is_blank backend_id
    then err no_backend_id
    else do _ ← validate_display_name name; allocate 8 0 random now backend backend_id name bindings

unfoldable pub resolve : Bytes → Bindings → Result TargetError Binding
resolve id bindings = elim (Maps.lookup id bindings) [ none ↦ err not_found | some b ↦ ok b ]

unfoldable pub list : Bindings → List Target
list bindings = map (λ b. b.public_target) (map_values bindings)

unfoldable pub remove : Bytes → Bindings → Result TargetError (Binding × Bindings)
remove id bindings = elim (Maps.lookup id bindings) [
  | none ↦ err not_found
  | some b ↦ ok (b, Maps.delete id bindings)
]
