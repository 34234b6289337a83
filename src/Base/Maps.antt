-- ===== src/Base/Maps.antt =====
-- Go's `map[string]V` as an association list with one entry for each key.
use windmill_gate.Base.Tests.{if◌then◌else◌}
use windmill_gate.Base.Strings.{Bytes, equal, equal_iff}
use mathlib.Core.Bool.{false}
use mathlib.Core.List.{List, [], ◌∷◌, map}
use mathlib.Core.Option.{Option, none, some}
use mathlib.Core.Path.{◌≡◌, refl}
use native.Mathlib.Omega.{arith}

abbrev pub Map : Type 0 → Type 0
Map V = List (Bytes × V)

module _ {V : Type 0} where
  -- `value, ok := m[key]`
  unfoldable pub lookup : Bytes → Map V → Option V
  unfolding equal
  lookup k [] = none
  lookup k ((j, v) ∷ m) = if equal j k then some v else lookup k m

  -- `m[key] = value`
  unfoldable pub insert : Bytes → V → Map V → Map V
  unfolding equal
  insert key value [] = (key, value) ∷ []
  insert key value ((k, old) ∷ rest) =
      let others = insert key value rest in
      if equal k key then (key, value) ∷ rest else (k, old) ∷ others

  -- `delete(m, key)`
  unfoldable pub delete : Bytes → Map V → Map V
  unfolding equal
  delete k [] = []
  delete k ((j, v) ∷ m) = let rest = delete k m in if equal j k then rest else (j, v) ∷ rest

  pub lookup-insert :
      (k j : Bytes) (v : V) (m : Map V)
      → lookup j (insert k v m) ≡ (if equal k j then some v else lookup j m)
  unfolding lookup insert
  lookup-insert k j v [] = refl
  lookup-insert k j v ((i, w) ∷ m) =
      ground (arith, equal_iff k j, equal_iff i k, equal_iff i j, lookup-insert k j v m)

  pub lookup-delete :
      (k j : Bytes) (m : Map V) → lookup j (delete k m) ≡ (if equal k j then none else lookup j m)
  unfolding lookup delete
  lookup-delete k j [] = ground arith
  lookup-delete k j ((i, v) ∷ m) =
      ground (arith, lookup-delete k j m, equal_iff i k, equal_iff i j, equal_iff k j)

  -- the values, in the order of the list; the source sorts what it iterates over
  abbrev pub map_values : Map V → List V
  map_values m = map (λ e. e.1) m

  pub lookup-insert_self : (k : Bytes) (v : V) (m : Map V) → lookup k (insert k v m) ≡ some v
  lookup-insert_self k v m = ground (arith, lookup-insert k k v m, equal_iff k k)

  pub lookup-delete_self : (k : Bytes) (m : Map V) → lookup k (delete k m) ≡ none
  lookup-delete_self k m = ground (arith, lookup-delete k k m, equal_iff k k)

  pub lookup-insert_ne :
      (k j : Bytes) (v : V) (m : Map V) → equal k j ≡ false → lookup j (insert k v m) ≡ lookup j m
  lookup-insert_ne k j v m n = ground (arith, lookup-insert k j v m)

  pub lookup-delete_ne :
      (k j : Bytes) (m : Map V) → equal k j ≡ false → lookup j (delete k m) ≡ lookup j m
  lookup-delete_ne k j m n = ground (arith, lookup-delete k j m)
