-- ===== src/Forward/Manager/Released.antt =====
-- What `CloseTarget` of internal/forward/manager.go leaves.
use windmill_gate.Base.{
  ℕ, Bool, true, false, ◌&&◌, ◌||◌, List, [], ◌∷◌, Option, none, some, if◌then◌else◌, Bytes,
  is_empty, equal, equal_iff, any, map, ◌≡◌, refl, ap, ◌∙◌, arith, Bool-cases, Option-cases, inl,
  inr,
}
use windmill_gate.Base.Maps.{Map, lookup, map_values, lookup-delete}
use windmill_gate.Base.Rows.{select, place, order_by}
use windmill_gate.Forward.Manager.{
  Info, Managed, Manager, Outside, close, close_all, close_target, list,
}
use windmill_gate.Forward.Manager.Rows.{active_row, held}
use windmill_gate.Forward.Manager.Tracked.{IsTracked, close_all-IsTracked}

named : Bytes → Info → Bool
named id i = equal i.id id

-- Sorting keeps what is listed, and selecting what is selected.
module _ {A : Type 0} (p : A → Bool) where
  any-place : (key : A → ℕ) (r : A) (rows : List A) → any p (place key r rows) ≡ (p r || any p rows)
  unfolding place
  any-place key r [] = refl
  any-place key r (s ∷ rows) = ground (arith, any-place key r rows)

  any-order_by : (key : A → ℕ) (rows : List A) → any p (order_by key rows) ≡ any p rows
  unfolding order_by
  any-order_by key [] = refl
  any-order_by key (r ∷ rows) =
      any-place key r (order_by key rows) ∙ ap (λ b. p r || b) (any-order_by key rows)

  any-select : (q : A → Bool) (rows : List A) → any p (select q rows) ≡ any (λ r. q r && p r) rows
  unfolding select
  any-select q [] = refl
  any-select q (r ∷ rows) = ground (arith, any-select q rows)

any-values :
    (p : Info → Bool) (id : Bytes) (item : Managed) (m : Map Managed)
    → lookup id m ≡ some item
    → p item.info ≡ true
    → any p (map (λ item. item.info) (map_values m)) ≡ true
unfolding lookup
any-values p id item [] found holds = absurd (cc)
any-values p id item ((k, v) ∷ m) found holds = elim (Bool-cases (equal k id)) [
  | inl here ↦ let same : v ≡ item = ground arith in ground (arith, ap (λ x. p x.info) same)
  | inr later ↦ ground (arith, any-values p id item m (ground arith) holds)
]

-- a forward of the target is in the target's list
listed :
    (target_id id : Bytes) (m : Manager)
    → IsTracked m
    → held target_id (lookup id m.forwards) ≡ true
    → any (named id) (list target_id m) ≡ true
unfolding held list named
listed target_id id m v h = elim (Option-cases (lookup id m.forwards)) [
  | inl absent ↦ ground arith
  | inr (item, found) ↦
      let of_target : Info → Bool = λ i. is_empty target_id || equal i.target_id target_id in
      let infos = map (λ item. item.info) (map_values m.forwards) in
      any-order_by (named id) (λ i. i.created_at) (select of_target infos)
      ∙ any-select (named id) of_target infos
      ∙ any-values (λ i. of_target i && named id i) id item m.forwards found
          (ground (arith, v.keys id item found, equal_iff item.info.id id))
]

module _ (out : Outside) (target_id actor : Bytes) where
  left : Bytes → Bool → Manager → Option Managed
  left j closes m =
      if closes && held target_id (lookup j m.forwards) then none else lookup j m.forwards

  lookup-close :
      (id j : Bytes) (m : Manager)
      → lookup j (close out target_id id actor m).1.forwards ≡ left j (equal id j) m
  unfolding close left held
  lookup-close id j m = elim (Bool-cases (equal id j)) [
    | inl own ↦
        let same : id ≡ j = (equal_iff id j).0 own in
        let entry : lookup id m.forwards ≡ lookup j m.forwards =
          ap (λ k. lookup k m.forwards) same in
        elim (Option-cases (lookup id m.forwards)) [
          | inl absent ↦ ground arith
          | inr (item, found) ↦ ground (arith, lookup-delete id j m.forwards)
        ]
    | inr other ↦ elim (Option-cases (lookup id m.forwards)) [
      | inl absent ↦ ground arith
      | inr (item, found) ↦ ground (arith, lookup-delete id j m.forwards)
    ]
  ]

  lookup-close_all :
      (j : Bytes) (infos : List Info) (m : Manager)
      → lookup j (close_all out target_id actor infos m).1.forwards ≡ left j (any (named j) infos) m
  unfolding close_all left named held
  lookup-close_all j [] m = refl
  lookup-close_all j (i ∷ infos) m =
      lookup-close_all j infos (close out target_id i.id actor m).1
      ∙ ground (arith, lookup-close i.id j m)

  -- `CloseTarget` of a manager that agrees with the store leaves no forward to the target and none
  -- of its rows active, whatever the closed processes answer; every other forward is as it was.
  pub close_target-IsReleased :
      (m : Manager)
      → IsTracked m
      → (id : Bytes)
      → (lookup id (close_target out target_id actor m).1.forwards
          ≡ (if held target_id (lookup id m.forwards) then none else lookup id m.forwards))
        × (any (active_row id target_id) (close_target out target_id actor m).1.tables.forwards
            ≡ false)
  unfolding close_target left held
  close_target-IsReleased m v id =
      let gone : lookup id (close_target out target_id actor m).1.forwards
          ≡ (if held target_id (lookup id m.forwards) then none else lookup id m.forwards) =
        lookup-close_all id (list target_id m) m ∙ ground (arith, listed target_id id m v) in
      (
        gone,
        (close_all-IsTracked out target_id actor (list target_id m) m v).rows id target_id
            ∙ ap (held target_id) gone
            ∙ ground arith,
      )
