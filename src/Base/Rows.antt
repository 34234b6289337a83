-- ===== src/Base/Rows.antt =====
-- The SQL statements that the audit store sends, on a table kept as the list of its rows in the
-- order of insertion.
use Prim.Native.Nat.{ℕ}
use mathlib.Core.Bool.{Bool}
use mathlib.Core.List.{List, [], ◌∷◌, ◌++◌}
use mathlib.Core.Logic.{inl, inr}
use native.Mathlib.Omega.{arith}
use windmill_gate.Base.Tests.{leb, if◌then◌else◌, Bool-cases}
use windmill_gate.Base.Lists.{any, All}

module _ {A : Type 0} where
  -- `SELECT … WHERE p`
  unfoldable pub select : (A → Bool) → List A → List A
  select p [] = []
  select p (r ∷ rs) = let rest = select p rs in if p r then r ∷ rest else rest

  -- `UPDATE … SET f WHERE p`
  unfoldable pub update : (A → Bool) → (A → A) → List A → List A
  update p f [] = []
  update p f (r ∷ rs) = (if p r then f r else r) ∷ update p f rs

  -- `INSERT … ON CONFLICT(key) DO UPDATE SET f`, where `p` finds the row with the key
  unfoldable pub upsert : (A → Bool) → (A → A) → A → List A → List A
  unfolding update
  upsert p f new rows = if any p rows then update p f rows else rows ++ new ∷ []

  unfoldable pub place : (A → ℕ) → A → List A → List A
  place key r [] = r ∷ []
  place key r (s ∷ ss) =
      let later = place key r ss in if leb (key r) (key s) then r ∷ s ∷ ss else s ∷ later

  -- `ORDER BY key`; rows with one key stay in their order
  unfoldable pub order_by : (A → ℕ) → List A → List A
  unfolding place
  order_by key [] = []
  order_by key (r ∷ rs) = place key r (order_by key rs)

  unfoldable pub place_latest : (A → ℕ) → A → List A → List A
  place_latest key r [] = r ∷ []
  place_latest key r (s ∷ ss) =
      let later = place_latest key r ss in if leb (key s) (key r) then r ∷ s ∷ ss else s ∷ later

  -- `ORDER BY key DESC`; rows of the same key keep their order
  unfoldable pub order_latest : (A → ℕ) → List A → List A
  unfolding place_latest
  order_latest key [] = []
  order_latest key (r ∷ rs) = place_latest key r (order_latest key rs)

  pub All-update :
      {P : A → Type 0} (p : A → Bool) (f : A → A)
      → ((r : A) → P r → P (f r))
      → (rows : List A) → All P rows
      → All P (update p f rows)
  unfolding update
  All-update p f keeps [] h = tt
  All-update p f keeps (r ∷ rs) (h, hs) = elim (Bool-cases (p r)) [
    | inl hit ↦ (ground (arith, keeps r h), All-update p f keeps rs hs)
    | inr miss ↦ (ground arith, All-update p f keeps rs hs)
  ]
