-- ===== src/Base/Results.antt =====
-- Go's `(value, error)`: a value, or an error of the component's own type.
use mathlib.Core.Logic.{◌⊎◌, inl, inr}
use mathlib.Core.Path.{◌≡◌, refl}

pub data Result {ℓ} (E : Type 0) (A : Type ℓ) : Type ℓ where
  ok : A → Result E A
  err : E → Result E A

module _ {ℓ κ} {E : Type 0} {A : Type ℓ} {B : Type κ} where
  infixl 5 ◌>>=◌
  abbrev pub ◌>>=◌ : Result E A → (A → Result E B) → Result E B
  ok a >>= f = f a
  err e >>= f = err e

  -- a chain that succeeds, taken apart at its first step
  pub bind-eq-ok :
      (first : Result E A) (rest : A → Result E B) {last : B}
      → first >>= rest ≡ ok last
      → (value : A) × (first ≡ ok value) × (rest value ≡ ok last)
  bind-eq-ok (err e) rest h = cc
  bind-eq-ok (ok value) rest h = (value, refl, h)

pub ok-eq {ℓ} : {E : Type 0} {A : Type ℓ} {a b : A} → ◌≡◌ {A = Result E A} (ok a) (ok b) → a ≡ b
ok-eq h = cc

pub Result-cases {ℓ} :
    {E : Type 0} {A : Type ℓ} (r : Result E A) → ((a : A) × (r ≡ ok a)) ⊎ ((e : E) × (r ≡ err e))
Result-cases (ok a) = inl (a, refl)
Result-cases (err e) = inr (e, refl)
