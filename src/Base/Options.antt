-- ===== src/Base/Options.antt =====
-- `Option` as the result of a function that returns `(value, ok)`, for `do` blocks.
use mathlib.Core.Option.{Option, none, some}
use mathlib.Core.Bool.{Bool, true, false}
use mathlib.Core.Path.{◌≡◌, refl}

module _ {ℓ κ} {A : Type ℓ} {B : Type κ} where
  infixl 5 ◌>>=◌
  abbrev pub ◌>>=◌ : Option A → (A → Option B) → Option B
  some a >>= f = f a
  none >>= f = none

  pub bind-eq-some :
      (m : Option A) (f : A → Option B) {b : B}
      → m >>= f ≡ some b
      → (a : A) × (m ≡ some a) × (f a ≡ some b)
  bind-eq-some (some a) f h = (a, refl, h)
  bind-eq-some none f h = cc

abbrev pub is_some {ℓ} : {A : Type ℓ} → Option A → Bool
is_some (some a) = true
is_some none = false

pub is_some-eq {ℓ} : {A : Type ℓ} (o : Option A) → is_some o ≡ true → (a : A) × (o ≡ some a)
is_some-eq (some a) h = (a, refl)
is_some-eq none h = cc
