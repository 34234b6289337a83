-- ===== src/Gate/Endings/Rules.antt =====
-- Operations of a trace that succeed: what they need and leave.
use windmill_gate.Base.{◌≡◌, refl}
use windmill_gate.Base.Results.{ok}
use windmill_gate.Policy.Engine.{Matching}
use windmill_gate.Gate.World.{World, Gate, pure, gets, ◌>>=◌, continue}

-- `g` succeeds from `p`, and leaves `q`.
pub record Goes {m : Matching} {A : Type 0} (p : World m → Type 0) (g : Gate m A)
    (q : A → World m → Type 0) : Type 0 where
  pub at : (w : World m) → p w → (a : A) × (w' : World m) × (g w ≡ (ok a, w')) × q a w'

module _ {m : Matching} {A B : Type 0} {p : World m → Type 0} where
  pub Goes-bind :
      {q : A → World m → Type 0} {r : B → World m → Type 0} {g : Gate m A} {f : A → Gate m B}
      → Goes p g q
      → ((a : A) → Goes (q a) (f a) r)
      → Goes p (g >>= f) r
  unfolding ◌>>=◌ continue
  Goes-bind {g} {f} h k = record {
    at = λ w i.
        let (a, w', e, j) = h.at w i in
        let (b, w'', e', j') = (k a).at w' j in (b, w'', rw (e, continue) e', j');
  }

module _ {m : Matching} {A : Type 0} {p : World m → Type 0} where
  pub Goes-pure : (a : A) → Goes p (pure a) (λ x w. p w × (x ≡ a))
  unfolding pure
  Goes-pure a = record { at = λ w i. (a, w, refl, (i, refl)) }

  pub Goes-gets : (f : World m → A) → Goes p (gets f) (λ a w. p w × (a ≡ f w))
  unfolding gets
  Goes-gets f = record { at = λ w i. (f w, w, refl, (i, refl)) }

  pub Goes-weaken :
      {p' : World m → Type 0} {q : A → World m → Type 0} {g : Gate m A}
      → ((w : World m) → p' w → p w)
      → Goes p g q
      → Goes p' g q
  Goes-weaken f h = record { at = λ w i. h.at w (f w i) }

  -- what the result is may be forgotten
  pub Goes-then : {X : A → Type 0} {g : Gate m A} → Goes p g (λ x w. p w × X x) → Goes p g (λ _. p)
  Goes-then h = record { at = λ w i. let (x, w', e, j) = h.at w i in (x, w', e, j.0) }

  pub Goes-weaken_after :
      {q q' : World m → Type 0} {g : Gate m A}
      → ((w : World m) → q w → q' w)
      → Goes p g (λ _. q)
      → Goes p g (λ _. q')
  Goes-weaken_after f h = record { at = λ w i. let (x, w', e, j) = h.at w i in (x, w', e, f w' j) }

  pub Goes-given :
      {X : Type 0} {q : A → World m → Type 0} {g : Gate m A}
      → (X → Goes p g q)
      → Goes (λ w. p w × X) g q
  Goes-given k = record { at = λ w i. (k i.1).at w i.0 }
