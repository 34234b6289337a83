-- ===== src/Gate/Lawful/Rules.antt =====
-- Pre- and postconditions of the operations that build a trace.
use windmill_gate.Base.{Bool, true, false, List, some, ◌≡◌, refl, Bytes, if◌then◌else◌}
use windmill_gate.Base.Results.{Result, ok, err}
use windmill_gate.Target.{Bindings}
use windmill_gate.Policy.Engine.{Matching, Verdict}
use windmill_gate.Gate.World.{
  Entry, GateError, Environment, World, Gate, pure, raise, gets, ◌>>=◌, continue,
}
use windmill_gate.Gate.Lawful.{IsLawful, done, permits, starts}

-- What is fixed while one command is executed.
pub record Subject : Type 1 where
  pub env : Environment
  pub matching : Matching
  pub targets : Bindings
  pub target : Bytes
  pub payload : Bytes
  pub verdict : Verdict

-- How far the command has come.
pub data Phase : Type 0 where
  submitted permitted started : Phase

abbrev pub Reached : Phase → List Entry → Type 0
Reached submitted trace = Unit {0}
Reached permitted trace = done permits trace ≡ true
Reached started trace = (done permits trace ≡ true) × (done starts trace ≡ true)

module _ (u : Subject) where
  abbrev pub Lawful : List Entry → Type 0
  Lawful trace = IsLawful u.env.digest u.env.new_id u.targets u.target u.payload u.verdict trace

  -- Between two steps: the trace is lawful, and the command is the submitted one.
  pub record Inv (w : World u.matching) : Type 0 where
    pub lawful : Lawful w.trace
    pub same_id : u.env.new_id ≡ some w.current.id
    pub same_payload : w.current.payload ≡ u.payload
    pub same_hash : w.current.hash ≡ u.env.digest u.payload
    pub same_targets : w.targets ≡ u.targets

  pub record At (p : Phase) (w : World u.matching) : Type 0 where
    pub inv : Inv w
    pub reached : Reached p w.trace

  -- After a failure the trace is still lawful.
  abbrev pub Ends :
      {A : Type 0}
      → (A → World u.matching → Type 0)
      → Result GateError A
      → World u.matching
      → Type 0
  Ends q (ok a) w = q a w
  Ends q (err e) w = Lawful w.trace

  pub record Runs {A : Type 0} (p : World u.matching → Type 0) (g : Gate u.matching A)
      (q : A → World u.matching → Type 0) : Type 0 where
    pub at : (w : World u.matching) → p w → Ends q (g w).0 (g w).1

module _ {u : Subject} where
  module _ {A B : Type 0} where
    continue-Ends :
        {q : A → World u.matching → Type 0} {r : B → World u.matching → Type 0}
        (f : A → Gate u.matching B)
        → ((a : A) → Runs u (q a) (f a) r)
        → (x : Result GateError A) (w : World u.matching) → Ends u q x w
        → Ends u r (continue x f w).0 (continue x f w).1
    unfolding continue
    continue-Ends f k (ok a) w h = (k a).at w h
    continue-Ends f k (err e) w h = h

    pub Runs-bind :
        {p : World u.matching → Type 0} {q : A → World u.matching → Type 0}
        {r : B → World u.matching → Type 0} {g : Gate u.matching A} {f : A → Gate u.matching B}
        → Runs u p g q
        → ((a : A) → Runs u (q a) (f a) r)
        → Runs u p (g >>= f) r
    unfolding ◌>>=◌
    Runs-bind {g} {f} h k = record { at = λ w i. continue-Ends f k (g w).0 (g w).1 (h.at w i) }

  module _ {A : Type 0} where
    pub Runs-pure : {q : A → World u.matching → Type 0} (a : A) → Runs u (q a) (pure a) q
    unfolding pure
    Runs-pure a = record { at = λ w i. i }

    pub Runs-raise :
        {ph : Phase} {q : A → World u.matching → Type 0} (e : GateError)
        → Runs u (At u ph) (raise {A = A} e) q
    unfolding raise
    Runs-raise e = record { at = λ w i. i.inv.lawful }

    -- the rest may use what was read
    pub Runs-gets :
        {p : World u.matching → Type 0} (f : World u.matching → A)
        → Runs u p (gets f) (λ a w. p w × (a ≡ f w))
    unfolding gets
    Runs-gets f = record { at = λ w i. (i, refl) }

    pub Runs-if :
        {p : World u.matching → Type 0} {q : A → World u.matching → Type 0} (b : Bool)
        {g h : Gate u.matching A}
        → Runs u p g q
        → Runs u p h q
        → Runs u p (if b then g else h) q
    Runs-if true k l = k
    Runs-if false k l = l

    pub Runs-weaken :
        {p p' : World u.matching → Type 0} {q : A → World u.matching → Type 0}
        {g : Gate u.matching A}
        → ((w : World u.matching) → p' w → p w)
        → Runs u p g q
        → Runs u p' g q
    Runs-weaken f h = record { at = λ w i. h.at w (f w i) }

module _ (u : Subject) {A : Type 0} where
  ended :
      {q q' : A → World u.matching → Type 0}
      → ((x : A) (w : World u.matching) → q x w → q' x w)
      → (r : Result GateError A) (w : World u.matching) → Ends u q r w
      → Ends u q' r w
  ended f (ok x) w h = f x w h
  ended f (err e) w h = h

module _ {u : Subject} {A : Type 0} where
  pub Runs-then :
      {p : World u.matching → Type 0} {q q' : A → World u.matching → Type 0} {g : Gate u.matching A}
      → ((x : A) (w : World u.matching) → q x w → q' x w)
      → Runs u p g q
      → Runs u p g q'
  Runs-then {g} f h = record { at = λ w i. ended u f (g w).0 (g w).1 (h.at w i) }
