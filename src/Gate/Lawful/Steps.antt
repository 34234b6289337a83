-- ===== src/Gate/Lawful/Steps.antt =====
-- What each step of a command's execution needs and leaves.
use windmill_gate.Base.{
  ℕ, Bool, true, false, List, ◌∷◌, Option, some, ◌≡◌, refl, sym, ap, ◌∙◌, subst, arith, Bytes,
  if◌then◌else◌,
}
use windmill_gate.Base.Int.{ℤ}
use windmill_gate.Base.Results.{Result, ok, err}
use windmill_gate.Command.{State, running, Command, CommandError, transition}
use windmill_gate.Target.{Binding, resolve}
use windmill_gate.Gate.World.{
  Event, updated, executed, Entry, GateError, World, Gate, lift, modify, call, attempt, move,
  try_move, execute_on, log, answered, moved,
}
use windmill_gate.Gate.Lawful.{plain, executes, is_plain}
use windmill_gate.Gate.Lawful.Rules.{
  Subject, Phase, submitted, permitted, started, Reached, Lawful, Inv, At, Ends, Runs,
}

-- What a transition leaves of a command.
record IsMoved (s : State) (c c' : Command) : Type 0 where
  id : c'.id ≡ c.id
  payload : c'.payload ≡ c.payload
  hash : c'.hash ≡ c.hash
  state : c'.state ≡ s

transition-IsMoved :
    (t : ℕ) (s : State) (code : Option ℤ) (c c' : Command)
    → transition t s code c ≡ ok c'
    → IsMoved s c c'
unfolding transition
transition-IsMoved t s code c c' h = record {
  id = ground arith;
  payload = ground arith;
  hash = ground arith;
  state = ground arith;
}

Reached-cons :
    (ph : Phase) (x : Entry) (trace : List Entry) → Reached ph trace → Reached ph (x ∷ trace)
Reached-cons submitted x trace r = tt
Reached-cons permitted x trace r = ground arith
Reached-cons started x trace r = (ground arith, ground arith)

module _ {u : Subject} where
  log-Inv :
      (e : Event) (b : Bool) (w : World u.matching)
      → Inv u w
      → Lawful u (log u.env e b w).trace
      → Inv u (log u.env e b w)
  unfolding log
  log-Inv e b w i l = record {
    lawful = l;
    same_id = i.same_id;
    same_payload = i.same_payload;
    same_hash = i.same_hash;
    same_targets = i.same_targets;
  }

  log-At :
      {ph : Phase} (e : Event) (b : Bool) (w : World u.matching)
      → At u ph w
      → Lawful u (log u.env e b w).trace
      → At u ph (log u.env e b w)
  unfolding log
  log-At {ph} e b w i l = record {
    inv = log-Inv e b w i.inv l;
    reached = Reached-cons ph (record { event = e; succeeded = b }) w.trace i.reached;
  }

  answered-Ends :
      {ph : Phase} (ph' : Phase) (e : Event) (b : Bool) (w : World u.matching)
      → At u ph w
      → ((c : Bool) → Lawful u (log u.env e c w).trace)
      → Reached ph' (log u.env e true w).trace
      → Ends u (λ _. At u ph') (answered u.env e b w).0 (answered u.env e b w).1
  unfolding answered
  answered-Ends ph' e true w i l r = record { inv = log-Inv e true w i.inv (l true); reached = r }
  answered-Ends ph' e false w i l r = l false

  pub Runs-call_plain :
      {ph : Phase} (e : Event) → is_plain e ≡ true → Runs u (At u ph) (call u.env e) (λ _. At u ph)
  unfolding call log
  Runs-call_plain {ph} e q = record {
    at = λ w i.
        answered-Ends ph e (u.env.reply w.trace e) w i (λ c. plain e c q i.inv.lawful)
          (Reached-cons ph (record { event = e; succeeded = true }) w.trace i.reached);
  }

  pub Runs-attempt_plain :
      {ph : Phase} (e : Event)
      → is_plain e ≡ true
      → Runs u (At u ph) (attempt u.env e) (λ _. At u ph)
  unfolding attempt log
  Runs-attempt_plain e q = record {
    at = λ w i.
        log-At e (u.env.reply w.trace e) w i (plain e (u.env.reply w.trace e) q i.inv.lawful);
  }

  moved-At :
      {ph : Phase} (s : State) (w : World u.matching) (c : Command)
      → At u ph w
      → IsMoved s w.current c
      → At u ph (record w { current = c })
  moved-At s w c i k = record {
    inv = record {
      lawful = i.inv.lawful;
      same_id = i.inv.same_id ∙ ap some (sym k.id);
      same_payload = k.payload ∙ i.inv.same_payload;
      same_hash = k.hash ∙ i.inv.same_hash;
      same_targets = i.inv.same_targets;
    };
    reached = i.reached;
  }

  moved-Ends :
      {ph : Phase} (s : State) (w : World u.matching) (r : Result CommandError Command)
      → At u ph w
      → ((c : Command) → r ≡ ok c → IsMoved s w.current c)
      → Ends u (λ _ w'. At u ph w' × (w'.current.state ≡ s)) (moved u.env r w).0 (moved u.env r w).1
  unfolding moved
  moved-Ends s w (ok c) i k = (moved-At s w c i (k c refl), (k c refl).state)
  moved-Ends s w (err e) i k = i.inv.lawful

  pub Runs-move :
      {ph : Phase} (s : State) (code : Option ℤ)
      → Runs u (At u ph) (move u.env s code) (λ _ w. At u ph w × (w.current.state ≡ s))
  unfolding move
  Runs-move s code = record {
    at = λ w i.
        moved-Ends s w (transition (u.env.clock w.trace) s code w.current) i
          (transition-IsMoved (u.env.clock w.trace) s code w.current);
  }

  tried-At :
      {ph : Phase} (s : State) (w : World u.matching) (r : Result CommandError Command)
      → At u ph w
      → ((c : Command) → r ≡ ok c → IsMoved s w.current c)
      → At u ph (moved u.env r w).1
  unfolding moved
  tried-At s w (ok c) i k = moved-At s w c i (k c refl)
  tried-At s w (err e) i k = i

  pub Runs-try_move :
      {ph : Phase} (s : State) (code : Option ℤ)
      → Runs u (At u ph) (try_move u.env s code) (λ _. At u ph)
  unfolding try_move
  Runs-try_move s code = record {
    at = λ w i.
        tried-At s w (transition (u.env.clock w.trace) s code w.current) i
          (transition-IsMoved (u.env.clock w.trace) s code w.current);
  }

  -- what the postcondition says of the result alone may be assumed of the rest
  pub Runs-given :
      {A X : Type 0} {p : World u.matching → Type 0} {q : A → World u.matching → Type 0}
      {g : Gate u.matching A}
      → (X → Runs u p g q)
      → Runs u (λ w. p w × X) g q
  Runs-given k = record { at = λ w i. (k i.1).at w i.0 }

  pub Runs-lift :
      {A E : Type 0} {p : World u.matching → Type 0} (e : GateError) (r : Result E A)
      → ((w : World u.matching) → p w → Lawful u w.trace)
      → Runs u p (lift e r) (λ a w. p w × (r ≡ ok a))
  unfolding lift
  Runs-lift e (ok a) l = record { at = λ w i. (i, refl) }
  Runs-lift e (err x) l = record { at = λ w i. l w i }

  pub At-lawful : {ph : Phase} (w : World u.matching) → At u ph w → Lawful u w.trace
  At-lawful w i = i.inv.lawful

  -- a change of what neither the trace nor the command depends on
  pub Runs-modify :
      {ph : Phase} (f : World u.matching → World u.matching)
      → ((w : World u.matching) → At u ph w → At u ph (f w))
      → Runs u (At u ph) (modify u.env f) (λ _. At u ph)
  unfolding modify
  Runs-modify f k = record { at = λ w i. k w i }

  -- the call that may permit the command
  pub Runs-call_permit :
      (ph : Phase) (e : Event)
      → ((trace : List Entry) (b : Bool)
          → Lawful u trace
          → Lawful u (record { event = e; succeeded = b } ∷ trace))
      → ((trace : List Entry) → Reached ph (record { event = e; succeeded = true } ∷ trace))
      → Runs u (At u submitted) (call u.env e) (λ _. At u ph)
  unfolding call log
  Runs-call_permit ph e l r = record {
    at = λ w i.
        answered-Ends ph e (u.env.reply w.trace e) w i (λ c. l w.trace c i.inv.lawful) (r w.trace);
  }

  -- the call that stores that the command is running
  pub Runs-call_start :
      (c : Command)
      → c.state ≡ running
      → Runs u (At u permitted) (call u.env (updated c)) (λ _. At u started)
  unfolding call log
  Runs-call_start c h = record {
    at = λ w i.
        answered-Ends started (updated c) (u.env.reply w.trace (updated c)) w i
          (λ b. plain (updated c) b refl i.inv.lawful)
          (
            Reached-cons permitted (record { event = (updated c); succeeded = true }) w.trace
                i.reached,
            ground arith,
          );
  }

  pub Runs-execute_on :
      (t : Binding) (p : Bytes)
      → resolve u.target u.targets ≡ ok t
      → p ≡ u.payload
      → Runs u (At u started) (execute_on u.env t.backend_id p) (λ _. At u started)
  unfolding execute_on log
  Runs-execute_on t p h k = record {
    at = λ w i.
        let b = if (u.env.exec w.trace t.backend_id p).failed then false else true in
        log-At (executed t.backend_id p) b w i (
          subst
            (λ x. Lawful u (record { event = executed t.backend_id x; succeeded = b } ∷ w.trace))
            (sym k) (executes t b h i.reached.0 i.reached.1 i.inv.lawful));
  }
