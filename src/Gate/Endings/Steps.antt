-- ===== src/Gate/Endings/Steps.antt =====
-- The steps of `execute` where every call of the store and the sink succeeds.
use windmill_gate.Base.{
  ℕ, Bool, true, false, ◌||◌, List, Option, none, some, ◌≡◌, refl, sym, ap, ◌∙◌, arith, Bytes,
  codes, is_empty, if◌then◌else◌, equal_iff, equal_refl,
}
use windmill_gate.Base.Int.{ℤ, pos, is_zero}
use windmill_gate.Base.Results.{ok}
use windmill_gate.Command.{
  State, queued, running, succeeded, failed, denied, Command, new, transition, allowed_transition,
  verify_approval,
}
use windmill_gate.Target.{Bindings, Binding, resolve}
use windmill_gate.Policy.Engine.{Matching, Decision, allow, deny, Verdict, evaluate}
use windmill_gate.Gate.World.{
  Event, created, accepted, updated, shown, output, exited, notified, Entry, Outcome, GateError,
  Session, Approvals, Environment, World, Gate, pure, gets, lift, deferred, ◌>>=◌, modify, call,
  attempt, move, answered, moved, log, continue, execute_on,
}
use windmill_gate.Gate.Commands.{
  create, submit_command, announce, authorize, start, run, proceed, need_backend, execute, notify,
  finish_denied, update, show, exit, finish_execution, register, unregister,
}
use windmill_gate.Gate.Endings.Rules.{
  Goes, Goes-bind, Goes-pure, Goes-gets, Goes-weaken, Goes-then, Goes-weaken_after, Goes-given,
}

ends_allowed : (b : Bool) → allowed_transition running (if b then succeeded else failed) ≡ true
unfolding allowed_transition
ends_allowed true = refl
ends_allowed false = refl

module _ (env : Environment) (m : Matching)
    (replies : (trace : List Entry) (e : Event) → env.reply trace e ≡ true)
    (a : Approvals env.digest) where
  -- The command stands in this state, and its payload has its hash.
  pub record Stands (s : State) (w : World m) : Type 0 where
    pub state : w.current.state ≡ s
    pub hashed : env.digest w.current.payload ≡ w.current.hash

  call-Goes : (s : State) (e : Event) → Goes (Stands s) (call env e) (λ _. Stands s)
  unfolding call answered log
  call-Goes s e = record {
    at = λ w i. (
      tt,
      log env e true w,
      rw (replies w.trace e, answered) refl,
      record { state = i.state; hashed = i.hashed },
    );
  }

  attempt-Goes : (s : State) (e : Event) → Goes (Stands s) (attempt env e) (λ _. Stands s)
  unfolding attempt log
  attempt-Goes s e = record {
    at = λ w i. (
      env.reply w.trace e,
      log env e (env.reply w.trace e) w,
      refl,
      record { state = i.state; hashed = i.hashed },
    );
  }

  transition-made :
      (t : ℕ) (s next : State) (code : Option ℤ) (c : Command)
      → c.state ≡ s
      → allowed_transition s next ≡ true
      → (c' : Command) × (transition t next code c ≡ ok c')
        × (c'.state ≡ next)
        × (c'.payload ≡ c.payload)
        × (c'.hash ≡ c.hash)
  unfolding transition
  transition-made t s next code c h k = rw (h, k) (_, refl, refl, refl, refl)

  move-Goes :
      (s next : State) (code : Option ℤ)
      → allowed_transition s next ≡ true
      → Goes (Stands s) (move env next code) (λ _. Stands next)
  unfolding move moved
  move-Goes s next code k = record {
    at = λ w i.
        let (c, e, n, p, h) = transition-made (env.clock w.trace) s next code w.current i.state k in
        (
          tt,
          record w { current = c },
          rw (e, moved) refl,
          record { state = n; hashed = ap env.digest p ∙ i.hashed ∙ sym h },
        );
  }

  current-Goes :
      {B : Type 0} (s : State) {f : Command → Gate m B} {q : B → World m → Type 0}
      → ((c : Command) → Goes (Stands s) (f c) q)
      → Goes (Stands s) (gets (λ w. w.current) >>= f) q
  current-Goes s k = Goes-bind (Goes-gets (λ w. w.current)) (λ c. Goes-weaken (λ w i. i.0) (k c))

  update-Goes : (s : State) → Goes (Stands s) (update env a) (λ _. Stands s)
  unfolding update
  update-Goes s = current-Goes s (λ c. call-Goes s (updated c))

  show-Goes : (s : State) → Goes (Stands s) (show env a) (λ _. Stands s)
  unfolding show
  show-Goes s = current-Goes s (λ c. call-Goes s (shown c))

  exit-Goes : (s : State) (code : ℤ) → Goes (Stands s) (exit env a code) (λ _. Stands s)
  unfolding exit
  exit-Goes s code = current-Goes s (λ c. call-Goes s (exited c code))

  finish_denied-Goes :
      (s : State) (actor : Bytes)
      → allowed_transition s denied ≡ true
      → Goes (Stands s) (finish_denied env a actor) (λ _. Stands denied)
  unfolding finish_denied
  finish_denied-Goes s actor k = Goes-bind (move-Goes s denied (some (pos 126)) k) λ _.
      Goes-bind (update-Goes denied) λ _. Goes-bind (show-Goes denied) λ _.
        Goes-bind (call-Goes denied (output (codes "stderr") _)) λ _. exit-Goes denied (pos 126)

  verify-Goes :
      (c : Command)
      → Goes
          (λ w. Stands queued w × (c ≡ w.current))
          (lift GateError.payload_changed (verify_approval env.digest c c.id c.hash))
          (λ _. Stands queued)
  unfolding lift verify_approval
  verify-Goes c = record {
    at = λ w i.
        let e : verify_approval env.digest c c.id c.hash ≡ ok tt = ground (
          arith,
          equal_refl c.id,
          equal_refl c.hash,
          equal_iff (env.digest c.payload) c.hash,
          i.0.hashed,
          i.1,
        ) in
        (tt, w, rw e refl, i.0);
  }

  start-Goes : Goes (Stands queued) (start env a) (λ _. Stands running)
  unfolding start
  start-Goes = Goes-bind (Goes-gets (λ w. w.current)) λ c. Goes-bind (verify-Goes c) λ _.
      Goes-bind (move-Goes queued running none (unfold allowed_transition in refl))
        λ _. Goes-bind (update-Goes running) λ _. show-Goes running

  finish_execution-Goes :
      (o : Outcome)
      → (o.failed || o.audit_failed) ≡ false
      → Goes
          (Stands running)
          (finish_execution env a o)
          (λ _. Stands (if is_zero o.exit_code then succeeded else failed))
  unfolding finish_execution
  finish_execution-Goes o h = rw h (
      Goes-bind
        (move-Goes running (if is_zero o.exit_code then succeeded else failed) (some o.exit_code)
          (ends_allowed (is_zero o.exit_code)))
        λ _. Goes-bind (update-Goes _) λ _. exit-Goes _ o.exit_code)

  registered :
      (session : Session)
      → Goes (Stands running) (modify env (register env a session)) (λ _. Stands running)
  unfolding modify
  registered session = record {
    at = λ w i. (tt, register env a session w, refl, record { state = i.state; hashed = i.hashed });
  }

  unregistered :
      (s : State) {g : Gate m (Unit {0})}
      → Goes (Stands running) g (λ _. Stands s)
      → Goes (Stands running) (deferred (unregister env a) g) (λ _. Stands s)
  unfolding deferred
  unregistered s h = record {
    at = λ w i.
        let (x, w', e, j) = h.at w i in
        (x, unregister env a w', rw e refl, record { state = j.state; hashed = j.hashed });
  }

  executed-Goes :
      (b : Binding) (p : Bytes) (o : Outcome)
      → ((trace : List Entry) (p' : Bytes) → env.exec trace b.backend_id p' ≡ o)
      → Goes (Stands running) (execute_on env b.backend_id p) (λ x w. Stands running w × (x ≡ o))
  unfolding execute_on log
  executed-Goes b p o runs = record {
    at = λ w i. (
      env.exec w.trace b.backend_id p,
      (execute_on env b.backend_id p w).1,
      refl,
      (record { state = i.state; hashed = i.hashed }, runs w.trace p),
    );
  }

  run-Goes :
      (session : Session) (b : Binding) (o : Outcome)
      → ((trace : List Entry) (p : Bytes) → env.exec trace b.backend_id p ≡ o)
      → (o.failed || o.audit_failed) ≡ false
      → Goes
          (Stands running)
          (run env a session b)
          (λ _. Stands (if is_zero o.exit_code then succeeded else failed))
  unfolding run
  run-Goes session b o runs h = Goes-bind (registered session) λ _. unregistered _ (
      current-Goes running λ c.
        Goes-bind (executed-Goes b c.payload o runs)
          λ x. Goes-given λ e. rw e (finish_execution-Goes o h))

  pub proceed-Goes :
      (session : Session) (b : Binding) (o : Outcome)
      → ((trace : List Entry) (p : Bytes) → env.exec trace b.backend_id p ≡ o)
      → (o.failed || o.audit_failed) ≡ false
      → Goes
          (Stands queued)
          (proceed env a session b)
          (λ _ w. w.current.state ≡ (if is_zero o.exit_code then succeeded else failed))
  unfolding proceed
  proceed-Goes session b o runs h =
      Goes-bind start-Goes λ _. Goes-weaken_after (λ w i. i.state) (run-Goes session b o runs h)

  -- The command is made, on the targets and by the policy that were there.
  record Made (targets : Bindings) (verdict : Verdict) (session : Session) (payload : Bytes)
      (w : World m) : Type 0 where
    stands : Stands queued w
    same_targets : w.targets ≡ targets
    same_verdict : evaluate m w.engine session.target_id payload ≡ verdict

  notified-Goes :
      (b : Bool) → Goes (Stands queued) (if b then pure tt else notify env a) (λ _. Stands queued)
  unfolding notify
  notified-Goes true = Goes-then (Goes-pure tt)
  notified-Goes false = Goes-bind (attempt-Goes queued notified) λ _. Goes-then (Goes-pure tt)

  announce-Goes :
      (c : Command) (v : Verdict)
      → Goes (Stands queued) (announce env a c v) (λ x w. Stands queued w × (x ≡ v))
  unfolding announce notify
  announce-Goes c v = Goes-bind (call-Goes queued (created c v)) λ _.
      Goes-bind (notified-Goes _) λ _. Goes-bind (call-Goes queued (accepted c v)) λ _. Goes-pure v

  pub authorize-denied :
      (session : Session) (v : Verdict)
      → Goes (Stands queued) (authorize env a session v deny) (λ x w. Stands denied w × (x ≡ false))
  unfolding authorize
  authorize-denied session v =
      Goes-bind (finish_denied-Goes queued (codes "policy") (unfold allowed_transition in refl))
        λ _. Goes-pure false

  pub authorize-allowed :
      (session : Session) (v : Verdict)
      → Goes (Stands queued) (authorize env a session v allow) (λ x w. Stands queued w × (x ≡ true))
  unfolding authorize
  authorize-allowed session v = Goes-pure true

  pub after_denial :
      (session : Session) (v : Verdict) (b : Binding) (x : Decision)
      → x ≡ deny
      → Goes
          (Stands queued)
          (authorize env a session v x >>= λ authorized.
            if authorized then proceed env a session b else pure tt)
          (λ _ w. w.current.state ≡ denied)
  after_denial session v b x h = rw h (
      Goes-bind (authorize-denied session v)
        λ y. Goes-given λ e. rw e (Goes-weaken (λ w i. i.state) (Goes-then (Goes-pure tt))))

  pub after_permission :
      (session : Session) (v : Verdict) (b : Binding) (x : Decision) (o : Outcome)
      → x ≡ allow
      → ((trace : List Entry) (p : Bytes) → env.exec trace b.backend_id p ≡ o)
      → (o.failed || o.audit_failed) ≡ false
      → Goes
          (Stands queued)
          (authorize env a session v x >>= λ authorized.
            if authorized then proceed env a session b else pure tt)
          (λ _ w. w.current.state ≡ (if is_zero o.exit_code then succeeded else failed))
  after_permission session v b x o h runs fine = rw h (
      Goes-bind (authorize-allowed session v)
        λ y. Goes-given λ e. rw e (proceed-Goes session b o runs fine))

  pub record Before (targets : Bindings) (verdict : Verdict) (session : Session) (payload : Bytes)
      (w : World m) : Type 0 where
    pub targets_there : w.targets ≡ targets
    pub verdict_there : evaluate m w.engine session.target_id payload ≡ verdict

  module _ (session : Session) (payload id : Bytes) (targets : Bindings) (verdict : Verdict)
      (b : Binding) (drawn : env.new_id ≡ some id) (not_empty : is_empty payload ≡ false)
      (bound : resolve session.target_id targets ≡ ok b)
      (served : env.has_backend b.public_target.backend ≡ true) where
    create-Goes :
        Goes
          (Before targets verdict session payload)
          (create env a session payload)
          (λ _. Made targets verdict session payload)
    unfolding create gets lift modify new ◌>>=◌ continue
    create-Goes = record {
      at = λ w i.
          rw (not_empty, drawn, new, lift, continue)
            (
              tt,
              _,
              refl,
              record {
                stands = record { state = refl; hashed = refl };
                same_targets = i.targets_there;
                same_verdict = i.verdict_there;
              },
            );
    }

    found-Goes :
        (ts : Bindings)
        → Goes
            (λ w. Made targets verdict session payload w × (ts ≡ w.targets))
            (lift GateError.no_target (resolve session.target_id ts))
            (λ x w. Made targets verdict session payload w × (x ≡ b))
    unfolding lift
    found-Goes ts = record {
      at = λ w i. (
        b,
        w,
        rw (ap (resolve session.target_id) (i.1 ∙ i.0.same_targets) ∙ bound, lift) refl,
        (i.0, refl),
      );
    }

    served-Goes :
        Goes
          (Made targets verdict session payload)
          (need_backend env a b.public_target.backend)
          (λ _. Made targets verdict session payload)
    unfolding need_backend
    served-Goes = rw served (Goes-then (Goes-pure tt))

    submit-Goes :
        Goes
          (Made targets verdict session payload)
          (submit_command env a session payload)
          (λ x w. Stands queued w × (x ≡ verdict))
    unfolding submit_command
    submit-Goes = Goes-bind (Goes-gets (λ w. evaluate m w.engine session.target_id payload)) λ v.
        Goes-bind (Goes-gets (λ w. w.current)) λ c.
          Goes-weaken (λ w i. (i.0.0.stands, i.0.1 ∙ i.0.0.same_verdict))
            (Goes-given λ e. rw e (announce-Goes c verdict))

    -- What follows the verdict.
    pub execute-Goes :
        (q : World m → Type 0)
        → Goes
            (Stands queued)
            (authorize env a session verdict verdict.decision >>= λ authorized.
              if authorized then proceed env a session b else pure tt)
            (λ _. q)
        → Goes (Before targets verdict session payload) (execute env a session payload) (λ _. q)
    unfolding execute
    execute-Goes q h = Goes-bind create-Goes λ _. Goes-bind (Goes-gets (λ w. w.targets)) λ ts.
        Goes-bind (found-Goes ts) λ x.
          Goes-given
            λ e. rw e (Goes-bind served-Goes λ _. Goes-bind submit-Goes λ v. Goes-given λ f. rw f h)
