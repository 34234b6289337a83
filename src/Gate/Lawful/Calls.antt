-- ===== src/Gate/Lawful/Calls.antt =====
-- `execute` and `authorizeCapability` of internal/gate/service.go, step by step.
use windmill_gate.Base.{Bool, true, false, [], ◌≡◌, refl, sym, ap, ◌∙◌, subst, Bytes, if◌then◌else◌}
use windmill_gate.Base.Results.{ok}
use windmill_gate.Command.{Command}
use windmill_gate.Command.Lifecycle.{new-IsConsistent, new-id}
use windmill_gate.Target.{Bindings, Binding, resolve}
use windmill_gate.Policy.Engine.{Verdict, Engine, evaluate}
use windmill_gate.Gate.World.{
  created, accepted, GateError, Session, Approvals, World, Gate, pure, modify, call,
}
use windmill_gate.Gate.Commands.{
  create, submit_command, announce, authorize, proceed, need_backend, execute, started,
  authorize_capability,
}
use windmill_gate.Gate.Lawful.{empty, creates}
use windmill_gate.Gate.Lawful.Rules.{
  Subject, Phase, submitted, permitted, Lawful, At, Runs, Runs-bind, Runs-pure, Runs-raise,
  Runs-gets, Runs-if, Runs-weaken, Runs-then,
}
use windmill_gate.Gate.Lawful.Steps.{Runs-call_plain, Runs-given, Runs-lift, Runs-call_permit}
use windmill_gate.Gate.Lawful.Execution.{
  opened, next_phase, notify-Keeps, opened-Reached, authorize-Authorizes, start-Runs, run-Runs,
}

-- Whether a capability is authorized tells how far its command has come.
abbrev pub capability_phase : Bool → Phase
capability_phase true = Phase.started
capability_phase false = submitted

lawful_after :
    {u : Subject} {A : Type 0} {p : World u.matching → Type 0} {ph : Phase} {g : Gate u.matching A}
    → Runs u p g (λ _. At u ph)
    → Runs u p g (λ _ w. Lawful u w.trace)
lawful_after h = Runs-then (λ x w i. i.inv.lawful) h

module _ (u : Subject) (a : Approvals u.env.digest) (session : Session) (e : Engine u.matching)
    (same_target : session.target_id ≡ u.target)
    (same_verdict : u.verdict ≡ evaluate u.matching e session.target_id u.payload) where
  -- Before the call; after the command is made.
  pub record Fresh (w : World u.matching) : Type 0 where
    pub no_trace : w.trace ≡ []
    pub engine : w.engine ≡ e
    pub targets : w.targets ≡ u.targets

  record Made (w : World u.matching) : Type 0 where
    made : At u submitted w
    engine : w.engine ≡ e

  create-Runs : Runs u Fresh (create u.env a session u.payload) (λ _. Made)
  unfolding create modify
  create-Runs = Runs-bind (Runs-gets (λ w. u.env.clock w.trace)) λ now.
      Runs-bind (Runs-lift GateError.bad_command _ λ w i. subst (Lawful u) (sym i.0.no_trace) empty)
        λ c. record {
          at = λ w i.
              let (v, _, p, _) =
                new-IsConsistent u.env.digest u.env.new_id now session.id session.target_id
                  u.payload c i.1 in
              record {
                made = record {
                  inv = record {
                    lawful = subst (Lawful u) (sym i.0.0.no_trace) empty;
                    same_id =
                        new-id u.env.digest u.env.new_id now session.id session.target_id u.payload
                          c i.1;
                    same_payload = p;
                    same_hash = v.hashed ∙ ap u.env.digest p;
                    same_targets = i.0.0.targets;
                  };
                  reached = tt;
                };
                engine = i.0.0.engine;
              };
        }

  created_call :
      (c : Command)
      → c.payload ≡ u.payload
      → Runs u
          (At u submitted)
          (call u.env (created c u.verdict))
          (λ _. At u (opened u.verdict.decision))
  created_call c h =
      Runs-call_permit (opened u.verdict.decision) (created c u.verdict)
        (λ trace b l. creates c b h l)
        (λ trace. opened-Reached c u.verdict trace u.verdict.decision refl)

  announce-Runs :
      (c : Command)
      → c.payload ≡ u.payload
      → Runs u
          (At u submitted)
          (announce u.env a c u.verdict)
          (λ v w. At u (opened u.verdict.decision) w × (v ≡ u.verdict))
  unfolding announce
  announce-Runs c h = Runs-bind (created_call c h) λ _.
      Runs-bind (Runs-if _ (Runs-pure tt) (notify-Keeps u a)) λ _.
        Runs-bind (Runs-call_plain (accepted c u.verdict) refl)
          λ _. Runs-weaken (λ w i. (i, refl)) (Runs-pure u.verdict)

  submit-Runs :
      Runs u Made
        (submit_command u.env a session u.payload)
        (λ v w. At u (opened u.verdict.decision) w × (v ≡ u.verdict))
  unfolding submit_command
  submit-Runs =
      Runs-bind (Runs-gets (λ w. evaluate u.matching w.engine session.target_id u.payload)) λ v.
        Runs-bind (Runs-gets (λ w. w.current)) λ c.
          Runs-weaken
            (λ w i. (
              i.0.0.made,
              (
                ap (λ x. x.payload) i.1 ∙ i.0.0.made.inv.same_payload,
                i.0.1
                    ∙ ap (λ x. evaluate u.matching x session.target_id u.payload) i.0.0.engine
                    ∙ sym same_verdict,
              ),
            ))
            (Runs-given {X = (c.payload ≡ u.payload) × (v ≡ u.verdict)} λ k.
              subst
                (λ x.
                  Runs u (At u submitted) (announce u.env a c x)
                    (λ v w. At u (opened u.verdict.decision) w × (v ≡ u.verdict)))
                (sym k.1) (announce-Runs c k.0))

  need_backend-Runs : (name : Bytes) → Runs u Made (need_backend u.env a name) (λ _. Made)
  unfolding need_backend
  need_backend-Runs name =
      Runs-if (u.env.has_backend name) (Runs-pure tt)
        (Runs-weaken (λ w i. i.made) (Runs-raise GateError.no_backend))

  judged :
      (v : Verdict)
      → v ≡ u.verdict
      → Runs u
          (At u (opened u.verdict.decision))
          (authorize u.env a session v v.decision)
          (λ b. At u (next_phase b))
  judged v h =
      subst
        (λ x.
          Runs u (At u (opened u.verdict.decision)) (authorize u.env a session x x.decision)
            (λ b. At u (next_phase b)))
        (sym h) (authorize-Authorizes u a session u.verdict.decision refl)

  proceed-Runs :
      (b : Binding)
      → resolve u.target u.targets ≡ ok b
      → Runs u (At u permitted) (proceed u.env a session b) (λ _ w. Lawful u w.trace)
  unfolding proceed
  proceed-Runs b h = Runs-bind (start-Runs u a) λ _. lawful_after (run-Runs u a session b h)

  found :
      (targets : Bindings) (w : World u.matching) (b : Binding)
      → Made w
      → targets ≡ w.targets
      → resolve session.target_id targets ≡ ok b
      → resolve u.target u.targets ≡ ok b
  found targets w b i t h =
      ap (λ x. resolve x u.targets) (sym same_target)
      ∙ ap (resolve session.target_id) (sym (t ∙ i.made.inv.same_targets))
      ∙ h

  finish :
      (authorized : Bool) (b : Binding)
      → resolve u.target u.targets ≡ ok b
      → Runs u
          (At u (next_phase authorized))
          (if authorized then proceed u.env a session b else pure tt)
          (λ _ w. Lawful u w.trace)
  finish true b h = proceed-Runs b h
  finish false b h = lawful_after (Runs-pure tt)

  finish_capability :
      (authorized : Bool)
      → Runs u
          (At u (next_phase authorized))
          (if authorized then started u.env a else pure false)
          (λ b. At u (capability_phase b))
  unfolding started
  finish_capability true =
      Runs-bind (start-Runs u a) λ _. Runs-pure {q = λ b. At u (capability_phase b)} true
  finish_capability false = Runs-pure {q = λ b. At u (capability_phase b)} false

  pub authorize_capability-Runs :
      Runs u Fresh (authorize_capability u.env a session u.payload) (λ b. At u (capability_phase b))
  unfolding authorize_capability
  authorize_capability-Runs = Runs-bind create-Runs λ _.
      Runs-bind submit-Runs
        λ v. Runs-given λ q. Runs-bind (judged v q) λ authorized. finish_capability authorized

  pub execute-Runs : Runs u Fresh (execute u.env a session u.payload) (λ _ w. Lawful u w.trace)
  unfolding execute
  execute-Runs = Runs-bind create-Runs λ _. Runs-bind (Runs-gets (λ w. w.targets)) λ targets.
      Runs-bind
        (Runs-lift GateError.no_target (resolve session.target_id targets)
          λ w i. i.0.made.inv.lawful)
        λ b.
          Runs-weaken (λ w i. (i.0.0, found targets w b i.0.0 i.0.1 i.1))
            (Runs-given λ h. Runs-bind (need_backend-Runs b.public_target.backend) λ _.
              Runs-bind submit-Runs
                λ v. Runs-given λ q. Runs-bind (judged v q) λ authorized. finish authorized b h)
