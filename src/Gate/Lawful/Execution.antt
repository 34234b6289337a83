-- ===== src/Gate/Lawful/Execution.antt =====
-- Every trace that a command's execution or a capability's authorization leaves is lawful.
use windmill_gate.Base.{
  Bool, true, false, List, ◌∷◌, Option, none, some, ◌≡◌, refl, sym, ap, ◌∙◌, subst, arith, Bytes,
  codes, ◌||◌,
}
use windmill_gate.Base.Int.{ℤ, pos}
use windmill_gate.Base.Maps.{Map}
use windmill_gate.Base.Results.{Result, ok, err}
use windmill_gate.Command.{State, waiting, running, Command}
use windmill_gate.Target.{Binding, resolve}
use windmill_gate.Policy.Engine.{Decision, allow, ask, deny, Verdict, Engine}
use windmill_gate.Approval.{Action, HumanDecision}
use windmill_gate.Gate.World.{
  created, updated, shown, recorded, output, exited, error_shown, notified, Entry, Outcome,
  GateError, Session, RunningCommand, Approvals, World, Gate, pure, gets, deferred, ◌>>=◌, call,
}
use windmill_gate.Gate.Commands.{
  update, show, exit, notify, finish_denied, give_up, follow, ask_human, authorize, start,
  report_failure, fail_execution, finish_execution, run,
}
use windmill_gate.Gate.Lawful.{decides, IsDecisionOn}
use windmill_gate.Gate.Lawful.Rules.{
  Subject, Phase, submitted, permitted, Reached, Lawful, Inv, At, Ends, Runs, Runs-bind, Runs-pure,
  Runs-raise, Runs-gets, Runs-if, Runs-weaken,
}
use windmill_gate.Gate.Lawful.Steps.{
  Runs-call_plain, Runs-attempt_plain, Runs-move, Runs-try_move, Runs-given, Runs-lift, At-lawful,
  Runs-modify, Runs-call_permit, Runs-call_start, Runs-execute_on,
}

-- How far the policy's verdict, or a human's action, brings a command.
abbrev pub opened : Decision → Phase
opened allow = permitted
opened _ = submitted

abbrev granted : Action → Phase
granted Action.deny = submitted
granted _ = permitted

abbrev pub next_phase : Bool → Phase
next_phase true = permitted
next_phase false = submitted

granted-Reached :
    (d : HumanDecision) (trace : List Entry) (x : Action)
    → d.action ≡ x
    → Reached (granted x) (record { event = recorded d; succeeded = true } ∷ trace)
granted-Reached d trace Action.deny h = tt
granted-Reached d trace Action.approve_once h = ground arith
granted-Reached d trace Action.allow_target h = ground arith
granted-Reached d trace (Action.other_action y) h = ground arith

pub opened-Reached :
    (c : Command) (v : Verdict) (trace : List Entry) (x : Decision)
    → v.decision ≡ x
    → Reached (opened x) (record { event = created c v; succeeded = true } ∷ trace)
opened-Reached c v trace allow h = ground arith
opened-Reached c v trace ask h = tt
opened-Reached c v trace deny h = tt

module _ (u : Subject) (a : Approvals u.env.digest) where
  abbrev pub Keeps : Phase → Gate u.matching (Unit {0}) → Type 0
  Keeps ph g = Runs u (At u ph) g (λ _. At u ph)

  -- what the current command is need not be known
  Runs-current :
      {ph : Phase} {B : Type 0} {f : Command → Gate u.matching B}
      {q : B → World u.matching → Type 0}
      → ((c : Command) → Runs u (At u ph) (f c) q)
      → Runs u (At u ph) (gets (λ w. w.current) >>= f) q
  Runs-current k = Runs-bind (Runs-gets (λ w. w.current)) (λ c. Runs-weaken (λ w i. i.0) (k c))

  update-Keeps : {ph : Phase} → Keeps ph (update u.env a)
  unfolding update
  update-Keeps = Runs-current (λ c. Runs-call_plain (updated c) refl)

  show-Keeps : {ph : Phase} → Keeps ph (show u.env a)
  unfolding show
  show-Keeps = Runs-current (λ c. Runs-call_plain (shown c) refl)

  exit-Keeps : {ph : Phase} (code : ℤ) → Keeps ph (exit u.env a code)
  unfolding exit
  exit-Keeps code = Runs-current (λ c. Runs-call_plain (exited c code) refl)

  pub notify-Keeps : {ph : Phase} → Keeps ph (notify u.env a)
  unfolding notify
  notify-Keeps = Runs-bind (Runs-attempt_plain notified refl) (λ _. Runs-pure tt)

  finish_denied-Keeps : {ph : Phase} (actor : Bytes) → Keeps ph (finish_denied u.env a actor)
  unfolding finish_denied
  finish_denied-Keeps actor = Runs-bind (Runs-move State.denied (some (pos 126))) λ _.
      Runs-bind (Runs-weaken (λ w i. i.0) update-Keeps) λ _.
        Runs-bind show-Keeps λ _.
          Runs-bind (Runs-call_plain (output (codes "stderr") _) refl) λ _. exit-Keeps (pos 126)

  report_failure-Keeps : {ph : Phase} (c : Command) → Keeps ph (report_failure u.env a c)
  unfolding report_failure
  report_failure-Keeps c =
      Runs-bind (Runs-attempt_plain error_shown refl)
        λ _. Runs-bind (Runs-attempt_plain (exited c (pos 1)) refl) λ _. Runs-pure tt

  fail_execution-Keeps : {ph : Phase} (o : Outcome) → Keeps ph (fail_execution u.env a o)
  unfolding fail_execution
  fail_execution-Keeps o = Runs-bind (Runs-try_move _ (some (pos 1))) λ _. Runs-current λ c.
      Runs-bind (Runs-attempt_plain (updated c) refl)
        λ _. Runs-bind (report_failure-Keeps c) λ _. Runs-raise GateError.execution_failed

  finish_execution-Keeps : {ph : Phase} (o : Outcome) → Keeps ph (finish_execution u.env a o)
  unfolding finish_execution
  finish_execution-Keeps o = Runs-if (o.failed || o.audit_failed) (fail_execution-Keeps o) (
      Runs-bind (Runs-move _ (some o.exit_code))
        λ _. Runs-bind (Runs-weaken (λ w i. i.0) update-Keeps) λ _. exit-Keeps o.exit_code)

  abbrev IsOurs : HumanDecision → Type 0
  IsOurs d = IsDecisionOn u.env.digest u.env.new_id u.targets u.target u.payload u.verdict d

  -- Whether the operation goes on tells how far the command has come.
  abbrev pub Authorizes : Phase → Gate u.matching Bool → Type 0
  Authorizes ph g = Runs u (At u ph) g (λ b. At u (next_phase b))

  denied-Authorizes :
      (actor : Bytes) → Authorizes submitted (finish_denied u.env a actor >>= λ _. pure false)
  denied-Authorizes actor = Runs-bind (finish_denied-Keeps actor) λ _. Runs-pure false

  give_up-Authorizes : Authorizes submitted (give_up u.env a)
  unfolding give_up
  give_up-Authorizes = Runs-bind (Runs-try_move State.cancelled none) λ _. Runs-current λ c.
      Runs-bind (Runs-attempt_plain (updated c) refl) λ stored.
        Runs-bind (Runs-if stored notify-Keeps (Runs-pure tt))
          λ _. Runs-raise GateError.not_approved

  with_engine :
      {ph : Phase} (e : Engine u.matching) (w : World u.matching)
      → At u ph w
      → At u ph (record w { engine = e })
  with_engine e w i = record {
    inv = record {
      lawful = i.inv.lawful;
      same_id = i.inv.same_id;
      same_payload = i.inv.same_payload;
      same_hash = i.inv.same_hash;
      same_targets = i.inv.same_targets;
    };
    reached = i.reached;
  }

  follow-Authorizes :
      (session : Session) (d : HumanDecision) (x : Action)
      → Authorizes (granted x) (follow u.env a session d x)
  unfolding follow
  follow-Authorizes session d Action.deny = denied-Authorizes d.actor
  follow-Authorizes session d Action.allow_target = Runs-bind (Runs-gets (λ w. w.engine)) λ e.
      Runs-bind (Runs-lift GateError.bad_rule _ (λ w i. i.0.inv.lawful)) λ e'.
        Runs-bind (Runs-weaken (λ w i. i.0.0) (Runs-modify _ (with_engine e'))) λ _. Runs-pure true
  follow-Authorizes session d Action.approve_once = Runs-pure true
  follow-Authorizes session d (Action.other_action x) = Runs-pure true

  recorded_call :
      (d : HumanDecision)
      → u.verdict.decision ≡ ask
      → IsOurs d
      → Runs u (At u submitted) (call u.env (recorded d)) (λ _. At u (granted d.action))
  recorded_call d x k =
      Runs-call_permit (granted d.action) (recorded d) (λ trace b l. decides d b x k l)
        (λ trace. granted-Reached d trace d.action refl)

  our_decision :
      (c : Command) (answer : Option HumanDecision) (w : World u.matching)
      → Inv u w
      → c ≡ w.current
      → answer ≡ a.wait w.trace c u.verdict
      → (d : HumanDecision) → answer ≡ some d
      → IsOurs d
  our_decision c answer w i e h d s =
      let v = a.wait-IsVerified w.trace c u.verdict d (sym h ∙ s) in
      record {
        same_id = i.same_id ∙ ap some (ap (λ x. x.id) (sym e) ∙ sym v.same_id);
        same_hash = v.same_hash ∙ ap (λ x. x.hash) e ∙ i.same_hash;
        known = v.known;
        by_someone = v.by_someone;
      }

  decide_on :
      (session : Session) (answer : Option HumanDecision)
      → u.verdict.decision ≡ ask
      → ((d : HumanDecision) → answer ≡ some d → IsOurs d)
      → Authorizes submitted (elim answer [
        | none ↦ give_up u.env a
        | some d ↦ do
          _ ← call u.env (recorded d)
          _ ← notify u.env a
          follow u.env a session d d.action
      ])
  decide_on session none x k = give_up-Authorizes
  decide_on session (some d) x k =
      Runs-bind (recorded_call d x (k d refl))
        λ _. Runs-bind notify-Keeps λ _. follow-Authorizes session d d.action

  ask_human-Authorizes :
      (session : Session)
      → u.verdict.decision ≡ ask
      → Authorizes submitted (ask_human u.env a session u.verdict)
  unfolding ask_human
  ask_human-Authorizes session x = Runs-bind (Runs-move waiting none) λ _.
      Runs-bind (Runs-weaken (λ w i. i.0) update-Keeps) λ _. Runs-bind show-Keeps λ _.
        Runs-bind (Runs-gets (λ w. w.current)) λ c.
          Runs-bind (Runs-gets (λ w. a.wait w.trace c u.verdict)) λ answer.
            Runs-weaken (λ w i. (i.0.0, our_decision c answer w i.0.0.inv i.0.1 i.1))
              (Runs-given (decide_on session answer x))

  pub authorize-Authorizes :
      (session : Session) (x : Decision)
      → u.verdict.decision ≡ x
      → Authorizes (opened x) (authorize u.env a session u.verdict x)
  unfolding authorize
  authorize-Authorizes session deny h = denied-Authorizes (codes "policy")
  authorize-Authorizes session allow h = Runs-pure true
  authorize-Authorizes session ask h = ask_human-Authorizes session h

  pub start-Runs : Runs u (At u permitted) (start u.env a) (λ _. At u Phase.started)
  unfolding start update
  start-Runs = Runs-current λ c. Runs-bind (Runs-lift GateError.payload_changed _ At-lawful) λ _.
      Runs-bind (Runs-weaken (λ w i. i.0) (Runs-move running none)) λ _.
        Runs-bind
          (Runs-bind (Runs-gets (λ w. w.current)) λ c'.
            Runs-weaken (λ w i. (i.0.0, ap (λ x. x.state) i.1 ∙ i.0.1))
              (Runs-given (Runs-call_start c')))
          λ _. show-Keeps

  with_running :
      {ph : Phase} (e : Map RunningCommand) (w : World u.matching)
      → At u ph w
      → At u ph (record w { running = e })
  with_running e w i = record {
    inv = record {
      lawful = i.inv.lawful;
      same_id = i.inv.same_id;
      same_payload = i.inv.same_payload;
      same_hash = i.inv.same_hash;
      same_targets = i.inv.same_targets;
    };
    reached = i.reached;
  }

  ended_deferred :
      {ph : Phase} (f : World u.matching → World u.matching)
      → ((w : World u.matching) → (f w).trace ≡ w.trace)
      → ((w : World u.matching) → At u ph w → At u ph (f w))
      → (r : Result GateError (Unit {0})) (w : World u.matching) → Ends u (λ _. At u ph) r w
      → Ends u (λ _. At u ph) r (f w)
  ended_deferred f t k (ok x) w i = k w i
  ended_deferred f t k (err e) w i = subst (Lawful u) (sym (t w)) i

  -- an update of the table of running commands, made on both paths out of the body
  deferred-Runs :
      {ph : Phase} (f : World u.matching → World u.matching) (g : Gate u.matching (Unit {0}))
      → ((w : World u.matching) → (f w).trace ≡ w.trace)
      → ((w : World u.matching) → At u ph w → At u ph (f w))
      → Runs u (At u ph) g (λ _. At u ph)
      → Runs u (At u ph) (deferred f g) (λ _. At u ph)
  unfolding deferred
  deferred-Runs f g t k h = record { at = λ w i. ended_deferred f t k (g w).0 (g w).1 (h.at w i) }

  pub run-Runs :
      (session : Session) (b : Binding)
      → resolve u.target u.targets ≡ ok b
      → Runs u (At u Phase.started) (run u.env a session b) (λ _. At u Phase.started)
  unfolding run
  run-Runs session b h = Runs-bind (Runs-modify _ λ w i. with_running _ w i) λ _.
      deferred-Runs _ _ (λ w. refl) (λ w i. with_running _ w i)
        (Runs-bind (Runs-gets (λ w. w.current)) λ c.
          Runs-bind
            (Runs-weaken (λ w i. (i.0, ap (λ x. x.payload) i.1 ∙ i.0.inv.same_payload))
              (Runs-given (Runs-execute_on b c.payload h)))
            λ o. finish_execution-Keeps o)
