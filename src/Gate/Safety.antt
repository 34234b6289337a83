-- ===== src/Gate/Safety.antt =====
-- The order of policy, approval, audit and execution in internal/gate/service.go.
use windmill_gate.Base.{Bool, true, false, List, [], ◌≡◌, refl, Bytes}
use windmill_gate.Base.Results.{Result, ok, err}
use windmill_gate.Policy.Engine.{Matching, Verdict, evaluate}
use windmill_gate.Gate.World.{Entry, GateError, Session, Approvals, Environment, World}
use windmill_gate.Gate.Commands.{execute, authorize_capability}
use windmill_gate.Gate.Lawful.{
  IsLawful, IsPermitted, done, permits, starts, permits-IsPermitted, executes_any,
  executed-IsPermitted,
}
use windmill_gate.Gate.Lawful.Rules.{
  Subject, Phase, Inv, Reached, Lawful, At, Ends, Runs, Runs-then,
}
use windmill_gate.Gate.Lawful.Calls.{
  capability_phase, Fresh, execute-Runs, authorize_capability-Runs,
}

ends_lawful :
    (u : Subject) {A : Type 0} (r : Result GateError A) (w : World u.matching)
    → Ends u (λ _ v. Lawful u v.trace) r w
    → Lawful u w.trace
ends_lawful u (ok x) w l = l
ends_lawful u (err x) w l = l

ends_started :
    (u : Subject) (r : Result GateError Bool) (w : World u.matching)
    → Ends u (λ b. At u (capability_phase b)) r w
    → r ≡ ok true
    → Inv u w × Reached Phase.started w.trace
ends_started u (ok true) w i h = (i.inv, i.reached)
ends_started u (ok false) w i h = absurd (cc)
ends_started u (err e) w i h = absurd (cc)

module _ {m : Matching} (env : Environment) (a : Approvals env.digest) (session : Session)
    (payload : Bytes) (w : World m) (fresh : w.trace ≡ []) where
  abbrev verdict : Verdict
  verdict = evaluate m w.engine session.target_id payload

  abbrev subject : Subject
  subject = record {
    env = env;
    matching = m;
    targets = w.targets;
    target = session.target_id;
    payload = payload;
    verdict = verdict;
  }

  before : Fresh subject a session w.engine refl refl w
  before = record { no_trace = fresh; engine = refl; targets = refl }

  -- Whatever the store, the sink, the backends and the humans answer, and wherever it stops, the
  -- trace of `execute` is lawful.
  pub execute-IsLawful :
      IsLawful env.digest env.new_id w.targets session.target_id payload verdict
        (execute env a session payload w).1.trace
  execute-IsLawful =
      ends_lawful subject (execute env a session payload w).0 (execute env a session payload w).1
        ((execute-Runs subject a session w.engine refl refl).at w before)

  authorized_steps :
      Runs subject
        (Fresh subject a session w.engine refl refl)
        (authorize_capability env a session payload)
        (λ b. At subject (capability_phase b))
  authorized_steps = authorize_capability-Runs subject a session w.engine refl refl

  -- So is the trace of `authorizeCapability`.
  pub authorize_capability-IsLawful :
      IsLawful env.digest env.new_id w.targets session.target_id payload verdict
        (authorize_capability env a session payload w).1.trace
  authorize_capability-IsLawful =
      ends_lawful subject (authorize_capability env a session payload w).0
        (authorize_capability env a session payload w).1
        ((Runs-then (λ b v i. i.inv.lawful) authorized_steps).at w before)

  -- `execute` runs a command only if the policy allows it, or the policy asks and a human's
  -- decision that is not a denial names this command and the hash of this payload.
  pub execute-IsPermitted :
      executes_any (execute env a session payload w).1.trace ≡ true
      → IsPermitted env.digest env.new_id w.targets session.target_id payload verdict
  execute-IsPermitted h =
      executed-IsPermitted env.digest env.new_id w.targets session.target_id payload verdict
        execute-IsLawful h

  -- The operation may go on: its command was stored with a permission, the policy's or a human's
  -- own, and stored as running, in a lawful trace.
  pub record IsGranted (trace : List Entry) : Type 0 where
    pub lawful : IsLawful env.digest env.new_id w.targets session.target_id payload verdict trace
    pub permitted : done permits trace ≡ true
    pub running : done starts trace ≡ true
    pub by : IsPermitted env.digest env.new_id w.targets session.target_id payload verdict

  -- From a world without a trace, `authorizeCapability` says yes only after a permission
  -- and the running state are stored, where the policy allows the payload, or asks and a human's
  -- decision that is not a denial names this command and the hash of this payload.
  pub authorize_capability-IsGranted :
      (authorize_capability env a session payload w).0 ≡ ok true
      → IsGranted (authorize_capability env a session payload w).1.trace
  authorize_capability-IsGranted h =
      let (inv, reached) =
        ends_started subject (authorize_capability env a session payload w).0
          (authorize_capability env a session payload w).1 (authorized_steps.at w before) h in
      record {
        lawful = inv.lawful;
        permitted = reached.0;
        running = reached.1;
        by =
            permits-IsPermitted env.digest env.new_id w.targets session.target_id payload verdict
              inv.lawful reached.0;
      }

  -- `authorizeCapability` says yes only with the same permission.
  pub authorize_capability-IsPermitted :
      (authorize_capability env a session payload w).0 ≡ ok true
      → IsPermitted env.digest env.new_id w.targets session.target_id payload verdict
  authorize_capability-IsPermitted h = (authorize_capability-IsGranted h).by
