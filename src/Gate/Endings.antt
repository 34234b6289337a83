-- ===== src/Gate/Endings.antt =====
-- How a call of internal/gate/service.go ends where the store, the sink and the backend answer.
mod Rules
mod Steps
use windmill_gate.Base.{
  ℕ, Bool, true, false, ◌||◌, List, Option, none, some, ◌≡◌, ◌≢◌, refl, sym, ap, ◌∙◌, arith, Bytes,
  codes, [], is_empty, if◌then◌else◌, equal, equal_iff, equal_refl,
}
use windmill_gate.Base.Int.{ℤ, pos, is_zero}
use windmill_gate.Base.Results.{Result, ok, err}
use windmill_gate.Command.{
  State, queued, running, succeeded, failed, denied, Command, new, transition, allowed_transition,
  verify_approval,
}
use windmill_gate.Target.{Bindings, Binding, resolve}
use windmill_gate.Policy.Engine.{Matching, Decision, allow, ask, deny, Verdict, evaluate}
use windmill_gate.Gate.World.{
  Event, created, accepted, updated, shown, output, exited, notified, Entry, Outcome, GateError,
  Session, Approvals, Environment, World, Gate, pure, gets, lift, deferred, ◌>>=◌, modify, call,
  attempt, move, answered, moved, log, continue, execute_on,
}
use windmill_gate.Gate.Commands.{
  create, submit_command, announce, authorize, start, run, proceed, need_backend, execute, notify,
  finish_denied, update, show, exit, finish_execution, fail_execution, register, unregister,
}
use windmill_gate.Gate.Endings.Rules.{
  Goes, Goes-bind, Goes-pure, Goes-gets, Goes-weaken, Goes-then, Goes-weaken_after, Goes-given,
}
use windmill_gate.Gate.Endings.Steps.{Stands, Before, execute-Goes, after_denial, after_permission}

ended_in :
    {m : Matching} {p : World m → Type 0} {g : Gate m (Unit {0})} (w : World m) (s : State)
    → Goes p g (λ _ w'. w'.current.state ≡ s)
    → p w
    → ((g w).0 ≡ ok tt) × ((g w).1.current.state ≡ s)
ended_in w s h i = let (x, w', e, j) = h.at w i in rw e (refl, j)

module _ {m : Matching} (env : Environment)
    (replies : (trace : List Entry) (e : Event) → env.reply trace e ≡ true)
    (a : Approvals env.digest) (session : Session) (payload id : Bytes) (b : Binding) (w : World m)
    (drawn : env.new_id ≡ some id) (not_empty : is_empty payload ≡ false)
    (bound : resolve session.target_id w.targets ≡ ok b)
    (served : env.has_backend b.public_target.backend ≡ true) where
  abbrev judgement : Verdict
  judgement = evaluate m w.engine session.target_id payload

  -- Where an identifier is drawn, the payload is not empty, the target resolves to a backend that
  -- is there, and the store and the sink succeed, `execute` of a command that the policy denies
  -- returns without an error, and the command ends denied.
  pub execute-denied :
      judgement.decision ≡ deny
      → ((execute env a session payload w).0 ≡ ok tt)
        × ((execute env a session payload w).1.current.state ≡ denied)
  execute-denied h =
      ended_in w denied
        (execute-Goes env m replies a session payload id w.targets judgement b drawn not_empty bound
          served (λ w'. w'.current.state ≡ denied)
          (after_denial env m replies a session judgement b judgement.decision h))
        (record { targets_there = refl; verdict_there = refl })

  -- Where an identifier is drawn, the payload is not empty, the target resolves to a backend that
  -- is there, and the store, the sink and the backend succeed, `execute` of a command that the
  -- policy allows returns without an error, and the command ends succeeded if the backend's exit
  -- code is zero, and failed if it is not.
  pub execute-allowed :
      (o : Outcome)
      → judgement.decision ≡ allow
      → ((trace : List Entry) (p : Bytes) → env.exec trace b.backend_id p ≡ o)
      → (o.failed || o.audit_failed) ≡ false
      → ((execute env a session payload w).0 ≡ ok tt)
        × ((execute env a session payload w).1.current.state
            ≡ (if is_zero o.exit_code then succeeded else failed))
  execute-allowed o h runs fine =
      ended_in w (if is_zero o.exit_code then succeeded else failed)
        (execute-Goes env m replies a session payload id w.targets judgement b drawn not_empty bound
          served (λ w'. w'.current.state ≡ (if is_zero o.exit_code then succeeded else failed))
          (after_permission env m replies a session judgement b judgement.decision o h runs fine))
        (record { targets_there = refl; verdict_there = refl })
