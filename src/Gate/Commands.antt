-- ===== src/Gate/Commands.antt =====
-- `execute`, `authorizeCapability`, `completeCapability` and `finishDenied` of
-- internal/gate/service.go, step by step.
use windmill_gate.Base.{
  Bool, true, false, ◌||◌, [], ◌∷◌, ◌++◌, none, some, if◌then◌else◌, Bytes, codes,
}
use windmill_gate.Base.Int.{ℤ, pos, is_zero}
use windmill_gate.Base.Maps
use windmill_gate.Command
use windmill_gate.Command.{State, waiting, running, succeeded, failed, denied, cancelled, Command}
use windmill_gate.Target
use windmill_gate.Target.{Binding}
use windmill_gate.Policy.Engine
use windmill_gate.Policy.Engine.{Matching, Decision, allow, ask, deny, Verdict}
use windmill_gate.Approval.{Action, HumanDecision}
use windmill_gate.Gate.World.{
  created, accepted, updated, shown, recorded, output, exited, error_shown, notified, Outcome,
  bad_command, no_target, no_backend, not_approved, bad_rule, payload_changed, execution_failed,
  Session, Approvals, Environment, World, Gate, pure, raise, gets, lift, deferred, ◌>>=◌, modify,
  call, attempt, move, try_move, execute_on,
}

abbrev denial : Bytes → Bytes
denial actor = codes "gate: command denied by " ++ actor ++ 10 ∷ []

abbrev is_ask : Decision → Bool
is_ask ask = true
is_ask _ = false

module _ (env : Environment) (approvals : Approvals env.digest) {m : Matching} where
  abbrev current : Gate m Command
  current = gets (λ w. w.current)

  -- `Store.UpdateCommand(…, cmd.Snapshot())` and `sink.State(cmd.Snapshot())`
  unfoldable pub update : Gate m (Unit {0})
  update = do c ← current; call env (updated c)

  unfoldable pub show : Gate m (Unit {0})
  show = do c ← current; call env (shown c)

  unfoldable pub exit : ℤ → Gate m (Unit {0})
  exit code = do c ← current; call env (exited c code)

  -- `notifyAuthorizationChanged` never fails
  unfoldable pub notify : Gate m (Unit {0})
  notify = do _ ← attempt env notified; pure tt

  -- `finishDenied`
  unfoldable pub finish_denied : Bytes → Gate m (Unit {0})
  finish_denied actor = do
    _ ← move env denied (some (pos 126))
    _ ← update
    _ ← show
    _ ← call env (output (codes "stderr") (denial actor))
    exit (pos 126)

  -- `command.New`
  unfoldable pub create : Session → Bytes → Gate m (Unit {0})
  create session payload = do
    now ← gets (λ w. env.clock w.trace)
    c ←
        lift bad_command
          (Command.new env.digest env.new_id now session.id session.target_id payload)
    modify env (λ w. record w { current = c })

  -- the command and its verdict are stored and reported
  unfoldable pub announce : Command → Verdict → Gate m Verdict
  announce c verdict = do
    _ ← call env (created c verdict)
    _ ← if is_ask verdict.decision then pure tt else notify
    _ ← call env (accepted c verdict)
    pure verdict

  -- the verdict of the policy comes before anything else
  unfoldable pub submit_command : Session → Bytes → Gate m Verdict
  submit_command session payload = do
    verdict ← gets (λ w. Engine.evaluate m w.engine session.target_id payload)
    c ← current
    announce c verdict

  -- when the context ends before there is a decision
  unfoldable pub give_up : Gate m Bool
  give_up = do
    _ ← try_move env cancelled none
    c ← current
    stored ← attempt env (updated c)
    _ ← if stored then notify else pure tt
    raise not_approved

  -- what the action of a decision asks for
  unfoldable pub follow : Session → HumanDecision → Action → Gate m Bool
  follow session d Action.deny = do _ ← finish_denied d.actor; pure false
  follow session d Action.allow_target = do
    e ← gets (λ w. w.engine)
    e' ← lift bad_rule (Engine.allow_for_target m e session.target_id d.rule)
    _ ← modify env (λ w. record w { engine = e' })
    pure true
  follow session d _ = pure true

  unfoldable pub ask_human : Session → Verdict → Gate m Bool
  ask_human session verdict = do
    _ ← move env waiting none
    _ ← update
    _ ← show
    c ← current
    answer ← gets (λ w. approvals.wait w.trace c verdict)
    elim answer [
      | none ↦ give_up
      | some d ↦ do _ ← call env (recorded d); _ ← notify; follow session d d.action
    ]

  -- the `switch` on the decision: false where the command is denied and the operation returns
  unfoldable pub authorize : Session → Verdict → Decision → Gate m Bool
  authorize session verdict deny = do _ ← finish_denied (codes "policy"); pure false
  authorize session verdict allow = pure true
  authorize session verdict ask = ask_human session verdict

  -- the second check of the hash, and the transition to `Running`
  unfoldable pub start : Gate m (Unit {0})
  start = do
    c ← current
    _ ← lift payload_changed (Command.verify_approval env.digest c c.id c.hash)
    _ ← move env running none
    _ ← update
    show

  -- `_ = sink.Error(…)` and `_ = sink.Exit(…)`
  unfoldable pub report_failure : Command → Gate m (Unit {0})
  report_failure c = do _ ← attempt env error_shown; _ ← attempt env (exited c (pos 1)); pure tt

  unfoldable pub fail_execution : Outcome → Gate m (Unit {0})
  fail_execution o = do
    _ ← try_move env (if o.cancelled then cancelled else failed) (some (pos 1))
    c ← current
    _ ← attempt env (updated c)
    _ ← report_failure c
    raise execution_failed

  unfoldable pub finish_execution : Outcome → Gate m (Unit {0})
  finish_execution o = if o.failed || o.audit_failed then fail_execution o else do
    _ ← move env (if is_zero o.exit_code then succeeded else failed) (some o.exit_code)
    _ ← update
    exit o.exit_code

  abbrev pub register : Session → World m → World m
  register session w = record w {
    running =
        Maps.insert w.current.id (record { session_id = session.id; target_id = session.target_id })
          w.running;
  }

  abbrev pub unregister : World m → World m
  unregister w = record w { running = Maps.delete w.current.id w.running }

  -- from the entry in `s.running` on
  unfoldable pub run : Session → Binding → Gate m (Unit {0})
  run session binding = do
    _ ← modify env (register session)
    deferred unregister
        (do c ← current; o ← execute_on env binding.backend_id c.payload; finish_execution o)

  unfoldable pub proceed : Session → Binding → Gate m (Unit {0})
  proceed session binding = do _ ← start; run session binding

  unfoldable pub need_backend : Bytes → Gate m (Unit {0})
  need_backend name = if env.has_backend name then pure tt else raise no_backend

  -- `execute`
  unfoldable pub execute : Session → Bytes → Gate m (Unit {0})
  execute session payload = do
    _ ← create session payload
    targets ← gets (λ w. w.targets)
    binding ← lift no_target (Target.resolve session.target_id targets)
    _ ← need_backend binding.public_target.backend
    verdict ← submit_command session payload
    authorized ← authorize session verdict verdict.decision
    if authorized then proceed session binding else pure tt

  unfoldable pub started : Gate m Bool
  started = do _ ← start; pure true

  -- `authorizeCapability`: whether the capability may be used; its command is `current`
  unfoldable pub authorize_capability : Session → Bytes → Gate m Bool
  authorize_capability session payload = do
    _ ← create session payload
    verdict ← submit_command session payload
    authorized ← authorize session verdict verdict.decision
    if authorized then started else pure false

  -- `completeCapability`
  unfoldable pub complete_capability : Bool → Gate m Command
  complete_capability operation_failed = do
    _ ←
        move env (if operation_failed then failed else succeeded)
          (some (if operation_failed then pos 1 else pos 0))
    _ ← update
    _ ← show
    c ← current
    _ ← if operation_failed then report_failure c else pure tt
    pure c
