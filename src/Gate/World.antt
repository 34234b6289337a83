-- ===== src/Gate/World.antt =====
-- What a call of internal/gate/service.go works on, and everything it calls outside: the audit
-- store, the agent's event sink, the backend and the broker. A call appends to its trace, the
-- latest first, and may fail; what was done before a failure stays done.
use windmill_gate.Base.{ℕ, Bool, true, false, List, ◌∷◌, Option, some, ◌≡◌, if◌then◌else◌, Bytes}
use windmill_gate.Base.Int.{ℤ}
use windmill_gate.Base.Maps.{Map}
use windmill_gate.Base.Results.{Result, ok, err}
use windmill_gate.Command.{State, Command, CommandError, transition}
use windmill_gate.Target.{Bindings}
use windmill_gate.Policy.Engine.{Matching, Engine, Verdict}
use windmill_gate.Approval.{HumanDecision}
use windmill_gate.Approval.Decisions.{IsVerified}

-- A call of the store, the sink, the backend, or the notification of the operator's view.
pub data Event : Type 0 where
  created accepted : Command → Verdict → Event
  updated shown : Command → Event
  recorded : HumanDecision → Event
  executed : Bytes → Bytes → Event
  output : Bytes → Bytes → Event
  exited : Command → ℤ → Event
  error_shown notified : Event

-- A call, and whether it succeeded.
pub record Entry : Type 0 where
  pub event : Event
  pub succeeded : Bool

-- What `implementation.Exec` and the two audit writers leave behind.
pub record Outcome : Type 0 where
  pub exit_code : ℤ
  pub failed : Bool
  pub audit_failed : Bool
  pub cancelled : Bool

pub data GateError : Type 0 where
  bad_command no_target no_backend call_failed bad_transition not_approved bad_rule payload_changed
        execution_failed :
      GateError

pub record RunningCommand : Type 0 where
  pub session_id : Bytes
  pub target_id : Bytes

pub record Session : Type 0 where
  pub id : Bytes
  pub target_id : Bytes

-- The broker, as its client sees it: what `Wait` returns, and what it promises of a decision.
pub record Approvals (digest : Bytes → Bytes) : Type 0 where
  pub wait : List Entry → Command → Verdict → Option HumanDecision
  pub wait-IsVerified :
      (trace : List Entry) (c : Command) (v : Verdict) (d : HumanDecision)
      → wait trace c v ≡ some d
      → IsVerified digest (record { command = c; policy = v }) d

-- The outside: SHA-256, the random identifier, the clock, which calls succeed, and the backends.
pub record Environment : Type 0 where
  pub digest : Bytes → Bytes
  pub new_id : Option Bytes
  pub clock : List Entry → ℕ
  pub reply : List Entry → Event → Bool
  pub exec : List Entry → Bytes → Bytes → Outcome
  pub has_backend : Bytes → Bool

-- `current` is the command that the call made and mutates.
pub record World (m : Matching) : Type 0 where
  pub trace : List Entry
  pub engine : Engine m
  pub targets : Bindings
  pub running : Map RunningCommand
  pub current : Command

abbrev pub Gate {ℓ} : Matching → Type ℓ → Type ℓ
Gate m A = World m → Result GateError A × World m

module _ {ℓ} {m : Matching} {A : Type ℓ} where
  unfoldable pub pure : A → Gate m A
  pure a w = (ok a, w)

  unfoldable pub raise : GateError → Gate m A
  raise e w = (err e, w)

  unfoldable pub gets : (World m → A) → Gate m A
  gets f w = (ok (f w), w)

  unfoldable pub lift : {E : Type 0} → GateError → Result E A → Gate m A
  lift e r w = elim r [ ok a ↦ (ok a, w) | err _ ↦ (err e, w) ]

  -- `defer`: `after` runs whether or not the body fails
  unfoldable pub deferred : (World m → World m) → Gate m A → Gate m A
  deferred after body w = let (r, w') = body w in (r, after w')

module _ {ℓ κ} {m : Matching} {A : Type ℓ} {B : Type κ} where
  unfoldable pub continue : Result GateError A → (A → Gate m B) → Gate m B
  continue (ok a) f w = f a w
  continue (err e) f w = (err e, w)

  infixl 5 ◌>>=◌
  unfoldable pub ◌>>=◌ : Gate m A → (A → Gate m B) → Gate m B
  unfolding continue
  ◌>>=◌ p f w = let (r, w') = p w in continue r f w'

module _ (env : Environment) {m : Matching} where
  unfoldable pub modify : (World m → World m) → Gate m (Unit {0})
  modify f w = (ok tt, f w)

  unfoldable pub log : Event → Bool → World m → World m
  log e succeeded w = record w { trace = record { event = e; succeeded = succeeded } ∷ w.trace }

  unfoldable pub answered : Event → Bool → Gate m (Unit {0})
  answered e true w = (ok tt, log e true w)
  answered e false w = (err call_failed, log e false w)

  -- a call whose error ends the operation
  unfoldable pub call : Event → Gate m (Unit {0})
  unfolding log answered
  call e w = answered e (env.reply w.trace e) w

  -- a call whose error is ignored: `_ = …`
  unfoldable pub attempt : Event → Gate m Bool
  unfolding log
  attempt e w = (ok (env.reply w.trace e), log e (env.reply w.trace e) w)

  unfoldable pub moved : Result CommandError Command → Gate m (Unit {0})
  moved (ok c) w = (ok tt, record w { current = c })
  moved (err _) w = (err bad_transition, w)

  -- `cmd.Transition(next, exitCode)`
  unfoldable pub move : State → Option ℤ → Gate m (Unit {0})
  unfolding moved
  move next code w = moved (transition (env.clock w.trace) next code w.current) w

  -- `_ = cmd.Transition(next, exitCode)`
  unfoldable pub try_move : State → Option ℤ → Gate m (Unit {0})
  unfolding moved
  try_move next code w = (ok tt, (moved (transition (env.clock w.trace) next code w.current) w).1)

  -- `implementation.Exec`, with the audit writers it writes to
  unfoldable pub execute_on : Bytes → Bytes → Gate m Outcome
  unfolding log
  execute_on backend_id payload w =
      let o = env.exec w.trace backend_id payload in
      (ok o, log (executed backend_id payload) (if o.failed then false else true) w)
