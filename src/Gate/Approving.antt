-- ===== src/Gate/Approving.antt =====
-- The broker of internal/approval/approval.go as the `Approvals` of internal/gate/service.go.
use windmill_gate.Base.{ℕ, Bool, List, Option, none, some, ◌≡◌, Bytes, inl, inr}
use windmill_gate.Base.Results.{Result, ok, err, Result-cases}
use windmill_gate.Command.{Command}
use windmill_gate.Policy.Engine.{Verdict}
use windmill_gate.Approval.{HumanDecision, ApprovalError, Broker, wait}
use windmill_gate.Approval.Decisions.{IsVerified}
use windmill_gate.Approval.Waiting.{Returns, wait-IsAnswered}
use windmill_gate.Gate.World.{Entry, Approvals}

answer_of : Result ApprovalError (Option HumanDecision × Broker) → Option HumanDecision
answer_of (ok (o, b)) = o
answer_of (err e) = none

module _ (digest : Bytes → Bytes) (script : List Entry → List (ℕ × HumanDecision))
    (ended : List Entry → Bool) (b : Broker) where
  -- `s.Approvals.Wait(ctx, cmd, result)`, while others decide by the script and the context may end
  unfoldable pub ask_broker : List Entry → Command → Verdict → Option HumanDecision
  unfolding answer_of
  ask_broker trace c v = answer_of (wait digest (script trace) (ended trace) c v b)

  pub ask_broker-IsVerified :
      (trace : List Entry) (c : Command) (v : Verdict) (d : HumanDecision)
      → ask_broker trace c v ≡ some d
      → IsVerified digest (record { command = c; policy = v }) d
  unfolding ask_broker answer_of Returns
  ask_broker-IsVerified trace c v d h =
      elim (Result-cases (wait digest (script trace) (ended trace) c v b)) [
        | inl ((o, b'), e) ↦
            let answered = rw e at (wait-IsAnswered digest (script trace) (ended trace) c v b) in
            answered.1.right d (rw e at h)
        | inr (x, e) ↦ absurd (cc (rw e at h))
      ]

  -- What the gate relies on, from the broker's own laws.
  abbrev pub broker_approvals : Approvals digest
  broker_approvals = record { wait = ask_broker; wait-IsVerified = ask_broker-IsVerified }
