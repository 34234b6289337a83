-- ===== src/Approval.antt =====
-- internal/approval/approval.go: pending requests, and decisions on them. Each operation is one
-- critical section of the broker; `Wait` is `submit` and then `receive` or `cancel`. A request
-- keeps the command itself, of which the source reads only what never changes.
pub mod Similar
pub mod Decisions
pub mod Waiting
use windmill_gate.Base.{
  ℕ, Bool, true, false, not, ◌&&◌, ◌||◌, List, [], ◌∷◌, Option, none, some, if◌then◌else◌, Bytes,
  is_empty, map,
}
use windmill_gate.Base.Maps
use windmill_gate.Base.Maps.{Map, map_values}
use windmill_gate.Base.Results.{Result, ok, err, ◌>>=◌}
use windmill_gate.Command
use windmill_gate.Command.{Command}
use windmill_gate.Policy.Engine.{Verdict}
use windmill_gate.Target.{is_blank}
use windmill_gate.Approval.Similar.{similar_pattern}

-- The type `Action` is a string in the source: a decision may carry any other.
pub data Action : Type 0 where
  approve_once allow_target deny : Action
  other_action : Bytes → Action

-- `none` is the zero time.
pub record HumanDecision : Type 0 where
  pub command_id : Bytes
  pub hash : Bytes
  pub action : Action
  pub actor : Bytes
  pub decided_at : Option ℕ
  pub rule : Bytes

pub record Request : Type 0 where
  pub command : Command
  pub policy : Verdict

pub data ApprovalError : Type 0 where
  not_pending already_pending invalid_decision no_actor wrong_payload : ApprovalError

-- `delivered` holds the decision in the channel of each request whose waiter has not read it,
-- with that request.
pub record Broker : Type 0 where
  pub pending : Map Request
  pub delivered : Map (Request × HumanDecision)
  pub changed : Bool

-- `NewBroker`
abbrev pub no_requests : Broker
no_requests = record { pending = []; delivered = []; changed = false }

-- The first part of `Wait`: the channel of the request is new. A command waits once, so no earlier
-- `Wait` of the same identifier still reads from another channel.
unfoldable pub submit : Command → Verdict → Broker → Result ApprovalError Broker
submit c verdict b = elim (Maps.lookup c.id b.pending) [
  | some _ ↦ err already_pending
  | none ↦ ok (record b {
    pending = Maps.insert c.id (record { command = c; policy = verdict }) b.pending;
    delivered = Maps.delete c.id b.delivered;
    changed = true;
  })
]

-- `Wait` reads the decision from its channel
unfoldable pub receive : Bytes → Broker → Option (HumanDecision × Broker)
receive id b = elim (Maps.lookup id b.delivered) [
  | none ↦ none
  | some (r, d) ↦ some (d, record b { delivered = Maps.delete id b.delivered })
]

-- `Wait` when its context ends; the channel of the request is dropped with it
unfoldable pub cancel : Bytes → Broker → Broker
cancel id b = record b {
  pending = Maps.delete id b.pending;
  delivered = Maps.delete id b.delivered;
  changed = true;
}

pub known_action : Action → Bool
known_action (other_action _) = false
known_action _ = true

pub is_allow_target : Action → Bool
is_allow_target allow_target = true
is_allow_target _ = false

or_now : ℕ → Option ℕ → Option ℕ
or_now now none = some now
or_now now (some t) = some t

-- the time and the rule that `Decide` fills in
unfoldable pub completed : ℕ → Request → HumanDecision → HumanDecision
unfolding is_allow_target or_now
completed now r d = record d {
  decided_at = or_now now d.decided_at;
  rule =
      if is_allow_target d.action && is_empty d.rule
      then similar_pattern r.command.payload
      else d.rule;
}

module _ (digest : Bytes → Bytes) where
  verified : Command → HumanDecision → Result ApprovalError (Unit {0})
  verified c d = elim (Command.verify_approval digest c d.command_id d.hash) [
    | ok _ ↦ ok tt
    | err _ ↦ err wrong_payload
  ]

  -- the checks of `Decide`, in their order
  unfoldable pub check : Request → HumanDecision → Result ApprovalError (Unit {0})
  unfolding known_action verified
  check r d =
      if not (known_action d.action)
      then err invalid_decision
      else if is_blank d.actor
      then err no_actor
      else verified r.command d

  -- `Decide`
  unfoldable pub decide : ℕ → HumanDecision → Broker → Result ApprovalError Broker
  decide now d b = elim (Maps.lookup d.command_id b.pending) [
    | none ↦ err not_pending
    | some r ↦ do
      _ ← check r d
      ok (record b {
        pending = Maps.delete d.command_id b.pending;
        delivered = Maps.insert d.command_id (r, completed now r d) b.delivered;
        changed = true;
      })
  ]

  -- the calls of `Decide` that others make; one that fails leaves the broker as it was
  unfoldable pub decide_all : List (ℕ × HumanDecision) → Broker → Broker
  decide_all [] b = b
  decide_all ((now, d) ∷ ds) b = elim (decide now d b) [
    | ok c ↦ decide_all ds c
    | err _ ↦ decide_all ds b
  ]

  -- The `select` of `Wait`: the decision is read where there is one, unless the context has `ended`
  -- as well and its case is chosen. Without a decision `Wait` goes on until the context ends.
  unfoldable pub answer : (ended : Bool) → Bytes → Broker → Option HumanDecision × Broker
  answer ended id b =
      if ended
      then (none, cancel id b)
      else elim (receive id b) [ some (d, rest) ↦ (some d, rest) | none ↦ (none, cancel id b) ]

  -- `Wait`, with the decisions that are made before it returns
  unfoldable pub wait :
      List (ℕ × HumanDecision)
      → (ended : Bool) → Command
      → Verdict
      → Broker
      → Result ApprovalError (Option HumanDecision × Broker)
  unfolding answer
  wait script ended c verdict b = do
    asked ← submit c verdict b
    ok (answer ended c.id (decide_all script asked))

-- `List`, before it is sorted by the time of creation
unfoldable pub list : Broker → List Request
list b = map_values b.pending

-- `ValidateDecision`
unfoldable pub validate_decision : HumanDecision → Result ApprovalError (Unit {0})
validate_decision d =
    if is_empty d.command_id || is_empty d.hash then err invalid_decision else ok tt
