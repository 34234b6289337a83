-- ===== src/Store/Views.antt =====
-- What the operator sees of the audit store: `AuthorizationsSince` and `History` of
-- internal/storage/storage.go. A row is joined with its session, its target, its last approval and
-- its output.
use windmill_gate.Base.{
  ℕ, Bool, true, false, ◌||◌, List, [], ◌∷◌, ◌++◌, Option, none, some, leb, ltb, ◌==◌, take,
  if◌then◌else◌, Bytes, equal, is_empty,
}
use windmill_gate.Base.Int.{ℤ, pos, negsuc}
use windmill_gate.Base.Rows.{select, order_by, order_latest}
use windmill_gate.Command.{Command, State, cancelled}
use windmill_gate.Policy.Engine.{Decision, allow, ask, deny, Verdict}
use windmill_gate.Approval.{HumanDecision, Action, approve_once, allow_target, other_action}
use windmill_gate.Approval
use windmill_gate.Store.{
  SessionRow, CommandRow, ApprovalRow, TargetRow, Tables, target_key, or_empty,
}
use windmill_gate.Store.Output.{rows_of, used_bytes, any_truncated}

-- What the operator's ledger shows of a decision.
pub data Label : Type 0 where
  auto_approve auto_blocked user_approve user_blocked was_cancelled : Label

abbrev pub is_cancelled : State → Bool
is_cancelled cancelled = true
is_cancelled _ = false

-- the label of a command that policy asked about
unfoldable pub ask_label : Option Action → State → Option Label
ask_label (some approve_once) state = some user_approve
ask_label (some allow_target) state = some user_approve
ask_label (some Approval.deny) state = some user_blocked
ask_label (some (other_action name)) state = if is_cancelled state then some was_cancelled else none
ask_label none state = if is_cancelled state then some was_cancelled else none

unfoldable pub label_of : Decision → Option Action → State → Option Label
unfolding ask_label
label_of allow action state = some auto_approve
label_of deny action state = some auto_blocked
label_of ask action state = ask_label action state

-- `SELECT MAX(id) FROM approvals WHERE command_id = c.id`: the last row of the command
unfoldable pub last_approval : Bytes → List ApprovalRow → Option HumanDecision
last_approval id [] = none
last_approval id (r ∷ rs) = elim (last_approval id rs) [
  | some later ↦ some later
  | none ↦ if equal r.decision.command_id id then some r.decision else none
]

unfoldable pub session_of : Bytes → List SessionRow → Option SessionRow
session_of id [] = none
session_of id (r ∷ rs) = if equal r.id id then some r else session_of id rs

unfoldable pub target_of : Bytes → List TargetRow → Option TargetRow
target_of id [] = none
target_of id (r ∷ rs) = if equal (target_key r) id then some r else target_of id rs

unfoldable pub action_of : Option HumanDecision → Option Action
action_of none = none
action_of (some d) = some d.action

-- `AuthorizationEntry`
pub record AuthorizationEntry : Type 0 where
  pub command_id : Bytes
  pub agent_identity : Bytes
  pub payload : Bytes
  pub label : Label
  pub created_at : ℕ

authorization_from : CommandRow → Option SessionRow → Option Label → List AuthorizationEntry
authorization_from r (some s) (some label) =
    record {
      command_id = r.command.id;
      agent_identity = s.identity;
      payload = r.command.payload;
      label = label;
      created_at = r.command.created_at;
    }
    ∷ []
authorization_from r _ _ = []

-- the entry of a row, if it has one: a join without a session drops it
unfoldable pub authorization : Tables → CommandRow → List AuthorizationEntry
unfolding authorization_from session_of last_approval action_of label_of
authorization tables r =
    authorization_from r (session_of r.command.agent_session_id tables.sessions) (
      label_of r.policy.decision (action_of (last_approval r.command.id tables.approvals))
        r.command.state)

unfoldable pub authorizations : Tables → List CommandRow → List AuthorizationEntry
unfolding authorization
authorizations tables [] = []
authorizations tables (r ∷ rs) = authorization tables r ++ authorizations tables rs

-- `AuthorizationsSince`; commands of one instant stay in the order of their creation
unfoldable pub authorizations_since : ℕ → Tables → List AuthorizationEntry
unfolding authorizations select order_by
authorizations_since started tables = authorizations tables (
    order_by (λ r. r.command.created_at)
      (select (λ r. leb started r.command.created_at) tables.commands))

-- `HistoryEntry`
pub record HistoryEntry : Type 0 where
  pub command : Command
  pub agent_identity : Bytes
  pub target_name : Bytes
  pub policy : Verdict
  pub policy_rule : Bytes
  pub approval_action : Option Action
  pub approval_actor : Bytes
  pub output_bytes : ℕ
  pub truncated : Bool

actor_of : Option HumanDecision → Bytes
actor_of none = []
actor_of (some d) = d.actor

history_from : Tables → CommandRow → Option SessionRow → Option TargetRow → List HistoryEntry
unfolding last_approval action_of rows_of used_bytes any_truncated actor_of
history_from tables r (some s) (some t) =
    let decision = last_approval r.command.id tables.approvals in
    let output = rows_of r.command.id tables.output in
    record {
      command = r.command;
      agent_identity = s.identity;
      target_name = t.binding.public_target.display_name;
      policy = r.policy;
      policy_rule = or_empty r.policy_rule;
      approval_action = action_of decision;
      approval_actor = actor_of decision;
      output_bytes = used_bytes output;
      truncated = any_truncated output;
    }
    ∷ []
history_from tables r _ _ = []

unfoldable pub history_entries : Tables → List CommandRow → List HistoryEntry
unfolding history_from session_of target_of
history_entries tables [] = []
history_entries tables (r ∷ rs) =
    history_from tables r (session_of r.command.agent_session_id tables.sessions)
      (target_of r.command.target_id tables.targets)
    ++ history_entries tables rs

unfoldable pub history_limit : ℤ → ℕ
history_limit (negsuc n) = 1000
history_limit (pos n) = if n == 0 || ltb 10000 n then 1000 else n

-- `History`; the latest command comes first
unfoldable pub history : Bytes → ℤ → Tables → List HistoryEntry
unfolding history_entries history_limit select order_latest is_empty
history session_id limit tables = take (history_limit limit) (
    history_entries tables (
      (order_latest (λ r. r.command.created_at)
        (select (λ r. is_empty session_id || equal r.command.agent_session_id session_id)
          tables.commands))))
