-- ===== src/Store.antt =====
-- internal/storage/storage.go: the tables of the audit store. A statement works on the rows of its
-- table and is refused where the schema's keys, references or checks refuse it; a failure of the
-- file or of the driver is not modelled. The clock is an argument. `Open`, `migrate` and
-- `ensureColumn` only prepare the file.
pub mod Agents
pub mod Output
pub mod Forwards
pub mod Views
pub mod Integrity
use windmill_gate.Base.{
  ℕ, Bool, true, false, List, [], Option, none, some, Bytes, any, all, equal, if◌then◌else◌,
}
use windmill_gate.Base.Int.{ℤ}
use windmill_gate.Base.Rows.{update}
use windmill_gate.Base.Results.{Result, ok, err}
use windmill_gate.Base.Unicode.{runes, is_space}
use windmill_gate.Command.{Command}
use windmill_gate.Policy.Engine.{Verdict}
use windmill_gate.Approval.{HumanDecision}
use windmill_gate.Target.{Binding}

pub data StoreError : Type 0 where
  bad_stream bad_limit constraint_failed nothing_changed : StoreError

-- `targets`
pub record TargetRow : Type 0 where
  pub binding : Binding
  pub detached_at : Option ℕ

-- `agent_sessions`
pub record SessionRow : Type 0 where
  pub id : Bytes
  pub identity : Bytes
  pub target_id : Bytes
  pub transport : Bytes
  pub fingerprint : Option Bytes
  pub started_at : ℕ
  pub ended_at : Option ℕ

-- `commands`
pub record CommandRow : Type 0 where
  pub command : Command
  pub policy : Verdict
  pub policy_rule : Option Bytes

-- `approvals`, whose identifier is the row's position
pub record ApprovalRow : Type 0 where
  pub decision : HumanDecision
  pub rule : Option Bytes

-- `command_output`
pub record OutputRow : Type 0 where
  pub command_id : Bytes
  pub stream : Bytes
  pub sequence : ℕ
  pub data_bytes : Bytes
  pub truncated : Bool
  pub created_at : ℕ

-- `ForwardRecord` and `forwards`
pub record ForwardRow : Type 0 where
  pub id : Bytes
  pub target_id : Bytes
  pub remote_host : Bytes
  pub remote_port : ℕ
  pub local_host : Bytes
  pub local_port : ℕ
  pub state : Bytes
  pub created_by : Bytes
  pub created_at : ℕ
  pub closed_by : Option Bytes
  pub closed_at : Option ℕ

-- `HostAliasRecord` and `host_aliases`
pub record AliasRow : Type 0 where
  pub hostname : Bytes
  pub target_id : Bytes
  pub forward_id : Bytes
  pub address : Bytes
  pub marker : Bytes
  pub created_by : Bytes
  pub created_at : ℕ
  pub removed_by : Option Bytes
  pub removed_at : Option ℕ

pub record Tables : Type 0 where
  pub targets : List TargetRow
  pub sessions : List SessionRow
  pub commands : List CommandRow
  pub approvals : List ApprovalRow
  pub output : List OutputRow
  pub forwards : List ForwardRow
  pub aliases : List AliasRow

abbrev pub is_null : Option ℕ → Bool
is_null none = true
is_null (some _) = false

-- the keys of the rows
abbrev pub target_key : TargetRow → Bytes
target_key r = r.binding.public_target.id

abbrev pub session_key : SessionRow → Bytes
session_key r = r.id

abbrev pub command_key : CommandRow → Bytes
command_key r = r.command.id

abbrev pub forward_key : ForwardRow → Bytes
forward_key r = r.id

-- whether a table has the key
unfoldable pub has_key : {A : Type 0} → (A → Bytes) → Bytes → List A → Bool
has_key key k rows = any (λ r. equal (key r) k) rows

-- `requireChanged` on an update
unfoldable pub require_changed :
    {A : Type 0} → (A → Bool) → (A → A) → List A → Result StoreError (List A)
unfolding update
require_changed p f rows = if any p rows then ok (update p f rows) else err nothing_changed

-- `nullable`
unfoldable pub nullable : Bytes → Option Bytes
nullable value = if all (λ r. is_space r.value) (runes value) then none else some value

-- `COALESCE(column, '')`
abbrev pub or_empty : Option Bytes → Bytes
or_empty none = []
or_empty (some s) = s
