-- ===== src/Store/Agents.antt =====
-- The tables `targets`, `agent_sessions`, `commands` and `approvals` of internal/storage/storage.go.
use windmill_gate.Base.{
  ℕ, Bool, not, ◌&&◌, ◌||◌, List, [], ◌∷◌, ◌++◌, map, none, some, if◌then◌else◌, Bytes, equal,
}
use windmill_gate.Base.Rows.{select, upsert, order_by, order_latest}
use windmill_gate.Base.Results.{Result, ok, err, ◌>>=◌}
use windmill_gate.Command.{Command}
use windmill_gate.Policy.Engine.{Verdict}
use windmill_gate.Approval.{HumanDecision}
use windmill_gate.Target.{Binding}
use windmill_gate.Store.{
  StoreError, constraint_failed, TargetRow, SessionRow, CommandRow, Tables, is_null, target_key,
  session_key, command_key, has_key, require_changed, nullable,
}

-- the columns that a conflict sets; the first creation time stays
unfoldable pub rebind : Binding → TargetRow → TargetRow
rebind b old = record {
  binding = record b {
    public_target = record b.public_target { created_at = old.binding.public_target.created_at };
  };
  detached_at = none;
}

-- `SaveTarget`
unfoldable pub save_target : Binding → Tables → Result StoreError Tables
unfolding upsert rebind
save_target b tables = ok (record tables {
  targets =
      upsert (λ r. equal (target_key r) b.public_target.id) (rebind b)
        (record { binding = b; detached_at = none }) tables.targets;
})

-- `DetachTarget`
unfoldable pub detach_target : Bytes → ℕ → Tables → Result StoreError Tables
unfolding require_changed
detach_target id now tables = do
  rows ←
      require_changed (λ r. equal (target_key r) id && is_null r.detached_at)
        (λ r. record r { detached_at = some now }) tables.targets
  ok (record tables { targets = rows })

-- `ActiveTargets`
unfoldable pub active_targets : Tables → List Binding
unfolding select order_by
active_targets tables =
    map (λ r. r.binding)
      (order_by (λ r. r.binding.public_target.created_at)
        (select (λ r. is_null r.detached_at) tables.targets))

-- `StartAgentSession`
unfoldable pub start_agent_session :
    Bytes → Bytes → Bytes → Bytes → Bytes → ℕ → Tables → Result StoreError Tables
unfolding nullable has_key
start_agent_session id identity target_id transport fingerprint now tables =
    if has_key session_key id tables.sessions || not (has_key target_key target_id tables.targets)
    then err constraint_failed
    else ok (record tables {
      sessions =
          tables.sessions
          ++ record {
            id = id;
            identity = identity;
            target_id = target_id;
            transport = transport;
            fingerprint = nullable fingerprint;
            started_at = now;
            ended_at = none;
          }
            ∷ [];
    })

-- `EndAgentSession`
unfoldable pub end_agent_session : Bytes → ℕ → Tables → Result StoreError Tables
unfolding require_changed
end_agent_session id now tables = do
  rows ←
      require_changed (λ r. equal (session_key r) id && is_null r.ended_at)
        (λ r. record r { ended_at = some now }) tables.sessions
  ok (record tables { sessions = rows })

-- `CreateCommand`: the columns of the start and the end are left empty
unfoldable pub create_command : Command → Verdict → Tables → Result StoreError Tables
unfolding nullable has_key
create_command c verdict tables =
    if has_key command_key c.id tables.commands
      || not (has_key session_key c.agent_session_id tables.sessions)
      || not (has_key target_key c.target_id tables.targets)
    then err constraint_failed
    else ok (record tables {
      commands =
          tables.commands
          ++ record {
            command = record c { started_at = none; finished_at = none; exit_code = none };
            policy = verdict;
            policy_rule = nullable verdict.rule;
          }
            ∷ [];
    })

-- the columns that `UpdateCommand` sets
unfoldable pub progressed : Command → CommandRow → CommandRow
progressed c r = record r {
  command = record r.command {
    state = c.state;
    started_at = c.started_at;
    finished_at = c.finished_at;
    exit_code = c.exit_code;
  };
}

-- `UpdateCommand`
unfoldable pub update_command : Command → Tables → Result StoreError Tables
unfolding require_changed progressed
update_command c tables = do
  rows ← require_changed (λ r. equal (command_key r) c.id) (progressed c) tables.commands
  ok (record tables { commands = rows })

-- `RecordApproval`
unfoldable pub record_approval : HumanDecision → Tables → Result StoreError Tables
unfolding nullable has_key
record_approval d tables =
    if has_key command_key d.command_id tables.commands
    then ok (record tables {
      approvals = tables.approvals ++ record { decision = d; rule = nullable d.rule } ∷ [];
    })
    else err constraint_failed

-- `AgentSessions`, the latest first
unfoldable pub agent_sessions : Bool → Tables → List SessionRow
unfolding select order_latest
agent_sessions active_only tables =
    order_latest (λ r. r.started_at)
      (select (λ r. not active_only || is_null r.ended_at) tables.sessions)
