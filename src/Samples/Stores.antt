-- ===== src/Samples/Stores.antt =====
-- internal/storage/storage.go and the audit writers on a session with two commands.
use windmill_gate.Store.Forwards.{close_stale_forwards, save_forward, save_host_alias}
use windmill_gate.Store.Agents.{create_command, record_approval, save_target, start_agent_session}
use windmill_gate.Base.{
  Bool, true, List, [], ◌∷◌, ◌+◌, ◌*◌, ◌≤◌, none, some, ◌≡◌, refl, arith, Bytes, codes, All, length,
  take, equal,
}
use windmill_gate.Base.Int.{pos}
use windmill_gate.Base.Results.{ok}
use windmill_gate.Command.{Command, queued}
use windmill_gate.Policy.Engine.{Verdict, allow, ask, persistent, default_source}
use windmill_gate.Approval.{HumanDecision, approve_once}
use windmill_gate.Target.{Binding}
use windmill_gate.Store.{has_key, Tables, ForwardRow, AliasRow, has_key}
use windmill_gate.Store.Output.{append_output, rows_of}
use windmill_gate.Store.Output.Relayed.{
  Write, IsWritable, append_all, stored_of, written_of, relayed_of, append_all-take,
}
use windmill_gate.Store.Integrity.{
  Operation, saves_target, starts_session, creates, records, appends, saves_forward, saves_alias,
  closes_stale, perform_all, IsConsistent,
}
use windmill_gate.Store.Integrity.Steps.{perform_all-IsConsistent}
use windmill_gate.Store.Views.{authorizations_since, auto_approve, user_approve}
use windmill_gate.Gate.Audit.{Written, on_stdout, on_stderr, start_writers, write_all, marker}
use windmill_gate.Gate.Audit.Bounds.{used_of, handed, write_all-bounded}

abbrev pub no_tables : Tables
no_tables = record {
  targets = [];
  sessions = [];
  commands = [];
  approvals = [];
  output = [];
  forwards = [];
  aliases = [];
}

abbrev pub bound : Binding
bound = record {
  public_target = record {
    id = codes "t";
    display_name = codes "web";
    backend = codes "w";
    created_at = 1;
  };
  backend_id = codes "9";
}

abbrev made : Bytes → Command
made id = record {
  id = id;
  agent_session_id = codes "s";
  target_id = codes "t";
  payload = codes "uptime";
  hash = codes "#";
  state = queued;
  created_at = 3;
  started_at = none;
  finished_at = none;
  exit_code = none;
}

abbrev asked : Verdict
asked = record { decision = ask; rule = []; source = default_source }

abbrev allowed : Verdict
allowed = record { decision = allow; rule = codes "^uptime$"; source = persistent }

abbrev approval : HumanDecision
approval = record {
  command_id = codes "b";
  hash = codes "#";
  action = approve_once;
  actor = codes "op";
  decided_at = some 4;
  rule = [];
}

abbrev pub forward : ForwardRow
forward = record {
  id = codes "f";
  target_id = codes "t";
  remote_host = codes "127.0.0.1";
  remote_port = 443;
  local_host = codes "127.0.0.1";
  local_port = 18443;
  state = codes "active";
  created_by = codes "op";
  created_at = 5;
  closed_by = none;
  closed_at = none;
}

abbrev alias : AliasRow
alias = record {
  hostname = codes "web.example.com";
  target_id = codes "t";
  forward_id = codes "f";
  address = codes "127.0.0.1";
  marker = codes "gate:A";
  created_by = codes "op";
  created_at = 6;
  removed_by = none;
  removed_at = none;
}

-- the second append fails: there is no such command
abbrev operations : List Operation
operations =
    saves_target bound
    ∷ starts_session (codes "s") (codes "agent") (codes "t") (codes "ssh") (codes "fp") 2
    ∷ creates (made (codes "a")) allowed
    ∷ creates (made (codes "b")) asked
    ∷ records approval
    ∷ appends 7 (codes "a") (codes "stdout") (codes "up") (pos 5)
    ∷ appends 7 (codes "c") (codes "stdout") (codes "up") (pos 5)
    ∷ saves_forward forward
    ∷ saves_alias alias
    ∷ closes_stale 8
    ∷ []

no_tables-IsConsistent : IsConsistent no_tables
no_tables-IsConsistent = record {
  sessions = tt;
  commands = tt;
  approvals = tt;
  output = tt;
  forwards = tt;
  aliases = tt;
}

perform_all-IsConsistent_example : IsConsistent (perform_all operations no_tables)
perform_all-IsConsistent_example =
    perform_all-IsConsistent operations no_tables no_tables-IsConsistent

abbrev tables : Tables
tables = record no_tables {
  commands =
      record { command = made (codes "a"); policy = allowed; policy_rule = none }
      ∷ record { command = made (codes "b"); policy = asked; policy_rule = none }
      ∷ [];
}

abbrev writes : List Write
writes =
    record { id = codes "a"; stream = codes "stdout"; data_bytes = codes "abc"; now = 1 }
    ∷ record { id = codes "b"; stream = codes "stdout"; data_bytes = codes "xyz"; now = 2 }
    ∷ record { id = codes "a"; stream = codes "stderr"; data_bytes = codes "defg"; now = 3 }
    ∷ record { id = codes "a"; stream = codes "stdout"; data_bytes = codes "h"; now = 4 }
    ∷ []

writable : All (IsWritable tables) writes
unfolding equal has_key
writable = (
  record { of_stream = refl; of_command = refl },
  (
    record { of_stream = refl; of_command = refl },
    (
      record { of_stream = refl; of_command = refl },
      (record { of_stream = refl; of_command = refl }, tt),
    ),
  ),
)

append_all-take_example :
    (replies : List (Write × (Bytes × Bool))) × (tables' : Tables) × (append_all 5 writes tables
      ≡ ok (replies, tables'))
    × ((id : Bytes)
        → rows_of id tables.output ≡ []
        → (stored_of id tables' ≡ take 5 (written_of id writes))
          × (relayed_of id replies ≡ stored_of id tables'))
append_all-take_example = append_all-take 4 writes tables writable

written_a : written_of (codes "a") writes ≡ codes "abcdefgh"
unfolding written_of equal
written_a = refl

abbrev calls : List Written
calls = on_stdout 1 (codes "abc") ∷ on_stderr 2 (codes "defg") ∷ on_stdout 3 (codes "h") ∷ []

-- two markers: one for each stream
handed_all :
    handed (write_all (λ sent. true) (codes "a") (pos 5) calls (start_writers tables)).relay.sent
    ≡ 5 + 2 * length marker
unfolding handed write_all start_writers append_output equal has_key
handed_all = refl

nothing_used : used_of (codes "a") tables ≤ 5
unfolding used_of
nothing_used = omega arith

write_all-bounded_example :
    let after = (write_all (λ sent. true) (codes "a") (pos 5) calls (start_writers tables)).relay in
    (used_of (codes "a") after.tables ≤ 5) × (handed after.sent ≤ 5 + 2 * length marker)
write_all-bounded_example = write_all-bounded (λ sent. true) (codes "a") 5 calls tables nothing_used

labels :
    authorizations_since 0 (perform_all operations no_tables)
    ≡ record {
      command_id = codes "a";
      agent_identity = codes "agent";
      payload = codes "uptime";
      label = auto_approve;
      created_at = 3;
    }
      ∷ record {
        command_id = codes "b";
        agent_identity = codes "agent";
        payload = codes "uptime";
        label = user_approve;
        created_at = 3;
      }
      ∷ []
unfolding perform_all authorizations_since save_target start_agent_session equal create_command
    record_approval append_output save_forward save_host_alias close_stale_forwards
labels = refl
