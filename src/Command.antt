-- ===== src/Command.antt =====
-- internal/command/command.go: an immutable payload with its audited lifecycle. SHA-256, the random
-- identifier and the clock are arguments. A method that changes the command returns the new record.
pub mod Lifecycle
pub mod Traces
use windmill_gate.Base.{
  ℕ, Bool, true, false, not, ◌&&◌, ◌||◌, Option, none, some, if◌then◌else◌, Bytes, is_empty, equal,
  ◌==◌,
}
use windmill_gate.Base.Int.{ℤ}
use windmill_gate.Base.Results.{Result, ok, err}

pub data State : Type 0 where
  queued waiting running succeeded failed denied cancelled : State

pub data CommandError : Type 0 where
  empty_payload no_id payload_changed invalid_transition : CommandError

-- `Snapshot` has the same fields, copied.
pub record Command : Type 0 where
  pub id : Bytes
  pub agent_session_id : Bytes
  pub target_id : Bytes
  pub payload : Bytes
  pub hash : Bytes
  pub state : State
  pub created_at : ℕ
  pub started_at : Option ℕ
  pub finished_at : Option ℕ
  pub exit_code : Option ℤ

module _ (digest : Bytes → Bytes) where
  -- `New`; `id` is what `newID` returns
  unfoldable pub new : Option Bytes → ℕ → Bytes → Bytes → Bytes → Result CommandError Command
  new id now session target payload = if is_empty payload then err empty_payload else elim id [
    | none ↦ err no_id
    | some i ↦ ok (record {
      id = i;
      agent_session_id = session;
      target_id = target;
      payload = payload;
      hash = digest payload;
      state = queued;
      created_at = now;
      started_at = none;
      finished_at = none;
      exit_code = none;
    })
  ]

  -- `VerifyApproval`
  unfoldable pub verify_approval : Command → Bytes → Bytes → Result CommandError (Unit {0})
  unfolding equal
  verify_approval c command_id approved_hash =
      if not (equal command_id c.id)
        || not (equal approved_hash c.hash)
        || not (equal (digest c.payload) c.hash)
      then err payload_changed
      else ok tt

unfoldable pub allowed_transition : State → State → Bool
allowed_transition queued waiting = true
allowed_transition queued running = true
allowed_transition queued denied = true
allowed_transition queued cancelled = true
allowed_transition waiting running = true
allowed_transition waiting denied = true
allowed_transition waiting cancelled = true
allowed_transition running succeeded = true
allowed_transition running failed = true
allowed_transition running cancelled = true
allowed_transition _ _ = false

-- `next == Succeeded || next == Failed || next == Denied || next == Cancelled`
abbrev pub is_terminal : State → Bool
is_terminal succeeded = true
is_terminal failed = true
is_terminal denied = true
is_terminal cancelled = true
is_terminal _ = false

abbrev pub is_running : State → Bool
is_running running = true
is_running _ = false

abbrev pub or_else : Option ℤ → Option ℤ → Option ℤ
or_else none old = old
or_else (some code) old = some code

-- `Transition` at the time `now`
unfoldable pub transition : ℕ → State → Option ℤ → Command → Result CommandError Command
unfolding allowed_transition
transition now next code c =
    if allowed_transition c.state next
    then ok (record c {
      started_at = if is_running next then some now else c.started_at;
      finished_at = if is_terminal next then some now else c.finished_at;
      exit_code = or_else code c.exit_code;
      state = next;
    })
    else err invalid_transition
