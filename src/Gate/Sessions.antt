-- ===== src/Gate/Sessions.antt =====
-- The attachments, sessions and running commands of internal/gate/service.go: `Attach`,
-- `OpenSession`, `Close`, `CancelCommand`, `CancelSessionCommand` and `DetachTarget`. Whether a
-- call of the store, the aliases or the forwards succeeds is an argument.
pub mod Isolation
use windmill_gate.Base.{
  ℕ, Bool, true, false, not, ◌&&◌, ◌||◌, List, [], ◌∷◌, Option, none, some, if◌then◌else◌, Bytes,
  codes, is, is_empty, equal, length, ltb, any,
}
use windmill_gate.Base.Maps
use windmill_gate.Base.Maps.{Map}
use windmill_gate.Base.Results.{Result, ok, err, ◌>>=◌}
use windmill_gate.Base.Unicode.{runes, valid_string, is_control}
use windmill_gate.Target
use windmill_gate.Target.{Bindings, Binding, TargetError}
use windmill_gate.Policy.Engine
use windmill_gate.Policy.Engine.{Matching, Engine}

pub data ServiceError : Type 0 where
  bad_identity bad_fingerprint target_not_found not_attached no_session_id store_failed not_running
        not_owned close_failed :
      ServiceError

pub record AgentSession : Type 0 where
  pub id : Bytes
  pub identity : Bytes
  pub target_id : Bytes
  pub transport : Bytes
  pub fingerprint : Bytes

-- `runningCommand`; its context is cancelled or not
pub record Running : Type 0 where
  pub session_id : Bytes
  pub target_id : Bytes
  pub cancelled : Bool

pub record Service (m : Matching) : Type 0 where
  pub attachments : Map Bytes
  pub sessions : Map AgentSession
  pub running : Map Running
  pub targets : Bindings
  pub policy : Engine m

has_control : Bytes → Bool
has_control s = any (λ r. is_control r.value) (runes s)

unfoldable pub validate_identity : Bytes → Result ServiceError (Unit {0})
unfolding has_control
validate_identity identity =
    if is_empty identity
      || ltb 128 (length identity)
      || not (valid_string identity)
      || has_control identity
    then err bad_identity
    else ok tt

unfoldable pub validate_fingerprint : Bytes → Bytes → Result ServiceError (Unit {0})
unfolding has_control
validate_fingerprint transport fingerprint =
    if is transport "ssh" && is_empty fingerprint
      || ltb 256 (length fingerprint)
      || not (valid_string fingerprint)
      || has_control fingerprint
    then err bad_fingerprint
    else ok tt

-- the loop of `DetachTarget` over the attachments
unfoldable pub detach_all : Bytes → Map Bytes → Map Bytes
unfolding equal
detach_all target [] = []
detach_all target ((identity, attached) ∷ rest) =
    let others = detach_all target rest in
    if equal attached target then others else (identity, attached) ∷ others

-- the loops over the running commands
unfoldable pub cancel_where : (Running → Bool) → Map Running → Map Running
cancel_where p [] = []
cancel_where p ((id, r) ∷ rest) =
    (id, if p r then record r { cancelled = true } else r) ∷ cancel_where p rest

resolved : Result TargetError Binding → ServiceError → Result ServiceError Binding
resolved (ok b) e = ok b
resolved (err x) e = err e

made_id : Option Bytes → Result ServiceError Bytes
made_id none = err no_session_id
made_id (some id) = ok id

module _ {m : Matching} where
  -- `Attach`
  unfoldable pub attach : Bytes → Bytes → Service m → Result ServiceError (Service m)
  unfolding resolved
  attach identity target s = do
    _ ← validate_identity identity
    _ ← resolved (Target.resolve target s.targets) target_not_found
    ok (record s { attachments = Maps.insert identity target s.attachments })

  -- `s.attachments[identity]`, where it is not empty
  attached_to : Bytes → Service m → Result ServiceError Bytes
  attached_to identity s = elim (Maps.lookup identity s.attachments) [
    | none ↦ err not_attached
    | some t ↦ if is_empty t then err not_attached else ok t
  ]

  enroll : Bool → AgentSession → Service m → Result ServiceError (AgentSession × Service m)
  enroll stored session s =
      if stored
      then ok (session, record s { sessions = Maps.insert session.id session s.sessions })
      else err store_failed

  -- `OpenSession`; `id` is what `randomID` returns, `stored` whether `StartAgentSession` succeeds
  unfoldable pub open_session :
      Option Bytes
      → Bool
      → Bytes
      → Bytes
      → Bytes
      → Service m
      → Result ServiceError (AgentSession × Service m)
  unfolding attached_to made_id resolved enroll
  open_session id stored identity transport fingerprint s = do
    _ ← validate_identity identity
    _ ← validate_fingerprint transport fingerprint
    target ← attached_to identity s
    _ ← resolved (Target.resolve target s.targets) not_attached
    i ← made_id id
    let session : AgentSession = record {
      id = i;
      identity = identity;
      target_id = target;
      transport = transport;
      fingerprint = fingerprint;
    }
    enroll stored session s

  -- `Close`, the first time: its later calls do nothing
  unfoldable pub close_session : Bytes → Service m → Service m
  close_session id s = record s {
    sessions = Maps.delete id s.sessions;
    running = cancel_where (λ r. equal r.session_id id) s.running;
  }

  abbrev cancel_one : Bytes → Running → Service m → Service m
  cancel_one id r s = record s {
    running = Maps.insert id (record r { cancelled = true }) s.running;
  }

  -- `CancelCommand`
  unfoldable pub cancel_command : Bytes → Service m → Result ServiceError (Service m)
  cancel_command id s = elim (Maps.lookup id s.running) [
    | none ↦ err not_running
    | some r ↦ ok (cancel_one id r s)
  ]

  -- `CancelSessionCommand`
  unfoldable pub cancel_session_command :
      Bytes → Bytes → Service m → Result ServiceError (Service m)
  cancel_session_command session id s = elim (Maps.lookup id s.running) [
    | none ↦ err not_running
    | some r ↦ if equal r.session_id session then ok (cancel_one id r s) else err not_owned
  ]

  -- the part of `DetachTarget` under its lock
  unfoldable pub release : Bytes → Service m → Service m
  release target s = record s {
    attachments = detach_all target s.attachments;
    running = cancel_where (λ r. equal r.target_id target) s.running;
  }

  -- what `DetachTarget` does once the aliases and the forwards are closed
  unfoldable pub forget : Bytes → Bool → Service m → Result ServiceError (Unit {0}) × Service m
  forget target stored s = elim (Target.remove target s.targets) [
    | err _ ↦ (err target_not_found, s)
    | ok (_, rest) ↦ (
      if stored then ok tt else err store_failed,
      record s { targets = rest; policy = Engine.detach_target m s.policy target },
    )
  ]

  -- `DetachTarget`: what was done before an error stays done
  unfoldable pub detach_target :
      Bytes → (closed stored : Bool) → Service m → Result ServiceError (Unit {0}) × Service m
  unfolding release forget
  detach_target target closed stored s =
      if closed
      then forget target stored (release target s)
      else (err close_failed, release target s)
