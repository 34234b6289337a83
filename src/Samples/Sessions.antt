-- ===== src/Samples/Sessions.antt =====
-- The sessions of internal/gate/service.go on the target and engine of the other runs.
use windmill_gate.Base.Unicode.{is_control, valid_string}
use windmill_gate.Base.{
  is_empty, true, false, [], ◌∷◌, some, ◌≡◌, refl, Bytes, codes, equal, if◌then◌else◌, is_empty,
}
use windmill_gate.Base.Maps.{lookup, insert}
use windmill_gate.Base.Results.{ok}
use windmill_gate.Target.{resolve, remove}
use windmill_gate.Gate.Sessions.{
  AgentSession, Running, Service, attach, open_session, cancel_session_command, detach_target,
  validate_fingerprint, validate_identity,
}
use windmill_gate.Gate.Sessions.Isolation.{
  IsReleased, detach_target-IsReleased, open_session-attached, attach-future,
  cancel_session_command-owned,
}
use windmill_gate.Samples.Policies.{exact, engine}
use windmill_gate.Samples.Gates.{target_id, bindings}

abbrev own : Running
own = record { session_id = codes "as_1"; target_id = target_id; cancelled = false }

abbrev pub service : Service exact
service = record {
  attachments = (codes "ann", target_id) ∷ [];
  sessions = [];
  running = (codes "cmd_1", own) ∷ [];
  targets = bindings;
  policy = engine;
}

detach_target-IsReleased_example :
    IsReleased target_id service (detach_target target_id true true service).1
detach_target-IsReleased_example = detach_target-IsReleased target_id true true service

target_detached : (detach_target target_id true true service).0 ≡ ok tt
unfolding detach_target remove lookup
target_detached = refl

abbrev opened : AgentSession
opened = record {
  id = codes "as_2";
  identity = codes "ann";
  target_id = target_id;
  transport = codes "unix";
  fingerprint = [];
}

abbrev after_open : Service exact
after_open = record service { sessions = (codes "as_2", opened) ∷ [] }

session_opened :
    open_session (some (codes "as_2")) true (codes "ann") (codes "unix") [] service
    ≡ ok (opened, after_open)
unfolding open_session validate_identity is_empty valid_string is_control validate_fingerprint equal
    lookup resolve insert
session_opened = refl

open_session-attached_example :
    (lookup (codes "ann") service.attachments ≡ some target_id)
    × (opened.identity ≡ codes "ann")
    × ((j : Bytes)
        → lookup j after_open.sessions
          ≡ (if equal (codes "as_2") j then some opened else lookup j service.sessions))
open_session-attached_example =
    open_session-attached (some (codes "as_2")) true (codes "ann") (codes "unix") [] service
      after_open opened session_opened

abbrev after_attach : Service exact
after_attach = record service {
  attachments = (codes "ann", target_id) ∷ (codes "bob", target_id) ∷ [];
}

bob_attached : attach (codes "bob") target_id service ≡ ok after_attach
unfolding attach validate_identity is_empty valid_string is_control resolve lookup insert
bob_attached = refl

attach-future_example :
    (after_attach.sessions ≡ service.sessions)
    × (after_attach.running ≡ service.running)
    × ((j : Bytes)
        → lookup j after_attach.attachments
          ≡ (if equal (codes "bob") j then some target_id else lookup j service.attachments))
attach-future_example = attach-future (codes "bob") target_id service after_attach bob_attached

abbrev after_cancel : Service exact
after_cancel = record service { running = (codes "cmd_1", record own { cancelled = true }) ∷ [] }

own_cancelled : cancel_session_command (codes "as_1") (codes "cmd_1") service ≡ ok after_cancel
unfolding cancel_session_command lookup insert
own_cancelled = refl

cancel_session_command-owned_example :
    (r : Running) × (lookup (codes "cmd_1") service.running ≡ some r)
    × (r.session_id ≡ codes "as_1")
    × ((j : Bytes)
        → lookup j after_cancel.running ≡ (
            if equal (codes "cmd_1") j
            then some (record r { cancelled = true })
            else lookup j service.running))
cancel_session_command-owned_example =
    cancel_session_command-owned (codes "as_1") (codes "cmd_1") service after_cancel own_cancelled
