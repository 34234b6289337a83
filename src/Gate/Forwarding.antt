-- ===== src/Gate/Forwarding.antt =====
-- The forwarding operations of a session, and `AddTarget`, in internal/gate/service.go: a capability
-- is authorized as a command is, before the managers of forwards and aliases act.
pub mod Guarded
use windmill_gate.Base.{
  ℕ, Bool, true, false, List, [], ◌∷◌, ◌++◌, Option, none, some, ◌==◌, if◌then◌else◌, Bytes, codes,
}
use windmill_gate.Base.Decimals.{itoa}
use windmill_gate.Base.Results.{Result, ok, err}
use windmill_gate.Target
use windmill_gate.Target.{Bindings, Binding}
use windmill_gate.Store.{Tables}
use windmill_gate.Store.Agents.{save_target}
use windmill_gate.Policy.Engine.{Matching}
use windmill_gate.Forward.Hosts.{AliasError, normalize_hostname}
use windmill_gate.Forward.Manager.{ForwardError, Info, Outside}
use windmill_gate.Forward.Manager
use windmill_gate.Forward.Aliases.{AliasManager, AliasInfo, AliasOutside}
use windmill_gate.Forward.Aliases
use windmill_gate.Gate.World.{Environment, Approvals, World, Session, GateError}
use windmill_gate.Gate.Commands.{authorize_capability, complete_capability}

pub data CapabilityError : Type 0 where
  bad_port not_enabled : CapabilityError
  bad_name alias_failed : AliasError → CapabilityError
  forward_failed : ForwardError → CapabilityError
  gate_failed : GateError → CapabilityError

pub data AddTargetError : Type 0 where
  no_backend not_added not_saved : AddTargetError

-- `s.Forwards` and `s.Aliases`, which `EnableForwarding` sets together; the second holds the first.
abbrev pub Forwarding : Type 0
Forwarding = Option AliasManager

-- What an operation returns: nothing where it was not authorized.
abbrev pub Answer : Type 0 → Type 0
Answer A = Result CapabilityError (Option A)

unfoldable pub failed_with : {A : Type 0} → Result CapabilityError A → Bool
failed_with (ok _) = false
failed_with (err _) = true

abbrev pub forward_payload : ℕ → Bytes
forward_payload port = codes "gate forward add --remote-port " ++ itoa port

abbrev pub alias_payload : Bytes → ℕ → Bytes
alias_payload hostname port =
    codes "gate host add " ++ (hostname ++ (codes " --remote-port " ++ itoa port))

-- the first forward of the list to the port
unfoldable pub forward_to : ℕ → List Info → Option Info
forward_to port [] = none
forward_to port (i ∷ infos) = if i.remote_port == port then some i else forward_to port infos

abbrev pub State : Matching → Type 0
State m = World m × Forwarding

forwarded : Result ForwardError Info → Result CapabilityError Info
forwarded (ok i) = ok i
forwarded (err e) = err (forward_failed e)

unfoldable pub open_forward :
    Outside → Bytes → Session → ℕ → Forwarding → Result CapabilityError Info × Forwarding
unfolding forwarded
open_forward out identity session port none = (err not_enabled, none)
open_forward out identity session port (some a) =
    let (result, forwards) = Manager.add out session.target_id port identity a.forwards in
    (forwarded result, some (record a { forwards = forwards }))

-- the forward that the alias is linked to, and whether it was made for it
unfoldable pub linked_or_opened :
    Outside
    → Bytes
    → Session
    → ℕ
    → AliasManager
    → Result CapabilityError (Info × Bool) × AliasManager
unfolding forward_to
linked_or_opened out identity session port a =
    elim (forward_to port (Manager.list session.target_id a.forwards)) [
      | some i ↦ (ok (i, false), a)
      | none ↦
          let (result, forwards) = Manager.add out session.target_id port identity a.forwards in
          elim result [
            | err e ↦ (err (forward_failed e), record a { forwards = forwards })
            | ok i ↦ (ok (i, true), record a { forwards = forwards })
          ]
    ]

-- a forward that was made for the alias is closed again
unfoldable pub rolled_back : Outside → Session → Info → Bool → AliasManager → AliasManager
rolled_back out session i created a =
    if created
    then record a {
      forwards = (Manager.close out session.target_id i.id (codes "alias-rollback") a.forwards).1;
    }
    else a

unfoldable pub open_alias :
    Outside
    → AliasOutside
    → Bytes
    → Session
    → Bytes
    → ℕ
    → Forwarding
    → Result CapabilityError AliasInfo × Forwarding
unfolding linked_or_opened rolled_back
open_alias out names identity session hostname port none = (err not_enabled, none)
open_alias out names identity session hostname port (some a) =
    let (linked, a') = linked_or_opened out identity session port a in
    elim linked [
      | err e ↦ (err e, some a')
      | ok (i, created) ↦
          let (result, last) = Aliases.add names session.target_id i.id hostname identity a' in
          elim result [
            | ok alias ↦ (ok alias, some last)
            | err e ↦ (err (alias_failed e), some (rolled_back out session i created last))
          ]
    ]

module _ (env : Environment) (approvals : Approvals env.digest) {m : Matching} where
  -- `completeCapability` with what the operation returned
  unfoldable pub finished : {A : Type 0} → Result CapabilityError A → State m → Answer A × State m
  unfolding failed_with
  finished result (w, f) =
      let (completed, w') = complete_capability env approvals (failed_with result) w in
      elim result [
        | err e ↦ (err e, (w', f))
        | ok a ↦ elim completed [
          | err e ↦ (err (gate_failed e), (w', f))
          | ok _ ↦ (ok (some a), (w', f))
        ]
      ]

  -- the operation runs only when `authorizeCapability` says so
  unfoldable pub when_authorized :
      {A : Type 0}
      → Session
      → Bytes
      → (Forwarding → Result CapabilityError A × Forwarding)
      → State m
      → Answer A × State m
  unfolding finished
  when_authorized session payload operation (w, f) =
      let (authorized, w') = authorize_capability env approvals session payload w in
      let (result, f') = operation f in
      elim authorized [
        | err e ↦ (err (gate_failed e), (w', f))
        | ok granted ↦ if granted then finished result (w', f') else (ok none, (w', f))
      ]

  -- `AddForward`
  unfoldable pub add_forward : Outside → Bytes → Session → ℕ → State m → Answer Info × State m
  unfolding when_authorized open_forward itoa
  add_forward out identity session port s =
      if port == 0
      then (err bad_port, s)
      else when_authorized session (forward_payload port) (open_forward out identity session port) s

  -- `AddHostAlias`
  unfoldable pub add_host_alias :
      Outside → AliasOutside → Bytes → Session → Bytes → ℕ → State m → Answer AliasInfo × State m
  unfolding when_authorized open_alias itoa
  add_host_alias out names identity session hostname port s =
      if port == 0 then (err bad_port, s) else elim (normalize_hostname hostname) [
        | err e ↦ (err (bad_name e), s)
        | ok name ↦
            when_authorized session (alias_payload name port)
              (open_alias out names identity session name port) s
      ]

-- `ListForwards` and `ListHostAliases`
unfoldable pub list_forwards : Session → Forwarding → Result CapabilityError (List Info)
list_forwards session none = err not_enabled
list_forwards session (some a) = ok (Manager.list session.target_id a.forwards)

unfoldable pub list_host_aliases : Session → Forwarding → Result CapabilityError (List AliasInfo)
list_host_aliases session none = err not_enabled
list_host_aliases session (some a) = ok (Aliases.list session.target_id a)

-- `RemoveForward`: its aliases are closed first
unfoldable pub remove_forward :
    Outside
    → AliasOutside
    → Bytes
    → Session
    → Bytes
    → Forwarding
    → Result CapabilityError (Unit {0}) × Forwarding
remove_forward out names identity session id none = (err not_enabled, none)
remove_forward out names identity session id (some a) =
    let (aliases, a') = Aliases.close_forward names session.target_id id identity a in
    elim aliases [
      | err e ↦ (err (alias_failed e), some a')
      | ok _ ↦
          let (closed, forwards) = Manager.close out session.target_id id identity a'.forwards in
          let left = some (record a' { forwards = forwards }) in
          elim closed [ ok _ ↦ (ok tt, left) | err e ↦ (err (forward_failed e), left) ]
    ]

-- `RemoveHostAlias`
unfoldable pub remove_host_alias :
    AliasOutside
    → Bytes
    → Session
    → Bytes
    → Forwarding
    → Result CapabilityError (Unit {0}) × Forwarding
remove_host_alias names identity session hostname none = (err not_enabled, none)
remove_host_alias names identity session hostname (some a) =
    let (removed, a') = Aliases.remove names session.target_id hostname identity a in
    elim removed [ ok _ ↦ (ok tt, some a') | err e ↦ (err (alias_failed e), some a') ]

-- `AddTarget`: without its row the target is taken back
unfoldable pub add_target :
    Environment
    → (ℕ → Option Bytes)
    → ℕ
    → Bytes
    → Bytes
    → Bytes
    → Bindings
    → Tables
    → Result AddTargetError Target.Target × (Bindings × Tables)
add_target env random now backend backend_id name bindings tables =
    if env.has_backend backend
    then elim (Target.add random now backend backend_id name bindings) [
      | err _ ↦ (err not_added, (bindings, tables))
      | ok (public, more) ↦ elim (Target.resolve public.id more) [
        | err _ ↦ (err not_added, (more, tables))
        | ok binding ↦ elim (save_target binding tables) [
          | ok tables' ↦ (ok public, (more, tables'))
          | err _ ↦ elim (Target.remove public.id more) [
            | ok (_, less) ↦ (err not_saved, (less, tables))
            | err _ ↦ (err not_saved, (more, tables))
          ]
        ]
      ]
    ]
    else (err no_backend, (bindings, tables))
