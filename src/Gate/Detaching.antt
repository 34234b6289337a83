-- ===== src/Gate/Detaching.antt =====
-- `EnableForwarding`, and `DetachTarget` with the forwards and aliases of the target and its row in
-- the audit store, in internal/gate/service.go.
pub mod Released
use windmill_gate.Base.{ℕ, Bool, true, false, none, some, if◌then◌else◌, Bytes, codes}
use windmill_gate.Base.Results.{Result, ok, err}
use windmill_gate.Policy.Engine.{Matching}
use windmill_gate.Store.{Tables}
use windmill_gate.Store.Agents
use windmill_gate.Forward.Hosts.{AliasError}
use windmill_gate.Forward.Manager.{Outside, new_manager}
use windmill_gate.Forward.Manager
use windmill_gate.Forward.Aliases.{AliasManager, AliasOutside, new_alias_manager}
use windmill_gate.Forward.Aliases
use windmill_gate.Gate.Forwarding.{Forwarding}
use windmill_gate.Gate.Sessions.{Service, ServiceError, detach_target}

-- `EnableForwarding`, with the contents of the resolver file
unfoldable pub enable_forwarding : AliasOutside → ℕ → Bytes → Tables → Forwarding
enable_forwarding names now hosts tables = elim (new_manager now tables) [
  | err _ ↦ none
  | ok forwards ↦ elim (new_alias_manager names hosts forwards) [ err _ ↦ none | ok a ↦ some a ]
]

is_ok : {E A : Type 0} → Result E A → Bool
is_ok (ok _) = true
is_ok (err _) = false

-- The aliases are closed before the forwards, which stay where an alias does.
unfoldable pub close_forwarding :
    Outside → AliasOutside → Bytes → AliasManager → Bool × AliasManager
unfolding is_ok
close_forwarding out names target a =
    let (aliases, a') = Aliases.close_target names target (codes "target-detach") a in
    let (closed, forwards) = Manager.close_target out target (codes "target-detach") a'.forwards in
    if is_ok aliases then (is_ok closed, record a' { forwards = forwards }) else (false, a')

-- the target's row is written last
with_tables : Tables → AliasManager → AliasManager
with_tables tables a = record a { forwards = record a.forwards { tables = tables } }

stored : Result ServiceError (Unit {0}) → Tables → AliasManager → AliasManager
unfolding with_tables
stored (ok _) tables a = with_tables tables a
stored (err _) tables a = a

-- `DetachTarget`, where forwarding is enabled
unfoldable pub detach :
    {m : Matching}
    → Outside
    → AliasOutside
    → ℕ
    → Bytes
    → Service m × AliasManager
    → Result ServiceError (Unit {0}) × (Service m × AliasManager)
unfolding close_forwarding stored
detach out names now target (s, a) =
    let (closed, a') = close_forwarding out names target a in
    let (refused, s') = detach_target target closed false s in
    let (result, s'') = detach_target target closed true s in
    elim (Agents.detach_target target now a'.forwards.tables) [
      | err _ ↦ (refused, (s', a'))
      | ok tables ↦ (result, (s'', stored result tables a'))
    ]
