-- ===== src/Samples/Detached.antt =====
-- `DetachTarget` of internal/gate/service.go on a target with an agent and a forward.
use windmill_gate.Base.Maps.{insert, lookup}
use windmill_gate.Store.Forwards.{close_forward, save_forward}
use windmill_gate.Base.Unicode.{is_space, runes}
use windmill_gate.Forward.Manager.{add, list}
use windmill_gate.Store.Agents.{detach_target}
use windmill_gate.Base.{Bytes, codes, [], ◌∷◌, ◌≡◌, refl, equal}
use windmill_gate.Base.Results.{ok, err}
use windmill_gate.Target.{not_found, resolve, remove}
use windmill_gate.Gate.Sessions.{Service}
use windmill_gate.Gate.Sessions.Isolation.{IsReleased}
use windmill_gate.Gate.Detaching.{detach}
use windmill_gate.Gate.Detaching.Released.{IsClosed, detach-IsClosed}
use windmill_gate.Forward.Aliases.{AliasManager, close_target}
use windmill_gate.Forward.Manager.Tracked.{called, Reachable-IsTracked}
use windmill_gate.Samples.Policies.{exact}
use windmill_gate.Samples.Stores.{bound}
use windmill_gate.Samples.Sessions.{service}
use windmill_gate.Samples.Forwards.{outside, started, adding, reached}
use windmill_gate.Samples.Capabilities.{names}

abbrev target : Bytes
target = codes "t"

abbrev attached : Service exact
attached = record service {
  attachments = (codes "ann", target) ∷ [];
  targets = (target, bound) ∷ [];
}

abbrev managers : AliasManager
managers = record { aliases = []; hosts = []; forwards = called adding started }

detached : (detach outside names 9 target (attached, managers)).0 ≡ ok tt
unfolding detach detach_target close_target list called add runes is_space save_forward equal insert
    lookup close_forward remove windmill_gate.Forward.Manager.close_target
    windmill_gate.Gate.Sessions.detach_target
detached = refl

detach-IsClosed_example :
    IsReleased target attached (detach outside names 9 target (attached, managers)).1.0
    × (resolve target (detach outside names 9 target (attached, managers)).1.0.targets
        ≡ err not_found)
    × IsClosed outside names target
        (detach outside names 9 target (attached, managers)).1.1.forwards
detach-IsClosed_example =
    detach-IsClosed outside names target 9 attached managers
      (Reachable-IsTracked (called adding started) reached) detached
