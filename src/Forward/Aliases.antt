-- ===== src/Forward/Aliases.antt =====
-- The manager of aliases in internal/forward/alias.go: host names of forwards, each a line of the
-- resolver file and a row of the audit store. It shares the store with the manager of forwards.
pub mod Apart
use windmill_gate.Base.{
  ℕ, Bool, ◌||◌, List, [], ◌∷◌, Option, none, some, if◌then◌else◌, Bytes, codes, is_empty, equal,
  map,
}
use windmill_gate.Base.Fields.{trim_space}
use windmill_gate.Base.Maps.{Map, lookup, insert, delete, map_values}
use windmill_gate.Base.Rows.{select}
use windmill_gate.Base.Results.{Result, ok, err, ◌>>=◌}
use windmill_gate.Store.{Tables, AliasRow}
use windmill_gate.Store.Forwards.{save_host_alias, remove_host_alias, active_host_aliases}
use windmill_gate.Forward.Hosts.{
  AliasError, no_forward, no_random, already_managed, alias_not_found, other_target, file_failed,
  store_failed, loopback, trim_dot, lower_case, normalize_hostname, add_owned_line,
  remove_owned_line, alias_url,
}
use windmill_gate.Forward.Manager.{Info, Manager}
use windmill_gate.Forward.Manager

-- `AliasInfo`
pub record AliasInfo : Type 0 where
  pub hostname : Bytes
  pub target_id : Bytes
  pub forward_id : Bytes
  pub address : Bytes
  pub remote_port : ℕ
  pub local_port : ℕ
  pub url : Bytes
  pub created_at : ℕ
  pub marker : Bytes

-- `AliasManager`, with the resolver file and, in `forwards`, the store.
pub record AliasManager : Type 0 where
  pub aliases : Map AliasInfo
  pub hosts : Bytes
  pub forwards : Manager

-- The outside of a call: the random marker, and which contents the file can be replaced by.
pub record AliasOutside : Type 0 where
  pub new_marker : Option Bytes
  pub replaces : Bytes → Bool
  pub now : ℕ

with_tables : Tables → AliasManager → AliasManager
with_tables tables m = record m { forwards = record m.forwards { tables = tables } }

-- `publicAlias`
unfoldable pub public_alias : AliasInfo → AliasInfo
public_alias info = record info { marker = [] }

-- the forward with the identifier
unfoldable pub linked_forward : Bytes → List Info → Option Info
linked_forward id [] = none
linked_forward id (i ∷ infos) = if equal i.id id then some i else linked_forward id infos

unfoldable pub alias_row : Bytes → AliasInfo → AliasRow
alias_row actor info = record {
  hostname = info.hostname;
  target_id = info.target_id;
  forward_id = info.forward_id;
  address = info.address;
  marker = info.marker;
  created_by = actor;
  created_at = info.created_at;
  removed_by = none;
  removed_at = none;
}

module _ (out : AliasOutside) where
  -- the file after `atomicWrite`, if it succeeds
  unfoldable pub replaced : Bytes → AliasManager → Result AliasError AliasManager
  replaced hosts m = if out.replaces hosts then ok (record m { hosts = hosts }) else err file_failed

  -- `_ = m.removeOwnedLine(hostname, marker)`
  unfoldable pub rolled_back : AliasInfo → AliasManager → AliasManager
  unfolding replaced
  rolled_back info m = elim (replaced (remove_owned_line m.hosts info.hostname info.marker) m) [
    | ok m' ↦ m'
    | err _ ↦ m
  ]

  -- the line is written; without its row it is taken back
  unfoldable pub record_alias :
      Bytes → AliasInfo → AliasManager → Result AliasError AliasInfo × AliasManager
  unfolding rolled_back alias_row with_tables public_alias
  record_alias actor info m = elim (save_host_alias (alias_row actor info) m.forwards.tables) [
    | err _ ↦ (err store_failed, rolled_back info m)
    | ok tables ↦ (
      ok (public_alias info),
      record (with_tables tables m) { aliases = insert info.hostname info m.aliases },
    )
  ]

  unfoldable pub info_of : Bytes → Bytes → Info → Bytes → AliasInfo
  info_of target_id hostname linked marker = record {
    hostname = hostname;
    target_id = target_id;
    forward_id = linked.id;
    address = loopback;
    remote_port = linked.remote_port;
    local_port = linked.local_port;
    url = alias_url hostname linked.remote_port linked.local_port;
    created_at = out.now;
    marker = marker;
  }

  marked : Option Bytes → Result AliasError Bytes
  marked none = err no_random
  marked (some marker) = ok marker

  linked : Option Info → Result AliasError Info
  linked none = err no_forward
  linked (some i) = ok i

  -- the alias that `Add` makes, before it looks at the aliases there are
  unfoldable pub prepared : Bytes → Bytes → Bytes → AliasManager → Result AliasError AliasInfo
  unfolding linked marked info_of linked_forward
  prepared target_id forward_id hostname m = do
    name ← normalize_hostname hostname
    forward ← linked (linked_forward forward_id (Manager.list target_id m.forwards))
    marker ← marked out.new_marker
    ok (info_of target_id name forward marker)

  -- the line that `Add` writes
  unfoldable pub written : AliasInfo → AliasManager → Result AliasError AliasManager
  unfolding replaced
  written info m = elim (lookup info.hostname m.aliases) [
    | some _ ↦ err already_managed
    | none ↦ do hosts ← add_owned_line m.hosts info.hostname info.marker; replaced hosts m
  ]

  -- `Add`
  unfoldable pub add :
      Bytes → Bytes → Bytes → Bytes → AliasManager → Result AliasError AliasInfo × AliasManager
  unfolding prepared written record_alias
  add target_id forward_id hostname actor m = elim (prepared target_id forward_id hostname m) [
    | err e ↦ (err e, m)
    | ok info ↦ elim (written info m) [ err e ↦ (err e, m) | ok m' ↦ record_alias actor info m' ]
  ]

  -- the line and the row of an alias are removed
  unfoldable pub remove_alias :
      Bytes → AliasInfo → AliasManager → Result AliasError (Unit {0}) × AliasManager
  unfolding replaced with_tables
  remove_alias actor alias m =
      elim (replaced (remove_owned_line m.hosts alias.hostname alias.marker) m) [
        | err e ↦ (err e, m)
        | ok m' ↦ elim (remove_host_alias alias.hostname actor out.now m'.forwards.tables) [
          | err _ ↦ (err store_failed, m')
          | ok tables ↦
              (ok tt, record (with_tables tables m') { aliases = delete alias.hostname m'.aliases })
        ]
      ]

  -- `Remove`
  unfoldable pub remove :
      Bytes → Bytes → Bytes → AliasManager → Result AliasError (Unit {0}) × AliasManager
  unfolding remove_alias
  remove target_id hostname actor m =
      let name = lower_case (trim_dot (trim_space hostname)) in
      elim (lookup name m.aliases) [
        | none ↦ (err alias_not_found, m)
        | some alias ↦
            if equal alias.target_id target_id
            then remove_alias actor (record alias { hostname = name }) m
            else (err other_target, m)
      ]

  joined :
      Result AliasError (Unit {0}) → Result AliasError (Unit {0}) → Result AliasError (Unit {0})
  joined (ok _) later = later
  joined (err e) later = err e

  unfoldable pub remove_all :
      Bytes → Bytes → List AliasInfo → AliasManager → Result AliasError (Unit {0}) × AliasManager
  unfolding remove joined
  remove_all target_id actor [] m = (ok tt, m)
  remove_all target_id actor (a ∷ aliases) m =
      let (first, m') = remove target_id a.hostname actor m in
      let (rest, last) = remove_all target_id actor aliases m' in (joined first rest, last)

  -- the loop of `NewAliasManager` over the rows of an earlier run
  unfoldable pub clean_stale : List AliasRow → AliasManager → Result AliasError AliasManager
  unfolding replaced with_tables
  clean_stale [] m = ok m
  clean_stale (r ∷ rs) m = elim (replaced (remove_owned_line m.hosts r.hostname r.marker) m) [
    | err e ↦ err e
    | ok m' ↦
        elim (remove_host_alias r.hostname (codes "daemon-restart") out.now m'.forwards.tables) [
          | err _ ↦ err store_failed
          | ok tables ↦ clean_stale rs (with_tables tables m')
        ]
  ]

-- `List`, of one target or of all; the source sorts by host name, here the order is the map's
unfoldable pub list : Bytes → AliasManager → List AliasInfo
unfolding public_alias is_empty select
list target_id m =
    map public_alias
      (select (λ a. is_empty target_id || equal a.target_id target_id) (map_values m.aliases))

-- `CloseForward` and `CloseTarget`
unfoldable pub close_forward :
    AliasOutside
    → Bytes
    → Bytes
    → Bytes
    → AliasManager
    → Result AliasError (Unit {0}) × AliasManager
unfolding remove_all list select
close_forward out target_id forward_id actor m =
    remove_all out target_id actor (select (λ a. equal a.forward_id forward_id) (list target_id m))
      m

unfoldable pub close_target :
    AliasOutside → Bytes → Bytes → AliasManager → Result AliasError (Unit {0}) × AliasManager
unfolding remove_all list
close_target out target_id actor m = remove_all out target_id actor (list target_id m) m

-- `NewAliasManager`
unfoldable pub new_alias_manager : AliasOutside → Bytes → Manager → Result AliasError AliasManager
unfolding clean_stale active_host_aliases
new_alias_manager out hosts forwards =
    clean_stale out (active_host_aliases [] forwards.tables)
      (record { aliases = []; hosts = hosts; forwards = forwards })
