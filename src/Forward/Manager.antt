-- ===== src/Forward/Manager.antt =====
-- internal/forward/manager.go: the forwards of Gate's targets, each a process of the backend and a
-- row of the audit store. The backend, the ports and the identifiers are arguments.
pub mod Rows
pub mod Tracked
pub mod Released
use windmill_gate.Base.{
  ℕ, zero, suc, Bool, true, false, not, ◌&&◌, ◌||◌, List, [], ◌∷◌, ◌++◌, Option, none, some, ◌==◌,
  leb, ltb, if◌then◌else◌, Bytes, codes, is, is_empty, equal, map,
}
use windmill_gate.Base.Maps.{Map, lookup, insert, delete, map_values}
use windmill_gate.Base.Rows.{select, order_by}
use windmill_gate.Base.Results.{Result, ok, err}
use windmill_gate.Forward.Hosts.{loopback}
use windmill_gate.Target.{is_blank}
use windmill_gate.Store.{Tables, ForwardRow}
use windmill_gate.Store.Forwards.{save_forward, close_forward, close_stale_forwards}

pub data ForwardError : Type 0 where
  bad_port no_actor no_backend no_random no_port not_opened not_found wrong_target not_stored
        not_closed :
      ForwardError

-- `Info`
pub record Info : Type 0 where
  pub id : Bytes
  pub target_id : Bytes
  pub remote_host : Bytes
  pub remote_port : ℕ
  pub local_host : Bytes
  pub local_port : ℕ
  pub state : Bytes
  pub created_by : Bytes
  pub created_at : ℕ

-- `managed`, with the process by its number
pub record Managed : Type 0 where
  pub info : Info
  pub handle : ℕ

-- `Manager`, with the store and the processes that Gate has closed, the latest first.
pub record Manager : Type 0 where
  pub forwards : Map Managed
  pub tables : Tables
  pub closed : List ℕ

-- What closing a process answers.
pub data Closing : Type 0 where
  closed_well already_finished close_failed : Closing

-- The outside of a call: by the number of the attempt, the port that is free and the process that
-- the backend opens.
pub record Outside : Type 0 where
  pub backend_of : Bytes → Option Bytes
  pub new_id : Option Bytes
  pub allocate : ℕ → Option ℕ
  pub open_forward : ℕ → Bytes → ℕ → ℕ → Option ℕ
  pub close_handle : ℕ → Closing
  pub now : ℕ

-- `NewManager`
unfoldable pub new_manager : ℕ → Tables → Result ForwardError Manager
new_manager now tables = elim (close_stale_forwards now tables) [
  | err _ ↦ err not_stored
  | ok tables' ↦ ok (record { forwards = []; tables = tables'; closed = [] })
]

-- the row of `SaveForward`
abbrev pub row_of : Info → ForwardRow
row_of i = record {
  id = i.id;
  target_id = i.target_id;
  remote_host = i.remote_host;
  remote_port = i.remote_port;
  local_host = i.local_host;
  local_port = i.local_port;
  state = i.state;
  created_by = i.created_by;
  created_at = i.created_at;
  closed_by = none;
  closed_at = none;
}

module _ (out : Outside) where
  -- a process that was opened: it is closed again when the store refuses its row
  unfoldable pub keep : Info → ℕ → Manager → Result ForwardError Info × Manager
  keep info handle m = elim (save_forward (row_of info) m.tables) [
    | err _ ↦ (err not_stored, record m { closed = handle ∷ m.closed })
    | ok tables ↦ (
      ok info,
      record m {
        forwards = insert info.id (record { info = info; handle = handle }) m.forwards;
        tables = tables;
      },
    )
  ]

  unfoldable pub info_at : Bytes → Bytes → ℕ → ℕ → Bytes → Info
  info_at id target_id remote_port local_port actor = record {
    id = id;
    target_id = target_id;
    remote_host = loopback;
    remote_port = remote_port;
    local_host = loopback;
    local_port = local_port;
    state = codes "active";
    created_by = actor;
    created_at = out.now;
  }

  -- the attempts that are left of the three
  unfoldable pub try_open :
      ℕ → ℕ → Bytes → Bytes → Bytes → ℕ → Bytes → Manager → Result ForwardError Info × Manager
  unfolding keep info_at
  try_open zero attempt id backend target_id port actor m = (err not_opened, m)
  try_open (suc left) attempt id backend target_id port actor m =
      let again = try_open left (suc attempt) id backend target_id port actor m in
      elim (out.allocate attempt) [
        | none ↦ (err no_port, m)
        | some local_port ↦ elim (out.open_forward attempt backend port local_port) [
          | none ↦ again
          | some handle ↦ keep (info_at id target_id port local_port actor) handle m
        ]
      ]

  -- what `Add` needs before its loop: the backend's own identifier, and one for the forward
  unfoldable pub prepared : Bytes → ℕ → Bytes → Result ForwardError (Bytes × Bytes)
  unfolding is_blank
  prepared target_id port actor =
      if port == 0
      then err bad_port
      else if is_blank actor
      then err no_actor
      else elim (out.backend_of target_id) [
        | none ↦ err no_backend
        | some backend ↦ elim out.new_id [ none ↦ err no_random | some id ↦ ok (backend, id) ]
      ]

  -- `Add`
  unfoldable pub add : Bytes → ℕ → Bytes → Manager → Result ForwardError Info × Manager
  unfolding prepared try_open
  add target_id port actor m = elim (prepared target_id port actor) [
    | err e ↦ (err e, m)
    | ok (backend, id) ↦ try_open 3 0 id backend target_id port actor m
  ]

  -- `errors.Join(ignoreProcessDone(handleErr), storeErr)`
  close_result : Closing → Result ForwardError (Unit {0})
  close_result closed_well = ok tt
  close_result already_finished = ok tt
  close_result close_failed = err not_closed

  -- the row of a forward is closed in the store
  unfoldable pub close_row : Bytes → Bytes → Tables → Tables
  close_row id actor tables = elim (close_forward id actor out.now tables) [
    | ok tables' ↦ tables'
    | err _ ↦ tables
  ]

  -- `Close`
  unfoldable pub close : Bytes → Bytes → Bytes → Manager → Result ForwardError (Unit {0}) × Manager
  unfolding close_result close_row
  close target_id id actor m = elim (lookup id m.forwards) [
    | none ↦ (err not_found, m)
    | some item ↦
        if equal item.info.target_id target_id
        then (
          close_result (out.close_handle item.handle),
          record m {
            forwards = delete id m.forwards;
            tables = close_row id actor m.tables;
            closed = item.handle ∷ m.closed;
          },
        )
        else (err wrong_target, m)
  ]

  -- `wait`, when the process has ended
  unfoldable pub ended : Managed → Manager → Manager
  unfolding close_row
  ended item m = elim (lookup item.info.id m.forwards) [
    | none ↦ m
    | some current ↦ record m {
      forwards =
          if current.handle == item.handle then delete item.info.id m.forwards else m.forwards;
      tables = close_row item.info.id (codes "transport") m.tables;
    }
  ]

  joined :
      Result ForwardError (Unit {0})
      → Result ForwardError (Unit {0})
      → Result ForwardError (Unit {0})
  joined (ok _) later = later
  joined (err e) later = err e

  unfoldable pub close_all :
      Bytes → Bytes → List Info → Manager → Result ForwardError (Unit {0}) × Manager
  unfolding close joined
  close_all target_id actor [] m = (ok tt, m)
  close_all target_id actor (i ∷ infos) m =
      let (first, m') = close target_id i.id actor m in
      let (rest, last) = close_all target_id actor infos m' in (joined first rest, last)

-- `List`, of one target or of all
unfoldable pub list : Bytes → Manager → List Info
unfolding select order_by is_empty
list target_id m =
    order_by (λ i. i.created_at)
      (select (λ i. is_empty target_id || equal i.target_id target_id)
        (map (λ item. item.info) (map_values m.forwards)))

-- `CloseTarget`
unfoldable pub close_target :
    Outside → Bytes → Bytes → Manager → Result ForwardError (Unit {0}) × Manager
unfolding close_all
close_target out target_id actor m = close_all out target_id actor (list target_id m) m
