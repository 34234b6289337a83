-- ===== src/Forward/Manager/Tracked.antt =====
-- The manager of forwards and the audit store agree on which forwards are active.
use windmill_gate.Base.{
  ℕ, zero, suc, true, List, [], ◌∷◌, some, ◌==◌, ==_iff, any, Bytes, codes, is, equal, equal_iff,
  equal_refl, ◌≡◌, ap, ◌∙◌, arith, subst, Bool-cases, Option-cases, inl, inr,
}
use windmill_gate.Base.Maps.{lookup, insert, delete, lookup-insert, lookup-delete}
use windmill_gate.Base.Results.{ok, ok-eq, Result-cases}
use windmill_gate.Store.{Tables}
use windmill_gate.Store.Forwards.{save_forward, close_forward, close_stale_forwards}
use windmill_gate.Forward.Manager.{
  Info, Managed, Manager, Outside, new_manager, row_of, keep, info_at, try_open, prepared, add,
  close_row, close, ended, close_all, close_target, list,
}
use windmill_gate.Forward.Manager.Rows.{
  active_row, held, any-append, stale_rows, closed_row, saved_row, new_row,
}

-- An identifier has an active row to a target exactly when a forward to the target is managed
-- under it.
pub record IsTracked (m : Manager) : Type 0 where
  pub rows :
      (id target_id : Bytes)
      → any (active_row id target_id) m.tables.forwards ≡ held target_id (lookup id m.forwards)
  pub keys : (id : Bytes) (item : Managed) → lookup id m.forwards ≡ some item → item.info.id ≡ id

pub new_manager-IsTracked :
    (now : ℕ) (tables : Tables) (m : Manager) → new_manager now tables ≡ ok m → IsTracked m
unfolding new_manager close_stale_forwards lookup held
new_manager-IsTracked now tables m h = subst IsTracked (ok-eq h) (record {
  rows = λ id t. stale_rows id t (codes "daemon-restart") now tables.forwards;
  keys = λ id item found. ground arith;
})

module _ (out : Outside) where
  -- the row of a forward is closed, and the forward is managed no more
  closed-IsTracked :
      (id actor : Bytes) (closed : List ℕ) (m : Manager)
      → IsTracked m
      → IsTracked (record {
        forwards = delete id m.forwards;
        tables = close_row out id actor m.tables;
        closed = closed;
      })
  unfolding close_row close_forward held
  closed-IsTracked id actor closed m v = record {
    rows = λ j t.
        closed_row id actor j t out.now m.tables.forwards
        ∙ ground (arith, v.rows j t, lookup-delete id j m.forwards);
    keys = λ j item found. v.keys j item (ground (arith, lookup-delete id j m.forwards));
  }

  close-IsTracked :
      (target_id id actor : Bytes) (m : Manager)
      → IsTracked m
      → IsTracked (close out target_id id actor m).1
  unfolding close
  close-IsTracked target_id id actor m v = elim (Option-cases (lookup id m.forwards)) [
    | inl absent ↦ subst IsTracked (ground arith) v
    | inr (item, found) ↦ elim (Bool-cases (equal item.info.target_id target_id)) [
      | inl own ↦
          subst IsTracked (ground arith) (closed-IsTracked id actor (item.handle ∷ m.closed) m v)
      | inr other ↦ subst IsTracked (ground arith) v
    ]
  ]

  pub close_all-IsTracked :
      (target_id actor : Bytes) (infos : List Info) (m : Manager)
      → IsTracked m
      → IsTracked (close_all out target_id actor infos m).1
  unfolding close_all
  close_all-IsTracked target_id actor [] m v = v
  close_all-IsTracked target_id actor (i ∷ infos) m v =
      close_all-IsTracked target_id actor infos _ (close-IsTracked target_id i.id actor m v)

  ended-IsTracked :
      (item : Managed) (m : Manager)
      → ((current : Managed)
          → lookup item.info.id m.forwards ≡ some current
          → current.handle ≡ item.handle)
      → IsTracked m
      → IsTracked (ended out item m)
  unfolding ended
  ended-IsTracked item m own v = elim (Option-cases (lookup item.info.id m.forwards)) [
    | inl absent ↦ subst IsTracked (ground arith) v
    | inr (current, found) ↦
        let same : (current.handle == item.handle) ≡ true =
          (==_iff current.handle item.handle).1 (own current found) in
        subst IsTracked (ground arith)
          (closed-IsTracked item.info.id (codes "transport") m.closed m v)
  ]

  kept :
      (i : Info) (handle : ℕ) (m : Manager) (tables : Tables)
      → is i.state "active" ≡ true
      → IsTracked m
      → save_forward (row_of i) m.tables ≡ ok tables
      → IsTracked (record m {
        forwards = insert i.id (record { info = i; handle = handle }) m.forwards;
        tables = tables;
      })
  unfolding held
  kept i handle m tables active v saved =
      let (rows, fresh) = saved_row (row_of i) m.tables tables saved in
      record {
        rows = λ j t.
            ap (any (active_row j t)) rows
            ∙ any-append (active_row j t) m.tables.forwards _
            ∙ new_row i handle m j t active fresh (v.rows j t);
        keys = λ j item found. ground (
          arith,
          lookup-insert i.id j (record { info = i; handle = handle }) m.forwards,
          equal_iff i.id j,
          v.keys j item,
        );
      }

  keep-IsTracked :
      (i : Info) (handle : ℕ) (m : Manager)
      → is i.state "active" ≡ true
      → IsTracked m
      → IsTracked (keep out i handle m).1
  unfolding keep
  keep-IsTracked i handle m active v = elim (Result-cases (save_forward (row_of i) m.tables)) [
    | inr (e, refused) ↦
        let same : record m { closed = handle ∷ m.closed } ≡ (keep out i handle m).1 =
          ground arith in
        subst IsTracked same (record { rows = v.rows; keys = v.keys })
    | inl (tables, saved) ↦
        let item : Managed = record { info = i; handle = handle } in
        let same : record m { forwards = insert i.id item m.forwards; tables = tables }
            ≡ (keep out i handle m).1 =
          ground arith in
        subst IsTracked same (kept i handle m tables active v saved)
  ]

  try_open-IsTracked :
      (left attempt : ℕ) (id backend target_id : Bytes) (port : ℕ) (actor : Bytes) (m : Manager)
      → IsTracked m
      → IsTracked (try_open out left attempt id backend target_id port actor m).1
  unfolding try_open info_at
  try_open-IsTracked zero attempt id backend target_id port actor m v = v
  try_open-IsTracked (suc left) attempt id backend target_id port actor m v =
      elim (Option-cases (out.allocate attempt)) [
        | inl no_free ↦ subst IsTracked (ground arith) v
        | inr (local_port, free) ↦
            elim (Option-cases (out.open_forward attempt backend port local_port)) [
              | inl failed ↦
                  subst IsTracked (ground arith)
                    (try_open-IsTracked left (suc attempt) id backend target_id port actor m v)
              | inr (handle, opened) ↦ subst IsTracked (ground arith) (
                  keep-IsTracked (info_at out id target_id port local_port actor) handle m
                    (equal_refl (codes "active")) v)
            ]
      ]

  add-IsTracked :
      (target_id : Bytes) (port : ℕ) (actor : Bytes) (m : Manager)
      → IsTracked m
      → IsTracked (add out target_id port actor m).1
  unfolding add
  add-IsTracked target_id port actor m v = elim (Result-cases (prepared out target_id port actor)) [
    | inr (e, refused) ↦ subst IsTracked (ground arith) v
    | inl ((backend, id), ready) ↦
        subst IsTracked (ground arith) (try_open-IsTracked 3 0 id backend target_id port actor m v)
  ]

-- A call of the manager, or the end of a process.
pub data Call : Type 0 where
  adds : Outside → Bytes → ℕ → Bytes → Call
  closes : Outside → Bytes → Bytes → Bytes → Call
  closes_target : Outside → Bytes → Bytes → Call
  ends : Outside → Managed → Call

unfoldable pub called : Call → Manager → Manager
called (adds out target_id port actor) m = (add out target_id port actor m).1
called (closes out target_id id actor) m = (close out target_id id actor m).1
called (closes_target out target_id actor) m = (close_target out target_id actor m).1
called (ends out item) m = ended out item m

-- A process that ends is the one under its identifier, if any is.
abbrev pub IsOwn : Call → Manager → Type 0
IsOwn (ends out item) m =
    (current : Managed)
    → lookup item.info.id m.forwards ≡ some current
    → current.handle ≡ item.handle
IsOwn _ m = Unit {0}

-- What the calls reach from a new manager.
pub data Reachable : Manager → Type 0 where
  made : (now : ℕ) (tables : Tables) (m : Manager) → new_manager now tables ≡ ok m → Reachable m
  after : (c : Call) (m : Manager) → Reachable m → IsOwn c m → Reachable (called c m)

-- In every state that the manager of forwards reaches, whatever fails on the way, the audit store
-- and the manager agree: an identifier has an active row to a target exactly when a forward to that
-- target is managed under it. A new manager has closed the rows that an earlier run left.
pub Reachable-IsTracked : (m : Manager) → Reachable m → IsTracked m
unfolding called close_target
Reachable-IsTracked _ (made now tables m h) = new_manager-IsTracked now tables m h
Reachable-IsTracked _ (after (adds out target_id port actor) m r own) =
    add-IsTracked out target_id port actor m (Reachable-IsTracked m r)
Reachable-IsTracked _ (after (closes out target_id id actor) m r own) =
    close-IsTracked out target_id id actor m (Reachable-IsTracked m r)
Reachable-IsTracked _ (after (closes_target out target_id actor) m r own) =
    close_all-IsTracked out target_id actor (list target_id m) m (Reachable-IsTracked m r)
Reachable-IsTracked _ (after (ends out item) m r own) =
    ended-IsTracked out item m own (Reachable-IsTracked m r)
