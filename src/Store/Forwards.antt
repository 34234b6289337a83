-- ===== src/Store/Forwards.antt =====
-- The tables `forwards` and `host_aliases` of internal/storage/storage.go.
use windmill_gate.Base.{
  ℕ, not, ◌&&◌, ◌||◌, List, [], ◌∷◌, ◌++◌, none, some, codes, if◌then◌else◌, Bytes, equal, is,
  is_empty,
}
use windmill_gate.Base.Rows.{select, update, upsert, order_by}
use windmill_gate.Base.Results.{Result, ok, err}
use windmill_gate.Store.{
  StoreError, constraint_failed, ForwardRow, AliasRow, Tables, is_null, target_key, forward_key,
  has_key,
}

-- `SaveForward`
unfoldable pub save_forward : ForwardRow → Tables → Result StoreError Tables
unfolding has_key
save_forward f tables =
    if has_key forward_key f.id tables.forwards
      || not (has_key target_key f.target_id tables.targets)
    then err constraint_failed
    else ok (record tables {
      forwards = tables.forwards ++ record f { closed_by = none; closed_at = none } ∷ [];
    })

unfoldable pub closed_now : Bytes → ℕ → ForwardRow → ForwardRow
closed_now actor now r = record r {
  state = codes "closed";
  closed_by = some actor;
  closed_at = some now;
}

-- `CloseForward`: a forward that is not active is left, without an error
unfoldable pub close_forward : Bytes → Bytes → ℕ → Tables → Result StoreError Tables
unfolding update closed_now
close_forward id actor now tables = ok (record tables {
  forwards =
      update (λ r. equal r.id id && is r.state "active") (closed_now actor now) tables.forwards;
})

-- `ActiveForwards`, of one target or of all
unfoldable pub active_forwards : Bytes → Tables → List ForwardRow
unfolding select order_by is_empty
active_forwards target_id tables =
    order_by (λ r. r.created_at)
      (select (λ r. is r.state "active" && (is_empty target_id || equal r.target_id target_id))
        tables.forwards)

-- `CloseStaleForwards`
unfoldable pub close_stale_forwards : ℕ → Tables → Result StoreError Tables
unfolding update closed_now
close_stale_forwards now tables = ok (record tables {
  forwards =
      update (λ r. is r.state "active") (closed_now (codes "daemon-restart") now) tables.forwards;
})

-- the row that a conflict leaves: an alias that is not removed is kept as it is
unfoldable pub replaced : AliasRow → AliasRow → AliasRow
replaced new old =
    if is_null old.removed_at then old else record new { removed_by = none; removed_at = none }

-- `SaveHostAlias`
unfoldable pub save_host_alias : AliasRow → Tables → Result StoreError Tables
unfolding has_key upsert replaced
save_host_alias a tables =
    if has_key target_key a.target_id tables.targets
      && has_key forward_key a.forward_id tables.forwards
    then ok (record tables {
      aliases =
          upsert (λ r. equal r.hostname a.hostname) (replaced a)
            (record a { removed_by = none; removed_at = none }) tables.aliases;
    })
    else err constraint_failed

-- `RemoveHostAlias`
unfoldable pub remove_host_alias : Bytes → Bytes → ℕ → Tables → Result StoreError Tables
unfolding update
remove_host_alias hostname actor now tables = ok (record tables {
  aliases =
      update (λ r. equal r.hostname hostname && is_null r.removed_at)
        (λ r. record r { removed_by = some actor; removed_at = some now }) tables.aliases;
})

-- `ActiveHostAliases`, of one target or of all
unfoldable pub active_host_aliases : Bytes → Tables → List AliasRow
unfolding select order_by is_empty
active_host_aliases target_id tables =
    order_by (λ r. r.created_at)
      (select (λ r. is_null r.removed_at && (is_empty target_id || equal r.target_id target_id))
        tables.aliases)
