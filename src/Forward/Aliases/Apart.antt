-- ===== src/Forward/Aliases/Apart.antt =====
-- The manager of aliases leaves the forwards and their rows to the manager of forwards.
use windmill_gate.Base.{
  List, [], ◌∷◌, Bytes, equal, ◌≡◌, refl, ◌∙◌, arith, Bool-cases, Option-cases, inl, inr,
}
use windmill_gate.Base.Fields.{trim_space}
use windmill_gate.Base.Maps.{lookup}
use windmill_gate.Store.Forwards.{remove_host_alias}
use windmill_gate.Forward.Hosts.{trim_dot, lower_case, remove_owned_line}
use windmill_gate.Forward.Manager.Tracked.{IsTracked}
use windmill_gate.Forward.Aliases.{
  AliasInfo, AliasManager, AliasOutside, with_tables, replaced, remove_alias, remove, remove_all,
  close_target, list,
}

-- The forwards and their rows are the same.
record IsApart (m m' : AliasManager) : Type 0 where
  pub forwards : m'.forwards.forwards ≡ m.forwards.forwards
  pub rows : m'.forwards.tables.forwards ≡ m.forwards.tables.forwards

module _ (out : AliasOutside) where
  remove_alias-IsApart :
      (actor : Bytes) (alias : AliasInfo) (m : AliasManager)
      → IsApart m (remove_alias out actor alias m).1
  unfolding remove_alias replaced with_tables remove_host_alias
  remove_alias-IsApart actor alias m =
      let hosts = remove_owned_line m.hosts alias.hostname alias.marker in
      elim (Bool-cases (out.replaces hosts)) [
        | inl written ↦ record { forwards = ground arith; rows = ground arith }
        | inr failed ↦ record { forwards = ground arith; rows = ground arith }
      ]

  remove-IsApart :
      (target_id hostname actor : Bytes) (m : AliasManager)
      → IsApart m (remove out target_id hostname actor m).1
  unfolding remove
  remove-IsApart target_id hostname actor m =
      let name = lower_case (trim_dot (trim_space hostname)) in
      elim (Option-cases (lookup name m.aliases)) [
        | inl absent ↦ record { forwards = ground arith; rows = ground arith }
        | inr (alias, found) ↦
            let apart = remove_alias-IsApart actor (record alias { hostname = name }) m in
            elim (Bool-cases (equal alias.target_id target_id)) [
              | inl own ↦ record {
                forwards = ground (arith, apart.forwards);
                rows = ground (arith, apart.rows);
              }
              | inr other ↦ record { forwards = ground arith; rows = ground arith }
            ]
      ]

  remove_all-IsApart :
      (target_id actor : Bytes) (aliases : List AliasInfo) (m : AliasManager)
      → IsApart m (remove_all out target_id actor aliases m).1
  unfolding remove_all
  remove_all-IsApart target_id actor [] m = record { forwards = refl; rows = refl }
  remove_all-IsApart target_id actor (a ∷ aliases) m =
      let first = remove-IsApart target_id a.hostname actor m in
      let rest =
        remove_all-IsApart target_id actor aliases (remove out target_id a.hostname actor m).1 in
      record { forwards = rest.forwards ∙ first.forwards; rows = rest.rows ∙ first.rows }

  pub close_target-IsTracked :
      (target_id actor : Bytes) (m : AliasManager)
      → IsTracked m.forwards
      → IsTracked (close_target out target_id actor m).1.forwards
  unfolding close_target
  close_target-IsTracked target_id actor m v =
      let apart = remove_all-IsApart target_id actor (list target_id m) m in
      tracked_apart (close_target out target_id actor m).1 apart v
    where
      tracked_apart :
          (m' : AliasManager) → IsApart m m' → IsTracked m.forwards → IsTracked m'.forwards
      tracked_apart m' a v = record {
        rows = λ id t. ground (arith, a.rows, a.forwards, v.rows id t);
        keys = λ id item found. v.keys id item (ground (arith, a.forwards));
      }
