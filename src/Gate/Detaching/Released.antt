-- ===== src/Gate/Detaching/Released.antt =====
-- What a target that was detached leaves, in internal/gate/service.go.
use windmill_gate.Base.{
  ℕ, Bool, true, false, Option, none, if◌then◌else◌, any, ◌≡◌, ap, ◌∙◌, arith, Bool-cases, inl, inr,
  Bytes, codes, subst,
}
use windmill_gate.Base.Maps.{lookup}
use windmill_gate.Base.Results.{ok, err, Result-cases}
use windmill_gate.Target.{not_found, resolve}
use windmill_gate.Policy.Engine.{Matching}
use windmill_gate.Store.{Tables}
use windmill_gate.Store.Agents
use windmill_gate.Forward.Manager.{Managed, Manager, Outside}
use windmill_gate.Forward.Manager
use windmill_gate.Forward.Manager.Rows.{active_row, held}
use windmill_gate.Forward.Manager.Tracked.{IsTracked}
use windmill_gate.Forward.Manager.Released.{close_target-IsReleased}
use windmill_gate.Forward.Aliases.{AliasManager, AliasOutside}
use windmill_gate.Forward.Aliases
use windmill_gate.Forward.Aliases.Apart.{close_target-IsTracked}
use windmill_gate.Gate.Sessions.{Service, forget, detach_target}
use windmill_gate.Gate.Sessions.Isolation.{
  IsReleased, detach_target-IsReleased, detach_target-resolve,
}
use windmill_gate.Gate.Detaching.{close_forwarding, is_ok, stored, with_tables, detach}

module _ (out : Outside) (names : AliasOutside) (target : Bytes) where
  -- The manager holds no forward to the target, and the store no active row of one.
  pub record IsClosed (m : Manager) : Type 0 where
    pub none_held : (id : Bytes) → held target (lookup id m.forwards) ≡ false
    pub none_active : (id : Bytes) → any (active_row id target) m.tables.forwards ≡ false

  none_left : (o : Option Managed) → held target (if held target o then none else o) ≡ false
  unfolding held
  none_left o = elim (Bool-cases (held target o)) [
    | inl own ↦ ground arith
    | inr other ↦ ground arith
  ]

  close_forwarding-IsClosed :
      (a : AliasManager)
      → IsTracked a.forwards
      → (close_forwarding out names target a).0 ≡ true
      → IsClosed (close_forwarding out names target a).1.forwards
  unfolding close_forwarding is_ok held
  close_forwarding-IsClosed a v h =
      let actor = codes "target-detach" in
      let a' = (Aliases.close_target names target actor a).1 in
      let gone =
        close_target-IsReleased out target actor a'.forwards
          (close_target-IsTracked names target actor a v) in
      let same : (Manager.close_target out target actor a'.forwards).1
          ≡ (close_forwarding out names target a).1.forwards =
        ground arith in
      subst IsClosed same (record {
        none_held = λ id. ap (held target) (gone id).0 ∙ none_left (lookup id a'.forwards.forwards);
        none_active = λ id. (gone id).1;
      })

  module _ {m : Matching} (now : ℕ) (s : Service m) (a : AliasManager) where
    succeeded_closed :
        (closed kept : Bool)
        → (detach_target target closed kept s).0 ≡ ok tt
        → (closed ≡ true) × (kept ≡ true)
    unfolding detach_target forget
    succeeded_closed closed kept h = (ground arith, ground arith)

    abbrev state : Service m × AliasManager
    state = (detach out names now target (s, a)).1

    detached_rows :
        (t t' : Tables) → Agents.detach_target target now t ≡ ok t' → t'.forwards ≡ t.forwards
    unfolding Agents.detach_target
    detached_rows t t' h = ground arith

    stored-IsClosed :
        (tables : Tables) (b : AliasManager)
        → Agents.detach_target target now b.forwards.tables ≡ ok tables
        → IsClosed b.forwards
        → IsClosed (with_tables tables b).forwards
    unfolding with_tables
    stored-IsClosed tables b h c = record {
      none_held = c.none_held;
      none_active = λ id.
          ap (any (active_row id target)) (detached_rows b.forwards.tables tables h)
          ∙ c.none_active id;
    }

    -- Where the managers agree with the store and `DetachTarget` succeeds, no agent is attached to
    -- the target, its commands are cancelled, it resolves no more, the manager holds no forward to
    -- it and the store no active row of one; other attachments, commands and the sessions are as
    -- before.
    pub detach-IsClosed :
        IsTracked a.forwards
        → (detach out names now target (s, a)).0 ≡ ok tt
        → IsReleased target s (detach out names now target (s, a)).1.0
          × (resolve target (detach out names now target (s, a)).1.0.targets ≡ err not_found)
          × IsClosed (detach out names now target (s, a)).1.1.forwards
    unfolding detach stored
    detach-IsClosed v h =
        let closing = close_forwarding out names target a in
        elim (Result-cases (Agents.detach_target target now closing.1.forwards.tables)) [
          | inr (e, failed) ↦
              let (c, never) = succeeded_closed closing.0 false (ground arith) in absurd (cc)
          | inl (tables, done) ↦
              let finished = detach_target target closing.0 true s in
              let succeeded : finished.0 ≡ ok tt = ground arith in
              let (closed, kept) = succeeded_closed closing.0 true succeeded in
              let same : finished.1 ≡ state.0 = ground arith in
              let managers : with_tables tables closing.1 ≡ state.1 = ground arith in
              (
                subst (IsReleased target s) same (detach_target-IsReleased target closing.0 true s),
                subst (λ x. resolve target x.targets ≡ err not_found) same
                    (detach_target-resolve target closing.0 true s succeeded),
                subst (λ x. IsClosed x.forwards) managers
                    (stored-IsClosed tables closing.1 done (close_forwarding-IsClosed a v closed)),
              )
        ]
