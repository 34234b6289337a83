-- ===== src/Store/Integrity/Steps.antt =====
-- Every statement of internal/storage/storage.go keeps the references between the tables.
use windmill_gate.Base.{
  ℕ, zero, suc, ◌-◌, leb, codes, Bool, true, not, ◌&&◌, ◌||◌, List, [], ◌∷◌, ◌++◌, none, some,
  Bytes, equal, equal_iff, ◌≡◌, refl, ap, sym, ◌∙◌, arith, subst, Bool-cases, inl, inr,
}
use windmill_gate.Base.Int.{ℤ, pos, negsuc}
use windmill_gate.Base.Rows.{update, All-update}
use windmill_gate.Base.Results.{ok, bind-eq-ok, ok-eq, Result-cases}
use windmill_gate.Command.{Command}
use windmill_gate.Policy.Engine.{Verdict}
use windmill_gate.Approval.{HumanDecision}
use windmill_gate.Target.{Binding}
use windmill_gate.Store.{
  constraint_failed, ForwardRow, AliasRow, Tables, is_null, target_key, session_key, command_key,
  forward_key, has_key,
}
use windmill_gate.Store.Agents.{
  save_target, rebind, detach_target, start_agent_session, end_agent_session, create_command,
  progressed, update_command, record_approval,
}
use windmill_gate.Store.Output.{
  append_output, append_within, rows_of, used_bytes, any_truncated, output_row,
}
use windmill_gate.Store.Forwards.{
  save_forward, closed_now, close_forward, close_stale_forwards, replaced, save_host_alias,
  remove_host_alias,
}
use windmill_gate.Store.Integrity.{
  Operation, saves_target, detaches, starts_session, ends_session, creates, updates, records,
  appends, saves_forward, closes_forward, closes_stale, saves_alias, removes_alias, perform,
  perform_all, SessionIn, CommandIn, ApprovalIn, OutputIn, ForwardIn, AliasIn, IsConsistent,
  has_key-append, has_key-upsert,
}
use windmill_gate.Store.Integrity.Replaced.{
  targets_replaced, sessions_replaced, commands_replaced, forwards_replaced, approvals_replaced,
  output_replaced, aliases_replaced, require_changed-eq, guard-ok, condition-ok, same_keys,
  All-snoc, All-upsert,
}

module _ (t t' : Tables) (c : IsConsistent t) where
  save_target-IsConsistent : (b : Binding) → save_target b t ≡ ok t' → IsConsistent t'
  unfolding save_target rebind
  save_target-IsConsistent b h = subst IsConsistent (ok-eq h) (
      targets_replaced t c _ (λ k.
        has_key-upsert target_key k _ (rebind b) _
          (λ r e. sym ((equal_iff (target_key r) b.public_target.id).0 e)) t.targets))

  detach_target-IsConsistent :
      (id : Bytes) (now : ℕ) → detach_target id now t ≡ ok t' → IsConsistent t'
  unfolding detach_target
  detach_target-IsConsistent id now h =
      let (rows, changed, done) = bind-eq-ok _ _ h in
      let same = require_changed-eq _ _ t.targets rows changed in
      subst IsConsistent (ap (λ rows. record t { targets = rows }) same ∙ ok-eq done)
        (targets_replaced t c _ (same_keys target_key _ _ t.targets (λ r e. refl)))

  start_agent_session-IsConsistent :
      (id identity target_id transport fingerprint : Bytes) (now : ℕ)
      → start_agent_session id identity target_id transport fingerprint now t ≡ ok t'
      → IsConsistent t'
  unfolding start_agent_session
  start_agent_session-IsConsistent id identity target_id transport fingerprint now h =
      let (free, done) =
        guard-ok constraint_failed
          (has_key session_key id t.sessions || not (has_key target_key target_id t.targets)) h in
      subst IsConsistent done (
        sessions_replaced t c _ (λ k. has_key-append session_key k t.sessions _)
          (All-snoc (SessionIn t) t.sessions _ c.sessions (ground arith)))

  end_agent_session-IsConsistent :
      (id : Bytes) (now : ℕ) → end_agent_session id now t ≡ ok t' → IsConsistent t'
  unfolding end_agent_session
  end_agent_session-IsConsistent id now h =
      let (rows, changed, done) = bind-eq-ok _ _ h in
      let same = require_changed-eq _ _ t.sessions rows changed in
      subst IsConsistent (ap (λ rows. record t { sessions = rows }) same ∙ ok-eq done) (
        sessions_replaced t c _ (same_keys session_key _ _ t.sessions (λ r e. refl)) (
          All-update {P = SessionIn t} (λ r. equal (session_key r) id && is_null r.ended_at)
            (λ r. record r { ended_at = some now }) (λ r h. h) t.sessions c.sessions))

  create_command-IsConsistent :
      (m : Command) (v : Verdict) → create_command m v t ≡ ok t' → IsConsistent t'
  unfolding create_command
  create_command-IsConsistent m v h =
      let (free, done) =
        guard-ok constraint_failed
          (has_key command_key m.id t.commands
            || not (has_key session_key m.agent_session_id t.sessions)
            || not (has_key target_key m.target_id t.targets))
          h in
      subst IsConsistent done (
        commands_replaced t c _ (λ k. has_key-append command_key k t.commands _)
          (All-snoc (CommandIn t) t.commands _ c.commands (ground arith, ground arith)))

  update_command-IsConsistent : (m : Command) → update_command m t ≡ ok t' → IsConsistent t'
  unfolding update_command progressed
  update_command-IsConsistent m h =
      let (rows, changed, done) = bind-eq-ok _ _ h in
      let same = require_changed-eq _ _ t.commands rows changed in
      subst IsConsistent (ap (λ rows. record t { commands = rows }) same ∙ ok-eq done) (
        commands_replaced t c _ (same_keys command_key _ _ t.commands (λ r e. refl)) (
          All-update {P = CommandIn t} (λ r. equal (command_key r) m.id) (progressed m) (λ r h. h)
            t.commands c.commands))

  record_approval-IsConsistent : (d : HumanDecision) → record_approval d t ≡ ok t' → IsConsistent t'
  unfolding record_approval
  record_approval-IsConsistent d h =
      let (known, done) =
        condition-ok constraint_failed (has_key command_key d.command_id t.commands) h in
      subst IsConsistent done
        (approvals_replaced t c _ (All-snoc (ApprovalIn t) t.approvals _ c.approvals known))

  append_within-IsConsistent :
      (now : ℕ) (id stream more : Bytes) (limit : ℕ) (reply : Bytes × Bool)
      → append_within now id stream more limit t ≡ ok (reply, t')
      → IsConsistent t'
  unfolding append_within output_row
  append_within-IsConsistent now id stream more limit reply h =
      elim (Bool-cases
        (any_truncated (rows_of id t.output) || leb limit (used_bytes (rows_of id t.output)))) [
          | inl full ↦ let same : t ≡ t' = ground arith in subst IsConsistent same c
          | inr room ↦
              let rows = rows_of id t.output in
              let row = output_row now id stream more (limit - used_bytes rows) rows in
              let known : has_key command_key id t.commands ≡ true = ground arith in
              let done : record t { output = t.output ++ row ∷ [] } ≡ t' = ground arith in
              subst IsConsistent done
                (output_replaced t c _ (All-snoc (OutputIn t) t.output _ c.output known))
        ]

  append_output-IsConsistent :
      (now : ℕ) (id stream more : Bytes) (limit : ℤ) (reply : Bytes × Bool)
      → append_output now id stream more limit t ≡ ok (reply, t')
      → IsConsistent t'
  unfolding append_output
  append_output-IsConsistent now id stream more (negsuc n) reply h = ground arith
  append_output-IsConsistent now id stream more (pos zero) reply h = ground arith
  append_output-IsConsistent now id stream more (pos (suc n)) reply h =
      append_within-IsConsistent now id stream more (suc n) reply (ground arith)

  save_forward-IsConsistent : (f : ForwardRow) → save_forward f t ≡ ok t' → IsConsistent t'
  unfolding save_forward
  save_forward-IsConsistent f h =
      let (free, done) =
        guard-ok constraint_failed
          (has_key forward_key f.id t.forwards || not (has_key target_key f.target_id t.targets))
          h in
      subst IsConsistent done (
        forwards_replaced t c _ (λ k. has_key-append forward_key k t.forwards _)
          (All-snoc (ForwardIn t) t.forwards _ c.forwards (ground arith)))

  forwards_closed-IsConsistent :
      (p : ForwardRow → Bool) (actor : Bytes) (now : ℕ)
      → record t { forwards = update p (closed_now actor now) t.forwards } ≡ t'
      → IsConsistent t'
  unfolding closed_now
  forwards_closed-IsConsistent p actor now done = subst IsConsistent done (
      forwards_replaced t c _ (same_keys forward_key p _ t.forwards (λ r e. refl))
        (All-update {P = ForwardIn t} p (closed_now actor now) (λ r h. h) t.forwards c.forwards))

  replaced-AliasIn :
      (a : AliasRow) → AliasIn t a → (r : AliasRow) → AliasIn t r → AliasIn t (replaced a r)
  unfolding replaced
  replaced-AliasIn a k r h = elim (Bool-cases (is_null r.removed_at)) [
    | inl active ↦ (ground (arith, h.0), ground (arith, h.1))
    | inr removed ↦ (ground (arith, k.0), ground (arith, k.1))
  ]

  save_host_alias-IsConsistent : (a : AliasRow) → save_host_alias a t ≡ ok t' → IsConsistent t'
  unfolding save_host_alias
  save_host_alias-IsConsistent a h =
      let (known, done) =
        condition-ok constraint_failed
          (has_key target_key a.target_id t.targets && has_key forward_key a.forward_id t.forwards)
          h in
      subst IsConsistent done (
        aliases_replaced t c _ (
          All-upsert (AliasIn t) (λ r. equal r.hostname a.hostname) (replaced a)
            (record a { removed_by = none; removed_at = none })
            (replaced-AliasIn a (ground arith, ground arith)) (ground arith, ground arith) t.aliases
            c.aliases))

  remove_host_alias-IsConsistent :
      (hostname actor : Bytes) (now : ℕ)
      → remove_host_alias hostname actor now t ≡ ok t'
      → IsConsistent t'
  unfolding remove_host_alias
  remove_host_alias-IsConsistent hostname actor now h = subst IsConsistent (ok-eq h) (
      aliases_replaced t c _ (
        All-update {P = AliasIn t} (λ r. equal r.hostname hostname && is_null r.removed_at)
          (λ r. record r { removed_by = some actor; removed_at = some now }) (λ r h. h) t.aliases
          c.aliases))

pub perform-IsConsistent :
    (o : Operation) (t t' : Tables) → IsConsistent t → perform o t ≡ ok t' → IsConsistent t'
unfolding perform close_forward close_stale_forwards
perform-IsConsistent (saves_target b) t t' c h = save_target-IsConsistent t t' c b h
perform-IsConsistent (detaches id now) t t' c h = detach_target-IsConsistent t t' c id now h
perform-IsConsistent (starts_session id identity target transport fingerprint now) t t' c h =
    start_agent_session-IsConsistent t t' c id identity target transport fingerprint now h
perform-IsConsistent (ends_session id now) t t' c h = end_agent_session-IsConsistent t t' c id now h
perform-IsConsistent (creates m v) t t' c h = create_command-IsConsistent t t' c m v h
perform-IsConsistent (updates m) t t' c h = update_command-IsConsistent t t' c m h
perform-IsConsistent (records d) t t' c h = record_approval-IsConsistent t t' c d h
perform-IsConsistent (appends now id stream more limit) t t' c h =
    let ((reply, tables), appended, done) =
      bind-eq-ok (append_output now id stream more limit t) (λ r. ok r.1) h in
    subst IsConsistent (ok-eq done)
      (append_output-IsConsistent t tables c now id stream more limit reply appended)
perform-IsConsistent (saves_forward f) t t' c h = save_forward-IsConsistent t t' c f h
perform-IsConsistent (closes_forward id actor now) t t' c h =
    forwards_closed-IsConsistent t t' c _ actor now (ok-eq h)
perform-IsConsistent (closes_stale now) t t' c h =
    forwards_closed-IsConsistent t t' c _ (codes "daemon-restart") now (ok-eq h)
perform-IsConsistent (saves_alias a) t t' c h = save_host_alias-IsConsistent t t' c a h
perform-IsConsistent (removes_alias hostname actor now) t t' c h =
    remove_host_alias-IsConsistent t t' c hostname actor now h

-- From tables whose references all have their keys, any statements leave such tables, whichever
-- of them fail: a command has its session and target, an approval and a piece of output their
-- command, a forward its target, and an alias its target and its forward.
pub perform_all-IsConsistent :
    (os : List Operation) (t : Tables) → IsConsistent t → IsConsistent (perform_all os t)
unfolding perform_all
perform_all-IsConsistent [] t c = c
perform_all-IsConsistent (o ∷ os) t c = elim (Result-cases (perform o t)) [
  | inl (t', done) ↦
      subst IsConsistent (ground arith)
        (perform_all-IsConsistent os t' (perform-IsConsistent o t t' c done))
  | inr (e, failed) ↦ subst IsConsistent (ground arith) (perform_all-IsConsistent os t c)
]
