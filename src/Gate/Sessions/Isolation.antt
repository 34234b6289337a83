-- ===== src/Gate/Sessions/Isolation.antt =====
-- What an operation on one target, session or command leaves of the others.
use windmill_gate.Base.{
  Bool, true, false, [], ◌∷◌, Option, none, some, ◌≡◌, ◌≢◌, refl, sym, ap, ◌∙◌, arith,
  if◌then◌else◌, Bytes, equal, equal_iff, Option-cases, ◌⊎◌, inl, inr,
}
use windmill_gate.Base.Maps.{
  Map, lookup, delete, lookup-insert, lookup-delete_self, lookup-delete_ne,
}
use windmill_gate.Base.Results.{err, ok, bind-eq-ok}
use windmill_gate.Target.{resolve, remove, not_found}
use windmill_gate.Policy.Engine
use windmill_gate.Policy.Engine.{Matching}
use windmill_gate.Gate.Sessions.{
  ServiceError, AgentSession, Running, Service, validate_identity, validate_fingerprint, detach_all,
  cancel_where, attach, attached_to, open_session, enroll, cancel_session_command, release,
  detach_target, forget, resolved, made_id,
}

detach_all-none :
    (target : Bytes) (ats : Map Bytes) (identity : Bytes)
    → lookup identity (detach_all target ats) ≢ some target
unfolding detach_all lookup
detach_all-none target [] identity h = cc
detach_all-none target ((i, t) ∷ ats) identity h =
    detach_all-none target ats identity (ground (arith, equal_iff t target))

detach_all-kept :
    (target : Bytes) (ats : Map Bytes) (identity other : Bytes)
    → equal other target ≡ false
    → lookup identity ats ≡ some other
    → lookup identity (detach_all target ats) ≡ some other
unfolding detach_all lookup
detach_all-kept target [] identity other n h = h
detach_all-kept target ((i, t) ∷ ats) identity other n h =
    ground (arith, detach_all-kept target ats identity other n)

-- The entry of a running command after those that satisfy `p` are cancelled.
abbrev pub cancelled_if : (Running → Bool) → Option Running → Option Running
cancelled_if p none = none
cancelled_if p (some r) = some (if p r then record r { cancelled = true } else r)

lookup-cancel_where :
    (p : Running → Bool) (id : Bytes) (rs : Map Running)
    → lookup id (cancel_where p rs) ≡ cancelled_if p (lookup id rs)
unfolding cancel_where lookup
lookup-cancel_where p id [] = refl
lookup-cancel_where p id ((j, r) ∷ rs) = ground (arith, lookup-cancel_where p id rs)

module _ {m : Matching} where
  -- What is left of a target that is released: nothing.
  pub record IsReleased (target : Bytes) (s s' : Service m) : Type 0 where
    pub no_attachment : (identity : Bytes) → lookup identity s'.attachments ≢ some target
    pub other_attachments :
        (identity other : Bytes)
        → equal other target ≡ false
        → lookup identity s.attachments ≡ some other
        → lookup identity s'.attachments ≡ some other
    pub stopped :
        (id : Bytes)
        → lookup id s'.running ≡ cancelled_if (λ r. equal r.target_id target) (lookup id s.running)
    pub sessions : s'.sessions ≡ s.sessions
    pub other_targets :
        (other : Bytes)
        → equal target other ≡ false
        → lookup other s'.targets ≡ lookup other s.targets
    pub policy : (s'.policy ≡ s.policy) ⊎ (s'.policy ≡ Engine.detach_target m s.policy target)

  -- the bindings and the policy: both as before, or without the target
  forgotten :
      (target : Bytes) (closed stored : Bool) (s : Service m)
      → let s' = (detach_target target closed stored s).1 in
        ((s'.targets ≡ s.targets) × (s'.policy ≡ s.policy))
        ⊎ ((s'.targets ≡ delete target s.targets)
            × (s'.policy ≡ Engine.detach_target m s.policy target))
  unfolding detach_target release forget remove
  forgotten target false stored s = inl (refl, refl)
  forgotten target true stored s = elim (Option-cases (lookup target s.targets)) [
    | inl absent ↦ inl (
      rw (absent, detach_target, forget, remove) refl,
      rw (absent, detach_target, forget, remove) refl,
    )
    | inr (binding, found) ↦ inr (
      rw (found, detach_target, forget, remove) refl,
      rw (found, detach_target, forget, remove) refl,
    )
  ]

  -- Whether or not `DetachTarget` succeeds, afterwards no agent is attached to the target and its
  -- running commands are cancelled, while the other attachments and the other running commands
  -- are as before, and so are the table of sessions and the other targets' bindings. The policy is
  -- as before, or as its own `DetachTarget` leaves it.
  pub detach_target-IsReleased :
      (target : Bytes) (closed stored : Bool) (s : Service m)
      → IsReleased target s (detach_target target closed stored s).1
  unfolding detach_target release forget
  detach_target-IsReleased target closed stored s = record {
    no_attachment = λ identity h. detach_all-none target s.attachments identity (ground arith);
    other_attachments = λ identity other n h.
        ground (arith, detach_all-kept target s.attachments identity other n h);
    stopped =
        λ id. ground (arith, lookup-cancel_where (λ r. equal r.target_id target) id s.running);
    sessions = ground arith;
    other_targets = λ other n. elim (forgotten target closed stored s) [
      | inl (targets, policy) ↦ ap (lookup other) targets
      | inr (targets, policy) ↦
          ap (lookup other) targets ∙ lookup-delete_ne target other s.targets n
    ];
    policy = elim (forgotten target closed stored s) [
      | inl (targets, policy) ↦ inl policy
      | inr (targets, policy) ↦ inr policy
    ];
  }

  -- When `DetachTarget` succeeds, the target resolves no more.
  pub detach_target-resolve :
      (target : Bytes) (closed stored : Bool) (s : Service m)
      → (detach_target target closed stored s).0 ≡ ok tt
      → resolve target (detach_target target closed stored s).1.targets ≡ err not_found
  unfolding detach_target release forget resolve remove
  detach_target-resolve target closed stored s h =
      ground (arith, lookup-delete_self target s.targets)

  attached_to-lookup :
      (identity : Bytes) (s : Service m) (target : Bytes)
      → attached_to identity s ≡ ok target
      → lookup identity s.attachments ≡ some target
  unfolding attached_to
  attached_to-lookup identity s target h = ground arith

  enroll-ok :
      (stored : Bool) (x session : AgentSession) (s s' : Service m)
      → enroll stored x s ≡ ok (session, s')
      → (x ≡ session)
        × ((j : Bytes)
            → lookup j s'.sessions
              ≡ (if equal session.id j then some session else lookup j s.sessions))
  unfolding enroll
  enroll-ok stored x session s s' h =
      (ground arith, λ j. ground (arith, lookup-insert x.id j x s.sessions))

  -- A session is opened only for an identity that is attached, and on the target it is attached to.
  pub open_session-attached :
      (id : Option Bytes) (stored : Bool) (identity transport fingerprint : Bytes)
      (s s' : Service m) (session : AgentSession)
      → open_session id stored identity transport fingerprint s ≡ ok (session, s')
      → (lookup identity s.attachments ≡ some session.target_id)
        × (session.identity ≡ identity)
        × ((j : Bytes)
            → lookup j s'.sessions
              ≡ (if equal session.id j then some session else lookup j s.sessions))
  unfolding open_session
  open_session-attached id stored identity transport fingerprint s s' session h =
      let (_, _, h1) = bind-eq-ok (validate_identity identity) _ h in
      let (_, _, h2) = bind-eq-ok (validate_fingerprint transport fingerprint) _ h1 in
      let (target, t, h3) = bind-eq-ok (attached_to identity s) _ h2 in
      let (_, _, h4) =
        bind-eq-ok (resolved (resolve target s.targets) ServiceError.not_attached) _ h3 in
      let (i, _, h5) = bind-eq-ok (made_id id) _ h4 in
      let (same, j) = enroll-ok stored _ session s s' h5 in
      (
        attached_to-lookup identity s target t ∙ ap (λ x. some x.target_id) same,
        sym (ap (λ x. x.identity) same),
        j,
      )

  -- An attachment changes the target of future sessions only: no session that is open, no running
  -- command and no other identity's attachment changes.
  pub attach-future :
      (identity target : Bytes) (s s' : Service m)
      → attach identity target s ≡ ok s'
      → (s'.sessions ≡ s.sessions)
        × (s'.running ≡ s.running)
        × ((j : Bytes)
            → lookup j s'.attachments
              ≡ (if equal identity j then some target else lookup j s.attachments))
  unfolding attach
  attach-future identity target s s' h =
      let (_, _, first) = bind-eq-ok (validate_identity identity) _ h in
      let (_, _, later) =
        bind-eq-ok (resolved (resolve target s.targets) ServiceError.target_not_found) _ first in
      (
        ground arith,
        ground arith,
        λ j. ground (arith, lookup-insert identity j target s.attachments),
      )

  -- A session cancels no command but its own: where it has an effect, the command is running and
  -- is the session's, and no other command changes.
  pub cancel_session_command-owned :
      (session id : Bytes) (s s' : Service m)
      → cancel_session_command session id s ≡ ok s'
      → (r : Running) × (lookup id s.running ≡ some r)
        × (r.session_id ≡ session)
        × ((j : Bytes)
            → lookup j s'.running
              ≡ (if equal id j then some (record r { cancelled = true }) else lookup j s.running))
  unfolding cancel_session_command
  cancel_session_command-owned session id s s' h = elim (Option-cases (lookup id s.running)) [
    | inl n ↦ absurd (cc (rw (n, cancel_session_command) at h))
    | inr (r, e) ↦ (
      r,
      e,
      ground (arith, equal_iff r.session_id session),
      λ j. ground (arith, lookup-insert id j (record r { cancelled = true }) s.running),
    )
  ]
