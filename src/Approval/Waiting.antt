-- ===== src/Approval/Waiting.antt =====
-- Sequences of the broker's operations, and the whole of `Wait`.
use windmill_gate.Base.{
  refl, ℕ, Bool, true, false, ◌≢◌, Option-cases, List, [], ◌∷◌, Option, none, some, ◌≡◌, sym, ◌∙◌,
  ap, subst, arith, if◌then◌else◌, Bytes, equal, equal_iff, equal_refl, Bool-cases, inl, inr,
}
use windmill_gate.Base.Maps.{lookup, lookup-insert, lookup-delete, lookup-delete_self}
use windmill_gate.Base.Results.{Result, ok, err, Result-cases}
use windmill_gate.Command.{Command}
use windmill_gate.Policy.Engine.{Verdict}
use windmill_gate.Approval.{
  HumanDecision, Request, ApprovalError, already_pending, Broker, answer, no_requests, submit,
  receive, cancel, completed, decide, decide_all, wait,
}
use windmill_gate.Approval.Decisions.{IsVerified, decide-IsDecided, completed-IsVerified}

some-eq : {A : Type 0} {a b : A} → ◌≡◌ {A = Option A} (some a) (some b) → a ≡ b
some-eq h = cc

module _ (digest : Bytes → Bytes) where
  -- `Step b b'`: one operation that the broker accepts leads from `b` to `b'`.
  pub data Step (b : Broker) : Broker → Type 0 where
    submitted : {b' : Broker} (c : Command) (v : Verdict) → submit c v b ≡ ok b' → Step b b'
    decided :
        {b' : Broker} (now : ℕ) (d : HumanDecision) → decide digest now d b ≡ ok b' → Step b b'
    received :
        {b' : Broker} (id : Bytes) (d : HumanDecision) → receive id b ≡ some (d, b') → Step b b'
    cancelled : (id : Bytes) → Step b (cancel id b)

  pub data Reachable : Broker → Type 0 where
    initial : Reachable no_requests
    step : {b b' : Broker} → Reachable b → Step b b' → Reachable b'

  -- Each request waits under its own identifier, and each delivered decision is one that
  -- `Decide` verified for the request under whose identifier it lies.
  pub record IsSound (b : Broker) : Type 0 where
    pub keyed : (id : Bytes) (r : Request) → lookup id b.pending ≡ some r → r.command.id ≡ id
    pub verified :
        (id : Bytes) (r : Request) (d : HumanDecision)
        → lookup id b.delivered ≡ some (r, d)
        → IsVerified digest r d × (r.command.id ≡ id)

  no_requests-IsSound : IsSound no_requests
  unfolding lookup
  no_requests-IsSound = record { keyed = λ id r h. cc; verified = λ id r d h. cc }

  submit-pending :
      (c : Command) (v : Verdict) (b b' : Broker)
      → submit c v b ≡ ok b'
      → ((j : Bytes)
          → lookup j b'.pending ≡ (
              if equal c.id j
              then some (record { command = c; policy = v })
              else lookup j b.pending))
        × ((j : Bytes)
            → lookup j b'.delivered ≡ (if equal c.id j then none else lookup j b.delivered))
  unfolding submit
  submit-pending c v b b' h = (
    λ j. ground (arith, lookup-insert c.id j (record { command = c; policy = v }) b.pending),
    λ j. ground (arith, lookup-delete c.id j b.delivered),
  )

  submit-IsSound :
      (c : Command) (v : Verdict) (b b' : Broker) → IsSound b → submit c v b ≡ ok b' → IsSound b'
  submit-IsSound c v b b' s h =
      let (p, e) = submit-pending c v b b' h in
      record {
        keyed = λ id r l. ground (arith, p id, equal_iff c.id id, s.keyed id r);
        verified = λ id r d l. s.verified id r d (ground (arith, e id));
      }

  decide-IsSound :
      (now : ℕ) (d : HumanDecision) (b b' : Broker)
      → IsSound b
      → decide digest now d b ≡ ok b'
      → IsSound b'
  decide-IsSound now d b b' s h =
      let x = decide-IsDecided digest now d b b' h in
      record {
        keyed = λ id r l. ground (arith, x.pending id, s.keyed id r);
        verified = λ id r e l. elim (Bool-cases (equal d.command_id id)) [
          | inl y ↦
              let q : ◌≡◌ {A = Request × HumanDecision} (x.request, completed now x.request d)
                  (r, e) =
                some-eq (sym (rw y at (x.delivered id)) ∙ l) in
              let own =
                s.keyed d.command_id x.request x.was_pending ∙ (equal_iff d.command_id id).0 y in
              subst (λ p. IsVerified digest p.0 p.1 × (p.0.command.id ≡ id)) q
                (completed-IsVerified digest now x.request d x.is_verified, own)
          | inr n ↦ s.verified id r e (ground (arith, x.delivered id))
        ];
      }

  receive-IsSound :
      (id : Bytes) (d : HumanDecision) (b b' : Broker)
      → IsSound b
      → receive id b ≡ some (d, b')
      → IsSound b'
  unfolding receive
  receive-IsSound id d b b' s h = record {
    keyed = λ j r l. ground (arith, s.keyed j r);
    verified = λ j r e l. s.verified j r e (ground (arith, lookup-delete id j b.delivered));
  }

  cancel-IsSound : (id : Bytes) (b : Broker) → IsSound b → IsSound (cancel id b)
  unfolding cancel
  cancel-IsSound id b s = record {
    keyed = λ j r l. s.keyed j r (ground (arith, lookup-delete id j b.pending));
    verified = λ j r e l. s.verified j r e (ground (arith, lookup-delete id j b.delivered));
  }

  -- In every state that the broker's operations lead to, each decision that is ready for a waiter
  -- names the identifier and the hash of the unchanged payload of the request it is delivered
  -- to, is of a known kind and has an actor.
  pub Reachable-IsSound : {b : Broker} → Reachable b → IsSound b
  Reachable-IsSound initial = no_requests-IsSound
  Reachable-IsSound (step {b} {b'} r (submitted c v h)) =
      submit-IsSound c v b b' (Reachable-IsSound r) h
  Reachable-IsSound (step {b} {b'} r (decided now d h)) =
      decide-IsSound now d b b' (Reachable-IsSound r) h
  Reachable-IsSound (step {b} {b'} r (received id d h)) =
      receive-IsSound id d b b' (Reachable-IsSound r) h
  Reachable-IsSound (step {b} r (cancelled id)) = cancel-IsSound id b (Reachable-IsSound r)

  -- The state of the request `q` between the two parts of its `Wait`.
  data IsAwaited (id : Bytes) (q : Request) (b : Broker) : Type 0 where
    undecided : lookup id b.pending ≡ some q → lookup id b.delivered ≡ none → IsAwaited id q b
    answered :
        (d : HumanDecision)
        → lookup id b.pending ≡ none
        → lookup id b.delivered ≡ some (q, d)
        → IsVerified digest q d
        → IsAwaited id q b

  decide-IsAwaited :
      (id : Bytes) (q : Request) (now : ℕ) (d : HumanDecision) (b b' : Broker)
      → IsAwaited id q b
      → decide digest now d b ≡ ok b'
      → IsAwaited id q b'
  decide-IsAwaited id q now d b b' (undecided p n) h =
      let x = decide-IsDecided digest now d b b' h in
      elim (Bool-cases (equal d.command_id id)) [
        | inl y ↦
            let e : x.request ≡ q = some-eq (
              sym x.was_pending
              ∙ ap (λ j. lookup j b.pending) ((equal_iff d.command_id id).0 y)
              ∙ p) in
            answered (completed now q d) (rw y at (x.pending id))
              (subst (λ r. lookup id b'.delivered ≡ some (r, completed now r d)) e
                (rw y at (x.delivered id)))
              (subst (λ r. IsVerified digest r (completed now r d)) e
                (completed-IsVerified digest now x.request d x.is_verified))
        | inr m ↦ undecided (ground (arith, x.pending id)) (ground (arith, x.delivered id))
      ]
  decide-IsAwaited id q now d b b' (answered a p n v) h =
      let x = decide-IsDecided digest now d b b' h in
      elim (Bool-cases (equal d.command_id id)) [
        | inl y ↦ absurd (
            cc (
              sym p
              ∙ sym (ap (λ j. lookup j b.pending) ((equal_iff d.command_id id).0 y))
              ∙ x.was_pending))
        | inr m ↦ answered a (ground (arith, x.pending id)) (ground (arith, x.delivered id)) v
      ]

  decide_all-IsAwaited :
      (id : Bytes) (q : Request) (script : List (ℕ × HumanDecision)) (b : Broker)
      → IsAwaited id q b
      → IsAwaited id q (decide_all digest script b)
  unfolding decide_all
  decide_all-IsAwaited id q [] b a = a
  decide_all-IsAwaited id q ((now, d) ∷ ds) b a = elim (Result-cases (decide digest now d b)) [
    | inl (c, e) ↦
        rw (e, decide_all) (decide_all-IsAwaited id q ds c (decide-IsAwaited id q now d b c a e))
    | inr (_, e) ↦ rw (e, decide_all) (decide_all-IsAwaited id q ds b a)
  ]

  -- What is left of a request when its `Wait` returns, and what the answer is.
  pub record IsAnswered (q : Request) (o : Option HumanDecision) (b : Broker) : Type 0 where
    pub no_longer_pending : lookup q.command.id b.pending ≡ none
    pub taken : lookup q.command.id b.delivered ≡ none
    pub right : (d : HumanDecision) → o ≡ some d → IsVerified digest q d

  answer-IsAnswered :
      (ended : Bool) (q : Request) (b b' : Broker) (o : Option HumanDecision)
      → IsAwaited q.command.id q b
      → answer digest ended q.command.id b ≡ (o, b')
      → IsAnswered q o b'
  unfolding answer receive cancel
  answer-IsAnswered true q b b' o a h = record {
    no_longer_pending = ground (arith, lookup-delete_self q.command.id b.pending);
    taken = ground (arith, lookup-delete_self q.command.id b.delivered);
    right = λ d e. absurd (cc);
  }
  answer-IsAnswered false q b b' o (undecided p n) h = record {
    no_longer_pending = ground (arith, lookup-delete_self q.command.id b.pending);
    taken = ground (arith, lookup-delete_self q.command.id b.delivered);
    right = λ d e. absurd (cc (rw n at h));
  }
  answer-IsAnswered false q b b' o (answered d p n v) h = record {
    no_longer_pending = ground arith;
    taken = ground (arith, lookup-delete_self q.command.id b.delivered);
    right = λ e f. subst (IsVerified digest q) (some-eq (cc (rw n at h))) v;
  }

  submit-IsAwaited :
      (c : Command) (v : Verdict) (b b' : Broker)
      → submit c v b ≡ ok b'
      → IsAwaited c.id (record { command = c; policy = v }) b'
  submit-IsAwaited c v b b' h =
      let (p, e) = submit-pending c v b b' h in
      undecided (ground (arith, p c.id, equal_refl c.id)) (ground (arith, e c.id, equal_refl c.id))

  submit-free :
      (c : Command) (v : Verdict) (b b' : Broker)
      → submit c v b ≡ ok b'
      → lookup c.id b.pending ≡ none
  unfolding submit
  submit-free c v b b' h = ground arith

  submit-refused :
      (c : Command) (v : Verdict) (b : Broker) (e : ApprovalError)
      → submit c v b ≡ err e
      → (e ≡ already_pending) × (lookup c.id b.pending ≢ none)
  unfolding submit
  submit-refused c v b e h = elim (Option-cases (lookup c.id b.pending)) [
    | inl free ↦ absurd (cc (rw (free, submit) at h))
    | inr (r, found) ↦ (ground arith, λ absent. cc)
  ]

  -- What `Wait` of a request returns, and leaves: an error where one of its identifier is pending.
  unfoldable pub Returns :
      Request → Broker → Result ApprovalError (Option HumanDecision × Broker) → Type 0
  Returns q b (err e) = (e ≡ already_pending) × (lookup q.command.id b.pending ≢ none)
  Returns q b (ok (o, b')) = (lookup q.command.id b.pending ≡ none) × IsAnswered q o b'

  -- Whatever is decided meanwhile, and whether or not its context ends: `Wait` refuses a command
  -- exactly when a request of its identifier is pending, with that error. When it returns
  -- otherwise, with a decision or because its context ended, no request of the identifier is
  -- pending and nothing is left in its channel; and a decision that it returns is one that
  -- `Decide` verified for this command: it has the command's identifier and hash, which is still
  -- the hash of the payload, a known action and an actor.
  pub wait-IsAnswered :
      (script : List (ℕ × HumanDecision)) (ended : Bool) (c : Command) (v : Verdict) (b : Broker)
      → Returns (record { command = c; policy = v }) b (wait digest script ended c v b)
  unfolding wait Returns
  wait-IsAnswered script ended c v b = elim (Result-cases (submit c v b)) [
    | inr (x, refused) ↦ rw refused (submit-refused c v b x refused)
    | inl (asked, s) ↦
        let q : Request = record { command = c; policy = v } in
        rw s (
          submit-free c v b asked s,
          answer-IsAnswered ended q (decide_all digest script asked) _ _
              (decide_all-IsAwaited c.id q script asked (submit-IsAwaited c v b asked s)) refl,
        )
  ]
