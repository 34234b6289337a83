-- ===== src/Approval/Decisions.antt =====
-- What a decision that reaches a waiter rests on, whatever the calls that came before it.
use windmill_gate.Base.{
  ℕ, true, false, none, some, ◌≡◌, arith, if◌then◌else◌, Bytes, equal, equal_iff, Option-cases, inl,
  inr,
}
use windmill_gate.Base.Maps.{lookup, lookup-insert, lookup-delete}
use windmill_gate.Base.Results.{ok, bind-eq-ok}
use windmill_gate.Command.{verify_approval}
use windmill_gate.Target.{is_blank}
use windmill_gate.Approval.{
  HumanDecision, Request, Broker, known_action, completed, check, decide, verified,
}

module _ (digest : Bytes → Bytes) where
  -- What a decision must be for the request it decides.
  pub record IsVerified (r : Request) (d : HumanDecision) : Type 0 where
    pub same_id : d.command_id ≡ r.command.id
    pub same_hash : d.hash ≡ r.command.hash
    pub unchanged : digest r.command.payload ≡ r.command.hash
    pub known : known_action d.action ≡ true
    pub by_someone : is_blank d.actor ≡ false

  check-IsVerified : (r : Request) (d : HumanDecision) → check digest r d ≡ ok tt → IsVerified r d
  unfolding check verify_approval verified
  check-IsVerified r d h = record {
    same_id = ground (arith, equal_iff d.command_id r.command.id);
    same_hash = ground (arith, equal_iff d.hash r.command.hash);
    unchanged = ground (arith, equal_iff (digest r.command.payload) r.command.hash);
    known = ground arith;
    by_someone = ground arith;
  }

  pub completed-IsVerified :
      (now : ℕ) (r : Request) (d : HumanDecision)
      → IsVerified r d
      → IsVerified r (completed now r d)
  unfolding completed
  completed-IsVerified now r d v = record {
    same_id = v.same_id;
    same_hash = v.same_hash;
    unchanged = v.unchanged;
    known = v.known;
    by_someone = v.by_someone;
  }

  -- A decision is accepted only for a request that waits for it, and is then delivered to that
  -- request alone.
  pub record IsDecided (now : ℕ) (d : HumanDecision) (b b' : Broker) : Type 0 where
    pub request : Request
    pub was_pending : lookup d.command_id b.pending ≡ some request
    pub is_verified : IsVerified request d
    pub pending :
        (j : Bytes)
        → lookup j b'.pending ≡ (if equal d.command_id j then none else lookup j b.pending)
    pub delivered :
        (j : Bytes)
        → lookup j b'.delivered ≡ (
            if equal d.command_id j
            then some (request, completed now request d)
            else lookup j b.delivered)

  -- A decision that the broker accepts was waited for, is of a known kind, has an actor, and names
  -- the identifier and the hash of the request's unchanged payload; the request no longer waits
  -- and has the decision, and no other request changes.
  pub decide-IsDecided :
      (now : ℕ) (d : HumanDecision) (b b' : Broker)
      → decide digest now d b ≡ ok b'
      → IsDecided now d b b'
  unfolding decide
  decide-IsDecided now d b b' h = elim (Option-cases (lookup d.command_id b.pending)) [
    | inl n ↦ absurd (cc (rw (n, decide) at h))
    | inr (r, p) ↦
        let (_, checked, done) = bind-eq-ok (check digest r d) _ (rw (p, decide) at h) in
        record {
          request = r;
          was_pending = p;
          is_verified = check-IsVerified r d checked;
          pending = λ j. ground (arith, lookup-delete d.command_id j b.pending);
          delivered =
              λ j. ground (arith, lookup-insert d.command_id j (r, completed now r d) b.delivered);
        }
  ]
