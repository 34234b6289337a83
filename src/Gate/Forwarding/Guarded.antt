-- ===== src/Gate/Forwarding/Guarded.antt =====
-- What `AddForward` and `AddHostAlias` of internal/gate/service.go need before they change anything.
use windmill_gate.Base.{ℕ, true, [], ◌==◌, ◌≡◌, ◌⊎◌, inl, inr, arith, Bytes, Bool-cases}
use windmill_gate.Base.Results.{Result, ok, Result-cases}
use windmill_gate.Policy.Engine.{Matching, evaluate}
use windmill_gate.Forward.Hosts.{normalize_hostname}
use windmill_gate.Forward.Manager.{Outside}
use windmill_gate.Forward.Aliases.{AliasOutside}
use windmill_gate.Gate.World.{Environment, Approvals, World, Session}
use windmill_gate.Gate.Commands.{authorize_capability}
use windmill_gate.Gate.Lawful.{IsPermitted}
use windmill_gate.Gate.Safety.{authorize_capability-IsPermitted}
use windmill_gate.Gate.Forwarding.{
  CapabilityError, Forwarding, forward_payload, alias_payload, open_forward, open_alias,
  when_authorized, add_forward, add_host_alias,
}

module _ (env : Environment) (a : Approvals env.digest) {m : Matching} where
  -- The policy, or a human that it asks, permits the payload.
  abbrev pub Permits : Session → Bytes → World m → Type 0
  Permits session payload w =
      IsPermitted env.digest env.new_id w.targets session.target_id payload
        (evaluate m w.engine session.target_id payload)

  module _ {A : Type 0} (session : Session) (payload : Bytes)
      (operation : Forwarding → Result CapabilityError A × Forwarding) where
    unchanged_or_authorized :
        (w : World m) (f : Forwarding)
        → ((when_authorized env a session payload operation (w, f)).1.1 ≡ f)
          ⊎ ((authorize_capability env a session payload w).0 ≡ ok true)
    unfolding when_authorized
    unchanged_or_authorized w f =
        elim (Result-cases (authorize_capability env a session payload w).0) [
          | inr (e, failed) ↦ inl (ground arith)
          | inl (granted, answered) ↦ elim (Bool-cases granted) [
            | inl given ↦ inr (ground arith)
            | inr withheld ↦ inl (ground arith)
          ]
        ]

    unchanged_or_permitted :
        (w : World m) (f : Forwarding)
        → w.trace ≡ []
        → ((when_authorized env a session payload operation (w, f)).1.1 ≡ f)
          ⊎ Permits session payload w
    unchanged_or_permitted w f fresh = elim (unchanged_or_authorized w f) [
      | inl same ↦ inl same
      | inr authorized ↦
          inr (authorize_capability-IsPermitted env a session payload w fresh authorized)
    ]

  module _ (out : Outside) (names : AliasOutside) (identity : Bytes) (session : Session) (port : ℕ)
      (w : World m) (f : Forwarding) (fresh : w.trace ≡ []) where
    forward-IsPermitted :
        ((add_forward env a out identity session port (w, f)).1.1 ≡ f)
        ⊎ Permits session (forward_payload port) w
    unfolding add_forward
    forward-IsPermitted = elim (Bool-cases (port == 0)) [
      | inl zero_port ↦ inl (ground arith)
      | inr some_port ↦
          elim (unchanged_or_permitted session (forward_payload port)
            (open_forward out identity session port) w f fresh) [
              | inl same ↦ inl (ground arith)
              | inr permitted ↦ inr permitted
            ]
    ]

    alias-IsPermitted :
        (hostname : Bytes)
        → ((add_host_alias env a out names identity session hostname port (w, f)).1.1 ≡ f)
          ⊎ ((name : Bytes) × (normalize_hostname hostname ≡ ok name)
              × Permits session (alias_payload name port) w)
    unfolding add_host_alias
    alias-IsPermitted hostname = elim (Bool-cases (port == 0)) [
      | inl zero_port ↦ inl (ground arith)
      | inr some_port ↦ elim (Result-cases (normalize_hostname hostname)) [
        | inr (e, refused) ↦ inl (ground arith)
        | inl (name, normalized) ↦
            elim (unchanged_or_permitted session (alias_payload name port)
              (open_alias out names identity session name port) w f fresh) [
                | inl same ↦ inl (ground arith)
                | inr permitted ↦ inr (name, normalized, permitted)
              ]
      ]
    ]

    -- From a world without a trace, `AddForward` and `AddHostAlias` leave the forwards, the
    -- aliases, their rows and the resolver file as they were, unless the payload that names the
    -- port, and for an alias the normalized host name, is permitted by the policy, or by a human
    -- where the policy asks.
    pub added-IsPermitted :
        (hostname : Bytes)
        → (((add_forward env a out identity session port (w, f)).1.1 ≡ f)
            ⊎ Permits session (forward_payload port) w)
          × (((add_host_alias env a out names identity session hostname port (w, f)).1.1 ≡ f)
              ⊎ ((name : Bytes) × (normalize_hostname hostname ≡ ok name)
                  × Permits session (alias_payload name port) w))
    added-IsPermitted hostname = (forward-IsPermitted, alias-IsPermitted hostname)
