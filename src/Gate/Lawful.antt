-- ===== src/Gate/Lawful.antt =====
-- Which calls a command's trace may contain, and in which order.
pub mod Rules
pub mod Steps
pub mod Execution
pub mod Calls
use windmill_gate.Base.{
  ℕ, Bool, true, false, not, ◌&&◌, ◌||◌, List, [], ◌∷◌, Option, some, ◌≡◌, Bytes, any, refl, arith,
  Bool-cases, inl, inr,
}
use windmill_gate.Base.Int.{ℤ}
use windmill_gate.Base.Results.{Result, ok, err}
use windmill_gate.Command.{State, is_running, Command}
use windmill_gate.Target.{Bindings, Binding, resolve, is_blank}
use windmill_gate.Policy.Engine.{Decision, allow, ask, deny, Verdict}
use windmill_gate.Approval.{Action, HumanDecision, known_action}
use windmill_gate.Gate.World.{
  Event, created, accepted, updated, shown, recorded, executed, output, exited, error_shown,
  notified, Entry,
}

abbrev pub is_allow : Decision → Bool
is_allow allow = true
is_allow _ = false

abbrev pub is_deny : Action → Bool
is_deny Action.deny = true
is_deny _ = false

-- The call leaves a permission in the audit store: the policy's, or a human's.
abbrev pub permits : Event → Bool
permits (created c v) = is_allow v.decision
permits (recorded d) = not (is_deny d.action)
permits _ = false

-- The call stores that the command is running.
abbrev pub starts : Event → Bool
starts (updated c) = is_running c.state
starts _ = false

abbrev pub is_plain : Event → Bool
is_plain (created c v) = false
is_plain (recorded d) = false
is_plain (executed b p) = false
is_plain _ = true

abbrev pub is_executed : Event → Bool
is_executed (executed b p) = true
is_executed _ = false

-- Some call of the trace succeeded and is of this kind.
abbrev pub done : (Event → Bool) → List Entry → Bool
done kind trace = any (λ e. e.succeeded && kind e.event) trace

-- Some call of the trace executes a command, whether or not it succeeds.
abbrev pub executes_any : List Entry → Bool
executes_any trace = any (λ e. is_executed e.event) trace

is_allow-eq : (x : Decision) → is_allow x ≡ true → x ≡ allow
is_allow-eq allow h = refl
is_allow-eq ask h = absurd (cc)
is_allow-eq deny h = absurd (cc)

module _ (digest : Bytes → Bytes) (id : Option Bytes) (targets : Bindings) (target payload : Bytes)
    (verdict : Verdict) where
  -- A human's decision on this command and this payload.
  pub record IsDecisionOn (d : HumanDecision) : Type 0 where
    pub same_id : id ≡ some d.command_id
    pub same_hash : d.hash ≡ digest payload
    pub known : known_action d.action ≡ true
    pub by_someone : is_blank d.actor ≡ false

  -- A command is executed only on the backend its target resolves to, with the submitted payload
  -- as it was, after a permission was stored and after it was stored as running. What is stored
  -- is the policy's verdict, and a human's decision on this very command.
  pub data IsLawful : List Entry → Type 0 where
    empty : IsLawful []
    plain :
        {trace : List Entry} (e : Event) (b : Bool)
        → is_plain e ≡ true
        → IsLawful trace
        → IsLawful (record { event = e; succeeded = b } ∷ trace)
    creates :
        {trace : List Entry} (c : Command) (b : Bool)
        → c.payload ≡ payload
        → IsLawful trace
        → IsLawful (record { event = created c verdict; succeeded = b } ∷ trace)
    decides :
        {trace : List Entry} (d : HumanDecision) (b : Bool)
        → verdict.decision ≡ ask
        → IsDecisionOn d
        → IsLawful trace
        → IsLawful (record { event = recorded d; succeeded = b } ∷ trace)
    executes :
        {trace : List Entry} (t : Binding) (b : Bool)
        → resolve target targets ≡ ok t
        → done permits trace ≡ true
        → done starts trace ≡ true
        → IsLawful trace
        → IsLawful (record { event = executed t.backend_id payload; succeeded = b } ∷ trace)

  -- What a command may be executed on: the policy's permission, or a human's where it asks for one.
  pub data IsPermitted : Type 0 where
    by_policy : verdict.decision ≡ allow → IsPermitted
    by_human :
        (d : HumanDecision)
        → verdict.decision ≡ ask
        → IsDecisionOn d
        → is_deny d.action ≡ false
        → IsPermitted

  pub permits-IsPermitted :
      {trace : List Entry} → IsLawful trace → done permits trace ≡ true → IsPermitted
  permits-IsPermitted empty h = absurd (cc)
  permits-IsPermitted (plain e b p l) h = permits-IsPermitted l (ground arith)
  permits-IsPermitted (creates c b p l) h = elim (Bool-cases (is_allow verdict.decision)) [
    | inl y ↦ by_policy (is_allow-eq verdict.decision y)
    | inr n ↦ permits-IsPermitted l (ground arith)
  ]
  permits-IsPermitted (decides d b k o l) h = elim (Bool-cases (is_deny d.action)) [
    | inl y ↦ permits-IsPermitted l (ground arith)
    | inr n ↦ by_human d k o n
  ]
  permits-IsPermitted (executes t b r p s l) h = permits-IsPermitted l p

  pub executed-IsPermitted :
      {trace : List Entry} → IsLawful trace → executes_any trace ≡ true → IsPermitted
  executed-IsPermitted empty h = absurd (cc)
  executed-IsPermitted (plain e b p l) h = executed-IsPermitted l (ground arith)
  executed-IsPermitted (creates c b p l) h = executed-IsPermitted l h
  executed-IsPermitted (decides d b k o l) h = executed-IsPermitted l h
  executed-IsPermitted (executes t b r p s l) h = permits-IsPermitted l p
