-- ===== src/Command/Lifecycle.antt =====
-- What holds of a command between two transitions, and which transitions are left.
use windmill_gate.Base.{
  ℕ, true, Option, none, some, ◌≡◌, ◌≢◌, ◌↔◌, ◌⊎◌, arith, Bytes, [], is_empty, equal_iff, is_some,
}
use windmill_gate.Base.Int.{ℤ}
use windmill_gate.Base.Results.{ok}
use windmill_gate.Command.{
  State, queued, waiting, running, succeeded, failed, denied, Command, new, verify_approval,
  transition, is_terminal,
}

-- The audit fields of a command, by its state.
pub record IsConsistent (digest : Bytes → Bytes) (c : Command) : Type 0 where
  pub hashed : c.hash ≡ digest c.payload
  pub finished : is_some c.finished_at ≡ is_terminal c.state
  pub not_started :
      (c.state ≡ queued) ⊎ (c.state ≡ waiting) ⊎ (c.state ≡ denied) → c.started_at ≡ none
  pub started :
      (c.state ≡ running) ⊎ (c.state ≡ succeeded) ⊎ (c.state ≡ failed) → is_some c.started_at ≡ true

module _ (digest : Bytes → Bytes) where
  -- A new command is queued, holds the payload and its hash, and is consistent.
  pub new-IsConsistent :
      (id : Option Bytes) (now : ℕ) (session target payload : Bytes) (c : Command)
      → new digest id now session target payload ≡ ok c
      → IsConsistent digest c × (c.state ≡ queued) × (c.payload ≡ payload) × (payload ≢ [])
  unfolding new is_empty
  new-IsConsistent id now session target payload c h = ground arith

  -- Every transition that is made keeps the audit fields consistent, and the command's identity,
  -- payload and hash as they were.
  pub transition-IsConsistent :
      (now : ℕ) (next : State) (code : Option ℤ) (c c' : Command)
      → IsConsistent digest c
      → transition now next code c ≡ ok c'
      → IsConsistent digest c' × (c'.id ≡ c.id) × (c'.payload ≡ c.payload) × (c'.hash ≡ c.hash)
  unfolding transition
  transition-IsConsistent now next code c c' v h = ground arith

  -- An approval is accepted exactly when it names this command and carries the hash of the bytes
  -- that the command holds.
  pub verify_approval_iff :
      (c : Command) (id hash : Bytes)
      → IsConsistent digest c
      → (verify_approval digest c id hash ≡ ok tt) ↔ ((id ≡ c.id) × (hash ≡ digest c.payload))
  unfolding verify_approval
  verify_approval_iff c id hash v =
      ground (arith, equal_iff id c.id, equal_iff hash c.hash, equal_iff (digest c.payload) c.hash)

  -- A new command has the identifier that was drawn.
  pub new-id :
      (id : Option Bytes) (now : ℕ) (session target payload : Bytes) (c : Command)
      → new digest id now session target payload ≡ ok c
      → id ≡ some c.id
  unfolding new is_empty
  new-id id now session target payload c h = ground arith
