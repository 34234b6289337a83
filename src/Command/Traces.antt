-- ===== src/Command/Traces.antt =====
-- A command's whole life: sequences of transitions.
use windmill_gate.Base.{
  ℕ, zero, suc, ◌+◌, ◌≤◌, ◌<◌, true, Option, none, ◌≡◌, refl, ap, ◌∙◌, ◌⊎◌, inr, arith, Bytes,
  is_some,
}
use windmill_gate.Base.Int.{ℤ}
use windmill_gate.Base.Results.{ok, err}
use windmill_gate.Command.{
  State, queued, waiting, running, succeeded, failed, denied, invalid_transition, Command, new,
  transition, is_terminal,
}
use windmill_gate.Command.Lifecycle.{IsConsistent, new-IsConsistent, transition-IsConsistent}

-- `Reach c n c'`: n transitions, each of them accepted, lead from `c` to `c'`.
pub data Reach (c : Command) : ℕ → Command → Type 0 where
  here : Reach c zero c
  next :
      {n : ℕ} {d e : Command} (now : ℕ) (s : State) (code : Option ℤ)
      → Reach c n d
      → transition now s code d ≡ ok e
      → Reach c (suc n) e

-- How many transitions a command may still make.
abbrev steps_left : State → ℕ
steps_left queued = 3
steps_left waiting = 2
steps_left running = 1
steps_left _ = 0

transition-steps_left :
    (now : ℕ) (s : State) (code : Option ℤ) (c c' : Command)
    → transition now s code c ≡ ok c'
    → steps_left c'.state < steps_left c.state
unfolding transition
transition-steps_left now s code c c' h = ground arith

Reach-steps_left :
    {c c' : Command} {n : ℕ} → Reach c n c' → n + steps_left c'.state ≤ steps_left c.state
Reach-steps_left here = omega arith
Reach-steps_left (next {d} {e} now s code r t) =
    omega (arith, Reach-steps_left r, transition-steps_left now s code d e t)

module _ (digest : Bytes → Bytes) where
  Reach-IsConsistent :
      {c c' : Command} {n : ℕ}
      → IsConsistent digest c
      → Reach c n c'
      → IsConsistent digest c' × (c'.id ≡ c.id) × (c'.payload ≡ c.payload)
  Reach-IsConsistent v here = (v, refl, refl)
  Reach-IsConsistent v (next {d} {e} now s code r t) =
      let (w, i, p) = Reach-IsConsistent v r in
      let (w', i', p', _) = transition-IsConsistent digest now s code d e w t in
      (w', i' ∙ i, p' ∙ p)

  -- From its creation on, whatever transitions are tried, a command makes at most three; it keeps
  -- the submitted payload and its hash; it has a finish time exactly when it is terminal; it has
  -- been started if it is running, succeeded or failed, and never if it is denied.
  pub lifetime :
      (id : Option Bytes) (now : ℕ) (session target payload : Bytes) {c c' : Command} {n : ℕ}
      → new digest id now session target payload ≡ ok c
      → Reach c n c'
      → (n ≤ 3)
        × (c'.payload ≡ payload)
        × (c'.hash ≡ digest payload)
        × (is_some c'.finished_at ≡ is_terminal c'.state)
        × ((c'.state ≡ running) ⊎ (c'.state ≡ succeeded) ⊎ (c'.state ≡ failed)
            → is_some c'.started_at ≡ true)
        × (c'.state ≡ denied → c'.started_at ≡ none)
  lifetime id now session target payload {c} {c'} made r =
      let (v, q, p, _) = new-IsConsistent digest id now session target payload c made in
      let (w, _, kept) = Reach-IsConsistent v r in
      (
        ground (arith, Reach-steps_left r),
        kept ∙ p,
        w.hashed ∙ ap digest (kept ∙ p),
        w.finished,
        w.started,
        λ e. w.not_started (inr (inr e)),
      )

-- A terminal command is final: every further transition is refused.
pub terminal_absorbs :
    (now : ℕ) (s : State) (code : Option ℤ) (c : Command)
    → is_terminal c.state ≡ true
    → transition now s code c ≡ err invalid_transition
unfolding transition
terminal_absorbs now s code c h = ground arith
