-- ===== src/Base/Members.antt =====
-- Membership in fixed lists of words.
use windmill_gate.Base.Tests.{Bool-cases}
use windmill_gate.Base.Lists.{all}
use windmill_gate.Base.Strings.{Bytes, equal, equal_iff, member}
use mathlib.Core.Bool.{Bool, true, false}
use mathlib.Core.List.{List, [], ◌∷◌}
use mathlib.Core.Logic.{inl, inr}
use mathlib.Core.Path.{◌≡◌, sym, subst}
use native.Mathlib.Omega.{arith}

-- A word of one list passes a test that all its words pass.
pub member-all :
    (p : Bytes → Bool) (x : Bytes) (ws : List Bytes)
    → all p ws ≡ true
    → member x ws ≡ true
    → p x ≡ true
unfolding member
member-all p x [] h m = cc
member-all p x (w ∷ ws) h m = elim (Bool-cases (equal x w)) [
  | inl e ↦ subst (λ y. p y ≡ true) (sym ((equal_iff x w).0 e)) (ground arith)
  | inr n ↦ member-all p x ws (ground arith) (ground arith)
]

-- A word outside a list is outside each part of the list.
pub member-subset :
    (x : Bytes) (ws rs : List Bytes)
    → all (λ w. member w rs) ws ≡ true
    → member x rs ≡ false
    → member x ws ≡ false
member-subset x ws rs h n = elim (Bool-cases (member x ws)) [
  | inl m ↦ absurd (cc (member-all (λ w. member w rs) x ws h m))
  | inr e ↦ e
]
