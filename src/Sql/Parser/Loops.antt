-- ===== src/Sql/Parser/Loops.antt =====
-- The fuel of the loops is enough: each turn reads a token, so a loop unrolls as the source's does.
use windmill_gate.Base.{
  ℕ, zero, suc, ◌<◌, ◌≤◌, Bool, List, [], ◌∷◌, some, ◌≡◌, refl, arith, length, Option-cases, inl,
  inr,
}
use windmill_gate.Sql.Token.{SqlTokenKind, SqlToken}
use windmill_gate.Sql.Parser.{Parse, ◌▸◌, branch, succeed, fail, token, kind, repeat, looping}

-- A parser that leaves fewer tokens than it was given, and one that leaves no more.
pub record Shrinks (p : Parse) : Type 0 where
  pub shorter : (ts rest : List SqlToken) → p ts ≡ some rest → length rest < length ts

pub record Narrows (p : Parse) : Type 0 where
  pub no_longer : (ts rest : List SqlToken) → p ts ≡ some rest → length rest ≤ length ts

token-shorter :
    (test : SqlToken → Bool) (ts rest : List SqlToken)
    → token test ts ≡ some rest
    → length rest < length ts
unfolding token
token-shorter test [] rest e = cc
token-shorter test (t ∷ ts) rest e = ground arith

pub Shrinks-token : (test : SqlToken → Bool) → Shrinks (token test)
Shrinks-token test = record { shorter = token-shorter test }

pub Shrinks-kind : (k : SqlTokenKind) → Shrinks (kind k)
unfolding kind
Shrinks-kind k = Shrinks-token _

pub Shrinks-Narrows : (p : Parse) → Shrinks p → Narrows p
Shrinks-Narrows p s = record { no_longer = λ ts rest e. omega (arith, s.shorter ts rest e) }

-- Two branches agree on tokens where their parts agree on what the condition leaves.
branch-cong :
    (c p p' q q' : Parse) (ts : List SqlToken)
    → ((rest : List SqlToken) → c ts ≡ some rest → p rest ≡ p' rest)
    → q ts ≡ q' ts
    → branch c p q ts ≡ branch c p' q' ts
unfolding branch
branch-cong c p p' q q' ts h k = elim (Option-cases (c ts)) [
  | inl n ↦ rw (n, branch) k
  | inr (rest, s) ↦ rw (s, branch) (h rest s)
]

module _ (c p : Parse) (shrinks : Shrinks c) (narrows : Narrows p) where
  abbrev turn : ℕ → Parse
  turn n = p ▸ (λ ts. repeat c p n ts)

  -- More fuel than tokens: the amount makes no difference.
  repeat_fuel :
      (m n : ℕ) (ts : List SqlToken)
      → length ts < m
      → length ts < n
      → repeat c p m ts ≡ repeat c p n ts
  unfolding repeat
  repeat_fuel zero n ts h k = absurd (omega arith)
  repeat_fuel (suc m) zero ts h k = absurd (omega arith)
  repeat_fuel (suc m) (suc n) ts h k =
      branch-cong c (turn m) (turn n) succeed succeed ts
        (λ mid s.
          branch-cong p (repeat c p m) (repeat c p n) fail fail mid
            (λ rest r.
              repeat_fuel m n rest
                (omega (arith, shrinks.shorter ts mid s, narrows.no_longer mid rest r))
                (omega (arith, shrinks.shorter ts mid s, narrows.no_longer mid rest r)))
            refl)
        refl

  -- A loop `for c() { if !p() { return false } }` whose condition reads a token and whose body
  -- does not put tokens back never runs out of fuel: it does nothing where the condition fails,
  -- and one turn followed by the same loop where it holds.
  pub looping-repeat :
      (ts : List SqlToken)
      → looping (repeat c p) ts ≡ branch c (p ▸ looping (repeat c p)) succeed ts
  unfolding looping repeat
  looping-repeat ts =
      branch-cong c (turn (length ts)) (p ▸ looping (repeat c p)) succeed succeed ts
        (λ mid s.
          branch-cong p (repeat c p (length ts)) (looping (repeat c p)) fail fail mid
            (λ rest r.
              repeat_fuel (length ts) (suc (length rest)) rest
                (omega (arith, shrinks.shorter ts mid s, narrows.no_longer mid rest r))
                (omega arith))
            refl)
        refl
