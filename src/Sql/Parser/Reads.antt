-- ===== src/Sql/Parser/Reads.antt =====
-- What a parser of the model consumes: a property that holds of every token which it reads.
use windmill_gate.Base.{
  ℕ, zero, suc, ◌≤◌, Bool, true, false, List, [], ◌∷◌, some, ◌≡◌, arith, length, All, if◌then◌else◌,
  Bool-cases, Option-cases, inl, inr,
}
use windmill_gate.Sql.Token.{SqlToken}
use windmill_gate.Sql.Parser.{
  Parse, ◌▸◌, at_end, token, branch, succeed, fail, test, repeat, looping,
}

-- The tokens `ts` begin with tokens that have the property, and `rest` is behind them.
pub data Reads (P : SqlToken → Type 0) : List SqlToken → List SqlToken → Type 0 where
  stop : {ts : List SqlToken} → Reads P ts ts
  read : {t : SqlToken} {ts rest : List SqlToken} → P t → Reads P ts rest → Reads P (t ∷ ts) rest

module _ {P : SqlToken → Type 0} where
  pub Reads-trans : {a b c : List SqlToken} → Reads P a b → Reads P b c → Reads P a c
  Reads-trans stop k = k
  Reads-trans (read p h) k = read p (Reads-trans h k)

  pub Reads-All : {a b : List SqlToken} → Reads P a b → All P b → All P a
  Reads-All stop k = k
  Reads-All (read p h) k = (p, Reads-All h k)

  pub length-Reads : {a b : List SqlToken} → Reads P a b → length b ≤ length a
  length-Reads stop = omega arith
  length-Reads (read p h) = omega (arith, length-Reads h)

-- What lies between two parsers that succeed one behind the other.
pub and-some :
    (p q : Parse) (ts rest : List SqlToken)
    → (p ▸ q) ts ≡ some rest
    → (mid : List SqlToken) × (p ts ≡ some mid) × (q mid ≡ some rest)
unfolding branch
and-some p q ts rest e = elim (Option-cases (p ts)) [
  | inl n ↦ absurd (cc (rw (n, branch) at e))
  | inr (mid, s) ↦ (mid, s, rw (s, branch) at e)
]

-- A parser that reads only tokens with the property, where it succeeds.
pub record Sound (P : SqlToken → Type 0) (p : Parse) : Type 0 where
  pub at : (ts rest : List SqlToken) → p ts ≡ some rest → Reads P ts rest

module _ {P : SqlToken → Type 0} where
  pub Sound-succeed : Sound P succeed
  Sound-succeed = record { at = λ ts rest e. rw (some_eq e) stop }
    where
      some_eq : {a b : List SqlToken} → some a ≡ some b → a ≡ b
      some_eq e = cc

  pub Sound-fail : Sound P fail
  Sound-fail = record { at = λ ts rest e. cc }

  at_end-Reads : (ts rest : List SqlToken) → at_end ts ≡ some rest → Reads P ts rest
  unfolding at_end
  at_end-Reads [] rest e = Sound-succeed.at [] rest e
  at_end-Reads (t ∷ ts) rest e = cc

  pub Sound-at_end : Sound P at_end
  Sound-at_end = record { at = at_end-Reads }

  -- What a token that passed its test has.
  token-Reads :
      (p : SqlToken → Bool) (ok : (t : SqlToken) → p t ≡ true → P t) (ts rest : List SqlToken)
      → token p ts ≡ some rest
      → Reads P ts rest
  unfolding token
  token-Reads p ok [] rest e = cc
  token-Reads p ok (t ∷ ts) rest e = elim (Bool-cases (p t)) [
    | inl h ↦ read (ok t h) (Sound-succeed.at ts rest (rw h at e))
    | inr h ↦ absurd (cc (rw h at e))
  ]

  pub Sound-token : (p : SqlToken → Bool) → ((t : SqlToken) → p t ≡ true → P t) → Sound P (token p)
  Sound-token p ok = record { at = token-Reads p ok }

  branch-Reads :
      (c p q : Parse)
      → Sound P c
      → Sound P p
      → Sound P q
      → (ts rest : List SqlToken) → branch c p q ts ≡ some rest
      → Reads P ts rest
  unfolding branch
  branch-Reads c p q hc hp hq ts rest e = elim (Option-cases (c ts)) [
    | inl n ↦ hq.at ts rest (rw (n, branch) at e)
    | inr (mid, s) ↦ Reads-trans (hc.at ts mid s) (hp.at mid rest (rw (s, branch) at e))
  ]

  pub Sound-branch : (c p q : Parse) → Sound P c → Sound P p → Sound P q → Sound P (branch c p q)
  Sound-branch c p q hc hp hq = record { at = branch-Reads c p q hc hp hq }

  pub Sound-test :
      (c : List SqlToken → Bool) (p q : Parse) → Sound P p → Sound P q → Sound P (test c p q)
  unfolding test
  Sound-test c p q hp hq = record {
    at = λ ts rest e. elim (Bool-cases (c ts)) [
      | inl h ↦ hp.at ts rest (rw (h, test) at e)
      | inr h ↦ hq.at ts rest (rw (h, test) at e)
    ];
  }

  pub Sound-if : (b : Bool) (p q : Parse) → Sound P p → Sound P q → Sound P (if b then p else q)
  Sound-if true p q hp hq = hp
  Sound-if false p q hp hq = hq

  pub Sound-repeat : (c p : Parse) → Sound P c → Sound P p → (n : ℕ) → Sound P (repeat c p n)
  unfolding repeat
  Sound-repeat c p hc hp zero = Sound-fail
  Sound-repeat c p hc hp (suc n) =
      Sound-branch c _ _ hc (Sound-branch p _ _ hp (Sound-repeat c p hc hp n) Sound-fail)
        Sound-succeed

  pub Sound-looping : (l : ℕ → Parse) → ((n : ℕ) → Sound P (l n)) → Sound P (looping l)
  unfolding looping
  Sound-looping l h = record { at = λ ts rest e. (h (suc (length ts))).at ts rest e }

pub ruleset sound_rules = (
  Sound-succeed, Sound-fail, Sound-at_end, Sound-branch, Sound-test, Sound-if, Sound-repeat,
  Sound-looping,
)
