-- ===== src/Sql/Scan/Fuel.antt =====
-- The fuel of `scan_from` is enough: every turn of the loop of `scanSQL` in internal/policy/mysql.go
-- reads at least a byte.
use windmill_gate.Base.{
  ℕ, zero, suc, ◌≤◌, [], ◌∷◌, none, some, ◌≡◌, ◌≢◌, ◌⊎◌, refl, arith, length, Bytes, Option-cases,
  inl, inr,
}
use windmill_gate.Sql.Scan.{Turn, scan_one, scan_from}
use windmill_gate.Sql.Scan.Plain.{scan_one-shorter}

-- The loop, without fuel, comes to a turn that refuses what is left of the query.
pub data Refuses : ℕ → Bytes → Type 0 where
  here : {index c : ℕ} {cs : Bytes} → scan_one index c cs ≡ none → Refuses index (c ∷ cs)
  later :
      {index c : ℕ} {cs : Bytes} (turn : Turn)
      → scan_one index c cs ≡ some turn
      → Refuses turn.index turn.rest
      → Refuses index (c ∷ cs)

same_result :
    (m n index : ℕ) (s : Bytes)
    → length s ≤ m
    → length s ≤ n
    → scan_from m index s ≡ scan_from n index s
unfolding scan_from
same_result m n index [] h k = refl
same_result zero n index (c ∷ cs) h k = absurd (omega arith)
same_result (suc m) zero index (c ∷ cs) h k = absurd (omega arith)
same_result (suc m) (suc n) index (c ∷ cs) h k = elim (Option-cases (scan_one index c cs)) [
  | inl e ↦ rw e
  | inr (turn, e) ↦
      let less = scan_one-shorter index c cs turn e in
      rw (e, same_result m n turn.index turn.rest (omega arith) (omega arith))
]

refused :
    (fuel index : ℕ) (s : Bytes) → length s ≤ fuel → scan_from fuel index s ≡ none → Refuses index s
unfolding scan_from
refused fuel index [] h k = absurd (cc)
refused zero index (c ∷ cs) h k = absurd (omega arith)
refused (suc fuel) index (c ∷ cs) h k = elim (Option-cases (scan_one index c cs)) [
  | inl e ↦ here e
  | inr (turn, e) ↦
      let less = scan_one-shorter index c cs turn e in
      later turn e (
        refused fuel turn.index turn.rest (omega arith)
          (elim (Option-cases (scan_from fuel turn.index turn.rest)) [
            | inl n ↦ n
            | inr (ts, t) ↦ absurd (cc (rw (e, t) at k))
          ]))
]

-- From as much fuel as there are bytes on, the amount makes no difference to the scanner's result,
-- and where it refuses, the loop without fuel comes to a turn that refuses: never is fuel wanting.
pub scan_from_fuel :
    (m n index : ℕ) (s : Bytes)
    → length s ≤ m
    → length s ≤ n
    → (scan_from m index s ≡ scan_from n index s) × ((scan_from m index s ≢ none) ⊎ Refuses index s)
scan_from_fuel m n index s h k = (
  same_result m n index s h k,
  elim (Option-cases (scan_from m index s)) [
    | inl none_found ↦ inr (refused m index s h none_found)
    | inr (ts, found) ↦ inl (λ e. cc)
  ],
)
