-- ===== src/Policy/Values.antt =====
-- The tests on argument values of internal/policy/diagnostic.go that the validators share.
use windmill_gate.Base.{Bool, false, not, ◌||◌, [], ◌∷◌, ◌==◌, if◌then◌else◌, Bytes, ascii_digit}

digits_from : Bool → Bool → Bytes → Bool
digits_from allow_zero nonzero [] = allow_zero || nonzero
digits_from allow_zero nonzero (c ∷ cs) =
    let rest = digits_from allow_zero (nonzero || not (c == b'0')) cs in
    if ascii_digit c then rest else false

-- `decimal(value, allowZero)`: the loop reads runes, of which only ASCII digits are in the range
unfoldable pub decimal : Bytes → Bool → Bool
unfolding digits_from ascii_digit
decimal [] allow_zero = false
decimal (c ∷ cs) allow_zero = digits_from allow_zero false (c ∷ cs)
