-- ===== src/Base/Decimals.antt =====
-- `strconv.Atoi` and `strconv.Itoa`.
use windmill_gate.Base.Tests.{ltb, ◌==◌, if◌then◌else◌}
use windmill_gate.Base.Strings.{Bytes, ascii_digit}
use windmill_gate.Base.Options.{◌>>=◌}
use Prim.Native.Nat.{ℕ, zero, suc, ◌+◌, ◌-◌, ◌*◌, ◌/◌, ◌%◌, ◌^◌}
use mathlib.Core.List.{[], ◌∷◌}
use mathlib.Core.Option.{Option, none, some}

digits_value : ℕ → Bytes → Option ℕ
digits_value n [] = some n
digits_value n (c ∷ cs) =
    let rest = digits_value (n * 10 + (c - b'0')) cs in if ascii_digit c then rest else none

whole : Bytes → Option ℕ
whole [] = none
whole (c ∷ cs) = do n ← digits_value 0 (c ∷ cs); if ltb n (2 ^ 63) then some n else none

-- `strconv.Atoi` where its result is not negative: a sign may stand in front of the digits, and
-- the value fits in 64 bits. `none` is an error, or a negative number, which callers refuse too.
unfoldable pub atoi : Bytes → Option ℕ
unfolding digits_value whole ascii_digit
atoi [] = none
atoi (c ∷ cs) = if c == b'+' then whole cs else whole (c ∷ cs)

digits_of : ℕ → ℕ → Bytes → Bytes
digits_of zero n acc = acc
digits_of (suc fuel) n acc =
    let more = digits_of fuel (n / 10) ((b'0' + n % 10) ∷ acc) in
    if ltb n 10 then (b'0' + n) ∷ acc else more

-- `strconv.Itoa` of a number that is not negative; a number below 2 ^ 64 has at most 20 digits
unfoldable pub itoa : ℕ → Bytes
unfolding digits_of
itoa n = digits_of 20 n []

-- `strconv.ParseUint(s, 10, bits)`; `none` is an error
unfoldable pub parse_uint : ℕ → Bytes → Option ℕ
unfolding digits_value ascii_digit
parse_uint bits [] = none
parse_uint bits (c ∷ cs) = do n ← digits_value 0 (c ∷ cs); if ltb n (2 ^ bits) then some n else none
