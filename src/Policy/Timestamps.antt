-- ===== src/Policy/Timestamps.antt =====
-- `utcTimestamp` of internal/policy/journal.go, with what `time.Parse` does with its two layouts:
-- all numbers have two digits but the hour, which may have one; a fraction may follow the seconds,
-- of which nine digits count; and where the layout has a space the value may have several.
use Prim.Native.Nat.{◌^◌}
use windmill_gate.Base.{
  ℕ, zero, suc, ◌+◌, ◌-◌, ◌*◌, ◌%◌, Bool, false, not, ◌&&◌, ◌||◌, List, [], ◌∷◌, ◌++◌, Option, none,
  some, ◌==◌, leb, ltb, if◌then◌else◌, Bytes, codes, is_empty, cut_prefix, ascii_digit, ◌>>=◌,
}

-- a time, from the year to the nanosecond
abbrev pub Time : Type 0
Time = List ℕ

-- `a.Before(b)`
unfoldable pub before : Time → Time → Bool
before [] bs = false
before (a ∷ xs) [] = false
before (a ∷ xs) (b ∷ ys) = let rest = before xs ys in ltb a b || a == b && rest

-- so many digits
number : ℕ → ℕ → Bytes → Option (ℕ × Bytes)
unfolding ascii_digit
number zero n s = some (n, s)
number (suc k) n [] = none
number (suc k) n (c ∷ cs) =
    let rest = number k (n * 10 + (c - b'0')) cs in if ascii_digit c then rest else none

-- one digit or two
hour_number : Bytes → Option (ℕ × Bytes)
unfolding ascii_digit
hour_number [] = none
hour_number (c ∷ []) = if ascii_digit c then some (c - b'0', []) else none
hour_number (c ∷ d ∷ s) =
    if ascii_digit c
    then (if ascii_digit d then some ((c - b'0') * 10 + (d - b'0'), s) else some (c - b'0', d ∷ s))
    else none

in_range : ℕ → ℕ → ℕ × Bytes → Option (ℕ × Bytes)
in_range low high (n, s) = if leb low n && leb n high then some (n, s) else none

skip_spaces : Bytes → Bytes
skip_spaces [] = []
skip_spaces (c ∷ cs) = let rest = skip_spaces cs in if c == b' ' then rest else c ∷ cs

-- a space of the layout
spaces : Bytes → Option Bytes
unfolding skip_spaces
spaces [] = some []
spaces (c ∷ cs) = if c == b' ' then some (skip_spaces cs) else none

-- the digits of a fraction: nine of them count
fraction : ℕ → ℕ → Bytes → ℕ × Bytes
unfolding ascii_digit
fraction left n [] = (n * 10 ^ left, [])
fraction zero n (c ∷ cs) =
    let rest = fraction zero n cs in if ascii_digit c then rest else (n, c ∷ cs)
fraction (suc left) n (c ∷ cs) =
    let rest = fraction left (n * 10 + (c - b'0')) cs in
    if ascii_digit c then rest else (n * 10 ^ suc left, c ∷ cs)

fraction_behind : Bytes → ℕ × Bytes
unfolding fraction ascii_digit
fraction_behind (c ∷ d ∷ s) =
    if (c == b'.' || c == b',') && ascii_digit d then fraction 9 0 (d ∷ s) else (0, c ∷ d ∷ s)
fraction_behind s = (0, s)

leap_year : ℕ → Bool
leap_year y = y % 4 == 0 && (not (y % 100 == 0) || y % 400 == 0)

days_in : ℕ → ℕ → ℕ
unfolding leap_year
days_in month year =
    if month == 2
    then (if leap_year year then 29 else 28)
    else if month == 4 || month == 6 || month == 9 || month == 11
    then 30
    else 31

-- the date and what is behind it
date : Bytes → Option (Time × Bytes)
unfolding number in_range
date s = do
  (year, s) ← number 4 0 s
  s ← cut_prefix (codes "-") s
  (month, s) ← number 2 0 s >>= in_range 1 12
  s ← cut_prefix (codes "-") s
  (day, s) ← number 2 0 s
  some (year ∷ month ∷ day ∷ [], s)

-- the clock and what is behind it
clock : Bytes → Option (Time × Bytes)
unfolding number in_range hour_number fraction_behind
clock s = do
  (hour, s) ← hour_number s >>= in_range 0 23
  s ← cut_prefix (codes ":") s
  (minute, s) ← number 2 0 s >>= in_range 0 59
  s ← cut_prefix (codes ":") s
  (second, s) ← number 2 0 s >>= in_range 0 59
  let (nanosecond, s) = fraction_behind s in some (hour ∷ minute ∷ second ∷ nanosecond ∷ [], s)

valid_day : Time → Bool
unfolding days_in
valid_day (year ∷ month ∷ day ∷ []) = leb 1 day && leb day (days_in month year)
valid_day _ = false

-- a value that its layout uses up
moment : Option (Time × Bytes) → (Bytes → Option Bytes) → (Bytes → Option Bytes) → Option Time
unfolding clock valid_day
moment start between zone = do
  (day, s) ← start
  s ← between s
  (time, s) ← clock s
  s ← zone s
  if is_empty s && valid_day day then some (day ++ time) else none

abbrev or_else : Option Time → Option Time → Option Time
or_else (some t) other = some t
or_else none other = other

-- `utcTimestamp`: the layout `2006-01-02T15:04:05Z`, or else `2006-01-02 15:04:05 UTC`
unfoldable pub utc_timestamp : Bytes → Option Time
unfolding moment date spaces cut_prefix
utc_timestamp value =
    or_else (moment (date value) (cut_prefix (codes "T")) (cut_prefix (codes "Z")))
      (moment (date value) spaces (λ s. spaces s >>= cut_prefix (codes "UTC")))
