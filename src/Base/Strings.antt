-- ===== src/Base/Strings.antt =====
-- Go strings as lists of bytes, with the functions of the package `strings` that the program calls.
use Prim.Native.Char.{code}
use Prim.Native.String.{String}
use windmill_gate.Base.Tests.{leb, ◌==◌, if◌then◌else◌}
use Prim.Native.Nat.{ℕ, ◌-◌}
use mathlib.Core.Bool.{Bool, true, false, ◌&&◌, ◌||◌}
use mathlib.Core.List.{List, [], ◌∷◌, ◌++◌, reverse}
use mathlib.Core.Logic.{◌↔◌}
use mathlib.Core.Option.{Option, none, some}
use mathlib.Core.Path.{◌≡◌, refl}
use native.Mathlib.Omega.{arith}

abbrev pub Bytes : Type 0
Bytes = List ℕ

-- The bytes of a literal; every literal of the model is ASCII.
abbrev pub codes : String → Bytes
codes String.[] = []
codes (String.◌∷◌ c s) = code c ∷ codes s

-- `a == b` on strings.
unfoldable pub equal : Bytes → Bytes → Bool
equal [] [] = true
equal (x ∷ xs) (y ∷ ys) = x == y && equal xs ys
equal _ _ = false

pub equal_iff : (a b : Bytes) → (equal a b ≡ true) ↔ (a ≡ b)
unfolding equal
equal_iff [] [] = ground arith
equal_iff [] (y ∷ ys) = ground arith
equal_iff (x ∷ xs) [] = ground arith
equal_iff (x ∷ xs) (y ∷ ys) = ground (arith, equal_iff xs ys)

pub equal_refl : (a : Bytes) → equal a a ≡ true
equal_refl a = (equal_iff a a).1 refl

-- `s == "literal"`
abbrev pub is : Bytes → String → Bool
is b s = equal b (codes s)

unfoldable pub is_empty : Bytes → Bool
is_empty [] = true
is_empty (_ ∷ _) = false

-- membership of a byte, `strings.ContainsRune` and `strings.IndexByte` on ASCII sets
unfoldable pub has_byte : ℕ → Bytes → Bool
has_byte c [] = false
has_byte c (d ∷ ds) = c == d || has_byte c ds

-- a set of byte strings, the `map[string]bool` literals of the source
unfoldable pub member : Bytes → List Bytes → Bool
unfolding equal
member s [] = false
member s (t ∷ ts) = equal s t || member s ts

-- `strings.CutPrefix`: what follows the prefix
unfoldable pub cut_prefix : Bytes → Bytes → Option Bytes
cut_prefix [] s = some s
cut_prefix (p ∷ ps) [] = none
cut_prefix (p ∷ ps) (c ∷ cs) = let rest = cut_prefix ps cs in if p == c then rest else none

unfoldable pub has_prefix : Bytes → Bytes → Bool
has_prefix [] s = true
has_prefix (p ∷ ps) [] = false
has_prefix (p ∷ ps) (c ∷ cs) = p == c && has_prefix ps cs

-- `strings.HasSuffix s suffix`
unfoldable pub has_suffix : Bytes → Bytes → Bool
unfolding has_prefix
has_suffix suffix s = has_prefix (reverse suffix) (reverse s)

unfoldable pub cut_from : Bytes → ℕ → Bytes → Bytes × Option Bytes
cut_from acc sep [] = (acc, none)
cut_from acc sep (c ∷ cs) =
    let rest = cut_from (acc ++ c ∷ []) sep cs in if c == sep then (acc, some cs) else rest

-- `strings.Cut s sep` at a separator of one byte: the part before, and the part after if found
unfoldable pub cut : ℕ → Bytes → Bytes × Option Bytes
unfolding cut_from
cut sep s = cut_from [] sep s

unfoldable pub split_from : Bytes → ℕ → Bytes → List Bytes
split_from acc sep [] = acc ∷ []
split_from acc sep (c ∷ cs) =
    let here = acc ∷ split_from [] sep cs in
    let more = split_from (acc ++ c ∷ []) sep cs in if c == sep then here else more

-- `strings.Split s sep` at a separator of one byte
unfoldable pub split : ℕ → Bytes → List Bytes
unfolding split_from
split sep s = split_from [] sep s

-- `strings.Join parts sep` at a separator of one byte
unfoldable pub join : ℕ → List Bytes → Bytes
join sep [] = []
join sep (p ∷ []) = p
join sep (p ∷ q ∷ ps) = p ++ sep ∷ join sep (q ∷ ps)

unfoldable pub ascii_letter : ℕ → Bool
ascii_letter c = leb b'a' c && leb c b'z' || leb b'A' c && leb c b'Z'

unfoldable pub ascii_digit : ℕ → Bool
ascii_digit c = leb b'0' c && leb c b'9'

-- `strings.ToUpper` on ASCII bytes
unfoldable pub to_upper : Bytes → Bytes
to_upper [] = []
to_upper (c ∷ cs) = (if leb b'a' c && leb c b'z' then c - 32 else c) ∷ to_upper cs
