-- ===== src/Base/Unicode.antt =====
-- The parts of Go's `unicode/utf8` and `unicode` that the program calls, on strings of bytes.
use windmill_gate.Base.Tests.{ltb, leb, ◌==◌, if◌then◌else◌}
use windmill_gate.Base.Lists.{length, drop, all}
use windmill_gate.Base.Strings.{Bytes}
use Prim.Native.Nat.{ℕ, zero, suc, ◌+◌, ◌-◌, ◌*◌}
use mathlib.Core.Bool.{Bool, true, false, ◌&&◌, ◌||◌}
use mathlib.Core.List.{List, [], ◌∷◌}

-- A decoded code point, with the bytes that it takes; an invalid byte is U+FFFD and takes one.
pub record Rune : Type 0 where
  pub value : ℕ
  pub size : ℕ
  pub valid : Bool

abbrev pub bad_rune : Rune
bad_rune = record { value = 0xfffd; size = 1; valid = false }

abbrev within : ℕ → ℕ → ℕ → Bool
within lo hi c = leb lo c && leb c hi

abbrev rune_of : ℕ → ℕ → Rune
rune_of size value = record { value = value; size = size; valid = true }

two : ℕ → Bytes → Rune
two b [] = bad_rune
two b (c ∷ _) = if within 0x80 0xbf c then rune_of 2 ((b - 0xc0) * 64 + (c - 0x80)) else bad_rune

-- the second byte lies between `lo` and `hi`
three : ℕ → ℕ → ℕ → Bytes → Rune
three lo hi b (c ∷ d ∷ _) =
    if within lo hi c && within 0x80 0xbf d
    then rune_of 3 ((b - 0xe0) * 4096 + (c - 0x80) * 64 + (d - 0x80))
    else bad_rune
three lo hi b _ = bad_rune

four : ℕ → ℕ → ℕ → Bytes → Rune
four lo hi b (c ∷ d ∷ e ∷ _) =
    if within lo hi c && within 0x80 0xbf d && within 0x80 0xbf e
    then rune_of 4 ((b - 0xf0) * 262144 + (c - 0x80) * 4096 + (d - 0x80) * 64 + (e - 0x80))
    else bad_rune
four lo hi b _ = bad_rune

-- `utf8.DecodeRuneInString` at a first byte and those behind it
unfoldable pub decode_rune : ℕ → Bytes → Rune
unfolding two three four
decode_rune b cs =
    if ltb b 0x80
    then rune_of 1 b
    else if within 0xc2 0xdf b
    then two b cs
    else if b == 0xe0
    then three 0xa0 0xbf b cs
    else if b == 0xed
    then three 0x80 0x9f b cs
    else if within 0xe1 0xef b
    then three 0x80 0xbf b cs
    else if b == 0xf0
    then four 0x90 0xbf b cs
    else if b == 0xf4
    then four 0x80 0x8f b cs
    else if within 0xf1 0xf3 b
    then four 0x80 0xbf b cs
    else bad_rune

-- one rune a round; a round takes at least a byte, so that the length is enough fuel
unfoldable pub runes_from : ℕ → Bytes → List Rune
unfolding decode_rune
runes_from fuel [] = []
runes_from zero (c ∷ cs) = []
runes_from (suc fuel) (c ∷ cs) =
    let r = decode_rune c cs in r ∷ runes_from fuel (drop (r.size - 1) cs)

-- `for _, r := range s`
unfoldable pub runes : Bytes → List Rune
unfolding runes_from
runes s = runes_from (length s) s

-- `utf8.ValidString`
unfoldable pub valid_string : Bytes → Bool
unfolding runes
valid_string s = all (λ r. r.valid) (runes s)

-- `unicode.IsControl`: the category Cc
unfoldable pub is_control : ℕ → Bool
is_control r = ltb r 0x20 || within 0x7f 0x9f r

-- `unicode.IsSpace`: the property White_Space
unfoldable pub is_space : ℕ → Bool
is_space r =
    within 0x09 0x0d r
    || r == 0x20
    || r == 0x85
    || r == 0xa0
    || r == 0x1680
    || within 0x2000 0x200a r
    || r == 0x2028
    || r == 0x2029
    || r == 0x202f
    || r == 0x205f
    || r == 0x3000
