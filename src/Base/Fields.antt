-- ===== src/Base/Fields.antt =====
-- `strings.TrimSpace`, `strings.Fields` and `strings.EqualFold`. A white space character begins
-- with a byte that is no continuation byte, so that the bytes are read one by one.
pub mod Blanks
use windmill_gate.Base.Tests.{ltb, leb, ◌==◌, if◌then◌else◌, Bool-cases}
use windmill_gate.Base.Strings.{Bytes, ascii_letter}
use Prim.Native.Nat.{ℕ, zero, suc, ◌+◌}
use mathlib.Core.Bool.{Bool, true, false, not, ◌&&◌, ◌||◌}
use mathlib.Core.List.{List, [], ◌∷◌, ◌++◌, append_assoc, append-nil}
use mathlib.Core.Logic.{inl, inr}
use mathlib.Core.Option.{Option, none, some}
use mathlib.Core.Path.{◌≡◌, refl, ap, sym, ◌∙◌}
use native.Mathlib.Omega.{arith}

unfoldable pub ascii_space : ℕ → Bool
ascii_space c = leb 0x09 c && leb c 0x0d || c == 0x20

-- U+1680, U+2000 to U+200A, U+2028, U+2029, U+202F, U+205F and U+3000
unfoldable pub wide_space : ℕ → ℕ → ℕ → Bool
wide_space c d e =
    c == 0xe1 && d == 0x9a && e == 0x80
    || c == 0xe2 && d == 0x80 && (leb 0x80 e && leb e 0x8a || e == 0xa8 || e == 0xa9 || e == 0xaf)
    || c == 0xe2 && d == 0x81 && e == 0x9f
    || c == 0xe3 && d == 0x80 && e == 0x80

-- the bytes that white space takes at the start, behind its first byte
unfoldable pub space_at : Bytes → Option ℕ
unfolding ascii_space wide_space
space_at [] = none
space_at (c ∷ []) = if ascii_space c then some 0 else none
space_at (c ∷ d ∷ []) =
    if ascii_space c then some 0 else if c == 0xc2 && (d == 0x85 || d == 0xa0) then some 1 else none
space_at (c ∷ d ∷ e ∷ _) =
    if ascii_space c
    then some 0
    else if c == 0xc2 && (d == 0x85 || d == 0xa0)
    then some 1
    else if wide_space c d e
    then some 2
    else none

-- each loop is given how many bytes of white space it still has to pass
unfoldable pub all_space_from : ℕ → Bytes → Bool
unfolding space_at
all_space_from k [] = true
all_space_from (suc k) (c ∷ cs) = all_space_from k cs
all_space_from zero (c ∷ cs) = elim (space_at (c ∷ cs)) [
  | none ↦ false
  | some more ↦ all_space_from more cs
]

unfoldable pub trim_left_from : ℕ → Bytes → Bytes
unfolding space_at
trim_left_from k [] = []
trim_left_from (suc k) (c ∷ cs) = trim_left_from k cs
trim_left_from zero (c ∷ cs) = elim (space_at (c ∷ cs)) [
  | none ↦ c ∷ cs
  | some more ↦ trim_left_from more cs
]

unfoldable pub trim_right : Bytes → Bytes
unfolding all_space_from
trim_right [] = []
trim_right (c ∷ cs) = let rest = trim_right cs in if all_space_from 0 (c ∷ cs) then [] else c ∷ rest

-- `strings.TrimSpace`
unfoldable pub trim_space : Bytes → Bytes
unfolding trim_left_from trim_right
trim_space s = trim_right (trim_left_from 0 s)

unfoldable pub field_of : Bytes → List Bytes
field_of [] = []
field_of (c ∷ cs) = (c ∷ cs) ∷ []

unfoldable pub fields_from : ℕ → Bytes → Bytes → List Bytes
unfolding space_at field_of
fields_from k field [] = field_of field
fields_from (suc k) field (c ∷ cs) = fields_from k field cs
fields_from zero field (c ∷ cs) = elim (space_at (c ∷ cs)) [
  | none ↦ fields_from zero (field ++ c ∷ []) cs
  | some more ↦ field_of field ++ fields_from more [] cs
]

-- `strings.Fields`
unfoldable pub fields : Bytes → List Bytes
unfolding fields_from
fields s = fields_from 0 [] s

unfoldable pub lower_byte : ℕ → ℕ
lower_byte c = if leb b'A' c && leb c b'Z' then c + 32 else c

-- the fold of a string that is compared with an ASCII string: besides the ASCII letters only
-- U+212A folds to `k` and U+017F to `s`
unfoldable pub fold_case : Bytes → Bytes
unfolding lower_byte
fold_case [] = []
fold_case (c ∷ []) = lower_byte c ∷ []
fold_case (c ∷ d ∷ []) =
    if c == 0xc5 && d == 0xbf then b's' ∷ [] else lower_byte c ∷ lower_byte d ∷ []
fold_case (c ∷ d ∷ e ∷ cs) =
    let after_three = fold_case cs in
    let after_two = fold_case (e ∷ cs) in
    let after_one = fold_case (d ∷ e ∷ cs) in
    if c == 0xe2 && d == 0x84 && e == 0xaa
    then b'k' ∷ after_three
    else if c == 0xc5 && d == 0xbf
    then b's' ∷ after_two
    else lower_byte c ∷ after_one
