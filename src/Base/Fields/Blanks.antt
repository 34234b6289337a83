-- ===== src/Base/Fields/Blanks.antt =====
-- Trailing white space changes no field, and a word without white space is a field.
use windmill_gate.Base.Tests.{ltb, leb, if◌then◌else◌, Option-cases}
use windmill_gate.Base.Lists.{all}
use windmill_gate.Base.Strings.{Bytes, is_empty}
use windmill_gate.Base.Fields.{
  ascii_space, wide_space, space_at, all_space_from, trim_left_from, trim_right, trim_space,
  field_of, fields_from,
}
use Prim.Native.Nat.{ℕ, zero, suc}
use mathlib.Core.Bool.{Bool, true, false, ◌&&◌}
use mathlib.Core.List.{[], ◌∷◌, ◌++◌, append_assoc, append-nil}
use mathlib.Core.Logic.{inl, inr}
use mathlib.Core.Option.{none, some}
use mathlib.Core.Path.{◌≡◌, refl, ap, sym}
use native.Mathlib.Omega.{arith}

-- a trailing byte of ASCII white space
module _ (b : ℕ) (is_blank : ascii_space b ≡ true) where
  space_at-blank : (c : ℕ) (cs : Bytes) → space_at (c ∷ cs ++ b ∷ []) ≡ space_at (c ∷ cs)
  unfolding space_at ascii_space wide_space
  space_at-blank c [] = ground (arith, is_blank)
  space_at-blank c (d ∷ []) = ground (arith, is_blank)
  space_at-blank c (d ∷ e ∷ cs) = refl

  blank_at : space_at (b ∷ []) ≡ some 0
  unfolding space_at
  blank_at = ground (arith, is_blank)

  all_space_from-blank : (k : ℕ) (s : Bytes) → all_space_from k (s ++ b ∷ []) ≡ all_space_from k s
  unfolding all_space_from
  all_space_from-blank zero [] = ground (arith, blank_at)
  all_space_from-blank (suc k) [] = refl
  all_space_from-blank (suc k) (c ∷ cs) = all_space_from-blank k cs
  all_space_from-blank zero (c ∷ cs) = elim (Option-cases (space_at (c ∷ cs))) [
    | inl word ↦ ground (arith, space_at-blank c cs)
    | inr (more, space) ↦ ground (arith, space_at-blank c cs, all_space_from-blank more cs)
  ]

  pub trim_right-blank : (s : Bytes) → trim_right (s ++ b ∷ []) ≡ trim_right s
  unfolding trim_right
  trim_right-blank [] = ground (arith, all_space_from-blank 0 [])
  trim_right-blank (c ∷ cs) = ground (arith, all_space_from-blank 0 (c ∷ cs), trim_right-blank cs)

  trim_left_from-blank :
      (k : ℕ) (s : Bytes)
      → trim_right (trim_left_from k (s ++ b ∷ [])) ≡ trim_right (trim_left_from k s)
  unfolding trim_left_from
  trim_left_from-blank zero [] = ground (arith, blank_at)
  trim_left_from-blank (suc k) [] = refl
  trim_left_from-blank (suc k) (c ∷ cs) = trim_left_from-blank k cs
  trim_left_from-blank zero (c ∷ cs) = elim (Option-cases (space_at (c ∷ cs))) [
    | inl word ↦ ground (arith, space_at-blank c cs, trim_right-blank (c ∷ cs))
    | inr (more, space) ↦ ground (arith, space_at-blank c cs, trim_left_from-blank more cs)
  ]

  pub trim_space-blank : (s : Bytes) → trim_space (s ++ b ∷ []) ≡ trim_space s
  unfolding trim_space
  trim_space-blank s = trim_left_from-blank 0 s

-- the printing characters of ASCII
unfoldable pub word_byte : ℕ → Bool
word_byte c = leb 0x21 c && leb c 0x7e

unfoldable pub ascii_byte : ℕ → Bool
ascii_byte c = ltb c 128

space_at-word : (c : ℕ) (cs : Bytes) → word_byte c ≡ true → space_at (c ∷ cs) ≡ none
unfolding space_at ascii_space wide_space word_byte
space_at-word c [] h = ground arith
space_at-word c (d ∷ []) h = ground arith
space_at-word c (d ∷ e ∷ cs) h = ground arith

-- an ASCII byte begins white space of one byte or none
space_at-ascii :
    (c : ℕ) (cs : Bytes)
    → ascii_byte c ≡ true
    → space_at (c ∷ cs) ≡ (if ascii_space c then some 0 else none)
unfolding space_at ascii_space wide_space ascii_byte
space_at-ascii c [] h = ground arith
space_at-ascii c (d ∷ []) h = ground arith
space_at-ascii c (d ∷ e ∷ cs) h = ground arith

word-visible :
    (w : ℕ) (ws s : Bytes)
    → word_byte w ≡ true
    → all ascii_byte s ≡ true
    → all_space_from 0 (s ++ w ∷ ws) ≡ false
unfolding all_space_from
word-visible w ws [] h a = ground (arith, space_at-word w ws h)
word-visible w ws (c ∷ cs) h a =
    ground (arith, space_at-ascii c (cs ++ w ∷ ws), word-visible w ws cs h)

trim_right-word : (ws : Bytes) → all word_byte ws ≡ true → trim_right ws ≡ ws
unfolding trim_right
trim_right-word [] h = refl
trim_right-word (w ∷ ws) h = ground (arith, word-visible w ws [], trim_right-word ws)

-- white space before a word is kept by the trim on the right
pub trim_right-append :
    (s ws : Bytes)
    → is_empty ws ≡ false
    → all word_byte ws ≡ true
    → all ascii_byte s ≡ true
    → trim_right (s ++ ws) ≡ s ++ ws
unfolding trim_right is_empty
trim_right-append s [] n h a = ground arith
trim_right-append [] (w ∷ ws) n h a = trim_right-word (w ∷ ws) h
trim_right-append (c ∷ cs) (w ∷ ws) n h a =
    ground (arith, word-visible w ws (c ∷ cs), trim_right-append cs (w ∷ ws))

pub trim_space-word : (ws : Bytes) → all word_byte ws ≡ true → trim_space ws ≡ ws
unfolding trim_space trim_left_from
trim_space-word [] h = refl
trim_space-word (w ∷ ws) h = ground (arith, space_at-word w ws, trim_right-word (w ∷ ws))

pub fields_from-word :
    (field ws more : Bytes)
    → all word_byte ws ≡ true
    → fields_from 0 field (ws ++ more) ≡ fields_from 0 (field ++ ws) more
unfolding fields_from
fields_from-word field [] more h = ap (λ f. fields_from 0 f more) (sym (append-nil field))
fields_from-word field (w ∷ ws) more h = ground (
  arith,
  space_at-word w (ws ++ more),
  fields_from-word (field ++ w ∷ []) ws more,
  append_assoc field (w ∷ []) ws,
)

pub fields_from-space :
    (field s : Bytes) (b : ℕ)
    → ascii_byte b ≡ true
    → ascii_space b ≡ true
    → fields_from 0 field (b ∷ s) ≡ field_of field ++ fields_from 0 [] s
unfolding fields_from
fields_from-space field s b a h = ground (arith, space_at-ascii b s)

pub trim_space-space :
    (s : Bytes) (b : ℕ)
    → ascii_byte b ≡ true
    → ascii_space b ≡ true
    → trim_space (b ∷ s) ≡ trim_space s
unfolding trim_space trim_left_from
trim_space-space s b a h = ground (arith, space_at-ascii b s)

-- text that begins with a word and ends with one has nothing to trim
pub trim_space-words :
    (w : ℕ) (s ws : Bytes)
    → word_byte w ≡ true
    → is_empty ws ≡ false
    → all word_byte ws ≡ true
    → all ascii_byte (w ∷ s) ≡ true
    → trim_space ((w ∷ s) ++ ws) ≡ (w ∷ s) ++ ws
unfolding trim_space trim_left_from
trim_space-words w s ws v n h a =
    ground (arith, space_at-word w (s ++ ws), trim_right-append (w ∷ s) ws n h a)
