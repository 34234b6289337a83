-- ===== src/Base/Suffixes.antt =====
-- A string with a suffix is what stands before it, and the suffix.
use mathlib.Core.List.{reverse, reverse-append, reverse-reverse}
use windmill_gate.Base.{
  ◌-◌, true, [], ◌∷◌, ◌++◌, ==_iff, Bytes, has_prefix, has_suffix, length, length-append, take,
  take-length-append, ◌≡◌, refl, ap, sym, ◌∙◌, arith,
}

has_prefix-append : (p s : Bytes) → has_prefix p s ≡ true → (rest : Bytes) × (s ≡ p ++ rest)
unfolding has_prefix
has_prefix-append [] s h = (s, refl)
has_prefix-append (b ∷ p) [] h = absurd (cc)
has_prefix-append (b ∷ p) (c ∷ s) h =
    let (rest, same) = has_prefix-append p s (ground arith) in
    let first : c ≡ b = sym ((==_iff b c).0 (ground arith)) in
    (rest, ap (λ d. d ∷ s) first ∙ ap (λ t. b ∷ t) same)

-- the part before the suffix is also what `s[:len(s)-len(suffix)]` is
pub has_suffix-append :
    (suffix s : Bytes)
    → has_suffix suffix s ≡ true
    → (front : Bytes) × (s ≡ front ++ suffix) × (take (length s - length suffix) s ≡ front)
unfolding has_suffix
has_suffix-append suffix s h =
    let (rest, reversed) = has_prefix-append (reverse suffix) (reverse s) h in
    let front = reverse rest in
    let same : s ≡ front ++ suffix =
      sym (reverse-reverse s)
      ∙ ap reverse reversed
      ∙ reverse-append (reverse suffix) rest
      ∙ ap (λ t. front ++ t) (reverse-reverse suffix) in
    let left : length s - length suffix ≡ length front =
      ap (λ t. length t - length suffix) same ∙ omega (arith, length-append front suffix) in
    (
      front,
      same,
      ap (λ n. take n s) left ∙ ap (take (length front)) same ∙ take-length-append front suffix,
    )
