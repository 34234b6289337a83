-- ===== src/Forward/Hosts/Lines.antt =====
-- How `removeOwnedLine` reads the lines that `addOwnedLine` looked at.
use windmill_gate.Base.{
  ℕ, false, List, [], ◌∷◌, ◌++◌, ◌==◌, ==_iff, Bytes, is_empty, any, cut, cut_from, split_from, ◌≡◌,
  refl, ap, subst, sym, ◌∙◌, arith, append_assoc, Bool-cases, inl, inr,
}
use windmill_gate.Base.Fields.{trim_space, fields, ascii_space}
use windmill_gate.Base.Fields.Blanks.{trim_space-blank}
use windmill_gate.Forward.Hosts.{
  has_hostname, names_host, is_owned, kept_lines, split_after_from, terminated,
}

trim-cut :
    (acc l : Bytes)
    → trim_space (cut_from acc b'#' (l ++ b'\n' ∷ [])).0 ≡ trim_space (cut_from acc b'#' l).0
unfolding cut_from ascii_space
trim-cut acc [] = trim_space-blank b'\n' refl acc
trim-cut acc (c ∷ l) = ground (arith, trim-cut (acc ++ c ∷ []) l)

-- a line with its end has the names of the line
has_hostname-line :
    (line hostname : Bytes)
    → has_hostname (line ++ b'\n' ∷ []) hostname ≡ has_hostname line hostname
unfolding has_hostname cut
has_hostname-line line hostname = ap (λ s. names_host hostname (fields s)) (trim-cut [] line)

module _ (hostname marker : Bytes) where
  -- a line without the name stays
  kept_line :
      (line : Bytes) (lines : List Bytes)
      → has_hostname line hostname ≡ false
      → kept_lines hostname marker (line ∷ lines) ≡ line ++ kept_lines hostname marker lines
  unfolding kept_lines is_owned
  kept_line line lines h = ground arith

  kept_end :
      (line : Bytes) (lines : List Bytes)
      → has_hostname line hostname ≡ false
      → kept_lines hostname marker ((line ++ b'\n' ∷ []) ∷ lines)
        ≡ line ++ b'\n' ∷ kept_lines hostname marker lines
  kept_end line lines h =
      kept_line (line ++ b'\n' ∷ []) lines (has_hostname-line line hostname ∙ h)
      ∙ append_assoc line (b'\n' ∷ []) (kept_lines hostname marker lines)

  -- What is to be shown of the lines that `s` ends: those without the name stay, whatever comes
  -- after them.
  abbrev Stays : Bytes → Bytes → Bytes → Type 0
  Stays line s more =
      any (λ l. has_hostname l hostname) (split_from line b'\n' s) ≡ false
      → kept_lines hostname marker (split_after_from line b'\n' (terminated s ++ more))
        ≡ line ++ (terminated s ++ kept_lines hostname marker (split_after_from [] b'\n' more))

  last_ends : (line more : Bytes) → Stays line (b'\n' ∷ []) more
  unfolding split_from split_after_from terminated
  last_ends line more h = kept_end line (split_after_from [] b'\n' more) (ground arith)

  line_ends :
      (line s more : Bytes) (d : ℕ) → Stays [] (d ∷ s) more → Stays line (b'\n' ∷ d ∷ s) more
  unfolding split_from split_after_from terminated
  line_ends line s more d later h =
      kept_end line (split_after_from [] b'\n' (terminated (d ∷ s) ++ more)) (ground arith)
      ∙ ap (λ b. line ++ b'\n' ∷ b) (later (ground arith))

  last_goes : (line more : Bytes) (c : ℕ) → c == b'\n' ≡ false → Stays line (c ∷ []) more
  unfolding split_from split_after_from terminated
  last_goes line more c goes h =
      let split : split_after_from line b'\n' (c ∷ b'\n' ∷ more)
          ≡ ((line ++ c ∷ []) ++ b'\n' ∷ []) ∷ split_after_from [] b'\n' more =
        ground arith in
      let end : terminated (c ∷ []) ≡ c ∷ b'\n' ∷ [] = ground arith in
      let rest = kept_lines hostname marker (split_after_from [] b'\n' more) in
      ap (λ t. kept_lines hostname marker (split_after_from line b'\n' (t ++ more))) end
      ∙ ap (kept_lines hostname marker) split
      ∙ kept_end (line ++ c ∷ []) (split_after_from [] b'\n' more) (ground arith)
      ∙ append_assoc line (c ∷ []) (b'\n' ∷ rest)
      ∙ ap (λ t. line ++ (t ++ rest)) (sym end)

  line_goes :
      (line s more : Bytes) (c d : ℕ)
      → c == b'\n' ≡ false
      → Stays (line ++ c ∷ []) (d ∷ s) more
      → Stays line (c ∷ d ∷ s) more
  unfolding split_from split_after_from terminated
  line_goes line s more c d goes later h =
      let split : split_after_from line b'\n' (c ∷ (terminated (d ∷ s) ++ more))
          ≡ split_after_from (line ++ c ∷ []) b'\n' (terminated (d ∷ s) ++ more) =
        ground arith in
      ap (kept_lines hostname marker) split
      ∙ later (ground arith)
      ∙ append_assoc line (c ∷ [])
          (terminated (d ∷ s) ++ kept_lines hostname marker (split_after_from [] b'\n' more))

  pub kept_before : (line s more : Bytes) → is_empty s ≡ false → Stays line s more
  unfolding is_empty
  kept_before line [] more n = ground arith
  kept_before line (c ∷ []) more n = elim (Bool-cases (c == b'\n')) [
    | inl ends ↦
        subst (λ b. Stays line (b ∷ []) more) (sym ((==_iff c b'\n').0 ends)) (last_ends line more)
    | inr goes ↦ last_goes line more c goes
  ]
  kept_before line (c ∷ d ∷ s) more n = elim (Bool-cases (c == b'\n')) [
    | inl ends ↦
        subst (λ b. Stays line (b ∷ d ∷ s) more) (sym ((==_iff c b'\n').0 ends))
          (line_ends line s more d (kept_before [] (d ∷ s) more refl))
    | inr goes ↦ line_goes line s more c d goes (kept_before (line ++ c ∷ []) (d ∷ s) more refl)
  ]
