-- ===== src/Policy/Paths.antt =====
-- `cleanLiteral` and `cleanPath` of internal/policy/diagnostic.go, and the `path.Clean` of Go that
-- they call.
use windmill_gate.Base.{
  ℕ, Bool, true, false, not, ◌&&◌, ◌||◌, List, [], ◌∷◌, if◌then◌else◌, Bytes, codes, is, is_empty,
  equal, has_byte, has_prefix, all, any, split, join,
}
use windmill_gate.Base.Unicode.{runes, is_control, is_space}

abbrev shell_marks : Bytes
shell_marks = codes "*?[]{}~$`\\'\";|&><"

literal_rune : ℕ → Bool
literal_rune r = not (is_control r || is_space r || has_byte r shell_marks)

unfoldable pub clean_literal : Bytes → Bool
unfolding literal_rune
clean_literal value = not (is_empty value) && all (λ r. literal_rune r.value) (runes value)

-- `path.Clean`, an element at a time: the elements kept so far are in front, the last one first
push_element : Bool → Bytes → List Bytes → List Bytes
push_element rooted part kept =
    if is_empty part || is part "."
    then kept
    else if not (is part "..")
    then part ∷ kept
    else elim kept [
      | [] ↦ if rooted then [] else part ∷ []
      | last ∷ before ↦ if is last ".." then part ∷ last ∷ before else before
    ]

elements : Bool → List Bytes → List Bytes → List Bytes
elements rooted [] kept = kept
elements rooted (part ∷ parts) kept = elements rooted parts (push_element rooted part kept)

reversed : List Bytes → List Bytes → List Bytes
reversed [] acc = acc
reversed (x ∷ xs) acc = reversed xs (x ∷ acc)

path_text : Bool → List Bytes → Bytes
path_text true parts = b'/' ∷ join b'/' parts
path_text false [] = codes "."
path_text false (p ∷ ps) = join b'/' (p ∷ ps)

unfoldable pub path_clean : Bytes → Bytes
unfolding push_element elements reversed path_text
path_clean value =
    let rooted = has_prefix (codes "/") value in
    path_text rooted (reversed (elements rooted (split b'/' value) []) [])

-- `cleanPath(value, false)`, as every caller has it
unfoldable pub clean_path : Bytes → Bool
unfolding path_clean equal
clean_path value =
    if is_empty value
      || is value "-"
      || has_prefix (codes "-") value
      || has_prefix (codes "~") value
      || not (clean_literal value)
    then false
    else if any (λ part. is part "..") (split b'/' value)
    then false
    else equal (path_clean value) value
