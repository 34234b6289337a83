-- ===== src/Forward/Hosts/Restores.antt =====
-- `removeOwnedLine` takes back what `addOwnedLine` did.
use windmill_gate.Base.{
  ℕ, Bool, true, false, ◌&&◌, ◌||◌, [], ◌∷◌, ◌++◌, some, ◌==◌, Bytes, codes, is_empty, equal_refl,
  all, any, ascii_digit, cut, cut_from, split, split_from, ◌≡◌, refl, ap, subst, sym, ◌∙◌, arith,
  append_assoc, append-nil, Bool-cases, inl, inr,
}
use windmill_gate.Base.Results.{ok}
use windmill_gate.Base.Fields.{trim_space, fields, fields_from, field_of, fold_case, ascii_space}
use windmill_gate.Base.Fields.Blanks.{
  word_byte, ascii_byte, trim_space-blank, trim_space-space, trim_space-word, trim_space-words,
  fields_from-word, fields_from-space,
}
use windmill_gate.Forward.Hosts.{
  trim_dot, lower_case, label_byte, hostname_label, check_hostname, normalize_hostname,
  has_hostname, names_host, comment_of, is_owned, kept_lines, split_after_from, split_after,
  terminated, owned_line, loopback, add_owned_line, remove_owned_line,
}
use windmill_gate.Forward.Hosts.Lines.{kept_before}

-- the bytes of a host name that is normal
unfoldable pub name_byte : ℕ → Bool
unfolding label_byte
name_byte c = label_byte c || c == b'.'

-- What `NormalizeHostname` leaves.
pub record IsHostname (name : Bytes) : Type 0 where
  pub some_byte : is_empty name ≡ false
  pub bytes : all name_byte name ≡ true
  pub no_dot : trim_dot name ≡ name

all-append : (p : ℕ → Bool) (xs ys : Bytes) → all p (xs ++ ys) ≡ (all p xs && all p ys)
all-append p [] ys = refl
all-append p (x ∷ xs) ys = ground (arith, all-append p xs ys)

label_bytes : (label : Bytes) → hostname_label label ≡ true → all label_byte label ≡ true
unfolding hostname_label
label_bytes label h = ground arith

names_bytes : (s : Bytes) → all label_byte s ≡ true → all name_byte s ≡ true
unfolding name_byte
names_bytes [] h = refl
names_bytes (c ∷ cs) h = ground (arith, names_bytes cs)

dot_byte : (c : ℕ) → (c == b'.') ≡ true → name_byte c ≡ true
unfolding name_byte
dot_byte c h = ground arith

split-bytes :
    (label s : Bytes)
    → all hostname_label (split_from label b'.' s) ≡ true
    → all name_byte (label ++ s) ≡ true
unfolding split_from
split-bytes label [] h =
    ap (all name_byte) (append-nil label) ∙ names_bytes label (label_bytes label (ground arith))
split-bytes label (c ∷ cs) h = elim (Bool-cases (c == b'.')) [
  | inl ends ↦
      let before = names_bytes label (label_bytes label (ground arith)) in
      let dot : name_byte c ≡ true = dot_byte c ends in
      all-append name_byte label (c ∷ cs) ∙ ground (arith, before, dot, split-bytes [] cs)
  | inr goes ↦
      ap (all name_byte) (sym (append_assoc label (c ∷ []) cs))
      ∙ split-bytes (label ++ c ∷ []) cs (ground arith)
]

split-trim_dot :
    (label s : Bytes) → all hostname_label (split_from label b'.' s) ≡ true → trim_dot s ≡ s
unfolding split_from trim_dot hostname_label
split-trim_dot label [] h = refl
split-trim_dot label (c ∷ []) h = ground arith
split-trim_dot label (c ∷ d ∷ cs) h = elim (Bool-cases (c == b'.')) [
  | inl ends ↦ ground (arith, split-trim_dot [] (d ∷ cs))
  | inr goes ↦ ground (arith, split-trim_dot (label ++ c ∷ []) (d ∷ cs))
]

check_hostname-IsHostname :
    (name hostname : Bytes) → check_hostname name ≡ ok hostname → IsHostname hostname
unfolding check_hostname split
check_hostname-IsHostname name hostname h =
    let same : name ≡ hostname = ground arith in
    let labels : all hostname_label (split_from [] b'.' name) ≡ true = ground arith in
    subst IsHostname same (record {
      some_byte = ground arith;
      bytes = split-bytes [] name labels;
      no_dot = split-trim_dot [] name labels;
    })

pub normalize_hostname-IsHostname :
    (raw hostname : Bytes) → normalize_hostname raw ≡ ok hostname → IsHostname hostname
unfolding normalize_hostname
normalize_hostname-IsHostname raw hostname h =
    check_hostname-IsHostname (lower_case (trim_dot (trim_space raw))) hostname h

-- a name has no white space, no `#` and no end of a line
name_words : (s : Bytes) → all name_byte s ≡ true → all word_byte s ≡ true
unfolding name_byte label_byte ascii_digit word_byte
name_words [] h = refl
name_words (c ∷ cs) h = ground (arith, name_words cs)

cut_from-name :
    (acc s more : Bytes)
    → all name_byte s ≡ true
    → cut_from acc b'#' (s ++ more) ≡ cut_from (acc ++ s) b'#' more
unfolding cut_from name_byte label_byte ascii_digit
cut_from-name acc [] more h = ap (λ a. cut_from a b'#' more) (sym (append-nil acc))
cut_from-name acc (c ∷ cs) more h =
    ground (arith, cut_from-name (acc ++ c ∷ []) cs more, append_assoc acc (c ∷ []) cs)

split_after_from-word :
    (acc s more : Bytes)
    → all word_byte s ≡ true
    → split_after_from acc b'\n' (s ++ more) ≡ split_after_from (acc ++ s) b'\n' more
unfolding split_after_from word_byte
split_after_from-word acc [] more h = ap (λ a. split_after_from a b'\n' more) (sym (append-nil acc))
split_after_from-word acc (c ∷ cs) more h =
    ground (arith, split_after_from-word (acc ++ c ∷ []) cs more, append_assoc acc (c ∷ []) cs)

field_of-some : (s : Bytes) → is_empty s ≡ false → field_of s ≡ s ∷ []
unfolding field_of is_empty
field_of-some [] h = ground arith
field_of-some (c ∷ cs) h = refl

fields_from-name :
    (s : Bytes) → is_empty s ≡ false → all word_byte s ≡ true → fields_from 0 [] s ≡ s ∷ []
unfolding fields_from
fields_from-name s n h =
    ap (fields_from 0 []) (sym (append-nil s)) ∙ fields_from-word [] s [] h ∙ field_of-some s n

line_assoc :
    (s : Bytes) (c d e : ℕ) (t u : Bytes)
    → ((((s ++ c ∷ []) ++ d ∷ []) ++ e ∷ []) ++ t) ++ u ≡ s ++ (c ∷ d ∷ e ∷ (t ++ u))
line_assoc [] c d e t u = refl
line_assoc (b ∷ s) c d e t u = ap (λ l. b ∷ l) (line_assoc s c d e t u)

dropped_line :
    (hostname marker line : Bytes)
    → is_owned hostname marker line ≡ true
    → kept_lines hostname marker (line ∷ [] ∷ []) ≡ []
unfolding kept_lines
dropped_line hostname marker line h = ground arith

module _ (name marker : Bytes) (v : IsHostname name) (m : all word_byte marker ≡ true) where
  cut-owned :
      cut b'#' (owned_line name marker)
      ≡ (((loopback ++ b'\t' ∷ []) ++ name) ++ b' ' ∷ [], some (b' ' ∷ (marker ++ b'\n' ∷ [])))
  unfolding cut cut_from
  cut-owned = cut_from-name (loopback ++ b'\t' ∷ []) name _ v.bytes

  comment-owned : comment_of (some (b' ' ∷ (marker ++ b'\n' ∷ []))) ≡ marker
  unfolding comment_of ascii_space ascii_byte
  comment-owned =
      trim_space-space (marker ++ b'\n' ∷ []) b' ' refl refl
      ∙ trim_space-blank b'\n' refl marker
      ∙ trim_space-word marker m

  fields-owned :
      fields (trim_space (((loopback ++ b'\t' ∷ []) ++ name) ++ b' ' ∷ [])) ≡ loopback ∷ name ∷ []
  unfolding fields ascii_space ascii_byte word_byte field_of
  fields-owned =
      ap fields (
        trim_space-blank b' ' refl ((loopback ++ b'\t' ∷ []) ++ name)
        ∙ trim_space-words b'1' (codes "27.0.0.1" ++ b'\t' ∷ []) name refl v.some_byte
            (name_words name v.bytes) refl)
      ∙ fields_from-word [] loopback (b'\t' ∷ name) refl
      ∙ fields_from-space loopback name b'\t' refl refl
      ∙ ap (λ names. loopback ∷ names) (fields_from-name name v.some_byte (name_words name v.bytes))

  has-owned : has_hostname (owned_line name marker) name ≡ true
  unfolding has_hostname names_host
  has-owned =
      ap (λ p. names_host name (fields (trim_space p.0))) cut-owned
      ∙ ap (names_host name) fields-owned
      ∙ ground (arith, v.no_dot, equal_refl (fold_case name))

  is_owned-owned : is_owned name marker (owned_line name marker) ≡ true
  unfolding is_owned
  is_owned-owned = ground (arith, cut-owned, comment-owned, equal_refl marker, has-owned)

  split-owned : split_after b'\n' (owned_line name marker) ≡ owned_line name marker ∷ [] ∷ []
  unfolding split_after split_after_from
  split-owned =
      split_after_from-word (loopback ++ b'\t' ∷ []) name _ (name_words name v.bytes)
      ∙ split_after_from-word _ marker (b'\n' ∷ []) m
      ∙ ap (λ line. (loopback ++ b'\t' ∷ line) ∷ [] ∷ [])
          (line_assoc name b' ' b'#' b' ' marker (b'\n' ∷ []))

  kept-owned : kept_lines name marker (split_after b'\n' (owned_line name marker)) ≡ []
  unfolding kept_lines
  kept-owned =
      ap (kept_lines name marker) split-owned
      ∙ dropped_line name marker (owned_line name marker) is_owned-owned

  restored :
      (hosts : Bytes)
      → any (λ line. has_hostname line name) (split b'\n' hosts) ≡ false
      → remove_owned_line (terminated hosts ++ owned_line name marker) name marker
        ≡ terminated hosts
  unfolding remove_owned_line split split_after terminated is_empty
  restored [] free = kept-owned
  restored (c ∷ cs) free =
      kept_before name marker [] (c ∷ cs) (owned_line name marker) refl free
      ∙ ap (λ rest. terminated (c ∷ cs) ++ rest) kept-owned
      ∙ append-nil (terminated (c ∷ cs))

-- For a host name that `NormalizeHostname` accepts, and a marker of printing ASCII characters:
-- when `addOwnedLine` succeeds, `removeOwnedLine` on its result gives back the file as it was, but
-- for the end of the last line if that was missing; and the line that was added carries the name.
pub remove_owned_line-add_owned_line :
    (raw hostname marker hosts hosts' : Bytes)
    → normalize_hostname raw ≡ ok hostname
    → all word_byte marker ≡ true
    → add_owned_line hosts hostname marker ≡ ok hosts'
    → (remove_owned_line hosts' hostname marker ≡ terminated hosts)
      × (has_hostname (owned_line hostname marker) hostname ≡ true)
unfolding add_owned_line
remove_owned_line-add_owned_line raw hostname marker hosts hosts' n m h =
    let v = normalize_hostname-IsHostname raw hostname n in
    let free : any (λ line. has_hostname line hostname) (split b'\n' hosts) ≡ false =
      ground arith in
    let same : terminated hosts ++ owned_line hostname marker ≡ hosts' = ground arith in
    (
      ap (λ file. remove_owned_line file hostname marker) (sym same)
          ∙ restored hostname marker v m hosts free,
      has-owned hostname marker v m,
    )
