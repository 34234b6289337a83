-- ===== src/Policy/Diagnostic.antt =====
-- The reads of internal/policy/diagnostic.go: `parseReadOptions`, `fileOperands`, and the
-- validators of ls, cat and tail.
pub mod Arguments
pub mod Operands
use windmill_gate.Base.{
  ℕ, Bool, true, false, not, ◌&&◌, ◌||◌, List, [], ◌∷◌, Option, none, some, if◌then◌else◌, Bytes,
  codes, is, is_empty, equal, has_byte, has_prefix, all, any, member, cut, ◌>>=◌, length, ltb, drop,
}
use windmill_gate.Policy.Values.{decimal}
use windmill_gate.Policy.Shell.{ShellWord}
use windmill_gate.Policy.Paths.{clean_literal, clean_path}

-- The tables that `parseReadOptions` is given.
pub record Options : Type 0 where
  pub boolean_short : Bytes
  pub boolean_long : List Bytes
  pub value_long : List Bytes
  pub value_short : Bytes

unfoldable pub attached : Option Bytes → Bool
attached none = false
attached (some v) = true

-- whether a long option is accepted, and whether the next argument is its value
unfoldable pub long_option : Options → Bytes × Option Bytes → Option Bool
unfolding attached
long_option o (name, value) =
    if member name o.boolean_long
    then (if attached value then none else some false)
    else if member name o.value_long
    then some (not (attached value))
    else none

-- the loop over the letters of a short option
unfoldable pub short_option : Options → Bytes → Option Bool
short_option o [] = some false
short_option o (flag ∷ flags) =
    let rest = short_option o flags in
    if has_byte flag o.value_short
    then some (is_empty flags)
    else if has_byte flag o.boolean_short
    then rest
    else none

-- an argument before `--`: an option and whether it wants a value, or no option
pub data Reading : Type 0 where
  an_operand the_end refused : Reading
  an_option : Bool → Reading

unfoldable pub option_of : Option Bool → Reading
option_of none = refused
option_of (some wants_value) = an_option wants_value

unfoldable pub read_argument : Options → Bytes → Reading
unfolding long_option short_option option_of
read_argument o [] = an_operand
read_argument o (c ∷ []) = an_operand
read_argument o (c ∷ d ∷ rest) =
    if is (c ∷ d ∷ rest) "--"
    then the_end
    else if has_prefix (codes "--") (c ∷ d ∷ rest)
    then option_of (long_option o (cut b'=' (c ∷ d ∷ rest)))
    else if has_prefix (codes "-") (c ∷ d ∷ rest)
    then option_of (short_option o (d ∷ rest))
    else an_operand

-- Where the loop stands: it wants a value, it reads options, or `--` has ended them.
pub data Stage : Type 0 where
  wants_value reads_options past_options : Stage

unfoldable pub stage_after : Bool → Stage
stage_after true = wants_value
stage_after false = reads_options

-- `parseReadOptions`
unfoldable pub parse_from : Options → Stage → List ShellWord → Option (List ShellWord)
unfolding read_argument stage_after
parse_from o wants_value [] = none
parse_from o wants_value (w ∷ ws) =
    let rest = parse_from o reads_options ws in if clean_literal w.value then rest else none
parse_from o past_options [] = some []
parse_from o past_options (w ∷ ws) = do rest ← parse_from o past_options ws; some (w ∷ rest)
parse_from o reads_options [] = some []
parse_from o reads_options (w ∷ ws) = elim (read_argument o w.value) [
  | refused ↦ none
  | the_end ↦ parse_from o past_options ws
  | an_option wants ↦ parse_from o (stage_after wants) ws
  | an_operand ↦ do rest ← parse_from o reads_options ws; some (w ∷ rest)
]

unfoldable pub parse_read_options : Options → List ShellWord → Option (List ShellWord)
unfolding parse_from
parse_read_options o ws = parse_from o reads_options ws

unfoldable pub all_clean : List ShellWord → Bool
all_clean ws = all (λ w. clean_path w.value) ws

-- `fileOperands`
unfoldable pub file_operands : List ShellWord → Bool
unfolding all_clean
file_operands [] = false
file_operands (w ∷ ws) = all_clean (w ∷ ws)

unfoldable pub accepted_by : (List ShellWord → Bool) → Option (List ShellWord) → Bool
accepted_by p none = false
accepted_by p (some ws) = p ws

abbrev pub cat_options : Options
cat_options = record {
  boolean_short = codes "AbEeEnstTuv";
  boolean_long =
      codes "--number"
      ∷ codes "--number-nonblank"
      ∷ codes "--show-all"
      ∷ codes "--show-ends"
      ∷ codes "--show-nonprinting"
      ∷ codes "--show-tabs"
      ∷ codes "--squeeze-blank"
      ∷ [];
  value_long = [];
  value_short = [];
}

abbrev pub ls_options : Options
ls_options = record {
  boolean_short = codes "aAbBcCdDfFgGhHiklLmnopqQrRsStuUvxXZ1";
  boolean_long =
      codes "--all"
      ∷ codes "--almost-all"
      ∷ codes "--author"
      ∷ codes "--classify"
      ∷ codes "--dereference"
      ∷ codes "--directory"
      ∷ codes "--escape"
      ∷ codes "--file-type"
      ∷ codes "--group-directories-first"
      ∷ codes "--help"
      ∷ codes "--hide-control-chars"
      ∷ codes "--human-readable"
      ∷ codes "--ignore-backups"
      ∷ codes "--inode"
      ∷ codes "--literal"
      ∷ codes "--numeric-uid-gid"
      ∷ codes "--recursive"
      ∷ codes "--reverse"
      ∷ codes "--show-control-chars"
      ∷ codes "--size"
      ∷ codes "--version"
      ∷ [];
  value_long =
      codes "--block-size"
      ∷ codes "--color"
      ∷ codes "--format"
      ∷ codes "--indicator-style"
      ∷ codes "--quoting-style"
      ∷ codes "--sort"
      ∷ codes "--tabsize"
      ∷ codes "--time"
      ∷ codes "--time-style"
      ∷ codes "--width"
      ∷ codes "--hide"
      ∷ codes "--ignore"
      ∷ [];
  value_short = codes "ITw";
}

-- `validateCat` and `validateLS`
unfoldable pub validate_cat : List ShellWord → Bool
unfolding accepted_by file_operands
validate_cat arguments = accepted_by file_operands (parse_read_options cat_options arguments)

unfoldable pub validate_ls : List ShellWord → Bool
unfolding accepted_by all_clean
validate_ls arguments = accepted_by all_clean (parse_read_options ls_options arguments)

-- `tailCount`
unfoldable pub tail_count : Bytes → Bool
tail_count value =
    if has_prefix (codes "+") value || has_prefix (codes "-") value
    then decimal (drop 1 value) true
    else decimal value true

unfoldable pub counted : Bool → Reading
counted true = an_option false
counted false = refused

unfoldable pub tail_flags : List Bytes
tail_flags =
    codes "-q"
    ∷ codes "--quiet"
    ∷ codes "--silent"
    ∷ codes "-v"
    ∷ codes "--verbose"
    ∷ codes "-z"
    ∷ codes "--zero-terminated"
    ∷ []

unfoldable pub tail_values : List Bytes
tail_values = codes "-n" ∷ codes "--lines" ∷ codes "-c" ∷ codes "--bytes" ∷ []

unfoldable pub value_behind : Bytes × Option Bytes → Bytes
value_behind (name, none) = []
value_behind (name, some value) = value

-- an argument of tail before `--`, by the tests of the loop of `validateTail` in their order
unfoldable pub tail_argument : Bytes → Reading
unfolding counted tail_flags tail_values value_behind
tail_argument v =
    if is v "--"
    then the_end
    else if member v tail_flags
    then an_option false
    else if member v tail_values
    then an_option true
    else if has_prefix (codes "--lines=") v || has_prefix (codes "--bytes=") v
    then counted (tail_count (value_behind (cut b'=' v)))
    else if ltb 2 (length v) && (has_prefix (codes "-n") v || has_prefix (codes "-c") v)
    then counted (tail_count (drop 2 v))
    else if has_prefix (codes "-") v
    then refused
    else an_operand

unfoldable pub tail_from : Stage → List ShellWord → Option (List ShellWord)
unfolding tail_argument stage_after
tail_from wants_value [] = none
tail_from wants_value (w ∷ ws) =
    let rest = tail_from reads_options ws in if tail_count w.value then rest else none
tail_from past_options [] = some []
tail_from past_options (w ∷ ws) = do rest ← tail_from past_options ws; some (w ∷ rest)
tail_from reads_options [] = some []
tail_from reads_options (w ∷ ws) = elim (tail_argument w.value) [
  | refused ↦ none
  | the_end ↦ tail_from past_options ws
  | an_option wants ↦ tail_from (stage_after wants) ws
  | an_operand ↦ do rest ← tail_from reads_options ws; some (w ∷ rest)
]

-- `validateTail`
unfoldable pub validate_tail : List ShellWord → Bool
unfolding accepted_by file_operands
validate_tail arguments = accepted_by file_operands (tail_from reads_options arguments)
