-- ===== src/Policy/Grep.antt =====
-- The searches of internal/policy/diagnostic.go: `parseGrepOperands` and the validators of grep and
-- pgrep.
use windmill_gate.Base.{
  ℕ, zero, suc, Bool, true, false, not, ◌&&◌, List, [], ◌∷◌, Option, none, some, ◌==◌, leb, ltb,
  if◌then◌else◌, Bytes, codes, is, is_empty, length, any, all, drop, member, has_byte, has_prefix,
  cut,
}
use windmill_gate.Base.Unicode.{runes, is_control}
use windmill_gate.Policy.Shell.{ShellWord}
use windmill_gate.Policy.Network.{word_is, value_at}
use windmill_gate.Policy.Values.{decimal}
use windmill_gate.Policy.Paths.{clean_literal}
use windmill_gate.Policy.Diagnostic.{Options, parse_read_options, file_operands, accepted_by}
use windmill_gate.Policy.Files.{container_grep_path}

abbrev pub grep_booleans : List Bytes
grep_booleans =
    codes "--basic-regexp"
    ∷ codes "--extended-regexp"
    ∷ codes "--fixed-strings"
    ∷ codes "--perl-regexp"
    ∷ codes "--ignore-case"
    ∷ codes "--no-ignore-case"
    ∷ codes "--word-regexp"
    ∷ codes "--line-regexp"
    ∷ codes "--null-data"
    ∷ codes "--no-messages"
    ∷ codes "--invert-match"
    ∷ codes "--version"
    ∷ codes "--byte-offset"
    ∷ codes "--with-filename"
    ∷ codes "--no-filename"
    ∷ codes "--line-number"
    ∷ codes "--only-matching"
    ∷ codes "--quiet"
    ∷ codes "--silent"
    ∷ codes "--text"
    ∷ codes "--binary"
    ∷ codes "--binary-files-without-match"
    ∷ codes "--files-with-matches"
    ∷ codes "--files-without-match"
    ∷ codes "--count"
    ∷ codes "--initial-tab"
    ∷ codes "--null"
    ∷ codes "--recursive"
    ∷ codes "--dereference-recursive"
    ∷ codes "--line-buffered"
    ∷ codes "--unix-byte-offsets"
    ∷ []

-- what a value of an option is
pub data Value : Type 0 where
  a_pattern a_count a_text : Value

-- `valueLong`, with what becomes of the value
unfoldable pub long_value : Bytes → Option Value
unfolding member
long_value name =
    if is name "--regexp"
    then some a_pattern
    else if member name (
        codes "--max-count"
        ∷ codes "--after-context"
        ∷ codes "--before-context"
        ∷ codes "--context"
        ∷ [])
    then some a_count
    else if member name
        (codes "--binary-files" ∷ codes "--devices" ∷ codes "--directories" ∷ codes "--label" ∷ [])
    then some a_text
    else none

unfoldable pub short_value : ℕ → Option Value
unfolding has_byte
short_value flag =
    if flag == b'e'
    then some a_pattern
    else if has_byte flag (codes "mABC")
    then some a_count
    else if has_byte flag (codes "dD")
    then some a_text
    else none

-- An argument before `--`: an operand, an option that may be a pattern, or an option that wants
-- its value.
pub data GrepReading : Type 0 where
  an_operand the_end refused : GrepReading
  an_option : Bool → GrepReading
  wants : Value → GrepReading

-- with the value of an option
unfoldable pub taken : Value → Bytes → GrepReading
unfolding decimal
taken a_pattern v = an_option true
taken a_count v = if decimal v true then an_option false else refused
taken a_text v = an_option false

long_grep : Bytes × Option Bytes → GrepReading
unfolding long_value taken member
long_grep (name, none) =
    if member name grep_booleans
    then an_option false
    else elim (long_value name) [ none ↦ refused | some value ↦ wants value ]
long_grep (name, some v) =
    if member name grep_booleans
    then refused
    else elim (long_value name) [ none ↦ refused | some value ↦ taken value v ]

-- the loop over the letters of a short option
short_grep : Bytes → GrepReading
unfolding short_value taken has_byte is_empty
short_grep [] = an_option false
short_grep (flag ∷ flags) =
    let rest = short_grep flags in
    elim (short_value flag) [
      | some value ↦ if is_empty flags then wants value else taken value flags
      | none ↦ if has_byte flag (codes "EFGPiwxzsvbHhnoqalLIrRUZ") then rest else refused
    ]

unfoldable pub grep_argument : Bytes → GrepReading
unfolding long_grep short_grep has_prefix cut
grep_argument v =
    if is v "--"
    then the_end
    else if has_prefix (codes "--") v
    then long_grep (cut b'=' v)
    else if ltb 1 (length v) && has_prefix (codes "-") v
    then short_grep (drop 1 v)
    else an_operand

pub data GrepStage : Type 0 where
  reads_options past_options : GrepStage
  wants_value : Value → GrepStage

-- how many options gave a pattern, and the operands
abbrev pub Found : Type 0
Found = Option (ℕ × List ShellWord)

with_operand : ShellWord → Found → Found
with_operand w none = none
with_operand w (some (n, ws)) = some (n, w ∷ ws)

with_option : Bool → Found → Found
with_option true (some (n, ws)) = some (suc n, ws)
with_option _ found = found

after_value : GrepReading → Found → Found
unfolding with_option
after_value (an_option is_pattern) found = with_option is_pattern found
after_value _ found = none

-- the loop of `parseGrepOperands`
unfoldable pub grep_from : GrepStage → List ShellWord → Found
unfolding grep_argument taken with_operand with_option after_value
grep_from (wants_value value) [] = none
grep_from reads_options [] = some (0, [])
grep_from past_options [] = some (0, [])
grep_from (wants_value value) (w ∷ ws) =
    after_value (taken value w.value) (grep_from reads_options ws)
grep_from past_options (w ∷ ws) = with_operand w (grep_from past_options ws)
grep_from reads_options (w ∷ ws) = elim (grep_argument w.value) [
  | refused ↦ none
  | the_end ↦ grep_from past_options ws
  | an_operand ↦ with_operand w (grep_from reads_options ws)
  | an_option is_pattern ↦ with_option is_pattern (grep_from reads_options ws)
  | wants value ↦ grep_from (wants_value value) ws
]

-- without an option for it, the first operand is the pattern
unfoldable pub operands_of : Found → Option (List ShellWord)
operands_of none = none
operands_of (some (zero, ws)) = if ltb (length ws) 2 then none else some (drop 1 ws)
operands_of (some (suc n, ws)) = if length ws == 0 then none else some ws

-- `parseGrepOperands`
unfoldable pub parse_grep_operands : List ShellWord → Option (List ShellWord)
unfolding grep_from operands_of
parse_grep_operands arguments = operands_of (grep_from reads_options arguments)

-- `validateGrep`
unfoldable pub validate_grep : List ShellWord → Bool
unfolding accepted_by file_operands
validate_grep arguments = accepted_by file_operands (parse_grep_operands arguments)

-- `validateSourceGrep`
unfoldable pub validate_source_grep : List ShellWord → Bool
unfolding accepted_by container_grep_path
validate_source_grep words =
    leb 3 (length words)
    && word_is words 0 "grep"
    && accepted_by (all (λ w. container_grep_path w.value)) (parse_grep_operands (drop 1 words))

-- `validateContainerGrep`
unfoldable pub validate_container_grep : List ShellWord → Bool
validate_container_grep words =
    leb 9 (length words)
    && word_is words 0 "runagent"
    && word_is words 1 "-m"
    && clean_literal (value_at words 2)
    && word_is words 3 "podman"
    && word_is words 4 "exec"
    && clean_literal (value_at words 5)
    && word_is words 6 "grep"
    && validate_source_grep (drop 6 words)

abbrev pub pgrep_options : Options
pgrep_options = record {
  boolean_short = codes "aflnovxciwA";
  boolean_long =
      codes "--list-full"
      ∷ codes "--full"
      ∷ codes "--list-name"
      ∷ codes "--newest"
      ∷ codes "--oldest"
      ∷ codes "--inverse"
      ∷ codes "--exact"
      ∷ codes "--count"
      ∷ codes "--ignore-case"
      ∷ codes "--lightweight"
      ∷ codes "--ignore-ancestors"
      ∷ [];
  value_long =
      codes "--delimiter"
      ∷ codes "--runstates"
      ∷ codes "--parent"
      ∷ codes "--pgroup"
      ∷ codes "--group"
      ∷ codes "--session"
      ∷ codes "--terminal"
      ∷ codes "--euid"
      ∷ codes "--uid"
      ∷ codes "--older"
      ∷ [];
  value_short = codes "drPgGstuUO";
}

-- the pattern of pgrep: in quotes it may hold anything but control characters
pgrep_pattern : List ShellWord → Bool
unfolding has_prefix is_empty runes is_control
pgrep_pattern (w ∷ []) =
    not (has_prefix (codes "-") w.value)
    && (if not (is_empty w.value) && not (w.quote == 0) && not w.mixed
        then not (any (λ r. is_control r.value) (runes w.value))
        else clean_literal w.value)
pgrep_pattern _ = false

-- `validatePgrep`
unfoldable pub validate_pgrep : List ShellWord → Bool
unfolding accepted_by pgrep_pattern
validate_pgrep arguments = accepted_by pgrep_pattern (parse_read_options pgrep_options arguments)
