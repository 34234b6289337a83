-- ===== src/Policy/Reads.antt =====
-- internal/policy/read_defaults.go and rtpengine.go: reads of the journal by its own options, and of the
-- sessions of rtpengine.
use windmill_gate.Base.{
  ℕ, Bool, true, false, not, ◌&&◌, ◌||◌, List, [], ◌∷◌, Option, none, some, ◌==◌, leb, ltb,
  if◌then◌else◌, Bytes, codes, is, is_empty, length, any, all, take, drop, member, has_byte,
  has_prefix, cut, cut_prefix, ascii_digit,
}
use windmill_gate.Policy.Shell.{ShellWord}
use windmill_gate.Policy.Network.{word_is, value_at, alphanumeric}
use windmill_gate.Policy.Values.{decimal}
use windmill_gate.Policy.Paths.{clean_path}

some_digits : Bytes → Bool
unfolding ascii_digit
some_digits [] = false
some_digits (c ∷ cs) = all ascii_digit (c ∷ cs)

hex_byte : ℕ → Bool
unfolding ascii_digit
hex_byte c = leb b'a' c && leb c b'f' || leb b'A' c && leb c b'F' || ascii_digit c

signed : Bytes → Bool
unfolding some_digits
signed [] = false
signed (c ∷ cs) = (c == b'+' || c == b'-') && some_digits cs

-- `journalBoot`: `^(?:all|[+-]?[0-9]+|[a-fA-F0-9]{32}(?:[+-][0-9]+)?)$`
unfoldable pub journal_boot : Bytes → Bool
unfolding signed some_digits hex_byte
journal_boot value =
    is value "all"
    || some_digits value
    || signed value
    || leb 32 (length value)
      && all hex_byte (take 32 value)
      && (is_empty (drop 32 value) || signed (drop 32 value))

upper : ℕ → Bool
upper c = leb b'A' c && leb c b'Z' || c == b'_'

read_match : Bytes × Option Bytes → Bool
unfolding upper ascii_digit has_byte
read_match (name, none) = false
read_match ([], some value) = false
read_match (c ∷ cs, some value) =
    upper c && all (λ d. upper d || ascii_digit d) cs && not (has_byte b'\n' value)

-- `journalReadMatch`: `^[A-Z_][A-Z0-9_]*=.*$`
unfoldable pub journal_read_match : Bytes → Bool
unfolding read_match cut
journal_read_match value = read_match (cut b'=' value)

abbrev pub journal_booleans : List Bytes
journal_booleans =
    codes "--system"
    ∷ codes "--user"
    ∷ codes "--no-pager"
    ∷ codes "--quiet"
    ∷ codes "--reverse"
    ∷ codes "--utc"
    ∷ codes "--all"
    ∷ codes "--full"
    ∷ codes "--catalog"
    ∷ codes "--list-boots"
    ∷ codes "--disk-usage"
    ∷ codes "--header"
    ∷ codes "--list-catalog"
    ∷ codes "--verify"
    ∷ codes "--list-invocations"
    ∷ codes "--list-namespaces"
    ∷ codes "--fields"
    ∷ codes "--help"
    ∷ codes "--version"
    ∷ codes "--no-tail"
    ∷ codes "--merge"
    ∷ codes "--dmesg"
    ∷ codes "--show-cursor"
    ∷ codes "--cursor-header"
    ∷ codes "--truncate-newline"
    ∷ codes "--pager-end"
    ∷ []

abbrev pub journal_values : List Bytes
journal_values =
    codes "--since"
    ∷ codes "--until"
    ∷ codes "--cursor"
    ∷ codes "--after-cursor"
    ∷ codes "--unit"
    ∷ codes "--user-unit"
    ∷ codes "--identifier"
    ∷ codes "--exclude-identifier"
    ∷ codes "--priority"
    ∷ codes "--facility"
    ∷ codes "--grep"
    ∷ codes "--case-sensitive"
    ∷ codes "--output"
    ∷ codes "--output-fields"
    ∷ codes "--directory"
    ∷ codes "--file"
    ∷ codes "--root"
    ∷ codes "--namespace"
    ∷ codes "--field"
    ∷ codes "--machine"
    ∷ []

-- Where the loop of `validateJournalRead` stands: it reads options, the next argument must be a
-- value, the next argument may be a boot, or `--` has ended the options.
pub data JournalStage : Type 0 where
  reads_options wants_value may_take_boot past_options : JournalStage

unfoldable pub long_option : Bytes × Option Bytes → Option JournalStage
unfolding member journal_boot is_empty
long_option (name, none) =
    if member name journal_booleans
    then some reads_options
    else if member name (codes "--boot" ∷ codes "--invocation" ∷ codes "--lines" ∷ [])
    then some may_take_boot
    else if member name journal_values
    then some wants_value
    else none
long_option (name, some value) =
    if member name journal_booleans
    then none
    else if member name (codes "--boot" ∷ codes "--invocation" ∷ codes "--lines" ∷ [])
    then (if journal_boot value then some reads_options else none)
    else if member name journal_values && not (is_empty value)
    then some reads_options
    else none

-- the loop over the letters of a short option
unfoldable pub short_option : Bytes → Option JournalStage
unfolding has_byte journal_boot is_empty
short_option [] = some reads_options
short_option (flag ∷ flags) =
    let rest = short_option flags in
    if has_byte flag (codes "bIn")
    then (if is_empty flags
        then some may_take_boot
        else if journal_boot flags
        then some reads_options
        else none)
    else if has_byte flag (codes "uTtpSUcgoDiFM")
    then some (if is_empty flags then wants_value else reads_options)
    else if has_byte flag (codes "qraxlmkNe")
    then rest
    else none

journal_operand : Bytes → Bool
unfolding journal_read_match has_prefix
journal_operand arg =
    is arg "+" || journal_read_match arg || has_prefix (codes "/") arg && clean_path arg

operand_in : JournalStage → Bytes → Option JournalStage
unfolding journal_operand
operand_in stage arg = if journal_operand arg then some stage else none

-- an argument before `--`
unfoldable pub journal_argument : Bytes → Option JournalStage
unfolding long_option short_option operand_in has_prefix cut
journal_argument arg =
    if is arg "--"
    then some past_options
    else if has_prefix (codes "--") arg
    then long_option (cut b'=' arg)
    else if ltb 1 (length arg) && has_prefix (codes "-") arg
    then short_option (drop 1 arg)
    else operand_in reads_options arg

unfoldable pub journal_after : JournalStage → Bytes → Option JournalStage
unfolding journal_argument operand_in journal_boot is_empty
journal_after reads_options arg = journal_argument arg
journal_after past_options arg = operand_in past_options arg
journal_after wants_value arg = if is_empty arg then none else some reads_options
journal_after may_take_boot arg =
    if journal_boot arg then some reads_options else journal_argument arg

unfoldable pub journal_from : JournalStage → List ShellWord → Bool
unfolding journal_after
journal_from wants_value [] = false
journal_from _ [] = true
journal_from stage (w ∷ ws) = elim (journal_after stage w.value) [
  | none ↦ false
  | some next ↦ journal_from next ws
]

-- `validateJournalRead`
unfoldable pub validate_journal_read : List ShellWord → Bool
unfolding journal_from
validate_journal_read words =
    leb 1 (length words)
    && word_is words 0 "journalctl"
    && journal_from reads_options (drop 1 words)

-- `boundedCallID`
unfoldable pub bounded_call_id : Bytes → Bool
unfolding alphanumeric ascii_digit has_byte
bounded_call_id [] = false
bounded_call_id (c ∷ cs) =
    leb 7 (length cs)
    && leb (length cs) 255
    && alphanumeric c
    && all (λ d. alphanumeric d || has_byte d (codes "._:@+-")) cs
    && any ascii_digit (c ∷ cs)
    && not (all ascii_digit (c ∷ cs))

module_number : Option Bytes → Bool
unfolding decimal
module_number none = false
module_number (some number) = leb (length number) 10 && decimal number false

-- `validateRTPengineRead`
unfoldable pub validate_rtpengine_read : List ShellWord → Bool
unfolding module_number bounded_call_id cut_prefix
validate_rtpengine_read words =
    (length words == 8 || length words == 10)
    && all (λ w. w.quote == 0 && not w.mixed) words
    && word_is words 0 "runagent"
    && word_is words 1 "-m"
    && word_is words 3 "podman"
    && word_is words 4 "exec"
    && word_is words 5 "rtpengine"
    && word_is words 6 "rtpengine-ctl"
    && module_number (cut_prefix (codes "nethvoice-proxy") (value_at words 2))
    && (if length words == 8
        then word_is words 7 "--help"
        else word_is words 7 "list"
          && word_is words 8 "sessions"
          && bounded_call_id (value_at words 9))
