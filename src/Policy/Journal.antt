-- ===== src/Policy/Journal.antt =====
-- internal/policy/journal.go: bounded reads of the journal, scoped to one user, identifier or unit.
use windmill_gate.Base.{
  Bool, true, false, not, ◌&&◌, ◌||◌, List, [], ◌∷◌, Option, none, some, ◌==◌, leb, is_some,
  if◌then◌else◌, Bytes, String, codes, is, is_empty, equal, length, any, all, drop, member,
  has_byte, has_prefix, cut, split, cut_prefix, ascii_digit,
}
use windmill_gate.Base.Maps.{Map, lookup, insert}
use windmill_gate.Base.Decimals.{atoi}
use windmill_gate.Base.Fields.{trim_space}
use windmill_gate.Policy.Shell.{ShellWord}
use windmill_gate.Policy.Network.{word_is, value_at, alphanumeric, bounded_decimal}
use windmill_gate.Policy.Values.{decimal}
use windmill_gate.Policy.Timestamps.{Time, before, utc_timestamp}

-- `journalSelector`: `^[a-zA-Z0-9][a-zA-Z0-9_.@-]{0,127}$`
unfoldable pub journal_selector : Bytes → Bool
unfolding alphanumeric has_byte
journal_selector [] = false
journal_selector (c ∷ cs) =
    alphanumeric c
    && all (λ d. alphanumeric d || has_byte d (codes "_.@-")) cs
    && leb (length cs) 127

-- `boundedJournalMatch`
unfoldable pub bounded_journal_match : Bytes → Bool
unfolding alphanumeric ascii_digit has_byte
bounded_journal_match [] = false
bounded_journal_match (c ∷ cs) =
    leb 2 (length cs)
    && leb (length cs) 255
    && alphanumeric c
    && all (λ d. alphanumeric d || has_byte d (codes "._:@-")) cs
    && (all ascii_digit (c ∷ cs)
        || leb 7 (length cs) && any ascii_digit (c ∷ cs) && not (all ascii_digit (c ∷ cs)))

abbrev pub reviewed_journal_filters : List Bytes
reviewed_journal_filters =
    codes
      "ERROR:|FATAL:|Cannot reload|reload.*fail|Traceback|permission denied|assertion|reconfigur|status is|update-module.d"
    ∷ codes
        "Starting FreePBX|Started FreePBX|Failed to start FreePBX|freepbx.service:.*(timeout|dependency|timed out)"
    ∷ codes
        "mariadb.service:.*(timed out|timeout)|Starting mariadb server|Started mariadb server|Failed to start mariadb server"
    ∷ []

filter_part : Bytes → Bool
unfolding trim_space alphanumeric has_byte
filter_part part =
    not (is_empty (trim_space part)) && all (λ c. alphanumeric c || has_byte c (codes " :-_.")) part

-- the filter `task/module/…`
module_filter : Bytes → Bool
unfolding cut_prefix journal_selector
module_filter value = elim (cut_prefix (codes "task/module/") value) [
  | none ↦ false
  | some name ↦ journal_selector name
]

-- `safeJournalFilter`
unfoldable pub safe_journal_filter : Bytes → Bool
unfolding bounded_journal_match member split filter_part module_filter
safe_journal_filter value =
    bounded_journal_match value
    || member value reviewed_journal_filters
    || leb 1 (length value)
      && leb (length value) 256
      && (module_filter value
          || leb 2 (length (split b'|' value))
            && leb (length (split b'|' value)) 16
            && all filter_part (split b'|' value))

-- `strings.TrimPrefix`
unfoldable pub trim_prefix : Bytes → Bytes → Bytes
unfolding cut_prefix
trim_prefix p s = elim (cut_prefix p s) [ none ↦ s | some rest ↦ rest ]

-- two times in their order
in_order : Option Time → Option Time → Bool
unfolding before
in_order (some since) (some until) = not (before until since)
in_order _ _ = false

line_count : Bytes → Bool
unfolding atoi
line_count value = elim (atoi value) [ none ↦ false | some n ↦ leb 1 n && leb n 1000 ]

-- `validateUIDJournal`
unfoldable pub validate_uid_journal : List ShellWord → Bool
unfolding trim_prefix decimal line_count in_order utc_timestamp bounded_journal_match has_prefix
validate_uid_journal words =
    (length words == 9 || length words == 11)
    && word_is words 0 "journalctl"
    && has_prefix (codes "_UID=") (value_at words 1)
    && has_prefix (codes "--since=") (value_at words 2)
    && has_prefix (codes "--until=") (value_at words 3)
    && word_is words 4 "--no-pager"
    && word_is words 5 "-o"
    && word_is words 6 "short-iso-precise"
    && word_is words 7 "-n"
    && leb (length (trim_prefix (codes "_UID=") (value_at words 1))) 10
    && decimal (trim_prefix (codes "_UID=") (value_at words 1)) false
    && line_count (value_at words 8)
    && in_order (utc_timestamp (trim_prefix (codes "--since=") (value_at words 2)))
        (utc_timestamp (trim_prefix (codes "--until=") (value_at words 3)))
    && (if length words == 11
        then word_is words 9 "-g" && bounded_journal_match (value_at words 10)
        else true)

-- The loop of `validateScopedJournal`: an argument names a flag, a name with its value, a name
-- whose value is the next argument, or nothing that is accepted.
pub data JournalOption : Type 0 where
  refused : JournalOption
  flag : Bytes → JournalOption
  set : Bytes → Bytes → JournalOption
  wants : Bytes → JournalOption

unfoldable pub journal_option : Bytes × Option Bytes → JournalOption
unfolding member
journal_option (name, none) =
    if member name (codes "--no-pager" ∷ codes "--user" ∷ [])
    then flag name
    else if member name (codes "-t" ∷ codes "-n" ∷ codes "-o" ∷ codes "-u" ∷ [])
    then wants name
    else if is name "-g"
    then wants (codes "--grep")
    else refused
journal_option (name, some value) =
    if member name (
        codes "_UID"
        ∷ codes "_SYSTEMD_USER_UNIT"
        ∷ codes "--since"
        ∷ codes "--until"
        ∷ codes "--grep"
        ∷ codes "--case-sensitive"
        ∷ [])
      && not (is_empty value)
    then set name value
    else refused

-- a name is given once
unfoldable pub put : Bytes → Bytes → Map Bytes → Option (Map Bytes)
put name value seen = elim (lookup name seen) [
  | some _ ↦ none
  | none ↦ some (insert name value seen)
]

-- with the name that waits for its value
unfoldable pub scoped_from : Option Bytes → Map Bytes → List ShellWord → Option (Map Bytes)
unfolding journal_option put cut
scoped_from none seen [] = some seen
scoped_from (some name) seen [] = none
scoped_from (some name) seen (w ∷ ws) = elim (put name w.value seen) [
  | none ↦ none
  | some more ↦ scoped_from none more ws
]
scoped_from none seen (w ∷ ws) = elim (journal_option (cut b'=' w.value)) [
  | refused ↦ none
  | wants name ↦ scoped_from (some name) seen ws
  | flag name ↦ elim (put name [] seen) [ none ↦ none | some more ↦ scoped_from none more ws ]
  | set name value ↦ elim (put name value seen) [
    | none ↦ none
    | some more ↦ scoped_from none more ws
  ]
]

-- `values[name]` and `seen[name]`
unfoldable pub value_of : String → Map Bytes → Bytes
value_of name seen = elim (lookup (codes name) seen) [ none ↦ [] | some v ↦ v ]

unfoldable pub has : String → Map Bytes → Bool
has name seen = is_some (lookup (codes name) seen)

one_of : Bool → Bool → Bool → Bool
one_of a b c = a && not b && not c || not a && b && not c || not a && not b && c

-- the period: an end needs a beginning
period : Map Bytes → Bool
unfolding has value_of in_order utc_timestamp
period seen =
    if has "--since" seen
    then (if has "--until" seen
        then in_order (utc_timestamp (value_of "--since" seen))
            (utc_timestamp (value_of "--until" seen))
        else is_some (utc_timestamp (value_of "--since" seen)))
    else not (has "--until" seen)

-- the tests after the loop, in their order
unfoldable pub scoped : Map Bytes → Bool
unfolding one_of period has value_of journal_selector decimal safe_journal_filter equal
scoped seen =
    one_of (not (is_empty (value_of "_UID" seen))) (not (is_empty (value_of "-t" seen)))
      (has "--user" seen)
    && has "--no-pager" seen
    && (not (has "--user" seen) || journal_selector (value_of "-u" seen))
    && (not (has "-u" seen) || has "--user" seen)
    && (is_empty (value_of "_UID" seen)
        || leb (length (value_of "_UID" seen)) 10 && decimal (value_of "_UID" seen) false)
    && (is_empty (value_of "-t" seen) || journal_selector (value_of "-t" seen))
    && (not (has "_SYSTEMD_USER_UNIT" seen)
        || not (is_empty (value_of "_UID" seen))
          && journal_selector (value_of "_SYSTEMD_USER_UNIT" seen))
    && bounded_decimal (value_of "-n" seen) 1000
    && (not (has "-o" seen) || is (value_of "-o" seen) "short-iso-precise")
    && period seen
    && (not (has "--grep" seen) || safe_journal_filter (value_of "--grep" seen))
    && (not (has "--case-sensitive" seen)
        || is (value_of "--case-sensitive" seen) "no" && has "--grep" seen)

-- `validateScopedJournal`
unfoldable pub validate_scoped_journal : List ShellWord → Bool
unfolding scoped_from scoped
validate_scoped_journal words =
    leb 2 (length words)
    && word_is words 0 "journalctl"
    && (elim (scoped_from none [] (drop 1 words)) [ none ↦ false | some seen ↦ scoped seen ])
