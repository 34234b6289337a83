-- ===== src/Policy/Network.antt =====
-- internal/policy/network.go: captures with bounds, and certificate-verifying TLS probes.
use windmill_gate.Base.{
  ℕ, ◌+◌, ◌-◌, Bool, false, not, ◌&&◌, ◌||◌, List, [], ◌∷◌, ◌++◌, Option, none, some, ◌==◌, leb,
  if◌then◌else◌, Bytes, String, codes, is, equal, length, all, get_elem?, has_byte, ascii_letter,
  ascii_digit, cut, split, cut_prefix, has_suffix, take,
}
use windmill_gate.Base.Decimals.{atoi, itoa}
use windmill_gate.Policy.Shell.{ShellWord}

-- `words[i].value == text`, for an index that the length allows
abbrev pub word_is : List ShellWord → ℕ → String → Bool
word_is words i text = elim (get_elem? words i) [ none ↦ false | some w ↦ is w.value text ]

-- `words[i].value`
abbrev pub value_at : List ShellWord → ℕ → Bytes
value_at words i = elim (get_elem? words i) [ none ↦ [] | some w ↦ w.value ]

unfoldable pub bounded_decimal : Bytes → ℕ → Bool
unfolding atoi itoa equal
bounded_decimal value maximum = elim (atoi value) [
  | none ↦ false
  | some n ↦ leb 1 n && leb n maximum && equal (itoa n) value
]

-- `[a-zA-Z0-9_.-]`, the bytes of identifiers in the regular expressions of the package
unfoldable pub identifier_byte : ℕ → Bool
unfolding ascii_letter ascii_digit has_byte
identifier_byte c = ascii_letter c || ascii_digit c || has_byte c (codes "_.-")

unfoldable pub alphanumeric : ℕ → Bool
unfolding ascii_letter ascii_digit
alphanumeric c = ascii_letter c || ascii_digit c

-- `[a-zA-Z0-9][a-zA-Z0-9_.-]{0,limit}`, the whole of the value
unfoldable pub bounded_identifier : ℕ → Bytes → Bool
bounded_identifier limit [] = false
bounded_identifier limit (c ∷ cs) =
    alphanumeric c && all identifier_byte cs && leb (length cs) limit

-- `diagnosticIdentifier` of internal/policy/diagnostic_files.go
abbrev pub diagnostic_identifier : Bytes → Bool
diagnostic_identifier value = bounded_identifier 127 value

-- one label of a host name: 1 to 63 letters, digits and inner hyphens
valid_label : Bytes → Bool
valid_label label =
    leb 1 (length label)
    && leb (length label) 63
    && not (first_is label)
    && not (last_is label)
    && all (λ c. ascii_letter c || ascii_digit c || c == b'-') label
  where
    first_is : Bytes → Bool
    first_is l = elim (get_elem? l 0) [ none ↦ false | some c ↦ c == b'-' ]

    last_is : Bytes → Bool
    last_is l = elim (get_elem? l (length l - 1)) [ none ↦ false | some c ↦ c == b'-' ]

-- `validProbeHost` of a value without a colon, as its one caller gives it. There `net.ParseIP`
-- finds a dotted IPv4 address or nothing, and the labels of an address pass the test of labels.
unfoldable pub valid_probe_host : Bytes → Bool
unfolding valid_label split ascii_letter ascii_digit
valid_probe_host value =
    not (length value == 0) && leb (length value) 253 && all valid_label (split b'.' value)

valid_endpoint : Bytes → Bytes → Bytes × Option Bytes → Bool
valid_endpoint server verified (host, none) = false
valid_endpoint server verified (host, some port) =
    (is port "443" || is port "5061")
    && valid_probe_host host
    && equal server host
    && equal verified host

unfoldable pub validate_tls_probe : List ShellWord → Bool
unfolding valid_endpoint cut bounded_decimal
validate_tls_probe words =
    length words == 14
    && word_is words 0 "timeout"
    && bounded_decimal (value_at words 1) 30
    && word_is words 2 "openssl"
    && word_is words 3 "s_client"
    && word_is words 4 "-connect"
    && word_is words 6 "-servername"
    && word_is words 8 "-verify_hostname"
    && word_is words 10 "-verify_return_error"
    && word_is words 11 "<"
    && word_is words 12 "/dev/null"
    && word_is words 13 "2>&1"
    && valid_endpoint (value_at words 7) (value_at words 9) (cut b':' (value_at words 5))

has_dots : Bytes → Bool
has_dots (c ∷ d ∷ s) = c == b'.' && d == b'.' || has_dots (d ∷ s)
has_dots _ = false

-- `^/tmp/gate-[a-zA-Z0-9][a-zA-Z0-9_.-]{0,95}\.pcap$`, and no two dots together: the name between
-- the ends, read from the right
unfoldable pub valid_capture_path : Bytes → Bool
unfolding has_dots has_suffix cut_prefix
valid_capture_path value = elim (cut_prefix (codes "/tmp/gate-") value) [
  | none ↦ false
  | some name ↦
      has_suffix (codes ".pcap") name
      && bounded_identifier 95 (take (length name - 5) name)
      && not (has_dots value)
]

valid_term : List Bytes → Bool
valid_term (protocol ∷ word ∷ port ∷ []) =
    (is protocol "udp" || is protocol "tcp")
    && is word "port"
    && (is port "5060" || is port "5061" || is port "20030")
valid_term _ = false

-- `strings.Split(filter, " or ")`: from the left, each occurrence of the separator ends a term
split_or : Bytes → Bytes → List Bytes
split_or acc [] = acc ∷ []
split_or acc (c ∷ d ∷ e ∷ f ∷ s) =
    let here = acc ∷ split_or [] s in
    let more = split_or (acc ++ c ∷ []) (d ∷ e ∷ f ∷ s) in
    if c == b' ' && d == b'o' && e == b'r' && f == b' ' then here else more
split_or acc (c ∷ s) = split_or (acc ++ c ∷ []) s

-- the filter of a capture: 1 to 8 terms
valid_filter : Bytes → Bool
valid_filter filter =
    let terms = split_or [] filter in
    leb 1 (length terms) && leb (length terms) 8 && all (λ t. valid_term (split b' ' t)) terms

quoted_at : List ShellWord → ℕ → Bool
quoted_at words i = elim (get_elem? words i) [
  | none ↦ false
  | some w ↦ not (w.quote == 0) && not w.mixed
]

-- `-w path filter`, from the word `i` on, to the end
valid_output : List ShellWord → ℕ → Bool
valid_output words i =
    length words == i + 3
    && word_is words i "-w"
    && valid_capture_path (value_at words (i + 1))
    && quoted_at words (i + 2)
    && valid_filter (value_at words (i + 2))

unfoldable pub validate_packet_capture : List ShellWord → Bool
unfolding valid_output valid_filter split_or quoted_at valid_term
validate_packet_capture words =
    if length words == 8
      && word_is words 0 "tcpdump"
      && word_is words 1 "-nn"
      && word_is words 2 "-tttt"
      && word_is words 3 "-A"
      && word_is words 4 "-r"
      && valid_capture_path (value_at words 5)
      && word_is words 6 "-c"
    then bounded_decimal (value_at words 7) 1000
    else leb 10 (length words)
      && word_is words 0 "timeout"
      && bounded_decimal (value_at words 1) 180
      && word_is words 2 "tcpdump"
      && word_is words 3 "-ni"
      && word_is words 4 "any"
      && word_is words 5 "-s0"
      && word_is words 6 "-U"
      && (if word_is words 7 "-c"
          then bounded_decimal (value_at words 8) 1000 && valid_output words 9
          else valid_output words 7)
