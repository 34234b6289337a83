-- ===== src/Forward/Hosts.antt =====
-- The resolver file and the host names of internal/forward/alias.go: `NormalizeHostname`,
-- `addOwnedLine`, `removeOwnedLine`, `resolverLineHasHostname` and `aliasURL`. The content of the
-- file is an argument: reading it and the atomic replacement are the file system's.
pub mod Lines
pub mod Restores
use windmill_gate.Base.{
  ℕ, Bool, true, false, not, ◌&&◌, ◌||◌, List, [], ◌∷◌, ◌++◌, ◌-◌, Option, none, some, ◌==◌, leb,
  ltb, if◌then◌else◌, Bytes, codes, is, is_empty, equal, length, all, any, take, get_elem?,
  has_byte, has_suffix, ascii_digit, cut, split, map,
}
use windmill_gate.Base.Results.{Result, ok, err}
use windmill_gate.Base.Decimals.{atoi, itoa}
use windmill_gate.Base.Fields.{trim_space, fields, fold_case, lower_byte}

pub data AliasError : Type 0 where
  bad_hostname has_an_entry no_forward no_random already_managed alias_not_found other_target
        file_failed store_failed :
      AliasError

abbrev pub loopback : Bytes
loopback = codes "127.0.0.1"

-- `strings.TrimSuffix(s, ".")`
unfoldable pub trim_dot : Bytes → Bytes
trim_dot [] = []
trim_dot (c ∷ []) = if c == b'.' then [] else c ∷ []
trim_dot (c ∷ d ∷ cs) = c ∷ trim_dot (d ∷ cs)

unfoldable pub label_byte : ℕ → Bool
unfolding ascii_digit
label_byte c = leb b'a' c && leb c b'z' || ascii_digit c || c == b'-'

inner_hyphens : Bytes → Bool
inner_hyphens label =
    not (elim (get_elem? label 0) [ none ↦ false | some c ↦ c == b'-' ])
    && not (elim (get_elem? label (length label - 1)) [ none ↦ false | some c ↦ c == b'-' ])

-- `hostnameLabel`: `^[a-z0-9](?:[a-z0-9-]{0,61}[a-z0-9])?$`
unfoldable pub hostname_label : Bytes → Bool
unfolding label_byte inner_hyphens
hostname_label label =
    leb 1 (length label) && leb (length label) 63 && inner_hyphens label && all label_byte label

decimal_byte : Bytes → Bool
unfolding atoi itoa ascii_digit equal
decimal_byte part = elim (atoi part) [ none ↦ false | some n ↦ leb n 255 && equal (itoa n) part ]

-- `net.ParseIP(hostname) != nil` on a dotted address; an address with a colon is no host name,
-- because no label of it is
unfoldable pub dotted_address : Bytes → Bool
unfolding decimal_byte split
dotted_address s = length (split b'.' s) == 4 && all decimal_byte (split b'.' s)

-- `strings.ToLower`, which a host name only passes when the result is ASCII: besides the letters,
-- U+212A becomes `k` and U+0130 becomes `i`
unfoldable pub lower_case : Bytes → Bytes
unfolding lower_byte
lower_case [] = []
lower_case (c ∷ []) = lower_byte c ∷ []
lower_case (c ∷ d ∷ []) =
    if c == 0xc4 && d == 0xb0 then b'i' ∷ [] else lower_byte c ∷ lower_byte d ∷ []
lower_case (c ∷ d ∷ e ∷ cs) =
    let after_three = lower_case cs in
    let after_two = lower_case (e ∷ cs) in
    let after_one = lower_case (d ∷ e ∷ cs) in
    if c == 0xe2 && d == 0x84 && e == 0xaa
    then b'k' ∷ after_three
    else if c == 0xc4 && d == 0xb0
    then b'i' ∷ after_two
    else lower_byte c ∷ after_one

-- `NormalizeHostname` of the name without its white space and dot, in lower case
unfoldable pub check_hostname : Bytes → Result AliasError Bytes
unfolding is_empty hostname_label dotted_address split
check_hostname name =
    if is_empty name || ltb 253 (length name) || dotted_address name || is name "localhost"
    then err bad_hostname
    else if ltb (length (split b'.' name)) 2 || not (all hostname_label (split b'.' name))
    then err bad_hostname
    else ok name

-- `NormalizeHostname`
unfoldable pub normalize_hostname : Bytes → Result AliasError Bytes
unfolding check_hostname lower_case trim_dot trim_space
normalize_hostname hostname = check_hostname (lower_case (trim_dot (trim_space hostname)))

unfoldable pub names_host : Bytes → List Bytes → Bool
unfolding trim_dot fold_case equal
names_host hostname [] = false
names_host hostname (address ∷ names) =
    any (λ field. equal (fold_case (trim_dot field)) (fold_case hostname)) names

-- `resolverLineHasHostname`, and the body of the loop in `addOwnedLine`
unfoldable pub has_hostname : Bytes → Bytes → Bool
unfolding names_host fields trim_space cut
has_hostname line hostname = names_host hostname (fields (trim_space (cut b'#' line).0))

-- the line ends where it should before another is appended
unfoldable pub terminated : Bytes → Bytes
terminated [] = []
terminated (c ∷ []) = if c == b'\n' then c ∷ [] else c ∷ b'\n' ∷ []
terminated (c ∷ d ∷ cs) = c ∷ terminated (d ∷ cs)

abbrev pub owned_line : Bytes → Bytes → Bytes
owned_line hostname marker =
    (loopback ++ b'\t' ∷ []) ++ (hostname ++ (b' ' ∷ b'#' ∷ b' ' ∷ (marker ++ b'\n' ∷ [])))

-- `addOwnedLine`: the new content of the file
unfoldable pub add_owned_line : Bytes → Bytes → Bytes → Result AliasError Bytes
unfolding has_hostname split terminated
add_owned_line hosts hostname marker =
    if any (λ line. has_hostname line hostname) (split b'\n' hosts)
    then err has_an_entry
    else ok (terminated hosts ++ owned_line hostname marker)

unfoldable pub split_after_from : Bytes → ℕ → Bytes → List Bytes
split_after_from line sep [] = line ∷ []
split_after_from line sep (c ∷ cs) =
    let here = (line ++ c ∷ []) ∷ split_after_from [] sep cs in
    let more = split_after_from (line ++ c ∷ []) sep cs in if c == sep then here else more

-- `strings.SplitAfter s sep` at a separator of one byte
unfoldable pub split_after : ℕ → Bytes → List Bytes
unfolding split_after_from
split_after sep s = split_after_from [] sep s

unfoldable pub comment_of : Option Bytes → Bytes
unfolding trim_space
comment_of none = []
comment_of (some text) = trim_space text

-- whether the line carries the marker and the name
unfoldable pub is_owned : Bytes → Bytes → Bytes → Bool
unfolding comment_of cut equal has_hostname
is_owned hostname marker line =
    equal (comment_of (cut b'#' line).1) marker && has_hostname line hostname

unfoldable pub kept_lines : Bytes → Bytes → List Bytes → Bytes
unfolding is_owned
kept_lines hostname marker [] = []
kept_lines hostname marker (line ∷ lines) =
    let rest = kept_lines hostname marker lines in
    if is_owned hostname marker line then rest else line ++ rest

-- `removeOwnedLine`: the new content of the file
unfoldable pub remove_owned_line : Bytes → Bytes → Bytes → Bytes
unfolding kept_lines split_after
remove_owned_line hosts hostname marker = kept_lines hostname marker (split_after b'\n' hosts)

-- `aliasURL`
unfoldable pub alias_url : Bytes → ℕ → ℕ → Bytes
unfolding itoa
alias_url hostname remote_port local_port =
    (if remote_port == 443 then codes "https" else codes "http")
    ++ codes "://"
    ++ hostname
    ++ b':' ∷ itoa local_port
    ++ codes "/"
