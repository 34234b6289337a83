-- ===== src/Approval/Similar.antt =====
-- `SimilarPattern` of internal/approval/approval.go.
use windmill_gate.Base.{
  ℕ, Bool, true, false, not, ◌&&◌, ◌||◌, List, [], ◌∷◌, ◌++◌, if◌then◌else◌, ◌==◌, Bytes, codes,
  equal, has_byte, any, all, is_empty, ascii_digit, join, map, zero, suc, ◌-◌, length, take, drop,
}
use windmill_gate.Base.Unicode.{decode_rune, is_space}
use windmill_gate.Policy.Shell.{has_unsafe_composition}

abbrev special_bytes : Bytes
special_bytes = codes "\\.+*?()|[]{}^$"

-- `regexp.QuoteMeta`
unfoldable pub quote_meta : Bytes → Bytes
quote_meta [] = []
quote_meta (c ∷ cs) =
    let rest = quote_meta cs in if has_byte c special_bytes then b'\\' ∷ c ∷ rest else c ∷ rest

flush : Bytes → List Bytes → List Bytes
flush [] fs = fs
flush (c ∷ cs) fs = (c ∷ cs) ∷ fs

-- a rune a round, so that the length is enough fuel
fields_from : ℕ → Bytes → Bytes → List Bytes
unfolding flush
fields_from fuel word [] = flush word []
fields_from zero word (c ∷ cs) = flush word []
fields_from (suc fuel) word (c ∷ cs) =
    let r = decode_rune c cs in
    let rest = drop (r.size - 1) cs in
    let ended = flush word (fields_from fuel [] rest) in
    let more = fields_from fuel (word ++ c ∷ take (r.size - 1) cs) rest in
    if is_space r.value then ended else more

-- `strings.Fields`
unfoldable pub fields : Bytes → List Bytes
unfolding fields_from
fields s = fields_from (length s) [] s

-- `allDigits`
unfoldable pub all_digits : Bytes → Bool
unfolding ascii_digit is_empty
all_digits value = not (is_empty value) && all ascii_digit value

part : Bytes → Bytes
part field = if all_digits field then codes "[0-9]+" else quote_meta field

parts : List Bytes → List Bytes
unfolding part
parts [] = []
parts (f ∷ fs) = quote_meta f ∷ map part fs

anchored : Bytes → Bytes
anchored body = b'^' ∷ (body ++ b'$' ∷ [])

no_fields : List Bytes → Bool
no_fields [] = true
no_fields (f ∷ fs) = false

unfoldable pub similar_pattern : Bytes → Bytes
unfolding anchored parts no_fields join equal
similar_pattern payload =
    if has_unsafe_composition payload || any (λ c. c == b'\'' || c == b'"') payload
    then anchored (quote_meta payload)
    else if no_fields (fields payload) || not (equal (join b' ' (fields payload)) payload)
    then anchored (quote_meta payload)
    else anchored (join b' ' (parts (fields payload)))
