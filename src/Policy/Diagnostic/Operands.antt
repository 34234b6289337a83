-- ===== src/Policy/Diagnostic/Operands.antt =====
-- What the arguments of an accepted read are, in internal/policy/diagnostic.go.
use windmill_gate.Base.{
  Bool, true, false, ◌&&◌, ◌||◌, List, [], ◌∷◌, Option, none, some, ◌≡◌, refl, ap, arith, Bytes,
  codes, cut, has_prefix, is, length, ltb, bind-eq-some, Bool-cases, Option-cases, equal_iff,
  member, inl, inr, subst,
}
use windmill_gate.Policy.Values.{decimal}
use windmill_gate.Policy.Shell.{ShellWord}
use windmill_gate.Policy.Paths.{clean_literal}
use windmill_gate.Policy.Diagnostic.{
  Options, read_argument, Stage, wants_value, reads_options, past_options, stage_after, parse_from,
  parse_read_options, all_clean, file_operands, accepted_by, validate_cat, validate_ls,
  validate_tail, tail_from, tail_argument, tail_flags, tail_values, tail_count, counted,
  value_behind, cat_options, ls_options,
}
use windmill_gate.Policy.Diagnostic.Arguments.{
  IsOption, IsTailOption, Accounts, IsReadAs, read_argument-IsReadAs, Reading-cases,
  option-Accounts, last_file, count_next, file, tail_flag, ends_options, count_attached, value,
  operands_end, count_behind, options_end,
}

parse_from-Accounts :
    (o : Options) (stage : Stage) (ws ops : List ShellWord)
    → parse_from o stage ws ≡ some ops
    → all_clean ops ≡ true
    → Accounts (IsOption o) clean_literal stage ws
unfolding parse_from all_clean IsReadAs
parse_from-Accounts o wants_value [] ops h k = absurd (cc)
parse_from-Accounts o wants_value (w ∷ ws) ops h k = elim (Bool-cases (clean_literal w.value)) [
  | inr n ↦ absurd (cc (rw n at h))
  | inl y ↦ value y (parse_from-Accounts o reads_options ws ops (rw y at h) k)
]
parse_from-Accounts o past_options [] ops h k = operands_end
parse_from-Accounts o past_options (w ∷ ws) ops h k =
    let (rest, r, e) = bind-eq-some (parse_from o past_options ws) _ h in
    last_file (ground arith) (parse_from-Accounts o past_options ws rest r (ground arith))
parse_from-Accounts o reads_options [] ops h k = options_end
parse_from-Accounts o reads_options (w ∷ ws) ops h k =
    let read = read_argument-IsReadAs o w.value in
    elim (Reading-cases (read_argument o w.value)) [
      | inl e ↦
          let (rest, r, m) =
            bind-eq-some (parse_from o reads_options ws) _ (rw (e, parse_from) at h) in
          file (rw e at read) (ground arith)
            (parse_from-Accounts o reads_options ws rest r (ground arith))
      | inr (inl e) ↦
          ends_options (rw e at read)
            (parse_from-Accounts o past_options ws ops (rw (e, parse_from) at h) k)
      | inr (inr (inl e)) ↦ absurd (cc (rw (e, parse_from) at h))
      | inr (inr (inr (b, e))) ↦
          option-Accounts (IsOption o) clean_literal b (rw e at read)
            (parse_from-Accounts o (stage_after b) ws ops (rw (e, parse_from) at h) k)
    ]

file_operands-clean : (ops : List ShellWord) → file_operands ops ≡ true → all_clean ops ≡ true
unfolding file_operands
file_operands-clean [] h = cc
file_operands-clean (w ∷ ws) h = h

-- The arguments of an accepted `cat` are options of its table, none of which has a value, and
-- clean paths, in which no shell, home or parent directory is named, that are no options; and
-- behind `--`, which ends the options, only clean paths.
pub validate_cat-Accounts :
    (arguments : List ShellWord)
    → validate_cat arguments ≡ true
    → Accounts (IsOption cat_options) clean_literal reads_options arguments
unfolding validate_cat parse_read_options accepted_by file_operands
validate_cat-Accounts arguments h =
    elim (Option-cases (parse_from cat_options reads_options arguments)) [
      | inl n ↦ absurd (cc (rw n at h))
      | inr (ops, e) ↦
          parse_from-Accounts cat_options reads_options arguments ops e
            (file_operands-clean ops (rw e at h))
    ]

-- The arguments of an accepted `ls` are options of its tables, each with the clean literal behind
-- it that is its value where it needs one and has none attached, and clean paths that are no
-- options; and behind `--`, which ends the options, only clean paths.
pub validate_ls-Accounts :
    (arguments : List ShellWord)
    → validate_ls arguments ≡ true
    → Accounts (IsOption ls_options) clean_literal reads_options arguments
unfolding validate_ls parse_read_options accepted_by
validate_ls-Accounts arguments h =
    elim (Option-cases (parse_from ls_options reads_options arguments)) [
      | inl n ↦ absurd (cc (rw n at h))
      | inr (ops, e) ↦ parse_from-Accounts ls_options reads_options arguments ops e (rw e at h)
    ]

counted-IsReadAs :
    (v : Bytes) (b : Bool) → (b ≡ true → IsTailOption false v) → IsReadAs IsTailOption (counted b) v
unfolding counted IsReadAs
counted-IsReadAs v true k = k refl
counted-IsReadAs v false k = tt

tail_count-empty : tail_count [] ≡ false
unfolding tail_count has_prefix decimal
tail_count-empty = refl

behind_none : (p : Bytes × Option Bytes) → p.1 ≡ none → value_behind p ≡ []
unfolding value_behind
behind_none (name, none) h = refl
behind_none (name, some v) h = absurd (cc)

behind_some : (p : Bytes × Option Bytes) (count : Bytes) → p.1 ≡ some count → value_behind p ≡ count
unfolding value_behind
behind_some (name, none) count h = absurd (cc)
behind_some (name, some v) count h = cc

count_behind-IsReadAs :
    (v : Bytes)
    → (has_prefix (codes "--lines=") v || has_prefix (codes "--bytes=") v) ≡ true
    → tail_count (value_behind (cut b'=' v)) ≡ true
    → IsTailOption false v
count_behind-IsReadAs v long h = elim (Option-cases (cut b'=' v).1) [
  | inl bare ↦ absurd (cc (tail_count-empty, ap tail_count (behind_none (cut b'=' v) bare), h))
  | inr (count, given) ↦
      count_behind count long given
        (subst (λ s. tail_count s ≡ true) (behind_some (cut b'=' v) count given) h)
]

known_flag :
    (v : Bytes)
    → member v tail_flags ≡ true
    → (is v "-q"
        || is v "--quiet"
        || is v "--silent"
        || is v "-v"
        || is v "--verbose"
        || is v "-z"
        || is v "--zero-terminated")
      ≡ true
unfolding tail_flags member
known_flag v h = ground arith

known_count :
    (v : Bytes)
    → member v tail_values ≡ true
    → (is v "-n" || is v "--lines" || is v "-c" || is v "--bytes") ≡ true
unfolding tail_values member
known_count v h = ground arith

tail_argument-IsReadAs : (v : Bytes) → IsReadAs IsTailOption (tail_argument v) v
unfolding tail_argument IsReadAs
tail_argument-IsReadAs v = elim (Bool-cases (is v "--")) [
  | inl ends ↦ rw (ends, tail_argument) ((equal_iff v (codes "--")).0 ends)
  | inr goes ↦ elim (Bool-cases (member v tail_flags)) [
    | inl known ↦ rw (goes, known, tail_argument) (tail_flag (known_flag v known))
    | inr unknown ↦ elim (Bool-cases (member v tail_values)) [
      | inl takes ↦ rw (goes, unknown, takes, tail_argument) (count_next (known_count v takes))
      | inr bare ↦
          elim (Bool-cases (has_prefix (codes "--lines=") v || has_prefix (codes "--bytes=") v)) [
            | inl long ↦
                rw (goes, unknown, bare, long, tail_argument)
                  (counted-IsReadAs v _ (count_behind-IsReadAs v long))
            | inr short ↦
                elim (Bool-cases
                  (ltb 2 (length v) && (has_prefix (codes "-n") v || has_prefix (codes "-c") v))) [
                    | inl attached_count ↦
                        rw (goes, unknown, bare, short, attached_count, tail_argument)
                          (counted-IsReadAs v _ (λ h. count_attached (ground arith) h))
                    | inr none_attached ↦ elim (Bool-cases (has_prefix (codes "-") v)) [
                      | inl dash ↦
                          rw (goes, unknown, bare, short, none_attached, dash, tail_argument) tt
                      | inr plain ↦
                          rw (goes, unknown, bare, short, none_attached, plain, tail_argument)
                            (ground arith)
                    ]
                  ]
          ]
    ]
  ]
]

tail_from-Accounts :
    (stage : Stage) (ws ops : List ShellWord)
    → tail_from stage ws ≡ some ops
    → all_clean ops ≡ true
    → Accounts IsTailOption tail_count stage ws
unfolding tail_from all_clean IsReadAs
tail_from-Accounts wants_value [] ops h k = absurd (cc)
tail_from-Accounts wants_value (w ∷ ws) ops h k = elim (Bool-cases (tail_count w.value)) [
  | inr n ↦ absurd (cc (rw n at h))
  | inl y ↦ value y (tail_from-Accounts reads_options ws ops (rw y at h) k)
]
tail_from-Accounts past_options [] ops h k = operands_end
tail_from-Accounts past_options (w ∷ ws) ops h k =
    let (rest, r, e) = bind-eq-some (tail_from past_options ws) _ h in
    last_file (ground arith) (tail_from-Accounts past_options ws rest r (ground arith))
tail_from-Accounts reads_options [] ops h k = options_end
tail_from-Accounts reads_options (w ∷ ws) ops h k =
    let read = tail_argument-IsReadAs w.value in
    elim (Reading-cases (tail_argument w.value)) [
      | inl e ↦
          let (rest, r, m) = bind-eq-some (tail_from reads_options ws) _ (rw (e, tail_from) at h) in
          file (rw e at read) (ground arith)
            (tail_from-Accounts reads_options ws rest r (ground arith))
      | inr (inl e) ↦
          ends_options (rw e at read)
            (tail_from-Accounts past_options ws ops (rw (e, tail_from) at h) k)
      | inr (inr (inl e)) ↦ absurd (cc (rw (e, tail_from) at h))
      | inr (inr (inr (b, e))) ↦
          option-Accounts IsTailOption tail_count b (rw e at read)
            (tail_from-Accounts (stage_after b) ws ops (rw (e, tail_from) at h) k)
    ]

-- The arguments of an accepted `tail` are its flags, its count options with a decimal count, signed
-- or not, attached or as the next argument, and clean paths that are no options; and behind `--`,
-- which ends the options, only clean paths.
pub validate_tail-Accounts :
    (arguments : List ShellWord)
    → validate_tail arguments ≡ true
    → Accounts IsTailOption tail_count reads_options arguments
unfolding validate_tail accepted_by file_operands
validate_tail-Accounts arguments h = elim (Option-cases (tail_from reads_options arguments)) [
  | inl n ↦ absurd (cc (rw n at h))
  | inr (ops, e) ↦
      tail_from-Accounts reads_options arguments ops e (file_operands-clean ops (rw e at h))
]
