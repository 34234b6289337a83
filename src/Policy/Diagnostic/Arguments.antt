-- ===== src/Policy/Diagnostic/Arguments.antt =====
-- What one argument of a read is in internal/policy/diagnostic.go, and which arguments are accounted for.
use windmill_gate.Base.{
  ℕ, Bool, true, false, not, ◌&&◌, ◌||◌, List, [], ◌∷◌, Option, none, some, is_some, ◌≡◌, refl, sym,
  arith, Bytes, codes, cut, drop, has_byte, has_prefix, is, is_empty, Bool-cases, Option-cases,
  equal, equal_iff, member, ◌⊎◌, inl, inr, subst,
}
use windmill_gate.Policy.Shell.{ShellWord}
use windmill_gate.Policy.Paths.{clean_path}
use windmill_gate.Policy.Diagnostic.{
  Options, Reading, an_operand, the_end, refused, an_option, read_argument, long_option,
  short_option, option_of, attached, Stage, wants_value, reads_options, past_options, stage_after,
  tail_count,
}

-- Letters behind one dash: flags, and at most one letter with a value, which is the rest of the
-- argument, or the next argument where there is no rest.
pub data IsCluster (o : Options) : Bool → Bytes → Type 0 where
  no_more : IsCluster o false []
  flag :
      {wants : Bool} {f : ℕ} {fs : Bytes}
      → has_byte f o.boolean_short ≡ true
      → IsCluster o wants fs
      → IsCluster o wants (f ∷ fs)
  valued :
      {f : ℕ} (fs : Bytes) → has_byte f o.value_short ≡ true → IsCluster o (is_empty fs) (f ∷ fs)

-- An option of the tables, and whether the next argument is its value.
pub data IsOption (o : Options) : Bool → Bytes → Type 0 where
  long_flag :
      {v : Bytes}
      → member (cut b'=' v).0 o.boolean_long ≡ true
      → (cut b'=' v).1 ≡ none
      → IsOption o false v
  long_value :
      {v : Bytes}
      → member (cut b'=' v).0 o.value_long ≡ true
      → IsOption o (not (is_some (cut b'=' v).1)) v
  letters :
      {wants : Bool} (d : ℕ) (fs : Bytes)
      → IsCluster o wants (d ∷ fs)
      → IsOption o wants (b'-' ∷ d ∷ fs)

-- An option of tail, and whether the next argument is its count.
pub data IsTailOption : Bool → Bytes → Type 0 where
  tail_flag :
      {v : Bytes}
      → (is v "-q"
          || is v "--quiet"
          || is v "--silent"
          || is v "-v"
          || is v "--verbose"
          || is v "-z"
          || is v "--zero-terminated")
        ≡ true
      → IsTailOption false v
  count_next :
      {v : Bytes}
      → (is v "-n" || is v "--lines" || is v "-c" || is v "--bytes") ≡ true
      → IsTailOption true v
  count_behind :
      {v : Bytes} (count : Bytes)
      → (has_prefix (codes "--lines=") v || has_prefix (codes "--bytes=") v) ≡ true
      → (cut b'=' v).1 ≡ some count
      → tail_count count ≡ true
      → IsTailOption false v
  count_attached :
      {v : Bytes}
      → (has_prefix (codes "-n") v || has_prefix (codes "-c") v) ≡ true
      → tail_count (drop 2 v) ≡ true
      → IsTailOption false v

-- Arguments read from a stage on. Before `--` they are options of the program, each followed by its
-- value where it has none attached, and clean paths that are no options; behind `--`, which ends
-- the options, clean paths only.
pub data Accounts (option : Bool → Bytes → Type 0) (is_value : Bytes → Bool)
    : Stage → List ShellWord → Type 0 where
  options_end : Accounts option is_value reads_options []
  operands_end : Accounts option is_value past_options []
  value :
      {w : ShellWord} {ws : List ShellWord}
      → is_value w.value ≡ true
      → Accounts option is_value reads_options ws
      → Accounts option is_value wants_value (w ∷ ws)
  flag_only :
      {w : ShellWord} {ws : List ShellWord}
      → option false w.value
      → Accounts option is_value reads_options ws
      → Accounts option is_value reads_options (w ∷ ws)
  value_next :
      {w : ShellWord} {ws : List ShellWord}
      → option true w.value
      → Accounts option is_value wants_value ws
      → Accounts option is_value reads_options (w ∷ ws)
  ends_options :
      {w : ShellWord} {ws : List ShellWord}
      → w.value ≡ codes "--"
      → Accounts option is_value past_options ws
      → Accounts option is_value reads_options (w ∷ ws)
  file :
      {w : ShellWord} {ws : List ShellWord}
      → (has_prefix (codes "-") w.value && not (is w.value "-")) ≡ false
      → clean_path w.value ≡ true
      → Accounts option is_value reads_options ws
      → Accounts option is_value reads_options (w ∷ ws)
  last_file :
      {w : ShellWord} {ws : List ShellWord}
      → clean_path w.value ≡ true
      → Accounts option is_value past_options ws
      → Accounts option is_value past_options (w ∷ ws)

-- What the reading of an argument says of it.
unfoldable pub IsReadAs : (Bool → Bytes → Type 0) → Reading → Bytes → Type 0
IsReadAs option an_operand v = (has_prefix (codes "-") v && not (is v "-")) ≡ false
IsReadAs option the_end v = v ≡ codes "--"
IsReadAs option refused v = Unit {0}
IsReadAs option (an_option wants) v = option wants v

pub short_option-IsCluster :
    (o : Options) (wants : Bool) (fs : Bytes)
    → short_option o fs ≡ some wants
    → IsCluster o wants fs
unfolding short_option
short_option-IsCluster o wants [] h = subst (λ b. IsCluster o b []) (ground arith) no_more
short_option-IsCluster o wants (f ∷ fs) h = elim (Bool-cases (has_byte f o.value_short)) [
  | inl takes ↦ subst (λ b. IsCluster o b (f ∷ fs)) (ground arith) (valued fs takes)
  | inr bare ↦ flag (ground arith) (short_option-IsCluster o wants fs (ground arith))
]

pub long_option-IsOption :
    (o : Options) (wants : Bool) (v : Bytes)
    → long_option o (cut b'=' v) ≡ some wants
    → IsOption o wants v
unfolding long_option attached
long_option-IsOption o wants v h = elim (Option-cases (cut b'=' v).1) [
  | inl bare ↦ elim (Bool-cases (member (cut b'=' v).0 o.boolean_long)) [
    | inl known ↦ subst (λ b. IsOption o b v) (ground arith) (long_flag known bare)
    | inr other ↦ subst (λ b. IsOption o b v) (ground arith) (long_value (ground arith))
  ]
  | inr (given_value, given) ↦
      subst (λ b. IsOption o b v) (ground arith) (long_value (ground arith))
]

pub option_of-IsReadAs :
    (option : Bool → Bytes → Type 0) (v : Bytes) (r : Option Bool)
    → ((wants : Bool) → r ≡ some wants → option wants v)
    → IsReadAs option (option_of r) v
unfolding option_of IsReadAs
option_of-IsReadAs option v none k = tt
option_of-IsReadAs option v (some wants) k = k wants refl

pub dash_first :
    (c d : ℕ) (rest : Bytes)
    → has_prefix (codes "-") (c ∷ d ∷ rest) ≡ true
    → c ∷ d ∷ rest ≡ b'-' ∷ d ∷ rest
unfolding has_prefix
dash_first c d rest h = ground arith

pub read_argument-IsReadAs : (o : Options) (v : Bytes) → IsReadAs (IsOption o) (read_argument o v) v
unfolding read_argument IsReadAs has_prefix equal
read_argument-IsReadAs o [] = refl
read_argument-IsReadAs o (c ∷ []) = ground arith
read_argument-IsReadAs o (c ∷ d ∷ rest) =
    let v : Bytes = c ∷ d ∷ rest in
    elim (Bool-cases (is v "--")) [
      | inl ends ↦ rw (ends, read_argument) ((equal_iff v (codes "--")).0 ends)
      | inr goes ↦ elim (Bool-cases (has_prefix (codes "--") v)) [
        | inl long ↦
            rw (goes, long, read_argument)
              (option_of-IsReadAs (IsOption o) v (long_option o (cut b'=' v))
                λ wants h. long_option-IsOption o wants v h)
        | inr short ↦ elim (Bool-cases (has_prefix (codes "-") v)) [
          | inl dash ↦
              rw (goes, short, dash, read_argument)
                (option_of-IsReadAs (IsOption o) v (short_option o (d ∷ rest)) λ wants h.
                  subst (λ s. IsOption o wants s) (sym (dash_first c d rest dash))
                    (letters d rest (short_option-IsCluster o wants (d ∷ rest) h)))
          | inr plain ↦ rw (goes, short, plain, read_argument) (ground arith)
        ]
      ]
    ]

pub Reading-cases :
    (x : Reading)
    → (x ≡ an_operand) ⊎ (x ≡ the_end) ⊎ (x ≡ refused) ⊎ ((b : Bool) × (x ≡ an_option b))
Reading-cases an_operand = inl refl
Reading-cases the_end = inr (inl refl)
Reading-cases refused = inr (inr (inl refl))
Reading-cases (an_option b) = inr (inr (inr (b, refl)))

module _ (option : Bool → Bytes → Type 0) (is_value : Bytes → Bool) where
  pub option-Accounts :
      (wants : Bool) {w : ShellWord} {ws : List ShellWord}
      → option wants w.value
      → Accounts option is_value (stage_after wants) ws
      → Accounts option is_value reads_options (w ∷ ws)
  unfolding stage_after
  option-Accounts true h k = value_next h k
  option-Accounts false h k = flag_only h k
