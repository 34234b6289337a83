-- ===== src/Policy/Containers.antt =====
-- internal/policy/read_defaults.go: the lists of containers and how they start.
use windmill_gate.Base.{
  ℕ, zero, suc, Bool, true, false, ◌&&◌, List, [], ◌∷◌, Option, none, some, ◌==◌, leb,
  if◌then◌else◌, Bytes, codes, length, drop, member, cut, cut_prefix, ◌>>=◌,
}
use windmill_gate.Policy.Shell.{ShellWord}
use windmill_gate.Policy.Network.{word_is, diagnostic_identifier}
use windmill_gate.Policy.Mysql.{quoted_at}

-- `validateContainerPS`
unfoldable pub validate_container_ps : List ShellWord → Bool
validate_container_ps words =
    length words == 5
    && word_is words 0 "podman"
    && word_is words 1 "ps"
    && word_is words 2 "-a"
    && word_is words 3 "--format"
    && quoted_at words 4

-- the first of the texts that begins the value, cut off
first_of : List Bytes → Bytes → Option Bytes
unfolding cut_prefix
first_of [] s = none
first_of (t ∷ ts) s = elim (cut_prefix t s) [ some rest ↦ some rest | none ↦ first_of ts s ]

-- `\{\{(?:json )?\.(?:Config\.(?:Entrypoint|Cmd)|Args|Path)\}\}`
projected : Bytes → Option Bytes
unfolding first_of cut_prefix
projected s = do
  s ← first_of (codes "{{json ." ∷ codes "{{." ∷ []) s
  s ← first_of (codes "Config.Entrypoint" ∷ codes "Config.Cmd" ∷ codes "Args" ∷ codes "Path" ∷ []) s
  cut_prefix (codes "}}") s

projections : ℕ → Bytes → Bool
unfolding projected
projections zero s = false
projections (suc left) s = elim (projected s) [
  | none ↦ false
  | some rest ↦ elim rest [ [] ↦ true | c ∷ cs ↦ c == b' ' && projections left cs ]
]

-- `startupProjection`: one to four projections with a space between them
unfoldable pub startup_projection : Bytes → Bool
unfolding projections
startup_projection s = projections 4 s

-- what the loop of `validateContainerStartup` counts: formats and containers
record Counts : Type 0 where
  formats : ℕ
  containers : ℕ

format_flag : Bytes → Bool
unfolding member
format_flag name = member name (codes "--format" ∷ codes "-f" ∷ [])

counted : Bool → Counts → Option Counts
counted true n = some (record n { formats = suc n.formats })
counted false n = none

-- with whether the next argument is a format
startup_from : Bool → Counts → List ShellWord → Option Counts
unfolding format_flag counted startup_projection cut
startup_from false n [] = some n
startup_from true n [] = none
startup_from true n (w ∷ ws) = elim (counted (startup_projection w.value) n) [
  | none ↦ none
  | some more ↦ startup_from false more ws
]
startup_from false n (w ∷ ws) =
    let (name, value) = cut b'=' w.value in
    elim (format_flag name) [
      | true ↦ elim value [
        | none ↦ startup_from true n ws
        | some v ↦ elim (counted (startup_projection v) n) [
          | none ↦ none
          | some more ↦ startup_from false more ws
        ]
      ]
      | false ↦ elim (diagnostic_identifier w.value) [
        | true ↦ startup_from false (record n { containers = suc n.containers }) ws
        | false ↦ none
      ]
    ]

enough : Option Counts → Bool
enough none = false
enough (some n) = n.formats == 1 && leb 1 n.containers && leb n.containers 8

inspected : List ShellWord → Bool
unfolding startup_from enough
inspected words =
    word_is words 0 "inspect"
    && enough (startup_from false (record { formats = 0; containers = 0 }) (drop 1 words))

-- `validateContainerStartup`
unfoldable pub validate_container_startup : List ShellWord → Bool
unfolding inspected
validate_container_startup words =
    leb 4 (length words)
    && word_is words 0 "podman"
    && (if word_is words 1 "container" then inspected (drop 2 words) else inspected (drop 1 words))
