-- ===== src/Policy/Files.antt =====
-- internal/policy/diagnostic_files.go, and `validateAsteriskConfigSlice` and `pathWithin` of
-- internal/policy/diagnostic.go: reads of files whose places are fixed.
use windmill_gate.Base.{
  ℕ, ◌-◌, Bool, false, not, ◌&&◌, ◌||◌, List, [], ◌∷◌, ◌++◌, Option, none, some, ◌==◌, leb, ltb,
  Bytes, String, codes, is, is_empty, length, all, take, drop, member, has_prefix, has_suffix, cut,
  split, ascii_digit,
}
use windmill_gate.Base.Decimals.{parse_uint}
use windmill_gate.Policy.Shell.{ShellWord}
use windmill_gate.Policy.Network.{word_is, value_at, diagnostic_identifier}
use windmill_gate.Policy.Paths.{clean_path}
use windmill_gate.Policy.Mysql.{quoted_at, mixed_at}

-- the parts of the path of a checksum
unfoldable pub module_path : List Bytes → Bool
unfolding member has_suffix
module_path (root ∷ home ∷ user ∷ config ∷ folder ∷ file ∷ []) =
    is_empty root
    && is home "home"
    && diagnostic_identifier user
    && is config ".config"
    && (is folder "bin" || is folder "update-module.d")
    && diagnostic_identifier file
module_path (root ∷ home ∷ user ∷ config ∷ systemd ∷ scope ∷ file ∷ []) =
    is_empty root
    && is home "home"
    && diagnostic_identifier user
    && is config ".config"
    && is systemd "systemd"
    && is scope "user"
    && diagnostic_identifier file
    && has_suffix (codes ".service") file
module_path _ = false

-- `validateModuleChecksums`
unfoldable pub validate_module_checksums : List ShellWord → Bool
unfolding module_path split
validate_module_checksums words =
    leb 2 (length words)
    && leb (length words) 9
    && word_is words 0 "sha256sum"
    && all (λ w. clean_path w.value && module_path (split b'/' w.value)) (drop 1 words)

-- `[1-9][0-9]*`
positive_digits : Bytes → Bool
unfolding ascii_digit
positive_digits [] = false
positive_digits (c ∷ cs) = leb b'1' c && leb c b'9' && all ascii_digit cs

ordered : Option ℕ → Option ℕ → Bool
ordered (some start) (some end) = leb start end
ordered _ _ = false

print_range : Bytes × Option Bytes → Bool
unfolding positive_digits ordered parse_uint has_suffix
print_range (start, none) = false
print_range (start, some rest) =
    has_suffix (codes "p") rest
    && positive_digits start
    && positive_digits (take (length rest - 1) rest)
    && ordered (parse_uint 64 start) (parse_uint 64 (take (length rest - 1) rest))

-- `validateDiagnosticSlice`, with `printRange`: `^([1-9][0-9]*),([1-9][0-9]*)p$`
unfoldable pub validate_diagnostic_slice : List ShellWord → Bool
unfolding print_range cut
validate_diagnostic_slice words =
    length words == 4
    && word_is words 0 "sed"
    && word_is words 1 "-n"
    && not (mixed_at words 2)
    && print_range (cut b',' (value_at words 2))
    && clean_path (value_at words 3)

-- at most a thousand lines, counted from one
bounded_range : Option ℕ → Option ℕ → Bool
bounded_range (some start) (some end) = not (start == 0) && leb start end && ltb (end - start) 1000
bounded_range _ _ = false

config_range : Bytes × Option Bytes → Bool
unfolding bounded_range parse_uint
config_range (start, none) = false
config_range (start, some end) = bounded_range (parse_uint 32 start) (parse_uint 32 end)

-- `validateAsteriskConfigSlice`
unfoldable pub validate_asterisk_config_slice : List ShellWord → Bool
unfolding config_range has_suffix cut
validate_asterisk_config_slice words =
    length words == 4
    && word_is words 0 "sed"
    && word_is words 1 "-n"
    && quoted_at words 2
    && has_suffix (codes "p") (value_at words 2)
    && config_range (cut b',' (take (length (value_at words 2) - 1) (value_at words 2)))
    && clean_path (value_at words 3)
    && word_is words 3 "/etc/asterisk/pjsip.endpoint.conf"

-- `pathWithin`
unfoldable pub path_within : Bytes → String → Bool
unfolding has_prefix
path_within value root = is value root || has_prefix (codes root ++ codes "/") value

-- `diagnosticSourcePath`
unfoldable pub diagnostic_source_path : Bytes → Bool
unfolding path_within member has_suffix
diagnostic_source_path value =
    clean_path value
    && (member value (
          codes "/etc/kamailio/kamailio.cfg"
          ∷ codes "/etc/rtpengine/rtpengine.conf"
          ∷ codes "/etc/asterisk/pjsip.endpoint.conf"
          ∷ codes "/var/lib/asterisk/bin/send_email"
          ∷ codes "/initdb.d/update.php"
          ∷ [])
        || path_within value "/app" && has_suffix (codes ".js") value
        || path_within value "/var/www/html/freepbx/admin/modules"
          && has_suffix (codes ".php") value)

-- `containerGrepPath` of internal/policy/diagnostic.go
unfoldable pub container_grep_path : Bytes → Bool
unfolding path_within diagnostic_source_path has_suffix has_prefix
container_grep_path value =
    clean_path value
    && has_prefix (codes "/") value
    && (path_within value "/var/log"
        || diagnostic_source_path value
        || is value "/etc/asterisk"
        || is value "/app/plugins/dbconn/sequelize_models"
        || path_within value "/app" && has_suffix (codes ".js") value
        || path_within value "/etc/asterisk" && has_suffix (codes ".conf") value)
