-- ===== src/Policy/Validators.antt =====
-- The table `validators` of internal/policy/diagnostic.go, and `validateDiagnosticRead`.
use windmill_gate.Base.{Bool, false, List, [], ◌∷◌, Option, if◌then◌else◌, Bytes, codes, is, ◌||◌}
use windmill_gate.Base.Maps.{Map, lookup}
use windmill_gate.Policy.Shell.{ShellWord}
use windmill_gate.Policy.Network.{validate_packet_capture, validate_tls_probe}
use windmill_gate.Policy.Diagnostic.{validate_ls, validate_cat, validate_tail}
use windmill_gate.Policy.Mysql.{
  validate_mysql_read, validate_mysql_select, validate_mysql_shell_read,
}
use windmill_gate.Policy.Journal.{validate_uid_journal, validate_scoped_journal}
use windmill_gate.Policy.Reads.{validate_journal_read, validate_rtpengine_read}
use windmill_gate.Policy.Containers.{validate_container_ps, validate_container_startup}
use windmill_gate.Policy.Files.{
  validate_module_checksums, validate_diagnostic_slice, validate_asterisk_config_slice,
}
use windmill_gate.Policy.Grep.{
  validate_grep, validate_pgrep, validate_source_grep, validate_container_grep,
}

-- `validateDiagnosticRead`
unfoldable pub validate_diagnostic_read : List ShellWord → Bool
validate_diagnostic_read [] = false
validate_diagnostic_read (w ∷ arguments) =
    if is w.value "ls"
    then validate_ls arguments
    else if is w.value "cat"
    then validate_cat arguments
    else if is w.value "tail"
    then validate_tail arguments
    else if is w.value "grep" || is w.value "egrep"
    then validate_grep arguments
    else if is w.value "pgrep"
    then validate_pgrep arguments
    else false

-- `validators`
unfoldable pub validators : Map (List ShellWord → Bool)
validators =
    (codes "asterisk_config_slice", validate_asterisk_config_slice)
    ∷ (codes "container_grep", validate_container_grep)
    ∷ (codes "diagnostic_read", validate_diagnostic_read)
    ∷ (codes "diagnostic_slice", validate_diagnostic_slice)
    ∷ (codes "source_grep", validate_source_grep)
    ∷ (codes "module_checksums", validate_module_checksums)
    ∷ (codes "packet_capture", validate_packet_capture)
    ∷ (codes "tls_probe", validate_tls_probe)
    ∷ (codes "mysql_read", validate_mysql_read)
    ∷ (codes "mysql_select", validate_mysql_select)
    ∷ (codes "mysql_shell_read", validate_mysql_shell_read)
    ∷ (codes "rtpengine_read", validate_rtpengine_read)
    ∷ (codes "uid_journal", validate_uid_journal)
    ∷ (codes "scoped_journal", validate_scoped_journal)
    ∷ (codes "journal_read", validate_journal_read)
    ∷ (codes "container_startup", validate_container_startup)
    ∷ (codes "container_ps", validate_container_ps)
    ∷ []

-- `validators[name]`
unfoldable pub validator : Bytes → Option (List ShellWord → Bool)
unfolding lookup validators
validator name = lookup name validators
