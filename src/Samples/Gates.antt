-- ===== src/Samples/Gates.antt =====
-- internal/gate/service.go on a session, a target and an engine that allows `uptime`.
use windmill_gate.Gate.Endings.{execute-denied, execute-allowed}
use windmill_gate.Policy.Engine.{allow, deny}
use windmill_gate.Command.{denied, succeeded}
use windmill_gate.Policy.Views.{
  parse_error, podman_exec_view, runagent_view, tokenize_tls_redirect, views,
}
use windmill_gate.Policy.Shell.{
  control, escape_step, finish, finish_word, quote_step, scan, shell_expansion_at, step_in,
  tokenize_shell, word_of, word_step, wrapped,
}
use windmill_gate.Policy.Network.{
  alphanumeric, bounded_decimal, bounded_identifier, identifier_byte, valid_probe_host,
  validate_tls_probe,
}
use windmill_gate.Base.Decimals.{atoi, itoa}
use windmill_gate.Base.Unicode.{is_control, valid_string, decode_rune, is_space, runes, runes_from}
use windmill_gate.Base.{
  List, is_empty, true, false, [], ◌∷◌, some, none, ◌≡◌, refl, Bytes, codes, equal, is_empty,
  ascii_digit, ascii_letter, cut, cut_prefix, has_byte, has_prefix, has_suffix, split,
}
use windmill_gate.Base.Int.{pos}
use windmill_gate.Base.Maps.{lookup, insert, delete}
use windmill_gate.Base.Results.{ok}
use windmill_gate.Command.{queued, new, allowed_transition, transition, verify_approval}
use windmill_gate.Target.{Binding, Bindings, resolve}
use windmill_gate.Policy.Engine.{
  verdict, Verdict, evaluate, evaluate_views, allow_for_target, compile_rule, first_allowed,
  first_denied, first_match, first_validated, temporary_of,
}
use windmill_gate.Approval.{no_requests}
use windmill_gate.Gate.World.{
  Event, Entry, Session, Approvals, Environment, World, call, gets, lift, modify, pure, ◌>>=◌,
  answered, attempt, continue, deferred, execute_on, log, move, moved, raise, try_move,
}
use windmill_gate.Gate.Commands.{
  execute, started, authorize_capability, announce, create, need_backend, submit_command, ask_human,
  authorize, exit, fail_execution, finish_denied, finish_execution, follow, give_up, notify,
  proceed, report_failure, run, show, start, update,
}
use windmill_gate.Gate.Lawful.{IsLawful, IsPermitted, executes_any}
use windmill_gate.Gate.Safety.{
  execute-IsLawful, IsGranted, authorize_capability-IsGranted, execute-IsPermitted,
}
use windmill_gate.Gate.Approving.{broker_approvals}
use windmill_gate.Samples.Policies.{exact, engine, uptime}

abbrev pub digest : Bytes → Bytes
digest s = b'#' ∷ s

abbrev pub target_id : Bytes
target_id = codes "tgt_1"

abbrev bound : Binding
bound = record {
  public_target = record {
    id = target_id;
    display_name = codes "pbx";
    backend = codes "windmill";
    created_at = 5;
  };
  backend_id = codes "s-1";
}

abbrev pub bindings : Bindings
bindings = (target_id, bound) ∷ []

-- every call succeeds, and a command exits with 0
abbrev pub environment : Environment
environment = record {
  digest = digest;
  new_id = some (codes "cmd_1");
  clock = λ trace. 10;
  reply = λ trace event. true;
  exec = λ trace backend_id payload. record {
    exit_code = pos 0;
    failed = false;
    audit_failed = false;
    cancelled = false;
  };
  has_backend = λ name. true;
}

abbrev pub approvals : Approvals digest
approvals = broker_approvals digest (λ trace. []) (λ trace. false) no_requests

abbrev pub session : Session
session = record { id = codes "as_1"; target_id = target_id }

abbrev pub world : World exact
world = record {
  trace = [];
  engine = engine;
  targets = bindings;
  running = [];
  current = record {
    id = [];
    agent_session_id = [];
    target_id = [];
    payload = [];
    hash = [];
    state = queued;
    created_at = 0;
    started_at = none;
    finished_at = none;
    exit_code = none;
  };
}

abbrev expected : Verdict
expected = evaluate exact engine target_id uptime

execute-IsLawful_example :
    IsLawful digest
      (some (codes "cmd_1"))
      bindings
      target_id
      uptime
      expected
      (execute environment approvals session uptime world).1.trace
execute-IsLawful_example = execute-IsLawful environment approvals session uptime world refl

uptime_authorized : (authorize_capability environment approvals session uptime world).0 ≡ ok true
unfolding authorize_capability started ◌>>=◌ create gets lift new is_empty modify resolve lookup
    pure submit_command announce call evaluate evaluate_views temporary_of atoi itoa delete insert
    ascii_digit ascii_letter cut equal has_byte has_prefix has_suffix split decode_rune runes
    runes_from allowed_transition transition verify_approval ask_human authorize finish_denied
    follow give_up notify report_failure show start update answered attempt continue deferred log
    move moved raise try_move allow_for_target compile_rule first_allowed first_match
    first_validated verdict alphanumeric bounded_decimal bounded_identifier identifier_byte
    valid_probe_host validate_tls_probe control escape_step quote_step shell_expansion_at wrapped
    tokenize_tls_redirect first_denied views runagent_view cut_prefix podman_exec_view parse_error
    tokenize_shell valid_string is_control is_space scan step_in word_step finish finish_word
    word_of
uptime_authorized = refl

authorize_capability-IsGranted_example :
    IsGranted environment approvals session uptime world refl
      (authorize_capability environment approvals session uptime world).1.trace
authorize_capability-IsGranted_example =
    authorize_capability-IsGranted environment approvals session uptime world refl uptime_authorized

uptime_executed : executes_any (execute environment approvals session uptime world).1.trace ≡ true
unfolding execute ◌>>=◌ create gets lift new is_empty modify resolve lookup need_backend pure
    submit_command announce call evaluate evaluate_views temporary_of atoi itoa delete insert
    ascii_digit ascii_letter cut equal has_byte has_prefix has_suffix split decode_rune runes
    runes_from allowed_transition transition verify_approval ask_human authorize exit fail_execution
    finish_denied finish_execution follow give_up notify proceed report_failure run show start
    update answered attempt continue deferred execute_on log move moved raise try_move
    allow_for_target compile_rule first_allowed first_match first_validated verdict alphanumeric
    bounded_decimal bounded_identifier identifier_byte valid_probe_host validate_tls_probe control
    escape_step quote_step shell_expansion_at wrapped tokenize_tls_redirect first_denied views
    runagent_view cut_prefix podman_exec_view parse_error tokenize_shell valid_string is_control
    is_space scan step_in word_step finish finish_word word_of
uptime_executed = refl

execute-IsPermitted_example :
    IsPermitted digest (some (codes "cmd_1")) bindings target_id uptime expected
execute-IsPermitted_example =
    execute-IsPermitted environment approvals session uptime world refl uptime_executed

-- `reboot` is denied and `uptime` allowed
abbrev always : (trace : List Entry) (e : Event) → environment.reply trace e ≡ true
always trace e = refl

reboot_denied : (evaluate exact engine target_id (codes "reboot")).decision ≡ deny
unfolding evaluate evaluate_views first_denied views equal verdict
reboot_denied = refl

uptime_allowed : (evaluate exact engine target_id uptime).decision ≡ allow
unfolding evaluate evaluate_views first_denied views equal runagent_view cut_prefix podman_exec_view
    parse_error tokenize_shell valid_string is_control is_space scan step_in word_step finish
    finish_word word_of temporary_of lookup first_allowed verdict
uptime_allowed = refl

target_bound : resolve target_id bindings ≡ ok bound
unfolding resolve lookup
target_bound = refl

some_reboot : is_empty (codes "reboot") ≡ false
unfolding is_empty
some_reboot = refl

some_uptime : is_empty uptime ≡ false
unfolding is_empty
some_uptime = refl

execute-denied_example :
    ((execute environment approvals session (codes "reboot") world).0 ≡ ok tt)
    × ((execute environment approvals session (codes "reboot") world).1.current.state ≡ denied)
execute-denied_example =
    execute-denied environment always approvals session (codes "reboot") (codes "cmd_1") bound world
      refl some_reboot target_bound refl reboot_denied

execute-allowed_example :
    ((execute environment approvals session uptime world).0 ≡ ok tt)
    × ((execute environment approvals session uptime world).1.current.state ≡ succeeded)
execute-allowed_example =
    execute-allowed environment always approvals session uptime (codes "cmd_1") bound world refl
      some_uptime target_bound refl
      (record { exit_code = pos 0; failed = false; audit_failed = false; cancelled = false })
      uptime_allowed (λ trace p. refl) refl
