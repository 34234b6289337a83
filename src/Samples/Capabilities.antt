-- ===== src/Samples/Capabilities.antt =====
-- The forwarding operations of internal/gate/service.go where the policy allows one of them.
use windmill_gate.Forward.Manager.{add, list}
use windmill_gate.Gate.World.{
  ◌>>=◌, gets, lift, modify, pure, call, answered, attempt, continue, deferred, log, move, moved,
  raise, try_move,
}
use windmill_gate.Gate.Commands.{
  create, submit_command, announce, ask_human, authorize, finish_denied, follow, give_up, notify,
  report_failure, show, start, update, authorize_capability, complete_capability, started,
}
use windmill_gate.Command.{new, allowed_transition, transition, verify_approval}
use windmill_gate.Base.{
  is_empty, ascii_digit, ascii_letter, cut, equal, has_byte, has_prefix, has_suffix, split,
  cut_prefix,
}
use windmill_gate.Target.{resolve}
use windmill_gate.Base.Maps.{lookup, delete, insert}
use windmill_gate.Policy.Engine.{
  evaluate, evaluate_views, temporary_of, allow_for_target, compile_rule, first_allowed,
  first_match, first_validated, verdict, first_denied,
}
use windmill_gate.Base.Decimals.{atoi, itoa}
use windmill_gate.Base.Unicode.{decode_rune, runes, runes_from, valid_string, is_control, is_space}
use windmill_gate.Policy.Network.{
  alphanumeric, bounded_decimal, bounded_identifier, identifier_byte, valid_probe_host,
  validate_tls_probe,
}
use windmill_gate.Policy.Shell.{
  control, escape_step, quote_step, shell_expansion_at, wrapped, tokenize_shell, scan, step_in,
  word_step, finish, finish_word, word_of,
}
use windmill_gate.Policy.Views.{
  tokenize_tls_redirect, views, runagent_view, podman_exec_view, parse_error,
}
use windmill_gate.Gate.Forwarding.{finished, when_authorized, open_forward, failed_with}
use windmill_gate.Store.Forwards.{save_forward}
use windmill_gate.Base.Unicode.{is_space}
use windmill_gate.Base.{true, [], ◌∷◌, none, some, ◌≡◌, refl, ◌⊎◌, Bytes, codes}
use windmill_gate.Base.Results.{ok}
use windmill_gate.Gate.World.{World}
use windmill_gate.Forward.Hosts.{normalize_hostname}
use windmill_gate.Forward.Aliases.{AliasManager, AliasOutside}
use windmill_gate.Gate.Forwarding.{
  forward_payload, alias_payload, add_forward, add_host_alias, list_forwards,
}
use windmill_gate.Gate.Forwarding.Guarded.{Permits, added-IsPermitted}
use windmill_gate.Samples.Policies.{exact, engine}
use windmill_gate.Samples.Stores.{no_tables}
use windmill_gate.Samples.Gates.{target_id, environment, approvals, session, world}
use windmill_gate.Samples.Forwards.{outside}

-- the payload of the port is allowed
abbrev allowing : World exact
allowing = record world {
  engine = record engine {
    allowed = record { pattern = forward_payload 443; regexp = forward_payload 443 } ∷ [];
  };
}

abbrev managers : AliasManager
managers = record {
  aliases = [];
  hosts = codes "127.0.0.1 localhost\n";
  forwards = record {
    forwards = [];
    tables = record no_tables {
      targets =
          record {
            binding = record {
              public_target = record {
                id = target_id;
                display_name = codes "pbx";
                backend = codes "windmill";
                created_at = 5;
              };
              backend_id = codes "s-1";
            };
            detached_at = none;
          }
          ∷ [];
    };
    closed = [];
  };
}

abbrev pub names : AliasOutside
names = record { new_marker = some (codes "m1"); replaces = λ contents. true; now = 6 }

opened :
    list_forwards session
      (add_forward environment approvals outside
        (codes "ann")
        session
        443
        (allowing, some managers)).1.1
    ≡ ok (
        record {
          id = codes "fw_1";
          target_id = target_id;
          remote_host = codes "127.0.0.1";
          remote_port = 443;
          local_host = codes "127.0.0.1";
          local_port = 18443;
          state = codes "active";
          created_by = codes "ann";
          created_at = 5;
        }
        ∷ [])
unfolding ◌>>=◌ create gets lift new is_empty modify resolve lookup pure submit_command announce
    call evaluate evaluate_views temporary_of atoi itoa delete insert ascii_digit ascii_letter cut
    equal has_byte has_prefix has_suffix split decode_rune runes runes_from allowed_transition
    transition verify_approval ask_human authorize finish_denied follow give_up notify
    report_failure show start update answered attempt continue deferred log move moved raise
    try_move allow_for_target compile_rule first_allowed first_match first_validated verdict
    alphanumeric bounded_decimal bounded_identifier identifier_byte valid_probe_host
    validate_tls_probe control escape_step quote_step shell_expansion_at wrapped
    tokenize_tls_redirect first_denied views runagent_view cut_prefix podman_exec_view parse_error
    tokenize_shell valid_string is_control is_space scan step_in word_step finish finish_word
    word_of authorize_capability complete_capability started add_forward list_forwards finished
    when_authorized open_forward failed_with add list save_forward
opened = refl

added-IsPermitted_example :
    (((add_forward environment approvals outside
          (codes "ann")
          session
          443
          (allowing, some managers)).1.1
        ≡ some managers)
      ⊎ Permits environment approvals session (forward_payload 443) allowing)
    × (((add_host_alias environment approvals outside names
            (codes "ann")
            session
            (codes "App.local.")
            443
            (allowing, some managers)).1.1
          ≡ some managers)
        ⊎ ((name : Bytes) × (normalize_hostname (codes "App.local.") ≡ ok name)
            × Permits environment approvals session (alias_payload name 443) allowing))
added-IsPermitted_example =
    added-IsPermitted environment approvals outside names (codes "ann") session 443 allowing
      (some managers) refl (codes "App.local.")
