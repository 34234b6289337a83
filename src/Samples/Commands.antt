-- ===== src/Samples/Commands.antt =====
-- internal/command/command.go, internal/target/registry.go and internal/approval/approval.go on
-- concrete commands, targets and decisions.
use windmill_gate.Base.Unicode.{is_control, is_space, runes, valid_string}
use windmill_gate.Base.{
  false, ℕ, ◌≤◌, true, [], ◌∷◌, Option, some, none, ◌≡◌, refl, ◌⊎◌, Bytes, codes, is_some,
  if◌then◌else◌, equal, is_empty,
}
use windmill_gate.Base.Int.{ℤ, pos}
use windmill_gate.Base.Maps.{lookup, insert, delete}
use windmill_gate.Base.Results.{ok, err}
use windmill_gate.Command.{
  State, queued, running, succeeded, failed, denied, Command, invalid_transition, new,
  verify_approval, transition, is_terminal,
}
use windmill_gate.Command.Lifecycle.{IsConsistent, new-IsConsistent, transition-IsConsistent}
use windmill_gate.Command.Traces.{here, next, lifetime, terminal_absorbs}
use windmill_gate.Target.{
  Target, Binding, Bindings, not_found, add, resolve, remove, allocate, is_blank,
  validate_display_name,
}
use windmill_gate.Target.Registry.{IsAdded, add-IsAdded, remove-resolve}
use windmill_gate.Approval.{
  approve_once, HumanDecision, Request, Broker, no_requests, submit, decide, receive, wait, check,
  completed, decide_all,
}
use windmill_gate.Approval.Decisions.{IsDecided, decide-IsDecided}
use windmill_gate.Approval.Waiting.{
  submitted, decided, initial, step, IsSound, Reachable-IsSound, Returns, wait-IsAnswered,
}
use windmill_gate.Policy.Engine.{Verdict, ask, default_source}

-- a digest that tells payloads apart, in place of SHA-256
abbrev digest : Bytes → Bytes
digest s = b'#' ∷ s

abbrev first_id : Bytes
first_id = codes "cmd_1"

abbrev command_in : State → Option ℕ → Option ℕ → Option ℤ → Command
command_in state started_at finished_at code = record {
  id = first_id;
  agent_session_id = codes "as_1";
  target_id = codes "tgt_1";
  payload = codes "ls";
  hash = codes "#ls";
  state = state;
  created_at = 10;
  started_at = started_at;
  finished_at = finished_at;
  exit_code = code;
}

abbrev fresh_command : Command
fresh_command = command_in queued none none none

abbrev running_command : Command
running_command = command_in running (some 11) none none

abbrev done_command : Command
done_command = command_in succeeded (some 11) (some 12) (some (pos 0))

made : new digest (some first_id) 10 (codes "as_1") (codes "tgt_1") (codes "ls") ≡ ok fresh_command
unfolding new is_empty
made = refl

ran : transition 11 running none fresh_command ≡ ok running_command
unfolding transition
ran = refl

finished : transition 12 succeeded (some (pos 0)) running_command ≡ ok done_command
unfolding transition
finished = refl

transition-IsConsistent_example :
    IsConsistent digest running_command
    × (running_command.id ≡ fresh_command.id)
    × (running_command.payload ≡ fresh_command.payload)
    × (running_command.hash ≡ fresh_command.hash)
transition-IsConsistent_example =
    transition-IsConsistent digest 11 running none fresh_command running_command
      (new-IsConsistent digest (some first_id) 10 (codes "as_1") (codes "tgt_1") (codes "ls")
        fresh_command made).0
      ran

lifetime_example :
    (2 ≤ 3)
    × (done_command.payload ≡ codes "ls")
    × (done_command.hash ≡ digest (codes "ls"))
    × (is_some done_command.finished_at ≡ is_terminal done_command.state)
    × ((done_command.state ≡ running)
          ⊎ (done_command.state ≡ succeeded)
          ⊎ (done_command.state ≡ failed)
        → is_some done_command.started_at ≡ true)
    × (done_command.state ≡ denied → done_command.started_at ≡ none)
lifetime_example =
    lifetime digest (some first_id) 10 (codes "as_1") (codes "tgt_1") (codes "ls") made
      (next 12 succeeded (some (pos 0)) (next 11 running none here ran) finished)

terminal_absorbs_example : transition 13 running none done_command ≡ err invalid_transition
terminal_absorbs_example = terminal_absorbs 13 running none done_command refl

abbrev first_target : Target
first_target = record {
  id = codes "tgt_1";
  display_name = codes "pbx";
  backend = codes "windmill";
  created_at = 5;
}

abbrev first_binding : Binding
first_binding = record { public_target = first_target; backend_id = codes "s-1" }

abbrev one_binding : Bindings
one_binding = (codes "tgt_1", first_binding) ∷ []

added :
    add (λ n. some (codes "tgt_1")) 5 (codes "windmill") (codes "s-1") (codes "pbx") []
    ≡ ok (first_target, one_binding)
unfolding add is_blank runes is_space validate_display_name valid_string is_control allocate lookup
    insert
added = refl

add-IsAdded_example :
    IsAdded (codes "windmill") (codes "s-1") (codes "pbx") [] one_binding first_target
add-IsAdded_example =
    add-IsAdded (λ n. some (codes "tgt_1")) 5 (codes "windmill") (codes "s-1") (codes "pbx") []
      one_binding first_target added

removed : remove (codes "tgt_1") one_binding ≡ ok (first_binding, [])
unfolding remove lookup delete
removed = refl

remove-resolve_example :
    (resolve (codes "tgt_1") one_binding ≡ ok first_binding)
    × ((j : Bytes)
        → resolve j [] ≡ (if equal (codes "tgt_1") j then err not_found else resolve j one_binding))
remove-resolve_example = remove-resolve (codes "tgt_1") first_binding one_binding [] removed

abbrev asked : Verdict
asked = record { decision = ask; rule = []; source = default_source }

abbrev approval : HumanDecision
approval = record {
  command_id = first_id;
  hash = codes "#ls";
  action = approve_once;
  actor = codes "ann";
  decided_at = some 11;
  rule = [];
}

abbrev request : Request
request = record { command = fresh_command; policy = asked }

abbrev waiting_broker : Broker
waiting_broker = record { pending = (first_id, request) ∷ []; delivered = []; changed = true }

abbrev decided_broker : Broker
decided_broker = record {
  pending = [];
  delivered = (first_id, (request, approval)) ∷ [];
  changed = true;
}

abbrev after_wait : Broker
after_wait = record { pending = []; delivered = []; changed = true }

was_submitted : submit fresh_command asked no_requests ≡ ok waiting_broker
unfolding submit lookup insert delete
was_submitted = refl

was_decided : decide digest 12 approval waiting_broker ≡ ok decided_broker
unfolding decide lookup check is_blank runes is_space verify_approval delete insert completed
was_decided = refl

was_awaited :
    wait digest ((12, approval) ∷ []) false fresh_command asked no_requests
    ≡ ok (some approval, after_wait)
unfolding wait submit lookup receive decide_all decide insert check is_blank runes is_space
    verify_approval completed delete
was_awaited = refl

decide-IsDecided_example : IsDecided digest 12 approval waiting_broker decided_broker
decide-IsDecided_example =
    decide-IsDecided digest 12 approval waiting_broker decided_broker was_decided

Reachable-IsSound_example : IsSound digest decided_broker
Reachable-IsSound_example = Reachable-IsSound digest (
    step (step initial (submitted fresh_command asked was_submitted))
      (decided 12 approval was_decided))

wait-IsAnswered_example :
    Returns digest request no_requests
      (wait digest ((12, approval) ∷ []) false fresh_command asked no_requests)
wait-IsAnswered_example =
    wait-IsAnswered digest ((12, approval) ∷ []) false fresh_command asked no_requests
