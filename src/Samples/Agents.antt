-- ===== src/Samples/Agents.antt =====
-- internal/agent/server.go on a connection that asks for a command and cancels it.
use windmill_gate.Base.{
  Bytes, none, has_byte, if◌then◌else◌, arith, Option, Bool-cases, inl, inr, ◌++◌,
}
use windmill_gate.Agent.Protocol.{encode, decode}
use windmill_gate.Agent.Protocol.Frames.{decode-encode}
use windmill_gate.Target.{resolve}
use windmill_gate.Base.Maps.{lookup}
use windmill_gate.Base.Unicode.{is_control, valid_string}
use windmill_gate.Gate.Sessions.{open_session, validate_fingerprint, validate_identity}
use windmill_gate.Base.{true, false, ◌≡◌, refl, codes, ◌∷◌, [], some, any, ◌⊎◌}
use windmill_gate.Base.Int.{pos}
use windmill_gate.Base.Results.{ok, err}
use windmill_gate.Agent.Protocol.{Request, validate}
use windmill_gate.Agent.Server.{Server, Connection, reads, serve, sends, request_failed}
use windmill_gate.Agent.Server.Orderly.{is_run, IsServed, serve-IsServed}
use windmill_gate.Samples.Sessions.{service}

abbrev hello : Request
hello = record {
  type = codes "hello";
  version_of = pos 1;
  agent = codes "ann";
  fingerprint = [];
  command = [];
  command_id = [];
  remote_port = 0;
  hostname = [];
}

abbrev asked : Request
asked = record hello { type = codes "exec"; command = codes "uptime" }

abbrev cancelled : Request
cancelled = record hello { type = codes "cancel"; command_id = codes "cmd_1" }

abbrev server : Server
server = record { transport = []; trust_hello_fingerprint = false }

abbrev connection : Connection
connection = record {
  new_id = some (codes "as_9");
  stored = true;
  greeted = true;
  first = ok hello;
  second = ok asked;
  arrival = reads (ok cancelled) (codes "cmd_1") (err request_failed);
}

actions : any is_run (serve server connection service).0.1 ≡ true
unfolding serve validate open_session validate_identity valid_string is_control validate_fingerprint
    lookup resolve
actions = refl

-- a request in place of the hello
unannounced :
    (serve server (record connection { first = ok asked }) service).0.1 ≡ sends (codes "error") ∷ []
unfolding serve validate
unannounced = refl

serve-IsServed_example :
    (any is_run (serve server connection service).0.1 ≡ false)
    ⊎ IsServed connection service
        (serve server connection service).1
        (serve server connection service).0.1
serve-IsServed_example = serve-IsServed server connection service

-- strings without newlines, written as they are
abbrev parse : Bytes → Option Bytes
parse text = some text

abbrev marshal : Bytes → Option Bytes
marshal text = if has_byte b'\n' text then none else some text

no_newline : (a text : Bytes) → marshal a ≡ some text → has_byte b'\n' text ≡ false
no_newline a text h = elim (Bool-cases (has_byte b'\n' a)) [
  | inl broken ↦ ground arith
  | inr whole ↦ ground arith
]

reads_back : (a text : Bytes) → marshal a ≡ some text → parse text ≡ some a
reads_back a text h = elim (Bool-cases (has_byte b'\n' a)) [
  | inl broken ↦ ground arith
  | inr whole ↦ ground arith
]

framed : encode parse marshal (codes "{}") ≡ ok (codes "{}\n")
unfolding encode has_byte
framed = refl

decode-encode_example :
    decode parse marshal (codes "{}\n" ++ codes "[]") ≡ ok (codes "{}", codes "[]")
decode-encode_example =
    decode-encode parse marshal no_newline reads_back (codes "{}") (codes "{}\n") (codes "[]")
      framed
