-- ===== src/Lib.antt =====
-- Windmill Gate: the path of a command from an agent to a target.
--
-- Windmill Gate lets an agent run commands on a remote system under an operator's control. A
-- command is submitted to the gate service, judged by the policy, shown to a human where the policy
-- asks for one, and then run on the target that the agent's session is bound to, with each step
-- written to an audit store. The library models that path.
--
-- Base: helpers. Strings are lists of bytes; numbers are native; Go's maps are association lists
--   (Base.Maps); an error result is `Result` (Base.Results); `unicode/utf8` and the two classes of
--   `unicode` that the program asks for are in Base.Unicode.
-- Policy.Shell: internal/policy/shell.go, `tokenizeShell`, as a machine with one step for each byte:
--   `Mode` is the place in the nested loops, `Draft` and `Scanner` their variables. Policy.Views:
--   `commandViews` and `tokenizeTLSRedirect`, the payload and what its wrappers run.
-- Policy.Network: internal/policy/network.go, the validators of TLS probes and packet captures.
-- Policy.Paths, Policy.Diagnostic, Policy.Values: of internal/policy/diagnostic.go, `cleanPath`,
--   `cleanLiteral`, `parseReadOptions` and the validators of ls, cat and tail. A loop whose index skips
--   an option's value is a machine with a `Stage`.
-- Policy.Grep, Policy.Files, Policy.Journal, Policy.Reads, Policy.Containers, Policy.Mysql: the other
--   validators, of diagnostic.go, diagnostic_files.go, journal.go, read_defaults.go, rtpengine.go and
--   mysql.go in internal/policy; Policy.Timestamps is `utcTimestamp` with the part of `time.Parse`
--   that it needs. Policy.Validators: `validateDiagnosticRead` and the table `validators`.
-- Policy.Engine: internal/policy/policy.go, `Parse`, `Evaluate`, `AllowForTarget`, `TemporaryRules`,
--   `DetachTarget`. Go's `regexp` and the table of validators are the parameter `Matching`, of which
--   no law is assumed. The decoding of YAML and of the file is not modelled.
-- Sql: internal/policy/mysql.go. Sql.Scan is `scanSQL`; Sql.Parser the parser's primitives, a parser
--   being a function from the tokens left to the tokens left; Sql.Grammar its rules by their names.
-- Command: internal/command/command.go, `New`, `VerifyApproval`, `Transition`.
-- Target: internal/target/registry.go, `Add`, `Resolve`, `Remove`, `List`.
-- Approval: internal/approval/approval.go, the broker and `SimilarPattern`. Each critical section is
--   one operation. `Wait` is a submission, the decisions made meanwhile (`decide_all`), and the answer,
--   for which the context may have ended as well. A command waits once: two waits of one identifier
--   at a time, the first of them decided and not yet read, are not modelled.
-- Store: internal/storage/storage.go. The tables are lists of rows (`Tables`); Base.Rows has the SQL
--   statements; Store.Agents, Store.Output, Store.Forwards and Store.Views have the methods, by the
--   tables they work on. A statement is refused where a key, a reference or a check refuses it.
-- Forward.Hosts: of internal/forward/alias.go, the resolver file and the names of hosts.
-- Forward.Manager: internal/forward/manager.go, `Manager` with the store it works on and the processes
--   it has closed. `ended` is `wait` once the process has ended. Forward.Aliases: `AliasManager` of
--   internal/forward/alias.go, with the resolver file; it holds the manager of forwards.
-- Gate.World, Gate.Commands: internal/gate/service.go, `execute`, `authorizeCapability`,
--   `completeCapability`, `finishDenied`. A call works on a `World`; what it does outside (the store,
--   the event sink, the backend) is appended to a trace, and `Environment` chooses what succeeds.
--   What the audit writers store and show while the backend runs is part of its `Outcome`.
--   The broker is the interface `Approvals`, which Gate.Approving fills from the broker's own laws.
-- Gate.Audit: `auditWriter` of the same file, on the output table of Store; Gate.Audit.Bounds counts
--   what reaches the agent.
-- Gate.Lawful, Gate.Safety: what a trace may be, and that every trace is such; Gate.Endings: how a
--   call ends where all it calls succeeds.
-- Gate.Sessions: the attachments, sessions and running commands of the same file.
-- Gate.Forwarding: the forwarding operations of a session and `AddTarget` of the same file.
--   Gate.Detaching: `EnableForwarding`, and `DetachTarget` with the managers and the store composed.
-- Agent.Protocol: internal/protocol/protocol.go, requests and frames; Agent.Protocol.Frames reads back
--   what is written. Agent.Server: internal/agent/server.go, a connection (`ServeConn`) as the list of
--   what it does, and `runRequest`; whether the request ends or a frame comes first is an argument.
-- Samples: runs, and the theorems at concrete inputs.
--
-- Interleavings: the operations of the broker and of the sessions are atomic, as their locks make
-- them, and are taken in any order. Within one `execute` the service's maps and the policy change by
-- that call alone; what other calls change meanwhile is not modelled.
--
-- Fuel: `scan_from` has the length of the query, and each turn reads a byte; a loop of the SQL parser
-- has one round more than there are tokens, and each round reads a token; `scalar` and `boolean_term`
-- recurse on the room left under the source's own limit of 64; `runes` has a round for each byte;
-- `allocate` has the source's eight attempts and `try_open` its three; `chunks` has a round for each byte of the data, and each
-- takes at least one; `startup_projection` has the four projections that its expression allows.
--
-- Parameters: SHA-256 (`digest`), random identifiers, clocks, free ports, regular expressions, JSON,
-- and the answers of the store, the sink, the backends and the processes of forwards.
--
-- Not modelled: opening and migrating the database, and failures of its driver; internal/review; in
-- internal/agent the client, the SSH listener and the goroutines around a connection; and what is input
-- and output: internal/backend, internal/remote, internal/config, internal/securefs, internal/tui,
-- cmd/gate.
pub mod Base
pub mod Command
pub mod Target
pub mod Approval
pub mod Store
pub mod Forward
pub mod Agent
pub mod Policy
pub mod Sql
pub mod Gate
pub mod Samples
