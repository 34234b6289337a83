-- ===== src/Agent/Server.antt =====
-- internal/agent/server.go: a connection of an agent, `ServeConn`, and the dispatch of its request,
-- `runRequest`. The order in which the request ends and the next frame comes is an argument; what
-- the request does is the gate service's. Listening and the goroutines of `Serve` are not modelled.
pub mod Orderly
use windmill_gate.Base.{
  ℕ, Bool, true, false, not, ◌&&◌, ◌||◌, List, [], ◌∷◌, ◌++◌, Option, none, some, if◌then◌else◌,
  Bytes, String, codes, is, is_empty, equal,
}
use windmill_gate.Base.Results.{Result, ok, err}
use windmill_gate.Policy.Engine.{Matching}
use windmill_gate.Gate.Sessions.{AgentSession, Service, open_session, close_session}
use windmill_gate.Agent.Protocol.{ProtocolError, end_of_file, Request, validate}

pub data ServerError : Type 0 where
  bad_frame : ProtocolError → ServerError
  not_hello not_opened not_sent request_failed not_a_cancel other_command unavailable : ServerError

-- What a connection does: a response of a type, the session's beginning and end, the request, and
-- the end of the request's context.
pub data Action : Type 0 where
  sends : Bytes → Action
  opens : AgentSession → Action
  runs : AgentSession → Request → Action
  cancels : Action
  closes : Bytes → Action

abbrev pub error_sent : Action
error_sent = sends (codes "error")

-- `Server`
pub record Server : Type 0 where
  pub transport : Bytes
  pub trust_hello_fingerprint : Bool

-- What comes first, and what the request returns: it ends by itself, or another frame is read
-- while it runs, at which the sink has the command's identifier or none yet.
pub data Arrival : Type 0 where
  ends : Result ServerError (Unit {0}) → Arrival
  reads : Result ProtocolError Request → Bytes → Result ServerError (Unit {0}) → Arrival

abbrev pub Outcome : Type 0
Outcome = Result ServerError (Unit {0}) × List Action

-- the frame is not what the connection waits for
unfoldable pub refuse : ServerError → Outcome
refuse e = (err e, error_sent ∷ [])

-- a frame of the type that is valid
unfoldable pub check : String → ServerError → Request → Result ServerError (Unit {0})
check type wrong r = elim (validate r) [
  | err e ↦ err (bad_frame e)
  | ok _ ↦ if is r.type type then ok tt else err wrong
]

-- a second frame cancels the request in any case; only the request's own identifier is accepted
unfoldable pub cancel_with : Bytes → Result ServerError (Unit {0}) → Request → Outcome
unfolding check equal is_empty
cancel_with active result next = elim (check "cancel" not_a_cancel next) [
  | err e ↦ (err e, cancels ∷ error_sent ∷ [])
  | ok _ ↦
      if is_empty active || not (equal active next.command_id)
      then (err other_command, cancels ∷ error_sent ∷ [])
      else (result, cancels ∷ [])
]

-- `errors.Is(err, io.EOF)`
unfoldable pub is_end : ProtocolError → Bool
is_end end_of_file = true
is_end _ = false

-- the `select` of `ServeConn`
unfoldable pub follow : Arrival → Outcome
unfolding cancel_with is_end
follow (ends result) = (result, [])
follow (reads (err e) active result) = (if is_end e then ok tt else err (bad_frame e), cancels ∷ [])
follow (reads (ok next) active result) = cancel_with active result next

-- the second frame of the connection is its request
unfoldable pub request : AgentSession → Result ProtocolError Request → Arrival → Outcome
unfolding refuse follow is_end
request session (err e) arrival = if is_end e then (ok tt, []) else refuse (bad_frame e)
request session (ok r) arrival = elim (validate r) [
  | err e ↦ refuse (bad_frame e)
  | ok _ ↦ let (result, actions) = follow arrival in (result, runs session r ∷ actions)
]

unfoldable pub greet : Bool → AgentSession → Result ProtocolError Request → Arrival → Outcome
unfolding request
greet greeted session second arrival =
    let (result, actions) = request session second arrival in
    if greeted
    then (result, sends (codes "hello") ∷ actions)
    else (err not_sent, sends (codes "hello") ∷ [])

transport_of : Server → Bytes
transport_of server = if is_empty server.transport then codes "unix" else server.transport

fingerprint_of : Server → Request → Bytes
fingerprint_of server hello = if server.trust_hello_fingerprint then hello.fingerprint else []

checked_hello : Result ProtocolError Request → Result ServerError Request
unfolding check
checked_hello (err e) = err (bad_frame e)
checked_hello (ok hello) = elim (check "hello" not_hello hello) [ err e ↦ err e | ok _ ↦ ok hello ]

-- The outside of a connection: what `OpenSession` is given, whether the greeting is sent, the two
-- frames, and what happens while the request runs.
pub record Connection : Type 0 where
  pub new_id : Option Bytes
  pub stored : Bool
  pub greeted : Bool
  pub first : Result ProtocolError Request
  pub second : Result ProtocolError Request
  pub arrival : Arrival

module _ {m : Matching} where
  -- the session is open: it is closed whatever happens
  unfoldable pub in_session : Connection → AgentSession → Service m → Outcome × Service m
  unfolding greet
  in_session c session s =
      let (result, actions) = greet c.greeted session c.second c.arrival in
      ((result, opens session ∷ (actions ++ closes session.id ∷ [])), close_session session.id s)

  -- `ServeConn`
  unfoldable pub serve : Server → Connection → Service m → Outcome × Service m
  unfolding checked_hello transport_of fingerprint_of refuse in_session
  serve server c s = elim (checked_hello c.first) [
    | err e ↦ (refuse e, s)
    | ok hello ↦
        elim (open_session c.new_id c.stored hello.agent (transport_of server)
          (fingerprint_of server hello) s) [
            | err _ ↦ (refuse not_opened, s)
            | ok (session, s') ↦ in_session c session s'
          ]
  ]

-- What `runRequest` asks of the session.
pub data Operation : Type 0 where
  execute : Bytes → Operation
  add_forward : ℕ → Operation
  list_forwards list_hosts : Operation
  remove_forward : Bytes → Operation
  add_host : Bytes → ℕ → Operation
  remove_host : Bytes → Operation

unfoldable pub operation_of : Request → Option Operation
operation_of r =
    if is r.type "exec"
    then some (execute r.command)
    else if is r.type "forward_add"
    then some (add_forward r.remote_port)
    else if is r.type "forward_list"
    then some list_forwards
    else if is r.type "forward_remove"
    then some (remove_forward r.command_id)
    else if is r.type "host_add"
    then some (add_host r.hostname r.remote_port)
    else if is r.type "host_list"
    then some list_hosts
    else if is r.type "host_remove"
    then some (remove_host r.hostname)
    else none

-- What the operation returns: an error, no authorization, or success.
pub data Performed : Type 0 where
  failed not_authorized performed : Performed

-- the response that tells of a success; an execution and what it asks for tell of themselves
unfoldable pub reported : Operation → Performed → List Bytes
reported (execute payload) result = []
reported (add_forward port) performed = codes "forward" ∷ codes "exit" ∷ []
reported (add_forward port) _ = []
reported (add_host name port) performed = codes "host" ∷ codes "exit" ∷ []
reported (add_host name port) _ = []
reported list_forwards performed = codes "forward_list" ∷ codes "exit" ∷ []
reported list_hosts performed = codes "host_list" ∷ codes "exit" ∷ []
reported (remove_forward id) performed = codes "forward_removed" ∷ codes "exit" ∷ []
reported (remove_host name) performed = codes "host_removed" ∷ codes "exit" ∷ []
reported _ _ = codes "error" ∷ []

-- `runRequest`, with the responses that it sends itself, all of which are taken
unfoldable pub run_request :
    (Operation → Performed) → Request → Result ServerError (Unit {0}) × List Bytes
unfolding operation_of reported
run_request perform r = elim (operation_of r) [
  | none ↦ (err unavailable, codes "error" ∷ [])
  | some o ↦ (
    elim (perform o) [ failed ↦ err request_failed | not_authorized ↦ ok tt | performed ↦ ok tt ],
    reported o (perform o),
  )
]
