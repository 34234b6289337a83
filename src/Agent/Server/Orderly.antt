-- ===== src/Agent/Server/Orderly.antt =====
-- What a connection of an agent can run.
use windmill_gate.Base.{
  Bool, true, false, ◌||◌, List, [], ◌∷◌, ◌++◌, none, some, Bytes, String, codes, is, any, ◌≡◌,
  refl, ap, arith, subst, ◌⊎◌, inl, inr, Bool-cases,
}
use windmill_gate.Base.Maps.{lookup, lookup-delete_self}
use windmill_gate.Base.Results.{Result, ok, err, Result-cases}
use windmill_gate.Policy.Engine.{Matching}
use windmill_gate.Gate.Sessions.{AgentSession, Service, open_session, close_session}
use windmill_gate.Gate.Sessions.Isolation.{open_session-attached}
use windmill_gate.Agent.Protocol.{ProtocolError, Request, validate}
use windmill_gate.Agent.Server.{
  ServerError, Action, sends, opens, runs, closes, Server, Arrival, ends, reads, refuse, check,
  cancel_with, follow, request, greet, transport_of, fingerprint_of, checked_hello, Connection,
  in_session, serve, not_hello,
}

abbrev pub is_run : Action → Bool
is_run (runs session r) = true
is_run _ = false

-- The connection ran one request `r`, in the session `session`.
pub record IsServed {m : Matching} (c : Connection) (s s' : Service m) (actions : List Action)
    : Type 0 where
  pub hello : Request
  pub r : Request
  pub session : AgentSession
  pub rest : List Action
  pub greeting : c.first ≡ ok hello
  pub is_hello : is hello.type "hello" ≡ true
  pub hello_valid : validate hello ≡ ok tt
  pub asked : c.second ≡ ok r
  pub request_valid : validate r ≡ ok tt
  pub identity : session.identity ≡ hello.agent
  pub target : lookup hello.agent s.attachments ≡ some session.target_id
  pub order :
      actions
      ≡ opens session ∷ sends (codes "hello") ∷ runs session r ∷ (rest ++ closes session.id ∷ [])
  pub once : any is_run rest ≡ false
  pub closed : lookup session.id s'.sessions ≡ none

any-append : (xs ys : List Action) → any is_run (xs ++ ys) ≡ (any is_run xs || any is_run ys)
any-append [] ys = refl
any-append (x ∷ xs) ys = ground (arith, any-append xs ys)

cancel_with-runs :
    (active : Bytes) (result : Result ServerError (Unit {0})) (next : Request)
    → any is_run (cancel_with active result next).1 ≡ false
unfolding cancel_with
cancel_with-runs active result next = ground arith

follow-runs : (a : Arrival) → any is_run (follow a).1 ≡ false
unfolding follow
follow-runs (ends result) = refl
follow-runs (reads (ok next) active result) = cancel_with-runs active result next
follow-runs (reads (err e) active result) = refl

-- What the connection does behind its greeting: nothing runs, or one valid request does.
IsAnswered : AgentSession → Result ProtocolError Request → List Action → Type 0
IsAnswered session second actions =
    (any is_run actions ≡ false)
    ⊎ ((r : Request) × (rest : List Action) × (second ≡ ok r)
        × (validate r ≡ ok tt)
        × (actions ≡ runs session r ∷ rest)
        × (any is_run rest ≡ false))

request-IsAnswered :
    (session : AgentSession) (second : Result ProtocolError Request) (a : Arrival)
    → IsAnswered session second (request session second a).1
unfolding request refuse IsAnswered
request-IsAnswered session (err e) a = inl (ground arith)
request-IsAnswered session (ok r) a = elim (Result-cases (validate r)) [
  | inr (e, invalid) ↦ inl (ground arith)
  | inl (u, valid) ↦ inr (r, (follow a).1, refl, valid, ground arith, follow-runs a)
]

check-ok :
    (type : String) (wrong : ServerError) (r : Request)
    → check type wrong r ≡ ok tt
    → (is r.type type ≡ true) × (validate r ≡ ok tt)
unfolding check
check-ok type wrong r h = elim (Result-cases (validate r)) [
  | inr (e, invalid) ↦ ground arith
  | inl (u, valid) ↦ (ground arith, valid)
]

checked_hello-ok :
    (first : Result ProtocolError Request) (hello : Request)
    → checked_hello first ≡ ok hello
    → (first ≡ ok hello) × (is hello.type "hello" ≡ true) × (validate hello ≡ ok tt)
unfolding checked_hello
checked_hello-ok (err e) hello h = ground arith
checked_hello-ok (ok r) hello h = elim (Result-cases (check "hello" not_hello r)) [
  | inr (e, wrong) ↦ ground arith
  | inl (u, right) ↦
      let same : r ≡ hello = ground arith in
      let (is_hello, valid) = check-ok "hello" not_hello r right in
      (
        ap ok same,
        subst (λ q. is q.type "hello" ≡ true) same is_hello,
        subst (λ q. validate q ≡ ok tt) same valid,
      )
]

greet-runs :
    (c : Connection) (session : AgentSession) (r : Request) (rest : List Action)
    → c.greeted ≡ true
    → (request session c.second c.arrival).1 ≡ runs session r ∷ rest
    → (greet c.greeted session c.second c.arrival).1 ≡ sends (codes "hello") ∷ runs session r ∷ rest
unfolding greet
greet-runs c session r rest sent order = ground (arith, order)

module _ {m : Matching} where
  closed_session : (id : Bytes) (s : Service m) → lookup id (close_session id s).sessions ≡ none
  unfolding close_session
  closed_session id s = lookup-delete_self id s.sessions

  in_session-IsServed :
      (c : Connection) (hello : Request) (session : AgentSession) (s s' : Service m)
      → c.first ≡ ok hello
      → is hello.type "hello" ≡ true
      → validate hello ≡ ok tt
      → session.identity ≡ hello.agent
      → lookup hello.agent s.attachments ≡ some session.target_id
      → (any is_run (in_session c session s').0.1 ≡ false)
        ⊎ IsServed c s (in_session c session s').1 (in_session c session s').0.1
  unfolding in_session greet IsAnswered
  in_session-IsServed c hello session s s' greeting is_hello valid identity target =
      elim (Bool-cases c.greeted) [
        | inr unsent ↦ inl (ground arith)
        | inl sent ↦ elim (request-IsAnswered session c.second c.arrival) [
          | inl silent ↦ inl (
              ground
                (arith, any-append (request session c.second c.arrival).1 (closes session.id ∷ [])))
          | inr (r, rest, asked, request_valid, order, once) ↦ inr (record {
            hello = hello;
            r = r;
            session = session;
            rest = rest;
            greeting = greeting;
            is_hello = is_hello;
            hello_valid = valid;
            asked = asked;
            request_valid = request_valid;
            identity = identity;
            target = target;
            order =
                ap (λ actions. opens session ∷ (actions ++ closes session.id ∷ []))
                  (greet-runs c session r rest sent order);
            once = once;
            closed = closed_session session.id s';
          })
        ]
      ]

  -- A connection runs nothing, or it runs one request that is valid, once, after a valid hello, in
  -- a session of the identity that the hello names, on the target that this identity is attached
  -- to; the session is opened before and is closed at the end.
  pub serve-IsServed :
      (server : Server) (c : Connection) (s : Service m)
      → (any is_run (serve server c s).0.1 ≡ false)
        ⊎ IsServed c s (serve server c s).1 (serve server c s).0.1
  unfolding serve refuse
  serve-IsServed server c s = elim (Result-cases (checked_hello c.first)) [
    | inr (e, refused) ↦ inl (ground arith)
    | inl (hello, checked) ↦
        let opened =
          open_session c.new_id c.stored hello.agent (transport_of server)
            (fingerprint_of server hello) s in
        let (greeting, is_hello, valid) = checked_hello-ok c.first hello checked in
        elim (Result-cases opened) [
          | inr (e, failed) ↦ inl (ground arith)
          | inl ((session, s'), done) ↦
              let (target, identity, others) =
                open_session-attached c.new_id c.stored hello.agent (transport_of server)
                  (fingerprint_of server hello) s s' session done in
              let same : in_session c session s' ≡ serve server c s = ground arith in
              subst (λ x. (any is_run x.0.1 ≡ false) ⊎ IsServed c s x.1 x.0.1) same
                (in_session-IsServed c hello session s s' greeting is_hello valid identity target)
        ]
  ]
