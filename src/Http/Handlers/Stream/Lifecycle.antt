-- ===== src/Http/Handlers/Stream/Lifecycle.antt =====
-- stream.go: what a stream leaves in Redis when it ends.
use scorpion.Prelude.{
  ℕ, String, ◌≡◌, ◌≢◌, refl, ap, subst, ◌∙◌, Bool, true, false, Bool-cases, inl, inr, Option, none,
  some, List, ◌==◌, eq_iff, Result, ok, err,
}
use scorpion.Redis.{Redis, IsList}
use scorpion.World.{World}
use scorpion.World.Confined.{Within, Within-refl, Within-trans}
use scorpion.Config.{Config}
use scorpion.Json.{Json}
use scorpion.Auth.{Jwt, TicketClaims, validate_ticket}
use scorpion.Repository.Keys.{events_key, ticket_key}
use scorpion.Repository.Keys.Distinct.{ticket_key-ne-events_key}
use scorpion.Repository.Tickets.{validate_and_consume}
use scorpion.Repository.Tickets.Use.{HoldsTicket, accepted_lem}
use scorpion.Repository.Connections
use scorpion.Repository.Events.Queue.{HoldsQueue}
use scorpion.Stream.Session.{Session}
use scorpion.Stream.Loop.{Signal}
use scorpion.Stream.Loop.Confined.{run_loop-Within}
use scorpion.Stream.Drain.Confined.{counted-Within}
use scorpion.Http.{Request, Context, streamed}
use scorpion.Http.Handlers.Stream.{opened, registered, consumed, validated, v1_sse_stream_events}
use scorpion.Http.Handlers.Stream.Admits.{answers_lem}
use scorpion.Http.Handlers.Stream.Keeps.{register-Within, delete-Within, ticket-Foreign}

module _ (r : Redis) (jwt : Jwt) (codec : Json) (cfg : Config) (instance_id : String)
    (tracks flushes : Bool) (clock : ℕ) (time : String) (now : ℕ) (signals : List Signal) where
  opened-Within :
      (c ip : String) (x : Session r)
      → Within r c ip x.world
          (opened jwt codec cfg instance_id tracks flushes clock time now signals c ip x).1.world
  unfolding opened
  opened-Within c ip x = counted-Within r c ip _ (
      Within-trans r c ip
        (Within-trans r c ip (counted-Within r c ip _ (Within-refl r c ip x.world))
          (run_loop-Within r codec cfg.sse c ip tracks clock time signals _))
        (delete-Within r c ip _))

  registered_handler-Within :
      (c ip : String) (answer : Result Bool) (w : World r) (x : Session r)
      → Within r c ip w
          (registered jwt codec cfg instance_id tracks flushes clock time now signals c ip
            (answer, w)
            x).1.world
  unfolding registered
  registered_handler-Within c ip (err e) w x = Within-refl r c ip w
  registered_handler-Within c ip (ok false) w x = counted-Within r c ip _ (Within-refl r c ip w)
  registered_handler-Within c ip (ok true) w x = opened-Within c ip (record x { world = w })

  pub consumed-Within :
      (c ip : String) (answer : Result Bool) (w : World r) (x : Session r)
      → Within r c ip w
          (consumed jwt codec cfg instance_id tracks flushes clock time now signals c ip
            (answer, w)
            x).1.world
  unfolding consumed
  consumed-Within c ip (err e) w x = Within-refl r c ip w
  consumed-Within c ip (ok false) w x = counted-Within r c ip _ (Within-refl r c ip w)
  consumed-Within c ip (ok true) w x =
      let (answer, w') = Connections.register instance_id c ip cfg.sse.conn_ttl w in
      Within-trans r c ip (register-Within r c ip instance_id cfg.sse.conn_ttl w)
        (registered_handler-Within c ip answer w' x)

  -- A request that opened a stream found the ticket's id in Redis and used it up, and nothing that
  -- happened since has brought it back.
  used_up_lem :
      (c ip jti : String) (x : Session r)
      → HoldsTicket r x.world.db c ip
      → HoldsQueue r x.world c
      → (validate_and_consume c ip jti x.world).0 ≡ ok true
      → r.at
          (consumed jwt codec cfg instance_id tracks flushes clock time now signals c ip
            (validate_and_consume c ip jti x.world)
            x).1.world.db
          (ticket_key c ip)
        ≡ none
  used_up_lem c ip jti x h q e =
      let (answer, w) = validate_and_consume c ip jti x.world in
      let (_, gone, others) = accepted_lem r c ip jti x.world h e in
      let same_queue : r.at w.db (events_key c) ≡ r.at x.world.db (events_key c) =
        others (events_key c) ∙ rw (ticket_key-ne-events_key c ip c) refl in
      let list_there : IsList (r.at w.db (events_key c)) = rw same_queue q in
      (consumed-Within c ip answer w x).keys.foreign list_there (ticket_key c ip)
        (ticket-Foreign r c ip)
      ∙ gone

  -- The handler behind its guards.
  validated_eq :
      (claims : TicketClaims) (o : Option String) (x : Session r)
      → (validated jwt codec cfg instance_id tracks flushes clock time now signals
          (ok claims)
          o
          x).0
        ≡ streamed
      → validated jwt codec cfg instance_id tracks flushes clock time now signals (ok claims) o x
        ≡ consumed jwt codec cfg instance_id tracks flushes clock time now signals claims.subject
            claims.ip
            (validate_and_consume claims.subject claims.ip claims.id x.world)
            x
  unfolding validated
  validated_eq claims none x e = cc
  validated_eq claims (some ip) x e = elim (Bool-cases (ip == "")) [
    | inl empty ↦ cc (rw empty at e)
    | inr known ↦ elim (Bool-cases (ip == claims.ip)) [
      | inr other ↦ cc (rw (known, other) at e)
      | inl same ↦
          rw (known, same)
            (ap
              (λ z.
                consumed jwt codec cfg instance_id tracks flushes clock time now signals
                  claims.subject z (validate_and_consume claims.subject z claims.id x.world) x)
              ((eq_iff ip claims.ip).0 same))
    ]
  ]

  pub handler_eq :
      (req : Request) (ctx : Context) (x : Session r) (claims : TicketClaims)
      → (v1_sse_stream_events jwt codec cfg instance_id tracks flushes clock time now signals req
          ctx x).0
        ≡ streamed
      → validate_ticket jwt cfg.auth now req.query_ticket ≡ ok claims
      → v1_sse_stream_events jwt codec cfg instance_id tracks flushes clock time now signals req ctx
          x
        ≡ consumed jwt codec cfg instance_id tracks flushes clock time now signals claims.subject
            claims.ip
            (validate_and_consume claims.subject claims.ip claims.id x.world)
            x
  unfolding v1_sse_stream_events
  handler_eq req ctx x claims e valid = elim (Bool-cases flushes) [
    | inr closed ↦ cc (rw closed at e)
    | inl flows ↦ elim (Bool-cases (req.query_ticket == "")) [
      | inl empty ↦ cc (rw (flows, empty) at e)
      | inr given ↦
          rw (flows, given, valid)
            (validated_eq claims ctx.client_ip x (rw (flows, given, valid) at e))
    ]
  ]

  pub admitted_lem :
      (req : Request) (ctx : Context) (x : Session r) (claims : TicketClaims)
      → (v1_sse_stream_events jwt codec cfg instance_id tracks flushes clock time now signals req
          ctx x).0
        ≡ streamed
      → validate_ticket jwt cfg.auth now req.query_ticket ≡ ok claims
      → (validate_and_consume claims.subject claims.ip claims.id x.world).0 ≡ ok true
  admitted_lem req ctx x claims e valid =
      let (claims', valid', _, used, _) =
        answers_lem r jwt codec cfg instance_id tracks flushes clock time now signals req ctx x e in
      let same : claims' ≡ claims = cc (valid, valid') in
      subst (λ z. (validate_and_consume z.subject z.ip z.id x.world).0 ≡ ok true) same used

  -- After a request that opened a stream, Redis holds no ticket for that client and address.
  pub stream-ticket_gone :
      (req : Request) (ctx : Context) (x : Session r) (claims : TicketClaims)
      → (v1_sse_stream_events jwt codec cfg instance_id tracks flushes clock time now signals req
          ctx x).0
        ≡ streamed
      → validate_ticket jwt cfg.auth now req.query_ticket ≡ ok claims
      → HoldsTicket r x.world.db claims.subject claims.ip
      → HoldsQueue r x.world claims.subject
      → r.at
          (v1_sse_stream_events jwt codec cfg instance_id tracks flushes clock time now signals req
            ctx x).1.world.db
          (ticket_key claims.subject claims.ip)
        ≡ none
  stream-ticket_gone req ctx x claims e valid h q =
      ap (λ z. r.at z.1.world.db (ticket_key claims.subject claims.ip))
        (handler_eq req ctx x claims e valid)
      ∙ used_up_lem claims.subject claims.ip claims.id x h q (admitted_lem req ctx x claims e valid)

-- One ticket, one stream: after a request has opened a stream and its handler has returned, no
-- request with a ticket for that client and address opens another one from what it left in Redis, on
-- whatever instance, however often the connection to Redis broke and whatever became of the writes.
-- The ticket's key held a text, and the client's queue was a list.
stream_once :
    (r : Redis) (jwt : Jwt) (codec : Json) (cfg : Config) (instance instance' : String)
    (tracks tracks' flushes flushes' : Bool) (clock clock' : ℕ) (time time' : String) (now now' : ℕ)
    (signals signals' : List Signal) (req req' : Request) (ctx ctx' : Context) (x y : Session r)
    (claims claims' : TicketClaims)
    → HoldsTicket r x.world.db claims.subject claims.ip
    → HoldsQueue r x.world claims.subject
    → validate_ticket jwt cfg.auth now req.query_ticket ≡ ok claims
    → let first =
        v1_sse_stream_events jwt codec cfg instance tracks flushes clock time now signals req ctx
          x in
      first.0 ≡ streamed
      → y.world ≡ first.1.world
      → validate_ticket jwt cfg.auth now' req'.query_ticket ≡ ok claims'
      → claims'.subject ≡ claims.subject
      → claims'.ip ≡ claims.ip
      → (v1_sse_stream_events jwt codec cfg instance' tracks' flushes' clock' time' now' signals'
          req' ctx' y).0
        ≢ streamed
stream_once r jwt codec cfg instance instance' tracks tracks' flushes flushes' clock clock' time
      time' now now' signals signals' req req' ctx ctx' x y claims claims' h q valid e same valid'
      who where_ again =
    let gone =
      stream-ticket_gone r jwt codec cfg instance tracks flushes clock time now signals req ctx x
        claims e valid h q in
    let used =
      admitted_lem r jwt codec cfg instance' tracks' flushes' clock' time' now' signals' req' ctx' y
        claims' again valid' in
    let empty : r.at y.world.db (ticket_key claims'.subject claims'.ip) ≡ none =
      rw (same, who, where_) gone in
    let there : HoldsTicket r y.world.db claims'.subject claims'.ip = rw empty tt in
    let (found, _, _) = accepted_lem r claims'.subject claims'.ip claims'.id y.world there used in
    cc (rw empty at found)
