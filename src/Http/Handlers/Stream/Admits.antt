-- ===== src/Http/Handlers/Stream/Admits.antt =====
-- stream.go: which requests open a stream.
use scorpion.Prelude.{
  ℕ, String, ◌≡◌, refl, sym, ap, ◌∙◌, inl, inr, Bool, true, false, Bool-cases, Option, none, some,
  ◌==◌, eq_iff, Result, ok, err, List,
}
use scorpion.Redis.{Redis, text, expiry, is_text}
use scorpion.World.{World}
use scorpion.Config.{Config}
use scorpion.Json.{Json}
use scorpion.Auth.{Jwt, TicketClaims, validate_ticket}
use scorpion.Repository.Keys.{ticket_key, conn_key}
use scorpion.Repository.Keys.Distinct.{ticket_key-ne-conn_key}
use scorpion.Repository.Tickets.{validate_and_consume}
use scorpion.Repository.Tickets.Use.{ticket, HoldsTicket, accepted_lem}
use scorpion.Repository.Connections
use scorpion.Repository.Connections.Exclusive.{connection, register_won}
use scorpion.Stream.Session.{Session}
use scorpion.Stream.Loop.{Signal}
use scorpion.Http.{Request, Context, streamed}
use scorpion.Http.Handlers.Stream.{registered, consumed, validated, v1_sse_stream_events}

module _ (r : Redis) (jwt : Jwt) (codec : Json) (cfg : Config) (instance_id : String)
    (tracks flushes : Bool) (clock : ℕ) (time : String) (now : ℕ) (signals : List Signal) where
  registered_lem :
      (c ip : String) (answer : Result Bool × World r) (x : Session r)
      → (registered jwt codec cfg instance_id tracks flushes clock time now signals c ip answer x).0
        ≡ streamed
      → answer.0 ≡ ok true
  unfolding registered
  registered_lem c ip (ok true, w) x e = refl
  registered_lem c ip (ok false, w) x e = cc
  registered_lem c ip (err why, w) x e = cc

  consumed_lem :
      (c ip : String) (answer : Result Bool × World r) (x : Session r)
      → (consumed jwt codec cfg instance_id tracks flushes clock time now signals c ip answer x).0
        ≡ streamed
      → (answer.0 ≡ ok true)
        × ((Connections.register instance_id c ip cfg.sse.conn_ttl answer.1).0 ≡ ok true)
  unfolding consumed
  consumed_lem c ip (ok true, w) x e =
      (refl, registered_lem c ip (Connections.register instance_id c ip cfg.sse.conn_ttl w) x e)
  consumed_lem c ip (ok false, w) x e = cc
  consumed_lem c ip (err why, w) x e = cc

  validated_lem :
      (m : Result TicketClaims) (o : Option String) (x : Session r)
      → (validated jwt codec cfg instance_id tracks flushes clock time now signals m o x).0
        ≡ streamed
      → (claims : TicketClaims) × (m ≡ ok claims)
        × (o ≡ some claims.ip)
        × ((validate_and_consume claims.subject claims.ip claims.id x.world).0 ≡ ok true)
        × ((Connections.register instance_id claims.subject claims.ip cfg.sse.conn_ttl
              (validate_and_consume claims.subject claims.ip claims.id x.world).1).0
            ≡ ok true)
  unfolding validated
  validated_lem (err why) o x e = cc
  validated_lem (ok claims) none x e = cc
  validated_lem (ok claims) (some ip) x e = elim (Bool-cases (ip == "")) [
    | inl empty ↦ cc (rw empty at e)
    | inr known ↦ elim (Bool-cases (ip == claims.ip)) [
      | inr other ↦ cc (rw (known, other) at e)
      | inl same ↦
          let here : ip ≡ claims.ip = (eq_iff ip claims.ip).0 same in
          let (used, entered) =
            consumed_lem claims.subject ip
              (validate_and_consume claims.subject ip claims.id x.world) x
              (rw (known, same) at e) in
          (claims, refl, ap some here, rw here at used, rw here at entered)
    ]
  ]

  -- What the handler was answered before it opened a stream.
  pub answers_lem :
      (req : Request) (ctx : Context) (x : Session r)
      → (v1_sse_stream_events jwt codec cfg instance_id tracks flushes clock time now signals req
          ctx x).0
        ≡ streamed
      → (claims : TicketClaims) × (validate_ticket jwt cfg.auth now req.query_ticket ≡ ok claims)
        × (ctx.client_ip ≡ some claims.ip)
        × ((validate_and_consume claims.subject claims.ip claims.id x.world).0 ≡ ok true)
        × ((Connections.register instance_id claims.subject claims.ip cfg.sse.conn_ttl
              (validate_and_consume claims.subject claims.ip claims.id x.world).1).0
            ≡ ok true)
  unfolding v1_sse_stream_events
  answers_lem req ctx x e = elim (Bool-cases flushes) [
    | inr closed ↦ cc (rw closed at e)
    | inl flows ↦ elim (Bool-cases (req.query_ticket == "")) [
      | inl empty ↦ cc (rw (flows, empty) at e)
      | inr given ↦
          validated_lem (validate_ticket jwt cfg.auth now req.query_ticket) ctx.client_ip x
            (rw (flows, given) at e)
    ]
  ]

  -- The ticket of the request validates and was made for the address that the request comes from;
  -- Redis held its id and no stream of that client and address; the id is gone after its validation,
  -- and this instance is registered with the time to live after that.
  abbrev pub Admitted : Request → Context → Session r → Type 0
  Admitted req ctx x =
      (claims : TicketClaims) × (let consumed =
          validate_and_consume claims.subject claims.ip claims.id x.world in
        let entered =
          Connections.register instance_id claims.subject claims.ip cfg.sse.conn_ttl consumed.1 in
        (validate_ticket jwt cfg.auth now req.query_ticket ≡ ok claims)
        × (ctx.client_ip ≡ some claims.ip)
        × (is_text (ticket r x.world.db claims.subject claims.ip) claims.id ≡ true)
        × (connection r x.world claims.subject claims.ip ≡ none)
        × (r.at consumed.1.db (ticket_key claims.subject claims.ip) ≡ none)
        × (connection r entered.1 claims.subject claims.ip
            ≡ some (record { value = text instance_id; ttl = expiry cfg.sse.conn_ttl })))

  -- A stream is opened only for a ticket that validates and was made for the address that the request
  -- comes from, whose id Redis still held, and only if no stream was registered for that client and
  -- address: the id is gone from Redis once it was checked, and the connection is registered then for
  -- this instance, with its time to live. The ticket keys hold texts; Redis may break at any request.
  pub stream_admits :
      (req : Request) (ctx : Context) (x : Session r)
      → ((c ip : String) → HoldsTicket r x.world.db c ip)
      → (v1_sse_stream_events jwt codec cfg instance_id tracks flushes clock time now signals req
          ctx x).0
        ≡ streamed
      → Admitted req ctx x
  stream_admits req ctx x h e =
      let (claims, valid, here, used, entered) = answers_lem req ctx x e in
      let c = claims.subject in
      let ip = claims.ip in
      let (held, gone, others) = accepted_lem r c ip claims.id x.world (h c ip) used in
      let (free, there) =
        register_won r c ip instance_id cfg.sse.conn_ttl
          (validate_and_consume c ip claims.id x.world).1 entered in
      let apart = ticket_key-ne-conn_key c ip c ip in
      (
        claims,
        (valid, here, held, sym (others (conn_key c ip) ∙ rw apart refl) ∙ free, gone, there),
      )
