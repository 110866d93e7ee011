-- ===== src/Http/Server/Requests/Sends.antt =====
-- server.go: what a request changes in Redis, as the commands that it sends.
use scorpion.Prelude.{
  ℕ, String, ◌≡◌, sym, subst, refl, inl, inr, Bool, Bool-cases, Option, some, List, ◌==◌, eq_iff,
  Result, ok, err,
}
use scorpion.Prelude.Int.{ℤ}
use scorpion.Redis.{Redis}
use scorpion.World.{World}
use scorpion.World.Confined.{StreamCommand}
use scorpion.Config.{Config}
use scorpion.Json.{Json}
use scorpion.Auth.{Jwt, TicketClaims, validate_ticket}
use scorpion.Ack.{Publisher}
use scorpion.Repository.Tickets.{validate_and_consume}
use scorpion.Repository.Commands.Sent.{commands, perform, consumes}
use scorpion.Repository.Commands.Reached.{
  Reached, Reached-refl, Reached-trans, Reached-widened, perform-Reached,
}
use scorpion.Stream.Session.{Session}
use scorpion.Stream.Loop.{Signal}
use scorpion.Http.{Request}
use scorpion.Http.Middleware.{Strategy, Handler, ip_middleware, token_middleware}
use scorpion.Http.Middleware.Passes.{token_middleware-passes}
use scorpion.Http.Handlers.Ticket.{v1_auth_ticket}
use scorpion.Http.Handlers.Event.{v1_insert_event}
use scorpion.Http.Handlers.Ack as Acks
use scorpion.Http.Handlers.Stream.{validated, v1_sse_stream_events}
use scorpion.Http.Handlers.Stream.Lifecycle.{consumed-Within}
use scorpion.Http.Server.{post_ticket, post_event, post_ack, get_stream}
use scorpion.Http.Server.Polling.{fresh_context}
use scorpion.Http.Server.Requests.{
  Route, get_healthz_route, post_ticket_route, post_event_route, post_ack_route, get_events_route,
  get_stream_route, new_session, respond,
}
use scorpion.Http.Server.Requests.Guarded.{healthz_db, get_events_same}
use scorpion.Http.Server.Requests.Marks.{v1_ack_event-Came}
use scorpion.Http.Server.Requests.Posts.{v1_auth_ticket-Came, v1_insert_event-Came}
use scorpion.Http.Server.Requests.Permits.{TicketCommand, Validated, IsOf, Permits}

module _ (r : Redis) (jwt : Jwt) (codec : Json) (cfg : Config) (instance_id : String)
    (tracks flushes : Bool) (clock : ℕ) (time : String) (now : ℕ) (signals : List Signal) where
  validated-Sends :
      (m : Result TicketClaims) (ip : String) (x : Session r)
      → Reached r
          (Validated m)
          x.world.db
          (validated jwt codec cfg instance_id tracks flushes clock time now signals m
            (some ip)
            x).1.world.db
  unfolding validated perform commands
  validated-Sends (err e) ip x = Reached-refl r _ x.world.db
  validated-Sends (ok claims) ip x = elim (Bool-cases (ip == "")) [
    | inl empty ↦ rw empty (Reached-refl r _ x.world.db)
    | inr known ↦ elim (Bool-cases (ip == claims.ip)) [
      | inr other ↦ rw (known, other) (Reached-refl r _ x.world.db)
      | inl same ↦
          let here : ip ≡ claims.ip = (eq_iff ip claims.ip).0 same in
          let (answer, w) = validate_and_consume claims.subject ip claims.id x.world in
          rw (known, same)
            (Reached-trans r (TicketCommand claims)
              (perform-Reached r (TicketCommand claims) (consumes claims.subject ip claims.id)
                x.world (inl (refl, here, refl), tt) (Reached-refl r _ x.world.db))
              (Reached-widened r
                (λ cmd h. inr (subst (λ z. StreamCommand claims.subject z cmd) here h))
                (consumed-Within r jwt codec cfg instance_id tracks flushes clock time now signals
                  claims.subject ip answer w x).keys.sent))
    ]
  ]

  v1_sse_stream_events-Sends :
      (req : Request) (o : Option String) (ip : String) (x : Session r)
      → Reached r
          (Validated (validate_ticket jwt cfg.auth now req.query_ticket))
          x.world.db
          (v1_sse_stream_events jwt codec cfg instance_id tracks flushes clock time now signals req
            (record { client_id = o; client_ip = some ip })
            x).1.world.db
  unfolding v1_sse_stream_events
  v1_sse_stream_events-Sends req o ip x = elim (Bool-cases flushes) [
    | inr closed ↦ rw closed (Reached-refl r _ x.world.db)
    | inl flows ↦ elim (Bool-cases (req.query_ticket == "")) [
      | inl empty ↦ rw (flows, empty) (Reached-refl r _ x.world.db)
      | inr given ↦
          rw (flows, given)
            (validated-Sends (validate_ticket jwt cfg.auth now req.query_ticket) ip x)
    ]
  ]

module _ (jwt : Jwt) (codec : Json) (strategy : Strategy) (cfg : Config) (now : ℕ)
    (req : Request) where
  -- A handler behind the middleware for tokens does what it does for the client of the token.
  for_client {ℓ κ} :
      {S : Type ℓ} (next : Handler S) (P : S → Type κ) (s : S)
      → ((c : String)
          → IsOf jwt codec strategy cfg now req c
          → P
              (next req
                (record {
                  client_id = some c;
                  client_ip = some (strategy req.header req.remote_addr);
                })
                s).1)
      → P s
      → P (token_middleware jwt cfg.auth strategy now next req fresh_context s).1
  for_client next P s does h =
      elim (token_middleware-passes jwt cfg.auth strategy now next req s fresh_context) [
        | inl (inl refused) ↦ rw refused h
        | inl (inr nowhere) ↦ rw nowhere h
        | inr (c, valid, _, _, _, ran) ↦ subst (λ z. P z.1) (sym ran) (does c valid)
      ]

module _ (r : Redis) (jwt : Jwt) (codec : Json) (strategy : Strategy) (cfg : Config)
    (atoi : String → Option ℤ) (p : Publisher) (instance_id : String) (tracks : Bool) (now : ℕ)
    (req : Request) where
  abbrev Sends : Route → r.Db → r.Db → Type 0
  Sends route = Reached r (Permits jwt codec strategy cfg now req route)

  get_stream-Sends :
      (flushes : Bool) (clock : ℕ) (time : String) (signals : List Signal) (x : Session r)
      → Reached r
          (Validated (validate_ticket jwt cfg.auth now req.query_ticket))
          x.world.db
          (get_stream jwt codec strategy cfg now instance_id tracks flushes clock time signals req
            fresh_context x).1.world.db
  unfolding get_stream ip_middleware
  get_stream-Sends flushes clock time signals x =
      elim (Bool-cases (strategy req.header req.remote_addr == "")) [
        | inl nowhere ↦ rw nowhere (Reached-refl r _ x.world.db)
        | inr somewhere ↦ rw somewhere (
            v1_sse_stream_events-Sends r jwt codec cfg instance_id tracks flushes clock time now
              signals req _ _ x)
      ]

  -- Whatever becomes of the connection to Redis, a request changes the keyspace by commands of the
  -- stores, each of which its route and its credential permit: for a ticket the count of the
  -- address, and the ticket for the token's client at it; for an event the queue of the path's
  -- client, who is the token's; for an acknowledgement the event that the body names, of the token's
  -- client; for a stream the use of its ticket, and the connection, the queue and the in-flight events
  -- of the ticket's client, at the ticket's address. The other routes change nothing.
  pub respond_sent :
      (route : Route) (w : World r) (s : p.State)
      → Reached r
          (Permits jwt codec strategy cfg now req route)
          w.db
          (respond jwt codec strategy cfg atoi p instance_id tracks now route req (w, s)).1.0.db
  unfolding respond post_ticket post_event post_ack commands
  respond_sent get_healthz_route w s =
      subst (λ d. Sends get_healthz_route w.db d)
        (sym (healthz_db r jwt codec strategy cfg atoi p instance_id tracks now req w))
        (Reached-refl r _ w.db)
  respond_sent (post_ticket_route jti) w s =
      let route = post_ticket_route jti in
      for_client jwt codec strategy cfg now req (v1_auth_ticket jwt cfg jti now)
        (λ z. Sends route w.db z.db) w
        (λ c valid.
          v1_auth_ticket-Came r (Permits jwt codec strategy cfg now req route) w.db jwt cfg jti now
            req c _ w refl (valid, refl, refl, refl) (Reached-refl r _ w.db))
        (Reached-refl r _ w.db)
  respond_sent (post_event_route uuid) w s =
      let route = post_event_route uuid in
      for_client jwt codec strategy cfg now req (v1_insert_event codec cfg uuid)
        (λ z. Sends route w.db z.db) w
        (λ c valid.
          v1_insert_event-Came r (Permits jwt codec strategy cfg now req route) w.db codec cfg uuid
            req _ w
            (λ own raw.
              let mine : IsOf jwt codec strategy cfg now req req.param_client_id =
                subst (λ z. IsOf jwt codec strategy cfg now req z) own valid in
              ((mine, refl), ((mine, refl), tt)))
            (Reached-refl r _ w.db))
        (Reached-refl r _ w.db)
  respond_sent (post_ack_route ack_id server_now marked_at) w s =
      let route = post_ack_route ack_id server_now marked_at in
      for_client jwt codec strategy cfg now req
        (Acks.v1_ack_event p codec ack_id server_now marked_at) (λ z. Sends route w.db z.0.db)
        (w, s)
        (λ c valid.
          v1_ack_event-Came r (Permits jwt codec strategy cfg now req route) w.db p codec ack_id
            server_now marked_at req c _ w s
            (λ e named. ((valid, named, refl), ((valid, named), tt))) (Reached-refl r _ w.db))
        (Reached-refl r _ w.db)
  respond_sent get_events_route w s =
      subst (λ z. Sends get_events_route w.db z.db)
        (sym (get_events_same r jwt codec strategy cfg atoi p instance_id tracks now req w))
        (Reached-refl r _ w.db)
  respond_sent (get_stream_route flushes clock time writes signals) w s =
      get_stream-Sends flushes clock time signals (new_session w writes)
