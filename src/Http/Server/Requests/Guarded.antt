-- ===== src/Http/Server/Requests/Guarded.antt =====
-- server.go: what a request needs to change anything.
use Prim.Native.String.{len, slice}
use scorpion.Prelude.{
  ℕ, String, ◌≡◌, refl, ap, ◌∙◌, ◌⊎◌, inl, inr, Bool, Bool-cases, Option, some, List, ◌==◌, eq_iff,
  Result, ok, err,
}
use scorpion.Prelude.Int.{ℤ}
use scorpion.Redis.{Redis}
use scorpion.World.{World}
use scorpion.World.Trips.{read_only}
use scorpion.Config.{Config}
use scorpion.Json.{Json}
use scorpion.Auth.{Jwt, TicketClaims, validate_ticket, validate_real_token}
use scorpion.Ack.{Publisher}
use scorpion.Stream.Session.{Session}
use scorpion.Stream.Loop.{Signal}
use scorpion.Http.{Request}
use scorpion.Http.Middleware.{Strategy, Handler, ip_middleware, token_middleware}
use scorpion.Http.Middleware.Passes.{token_middleware-passes}
use scorpion.Http.Handlers.Health.{ping, healthy, healthz}
use scorpion.Http.Handlers.Ticket.{v1_auth_ticket}
use scorpion.Http.Handlers.Event.{v1_insert_event}
use scorpion.Http.Handlers.Ack.{v1_ack_event}
use scorpion.Http.Handlers.Stream.{validated, v1_sse_stream_events}
use scorpion.Http.Server.{post_ticket, post_event, post_ack, get_events, get_stream}
use scorpion.Http.Server.Polling.{fresh_context, get_events_refused}
use scorpion.Http.Server.Requests.{
  Route, get_healthz_route, post_ticket_route, post_event_route, post_ack_route, get_events_route,
  get_stream_route, new_session, respond,
}

module _ (r : Redis) (jwt : Jwt) (codec : Json) (strategy : Strategy) (cfg : Config)
    (atoi : String → Option ℤ) (p : Publisher) (instance_id : String) (tracks : Bool) (now : ℕ)
    (req : Request) where
  -- A bearer token that validates.
  abbrev BearsToken : Type 0
  BearsToken =
      (c : String) × (validate_real_token jwt cfg.auth now
          (slice req.authorization 7 (len req.authorization))
        ≡ ok c)
      × (slice req.authorization 0 7 ≡ "Bearer ")

  -- A ticket that validates, made for the address of the request.
  abbrev HasTicket : Type 0
  HasTicket =
      (claims : TicketClaims) × (validate_ticket jwt cfg.auth now req.query_ticket ≡ ok claims)
      × (strategy req.header req.remote_addr ≡ claims.ip)

  abbrev pub Entitled : Route → Type 0
  Entitled get_healthz_route = ⊥
  Entitled (post_ticket_route _) = BearsToken
  Entitled (post_event_route _) = BearsToken
  Entitled (post_ack_route _ _ _) = BearsToken
  Entitled get_events_route = ⊥
  Entitled (get_stream_route _ _ _ _ _) = HasTicket

  abbrev pub Untouched : World r × p.State → World r × p.State → Type 0
  Untouched (w, s) (w', s') = (w'.db ≡ w.db) × (s' ≡ s)

  -- A handler behind the middleware for tokens.
  token_guarded {ℓ} :
      {S : Type ℓ} (next : Handler S) (x : S)
      → ((token_middleware jwt cfg.auth strategy now next req fresh_context x).1 ≡ x) ⊎ BearsToken
  token_guarded next x =
      elim (token_middleware-passes jwt cfg.auth strategy now next req x fresh_context) [
        | inl (inl refused) ↦ inl (ap (λ z. z.1) refused)
        | inl (inr nowhere) ↦ inl (ap (λ z. z.1) nowhere)
        | inr (c, valid, bearer, _, _, _) ↦ inr (c, valid, bearer)
      ]

  healthy_db : (x : Result (Unit {0}) × World r) → (healthy x).1.db ≡ x.1.db
  unfolding healthy
  healthy_db (err e, w) = refl
  healthy_db (ok _, w) = refl

  pub healthz_db : (w : World r) → (healthz w).1.db ≡ w.db
  unfolding healthz ping
  healthz_db w = healthy_db (ping w) ∙ read_only (λ _. tt {0}) w

  pub get_events_same :
      (w : World r) → (get_events jwt codec strategy cfg now atoi req fresh_context w).1 ≡ w
  get_events_same w =
      ap (λ z. z.1) (get_events_refused r jwt codec strategy cfg now atoi req w)
      ∙ elim (Bool-cases (strategy req.header req.remote_addr == "")) [
        | inl nowhere ↦ rw nowhere refl
        | inr somewhere ↦ elim (Bool-cases (req.param_client_id == "")) [
          | inl empty ↦ rw (somewhere, empty) refl
          | inr named ↦ rw (somewhere, named) refl
        ]
      ]

  module _ (flushes : Bool) (clock : ℕ) (time : String) (signals : List Signal) where
    validated_guarded :
        (m : Result TicketClaims) (ip : String) (x : Session r)
        → ((validated jwt codec cfg instance_id tracks flushes clock time now signals m
              (some ip)
              x).1.world.db
            ≡ x.world.db)
          ⊎ ((claims : TicketClaims) × (m ≡ ok claims) × (ip ≡ claims.ip))
    unfolding validated
    validated_guarded (err why) ip x = inl refl
    validated_guarded (ok claims) ip x = elim (Bool-cases (ip == "")) [
      | inl empty ↦ rw empty (inl refl)
      | inr known ↦ elim (Bool-cases (ip == claims.ip)) [
        | inl same ↦ inr (claims, refl, (eq_iff ip claims.ip).0 same)
        | inr other ↦ rw (known, other) (inl refl)
      ]
    ]

    stream_guarded :
        (x : Session r)
        → ((get_stream jwt codec strategy cfg now instance_id tracks flushes clock time signals req
              fresh_context x).1.world.db
            ≡ x.world.db)
          ⊎ HasTicket
    unfolding get_stream ip_middleware v1_sse_stream_events
    stream_guarded x = elim (Bool-cases (strategy req.header req.remote_addr == "")) [
      | inl nowhere ↦ rw nowhere (inl refl)
      | inr somewhere ↦ elim (Bool-cases flushes) [
        | inr closed ↦ rw (somewhere, closed) (inl refl)
        | inl flows ↦ elim (Bool-cases (req.query_ticket == "")) [
          | inl empty ↦ rw (somewhere, flows, empty) (inl refl)
          | inr given ↦
              rw (somewhere, flows, given)
                (validated_guarded (validate_ticket jwt cfg.auth now req.query_ticket)
                  (strategy req.header req.remote_addr) x)
        ]
      ]
    ]

  -- Whatever the route, a request changes nothing in Redis, and publishes nothing, unless it comes with
  -- the credential of its route: for a ticket, an event or an acknowledgement a bearer token that
  -- validates, and for a stream a ticket that validates and was made for the address of the request. The
  -- other routes change nothing at all.
  pub respond_guarded :
      (route : Route) (w : World r) (s : p.State)
      → Untouched
          (w, s)
          (respond jwt codec strategy cfg atoi p instance_id tracks now route req (w, s)).1
        ⊎ Entitled route
  unfolding respond post_ticket post_event post_ack
  respond_guarded get_healthz_route w s = inl (healthz_db w, refl)
  respond_guarded (post_ticket_route jti) w s =
      elim (token_guarded (v1_auth_ticket jwt cfg jti now) w) [
        | inl same ↦ inl (ap (λ z. z.db) same, refl)
        | inr entitled ↦ inr entitled
      ]
  respond_guarded (post_event_route uuid) w s =
      elim (token_guarded (v1_insert_event codec cfg uuid) w) [
        | inl same ↦ inl (ap (λ z. z.db) same, refl)
        | inr entitled ↦ inr entitled
      ]
  respond_guarded (post_ack_route ack_id server_now marked_at) w s =
      elim (token_guarded (v1_ack_event p codec ack_id server_now marked_at) (w, s)) [
        | inl same ↦ inl (ap (λ z. z.0.db) same, ap (λ z. z.1) same)
        | inr entitled ↦ inr entitled
      ]
  respond_guarded get_events_route w s = inl (ap (λ z. z.db) (get_events_same w), refl)
  respond_guarded (get_stream_route flushes clock time writes signals) w s =
      elim (stream_guarded flushes clock time signals (new_session w writes)) [
        | inl same ↦ inl (same, refl)
        | inr entitled ↦ inr entitled
      ]
