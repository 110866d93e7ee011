-- ===== src/Http/Server/Requests/Redeems.antt =====
-- server.go: how many streams a ticket opens, over a whole history of requests.
use scorpion.Prelude.{
  ℕ, ◌+◌, ◌≤◌, String, ◌≡◌, refl, inl, inr, Bool, true, false, Bool-cases, one_if, ◌&&◌, Option,
  none, some, List, [], ◌∷◌, ◌==◌, eq_iff, Result, ok, err, arith,
}
use scorpion.Prelude.Int.{ℤ}
use scorpion.Redis.{Redis}
use scorpion.World.{World}
use scorpion.World.Typed.{Typed}
use scorpion.World.Aged.{elapse-Typed}
use scorpion.Config.{Config}
use scorpion.Json.{Json}
use scorpion.Auth.{Jwt, TicketClaims, validate_ticket}
use scorpion.Ack.{Publisher}
use scorpion.Repository.Keys.Kinds.{ticket_key-TextKey}
use scorpion.Repository.Tickets.Use.{wait, HoldsTicket, accepted_lem}
use scorpion.Stream.Session.{Session}
use scorpion.Stream.Loop.{Signal}
use scorpion.Repository.Commands.Tickets.{waiting}
use scorpion.Repository.Commands.Reached.{Reached-Typed}
use scorpion.Http.{Request, Response, Context, json, streamed, panicked}
use scorpion.Http.Middleware.{Strategy, ip_middleware}
use scorpion.Http.Handlers.Stream.Lifecycle.{admitted_lem, stream-ticket_gone}
use scorpion.Http.Server.{get_stream}
use scorpion.Http.Server.Polling.{fresh_context}
use scorpion.Http.Server.Requests.{Route, get_stream_route, Shared, new_session, respond}
use scorpion.Http.Server.Requests.Draws.{draws, waited, respond_adds}
use scorpion.Http.Server.Requests.Sends.{respond_sent}
use scorpion.Http.Server.Requests.History.{Happening, asks, passes}

abbrev is_streamed : Response → Bool
is_streamed streamed = true
is_streamed _ = false

-- Whether these are the claims of the ticket.
abbrev claims_of : (c ip jti : String) → Result TicketClaims → Bool
claims_of c ip jti (err _) = false
claims_of c ip jti (ok claims) = claims.subject == c && claims.ip == ip && claims.id == jti

-- The requests of a history that draw the id.
unfoldable pub times_drawn : String → List Happening → ℕ
times_drawn jti [] = 0
times_drawn jti (asks _ _ route _ ∷ rest) = one_if (draws jti route) + times_drawn jti rest
times_drawn jti (passes _ ∷ rest) = times_drawn jti rest

module _ (r : Redis) (jwt : Jwt) (codec : Json) (strategy : Strategy) (cfg : Config)
    (atoi : String → Option ℤ) (p : Publisher) (tracks : Bool) (c ip jti : String) where
  -- Whether a request on the route, with this answer, opened a stream with the ticket.
  unfoldable pub opened : (now : ℕ) → Route → Request → Response → ℕ
  opened now (get_stream_route _ _ _ _ _) req answer =
      one_if (
        claims_of c ip jti (validate_ticket jwt cfg.auth now req.query_ticket)
        && is_streamed answer)
  opened now _ req answer = 0

  -- The streams that are opened over a history.
  unfoldable pub times_opened : List Happening → Shared r p → ℕ
  times_opened [] x = 0
  times_opened (asks instance_id now route req ∷ rest) x =
      let (answer, x') = respond jwt codec strategy cfg atoi p instance_id tracks now route req x in
      opened now route req answer + times_opened rest x'
  times_opened (passes n ∷ rest) (w, s) = times_opened rest (wait n w, s)

  streamed_lem : (answer : Response) → is_streamed answer ≡ true → answer ≡ streamed
  streamed_lem (json _ _) e = cc
  streamed_lem streamed e = refl
  streamed_lem panicked e = cc

  claims_lem :
      (m : Result TicketClaims)
      → claims_of c ip jti m ≡ true
      → (claims : TicketClaims) × (m ≡ ok claims)
        × (claims.subject ≡ c)
        × (claims.ip ≡ ip)
        × (claims.id ≡ jti)
  claims_lem (err _) e = cc
  claims_lem (ok claims) e = (
    claims,
    refl,
    ground (arith, eq_iff claims.subject c),
    ground (arith, eq_iff claims.ip ip),
    ground (arith, eq_iff claims.id jti),
  )

  module _ (instance_id : String) (flushes : Bool) (clock : ℕ) (time : String)
      (signals : List Signal) (now : ℕ) (req : Request) where
    -- A stream that is opened takes the ticket that waits.
    stream_takes :
        (x : Session r) (claims : TicketClaims)
        → Typed r x.world.db
        → validate_ticket jwt cfg.auth now req.query_ticket ≡ ok claims
        → let after =
            get_stream jwt codec strategy cfg now instance_id tracks flushes clock time signals req
              fresh_context x in
          after.0 ≡ streamed
          → (waiting r claims.subject claims.ip claims.id x.world.db ≡ 1)
            × (waiting r claims.subject claims.ip claims.id after.1.world.db ≡ 0)
    unfolding get_stream ip_middleware
    stream_takes x claims t valid e =
        elim (Bool-cases (strategy req.header req.remote_addr == "")) [
          | inl nowhere ↦ cc (rw nowhere at e)
          | inr somewhere ↦
              let ctx : Context = record {
                client_id = none;
                client_ip = some (strategy req.header req.remote_addr);
              } in
              let e' = rw somewhere at e in
              let h : HoldsTicket r x.world.db claims.subject claims.ip =
                t.texts _ (ticket_key-TextKey claims.subject claims.ip) in
              let used =
                admitted_lem r jwt codec cfg instance_id tracks flushes clock time now signals req
                  ctx x claims e' valid in
              let (there, _, _) =
                accepted_lem r claims.subject claims.ip claims.id x.world h used in
              let gone =
                stream-ticket_gone r jwt codec cfg instance_id tracks flushes clock time now signals
                  req ctx x claims e' valid h (t.lists claims.subject) in
              rw (somewhere, there, gone) (refl, refl)
        ]

  both : (a b : Bool) → (a && b) ≡ true → (a ≡ true) × (b ≡ true)
  both true true e = (refl, refl)
  both true false e = cc
  both false b e = cc

  request_pays :
      (instance_id : String) (now : ℕ) (route : Route) (req : Request) (w : World r) (s : p.State)
      → Typed r w.db
      → let after = respond jwt codec strategy cfg atoi p instance_id tracks now route req (w, s) in
        opened now route req after.0 + waiting r c ip jti after.1.0.db
        ≤ one_if (draws jti route) + waiting r c ip jti w.db
  unfolding opened respond
  request_pays instance_id now (get_stream_route flushes clock time writes signals) req w s t =
      let route = get_stream_route flushes clock time writes signals in
      let m = validate_ticket jwt cfg.auth now req.query_ticket in
      let after =
        get_stream jwt codec strategy cfg now instance_id tracks flushes clock time signals req
          fresh_context (new_session w writes) in
      elim (Bool-cases (claims_of c ip jti m && is_streamed after.0)) [
        | inr otherwise ↦ rw otherwise (
            omega (
              arith,
              respond_adds r jwt codec strategy cfg atoi p tracks c ip jti instance_id now route req
                  w s t,
            ))
        | inl redeemed ↦
            let (right, flows) = both (claims_of c ip jti m) (is_streamed after.0) redeemed in
            let (claims, valid, same_c, same_ip, same_id) = claims_lem m right in
            let (before, gone) =
              stream_takes instance_id flushes clock time signals now req (new_session w writes)
                claims t valid (streamed_lem after.0 flows) in
            rw
              (
                redeemed,
                rw (same_c, same_ip, same_id) at before,
                rw (same_c, same_ip, same_id) at gone,
              )
              (omega arith)
      ]
  request_pays instance_id now route req w s t = omega (
    arith,
    respond_adds r jwt codec strategy cfg atoi p tracks c ip jti instance_id now route req w s t,
  )

  -- Over any history of requests to any instances, one after the other, wherever the
  -- connection to Redis breaks and whatever time passes: the streams that are opened with a ticket of
  -- this id, for a client and an address, are no more than the requests for tickets that drew the
  -- id, and the ticket that waits at the start. The keys hold the kinds of values that the program gives
  -- them.
  pub opened-le-drawn :
      (events : List Happening) (w : World r) (s : p.State)
      → Typed r w.db
      → times_opened events (w, s) ≤ times_drawn jti events + waiting r c ip jti w.db
  unfolding times_opened times_drawn
  opened-le-drawn [] w s t = omega arith
  opened-le-drawn (asks instance_id now route req ∷ rest) w s t =
      let (w', s') =
        (respond jwt codec strategy cfg atoi p instance_id tracks now route req (w, s)).1 in
      omega (
        arith,
        request_pays instance_id now route req w s t,
        opened-le-drawn rest w' s' (
            Reached-Typed r _
              (respond_sent r jwt codec strategy cfg atoi p instance_id tracks now req route w s)
              t),
      )
  opened-le-drawn (passes n ∷ rest) w s t = omega (
    arith,
    waited r c ip jti n w.db t,
    opened-le-drawn rest (wait n w) s (elapse-Typed r n w.db t),
  )
