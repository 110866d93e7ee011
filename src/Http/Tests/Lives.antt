-- ===== src/Http/Tests/Lives.antt =====
-- The life of a ticket and of a stream on concrete requests.
use scorpion.Prelude.{◌≡◌, refl, ◌⊎◌, true, none, [], ◌∷◌, ok, arith}
use scorpion.Prelude.{List}
use scorpion.Prelude.Int64.{int64}
use scorpion.Prelude.Int.{◌+ℤ◌, ◌-ℤ◌}
use scorpion.Redis.{IsCounter, IsText}
use scorpion.Redis.Memory.{memory}
use scorpion.World.{World, round_trip, answered, broken}
use scorpion.Auth.{generate_ticket, validate_real_token, key_function}
use scorpion.Auth.Fixture.{one_ticket, settings, alice as alice_claims}
use scorpion.RateLimit.{allow, limit_script, verdict}
use scorpion.RateLimit.Window.{counter_at}
use scorpion.Repository.Keys.{ticket_key, events_key, rate_limit_key}
use scorpion.Repository.Tickets.{store}
use scorpion.Repository.Tickets.Use.{wait, HoldsTicket}
use scorpion.Repository.Events.Queue.{HoldsQueue}
use scorpion.Repository.Connections.Exclusive.{connection}
use scorpion.Stream.Session.{Session}
use scorpion.Stream.Loop.{ctx_done}
use scorpion.Http.{Request, json, streamed, ticket_response}
use scorpion.Http.Middleware.{token_middleware, authorized}
use scorpion.Http.Middleware.Passes.{Passed, Refused, token_middleware-passes}
use scorpion.Http.Handlers.Ticket.{v1_auth_ticket}
use scorpion.Http.Handlers.Stream.{v1_sse_stream_events}
use scorpion.Http.Handlers.Stream.Closes.{stream_lifecycle}
use scorpion.Http.Server.{post_ticket, get_stream}
use scorpion.Http.Server.Polling.{fresh_context}
use scorpion.Http.Server.Exchange.{subject, ticket_exchange}
use scorpion.Ack.{log_publisher}
use scorpion.Http.Server.Requests.{Shared, post_ticket_route, get_stream_route, respond}
use scorpion.Repository.Commands.Reached.{Reached}
use scorpion.Http.Server.Requests.Permits.{Permits}
use scorpion.Http.Server.Requests.Sends.{respond_sent}
use scorpion.Http.Server.Requests.History.{Happening, asks, passes, history, history_kinds}
use scorpion.Http.Server.Requests.Guarded.{Untouched, Entitled, respond_guarded}
use scorpion.Http.Fixture.{config, codec, request, alice_context, empty, remote, differ}
use scorpion.Http.Tests.{
  session, signed_ticket, session-HoldsTicket, session_ticket, session_connection,
}

session-HoldsQueue : HoldsQueue memory session.world "alice"
unfolding events_key
session-HoldsQueue = tt

stream_lifecycle_example :
    let after =
      v1_sse_stream_events one_ticket codec config "node1" true true 100 "t" 120 []
        (request "")
        alice_context
        session in
    (after.0 ≡ streamed)
    × (connection memory after.1.world "alice" "10.0.0.1" ≡ none)
    × (memory.at after.1.world.db (ticket_key "alice" "10.0.0.1") ≡ none)
stream_lifecycle_example =
    stream_lifecycle memory one_ticket codec config "node1" true 100 "t" 120 [] (request "")
      alice_context session alice_claims (differ refl) signed_ticket (differ refl) refl refl
      session-HoldsTicket session_ticket session_connection session-HoldsQueue

-- A request with alice's token of the application.
abbrev from_alice : Request
from_alice = record (request "") { authorization = "Bearer alice's" }

token_middleware-passes_example :
    let next = v1_auth_ticket one_ticket config "t1" 100 in
    let answer =
      token_middleware one_ticket settings remote 100 next from_alice fresh_context empty in
    Refused one_ticket settings remote 100 next from_alice empty answer
    ⊎ Passed one_ticket settings remote 100 next from_alice empty answer
token_middleware-passes_example =
    token_middleware-passes one_ticket settings remote 100
      (v1_auth_ticket one_ticket config "t1" 100) from_alice empty fresh_context

alices_token : subject memory one_ticket codec remote config 100 from_alice ≡ ok "alice"
unfolding validate_real_token key_function
alices_token = refl

issued_to_alice :
    (post_ticket one_ticket codec remote config 100 "t1" from_alice fresh_context empty).0
    ≡ json 200 (ticket_response "signed" 30)
unfolding post_ticket token_middleware authorized validate_real_token key_function v1_auth_ticket
    allow limit_script verdict store generate_ticket rate_limit_key round_trip ◌+ℤ◌ ◌-ℤ◌ int64
issued_to_alice = refl

empty-IsCounter : IsCounter (counter_at memory empty "10.0.0.1")
unfolding rate_limit_key
empty-IsCounter = tt

-- A session twenty seconds after the ticket was handed out.
abbrev later_session : Session memory
later_session = record session {
  world =
      wait 20
        (post_ticket one_ticket codec remote config 100 "t1" from_alice fresh_context empty).1;
}

ticket_exchange_example :
    (get_stream one_ticket codec remote config 120 "node1" true true 120 "t"
      (ctx_done 130 "t" ∷ [])
      (request "")
      fresh_context
      later_session).0
    ≡ streamed
ticket_exchange_example =
    ticket_exchange memory one_ticket codec remote config "t1" "signed" "alice" 100 20 30 from_alice
      (request "") empty later_session "node1" true 120 "t" (ctx_done 130 "t" ∷ []) issued_to_alice
      alices_token (omega arith) refl empty-IsCounter refl refl refl (differ refl) refl

abbrev shared : Shared memory log_publisher
shared = (empty, tt)

respond_guarded_example :
    Untouched memory one_ticket codec remote config
      (λ _. none)
      log_publisher
      "node1"
      true
      100
      from_alice
      shared
      (respond one_ticket codec remote config
        (λ _. none)
        log_publisher
        "node1"
        true
        100
        (post_ticket_route "t1")
        from_alice
        shared).1
    ⊎ Entitled memory one_ticket codec remote config
        (λ _. none)
        log_publisher
        "node1"
        true
        100
        from_alice
        (post_ticket_route "t1")
respond_guarded_example =
    respond_guarded memory one_ticket codec remote config (λ _. none) log_publisher "node1" true 100
      from_alice (post_ticket_route "t1") empty tt

respond_sent_example :
    Reached memory
      (Permits one_ticket codec remote config 100 from_alice (post_ticket_route "t1"))
      empty.db
      (respond one_ticket codec remote config
        (λ _. none)
        log_publisher
        "node1"
        true
        100
        (post_ticket_route "t1")
        from_alice
        shared).1.0.db
respond_sent_example =
    respond_sent memory one_ticket codec remote config (λ _. none) log_publisher "node1" true 100
      from_alice (post_ticket_route "t1") empty tt

-- A ticket, and a stream on another instance twenty seconds later, whose connection to Redis breaks.
abbrev happenings : List Happening
happenings =
    asks "node1" 100 (post_ticket_route "t1") from_alice
    ∷ passes 20
    ∷ asks "node2" 120 (get_stream_route true 120 "t" (true ∷ []) (ctx_done 130 "t" ∷ []))
        (request "")
    ∷ []

abbrev fragile : World memory
fragile = record empty { outcomes = answered ∷ answered ∷ broken 1 "EOF" ∷ [] }

history_kinds_example :
    let after =
      (history memory one_ticket codec remote config
        (λ _. none)
        log_publisher
        true
        happenings
        (fragile, tt)).0 in
    HoldsQueue memory after "alice"
    × HoldsTicket memory after.db "alice" "10.0.0.1"
    × IsText (connection memory after "alice" "10.0.0.1")
    × IsCounter (counter_at memory after "10.0.0.1")
history_kinds_example =
    history_kinds memory one_ticket codec remote config (λ _. none) log_publisher true happenings
      fragile tt "alice" "10.0.0.1" (λ _. refl)
