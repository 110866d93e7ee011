-- ===== src/Http/Tests.antt =====
-- The handlers on concrete requests.
mod Lives
mod Delivery
mod Redeems
use scorpion.Prelude.{arith, String, ok, ◌≡◌, refl, ◌⊎◌, true, false, none, some, [], ◌∷◌}
use scorpion.Prelude.Int64.{int64}
use scorpion.Prelude.Int.{◌+ℤ◌, ◌-ℤ◌}
use scorpion.Redis.Memory.{memory, nothing, put}
use scorpion.World.{World, calm, round_trip}
use scorpion.Domain.{AckRequest}
use scorpion.Auth.{generate_ticket, validate_ticket, key_function}
use scorpion.Auth.Fixture.{one_ticket, settings}
use scorpion.RateLimit.{allow, limit_script, verdict}
use scorpion.Ack.{log_publisher}
use scorpion.Repository.Keys.{rate_limit_key, ticket_key, conn_key, in_flight_key, acked_key}
use scorpion.Repository.Tickets.{store, ticket_script, validate_and_consume}
use scorpion.Repository.Events.Queue.{queue, HoldsQueue}
use scorpion.Repository.InFlight.Acks.{in_flight, acked}
use scorpion.Repository.Connections
use scorpion.Stream.Breaker.{new_circuit_breaker}
use scorpion.Stream.Session.{Session}
use scorpion.Http.{json, streamed, failure, ticket_response, event_response, ack_response}
use scorpion.Http.Handlers.Ticket.{v1_auth_ticket}
use scorpion.Http.Handlers.Ticket.Stores.{Issued, ticket-Issued}
use scorpion.Http.Handlers.Event.{v1_insert_event}
use scorpion.Http.Handlers.Stream.{v1_sse_stream_events}
use scorpion.Redis.{is_text}
use scorpion.Auth.Fixture.{alice as alice_claims}
use scorpion.Repository.Tickets.Use.{ticket, HoldsTicket}
use scorpion.Repository.Connections.Exclusive.{connection}
use scorpion.Http.Handlers.Stream.Opens.{stream_opens}
use scorpion.Http.Handlers.Stream.Admits.{Admitted, stream_admits}
use scorpion.Http.Handlers.Ack.{v1_ack_event, validate_ack_request, response_of}
use scorpion.Http.Handlers.Ack.Once.{ack_once}
use scorpion.Http.Handlers.Ack.Refusals.{Unchanged, Publishes, ack_refusals}
use scorpion.Http.Server.{get_events}
use scorpion.Http.Server.Polling.{fresh_context, get_events_refused}
use scorpion.Http.Fixture.{
  config, acknowledgement, codec, request, alice_context, bob_context, empty, remote, differ,
}

get_events_refused_example :
    get_events one_ticket codec remote config 120 (λ _. none) (request "") fresh_context empty
    ≡ (json 403 (failure "forbidden" "You may only poll your own event queue."), empty)
get_events_refused_example =
    get_events_refused memory one_ticket codec remote config 120 (λ _. none) (request "") empty

issued_now :
    (v1_auth_ticket one_ticket config "t1" 100 (request "") alice_context empty).0
    ≡ json 200 (ticket_response "signed" 30)
unfolding v1_auth_ticket allow limit_script verdict store generate_ticket rate_limit_key round_trip
    ◌+ℤ◌ ◌-ℤ◌ int64
issued_now = refl

ticket-Issued_example : Issued memory one_ticket config "t1" 100 (request "") alice_context empty
ticket-Issued_example =
    ticket-Issued memory one_ticket config "t1" 100 (request "") alice_context empty
      (ticket_response "signed" 30) issued_now

abbrev pub session : Session memory
session = record {
  world = calm memory (put "scorpion:ticket:alice:10.0.0.1" "t1" 30 nothing);
  breaker = new_circuit_breaker 5 10;
  writes = [];
  written = [];
  flushed = 0;
}

streamed_now :
    (v1_sse_stream_events one_ticket codec config "node1" true true 100 "t" 120 []
      (request "")
      alice_context
      session).0
    ≡ streamed
unfolding v1_sse_stream_events validate_ticket validate_and_consume ticket_script ticket_key
    conn_key Connections.register key_function round_trip
streamed_now = refl

any-HoldsTicket : (c ip : String) → HoldsTicket memory session.world.db c ip
any-HoldsTicket c ip = ground arith

stream_admits_example :
    Admitted memory one_ticket codec config "node1" true true 100 "t" 120 []
      (request "")
      alice_context
      session
stream_admits_example =
    stream_admits memory one_ticket codec config "node1" true true 100 "t" 120 [] (request "")
      alice_context session any-HoldsTicket streamed_now

pub empty-HoldsQueue : HoldsQueue memory empty "alice"
empty-HoldsQueue = tt

abbrev delivered : World memory
delivered = calm memory (put "scorpion:inflight:alice:e1" "t0" 100 nothing)

delivered-in_flight : in_flight memory delivered "alice" "e1" ≡ true
unfolding in_flight_key
delivered-in_flight = refl

delivered-acked : acked memory delivered "alice" "e1" ≡ false
unfolding acked_key
delivered-acked = refl

pub acknowledgement_lem : validate_ack_request acknowledgement ≡ none
unfolding validate_ack_request
acknowledgement_lem = refl

ack_once_example :
    let first =
      v1_ack_event log_publisher codec "a1" "t1" "t2"
        (request "ack")
        alice_context
        (delivered, tt) in
    let again =
      v1_ack_event log_publisher codec "a1" "t1" "t2" (request "ack") alice_context first.1 in
    (first.0 ≡ json 200 (ack_response (response_of "a1" "t1" acknowledgement 0)))
    × (acked memory first.1.0 "alice" "e1" ≡ true)
    × (◌≡◌ {A = Unit {0}} first.1.1 tt)
    × (again.0 ≡ json 409 (failure "conflict" "This event has already been acknowledged."))
    × (◌≡◌ {A = Unit {0}} again.1.1 tt)
ack_once_example =
    ack_once memory log_publisher codec "a1" "t1" "t2" (request "ack") alice_context acknowledgement
      delivered tt tt 0 (refl, acknowledgement_lem, refl) refl delivered-in_flight delivered-acked
      refl refl refl

ack_refusals_example :
    let after =
      v1_ack_event log_publisher codec "a1" "t1" "t2" (request "ack") bob_context (delivered, tt) in
    Unchanged memory log_publisher codec "a1" "t1" "t2" delivered tt after
    ⊎ ((a : AckRequest) × (codec.decode_ack "ack" ≡ some a)
        × (validate_ack_request a ≡ none)
        × (a.client_id ≡ "bob")
        × Publishes memory log_publisher codec "a1" "t1" "t2" a tt after)
ack_refusals_example =
    ack_refusals memory log_publisher codec "a1" "t1" "t2" (request "ack") bob_context delivered tt

pub signed_ticket : validate_ticket one_ticket settings 120 "signed" ≡ ok alice_claims
unfolding validate_ticket key_function
signed_ticket = refl

pub session-HoldsTicket : HoldsTicket memory session.world.db "alice" "10.0.0.1"
unfolding ticket_key
session-HoldsTicket = tt

pub session_ticket : is_text (ticket memory session.world.db "alice" "10.0.0.1") "t1" ≡ true
unfolding ticket_key
session_ticket = refl

pub session_connection : connection memory session.world "alice" "10.0.0.1" ≡ none
unfolding conn_key
session_connection = refl
