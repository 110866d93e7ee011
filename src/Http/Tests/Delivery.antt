-- ===== src/Http/Tests/Delivery.antt =====
-- An event of alice's from its insertion to its acknowledgement.
use scorpion.Prelude.{String, ◌≡◌, refl, true, false, List, [], ◌∷◌}
use scorpion.Redis.Memory.{memory}
use scorpion.Domain.{EventPayload}
use scorpion.Ack.{log_publisher}
use scorpion.Repository.Keys.{acked_key}
use scorpion.Repository.InFlight.Acks.{acked}
use scorpion.Stream.Drain.{frame_of}
use scorpion.Stream.Loop.{Signal, poll_tick, heartbeat_tick, ctx_done, run_loop}
use scorpion.Http.{json, event_response, ack_response}
use scorpion.Http.Handlers.Event.{v1_insert_event}
use scorpion.Http.Handlers.Ack.{v1_ack_event, response_of}
use scorpion.Http.Server.Requests.{new_session}
use scorpion.Http.Server.Delivery.{event_delivery}
use scorpion.Http.Fixture.{config, acknowledgement, codec, request, alice_context, empty, differ}
use scorpion.Http.Tests.{empty-HoldsQueue, acknowledgement_lem}

empty-acked : acked memory empty "alice" "e1" ≡ false
unfolding acked_key
empty-acked = refl

abbrev signals : List Signal
signals = heartbeat_tick 150 "t1" ∷ poll_tick 200 "t2" ∷ ctx_done 300 "t3" ∷ []

event_delivery_example :
    let inserted = v1_insert_event codec config "e1" (request "event") alice_context empty in
    let stream =
      (run_loop codec config.sse "alice" "10.0.0.1" true 100 "t1" signals
        (new_session inserted.1 [])).1 in
    let answer =
      v1_ack_event log_publisher codec "a1" "t4" "t5"
        (request "ack")
        alice_context
        (stream.world, tt) in
    (inserted.0 ≡ json 201 (event_response (record { id = "e1"; type = "note"; body = "{}" })))
    × ((d : EventPayload) × (d.id ≡ "e1")
        × (d.type ≡ "note")
        × (rest : List String) × (stream.written ≡ frame_of d ∷ rest))
    × (answer.0 ≡ json 200 (ack_response (response_of "a1" "t4" acknowledgement 0)))
event_delivery_example =
    event_delivery memory log_publisher codec config "e1" "e1" "10.0.0.1" (request "event")
      (request "ack") alice_context alice_context (record { type = "note"; body = "{}" })
      acknowledgement 99 1 100 0 "t1" "a1" "t4" "t5" signals empty tt tt (differ refl) refl refl
      (differ refl) refl refl refl refl empty-HoldsQueue refl empty-acked
      (refl, acknowledgement_lem, refl) refl refl refl refl
