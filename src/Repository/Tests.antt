-- ===== src/Repository/Tests.antt =====
-- The stores of internal/repository on concrete keyspaces.
mod Runs
mod Commands
use scorpion.Prelude.{String, ◌≡◌, refl, true, false, Option, none, some, [], ◌∷◌, ◌||◌, ok}
use scorpion.Prelude.Int.{pos}
use scorpion.Redis.{Entry, list, text, IsText, items}
use scorpion.Redis.Memory.{memory, nothing, put, update}
use scorpion.Redis.Keyspace.{ChangesOnly}
use scorpion.World.{World, calm, Answers}
use scorpion.World.Trips.{round_trip_ok}
use scorpion.Repository.Keys.{events_key, ticket_key, conn_key}
use scorpion.Repository.Events.{push, drain}
use scorpion.Repository.Events.Queue.{queue, HoldsQueue, push-keep_last, drain-take}
use scorpion.Repository.Events.Race.{
  schedule, start, one_after_the_other, in_turns, drain_race, alone-drain,
}
use scorpion.Repository.Tickets.{store, validate_and_consume}
use scorpion.Repository.Tickets.Use.{
  HoldsTicket, wait, validate-consumes, ticket_once, ticket_expiry,
}
use scorpion.Repository.Connections as C
use scorpion.Repository.Connections.Exclusive.{
  connection, register-exclusive, delete_with_value-owner,
}
use scorpion.Repository.Connections.Cleanup.{cleanup-owned}
use scorpion.Repository.InFlight as F
use scorpion.Repository.InFlight.Acks.{
  acked, in_flight, validate-registries, mark_acked_always, registries_shared,
}

abbrev alice_queue : String → Option Entry
alice_queue =
    update nothing "scorpion:events:alice"
      (some (record { value = list ("e1" ∷ "e2" ∷ "e3" ∷ []); ttl = none }))

abbrev pub waiting : World memory
waiting = calm memory alice_queue

waiting-HoldsQueue : HoldsQueue memory waiting "alice"
unfolding events_key
waiting-HoldsQueue = tt

drain_race_example :
    let k : String = "scorpion:events:alice" in
    let good = schedule memory k (pos 1) one_after_the_other (start memory k (pos 1) alice_queue) in
    let bad = schedule memory k (pos 1) in_turns (start memory k (pos 1) alice_queue) in
    (good.first.batch ≡ "e1" ∷ [])
    × (good.second.batch ≡ "e2" ∷ [])
    × (bad.first.batch ≡ "e1" ∷ [])
    × (bad.second.batch ≡ "e1" ∷ [])
    × (items (bad.db k) ≡ "e3" ∷ [])
drain_race_example = drain_race memory "scorpion:events:alice" 0 alice_queue tt

abbrev ticketed : World memory
ticketed = calm memory (put "scorpion:ticket:alice:10.0.0.1" "t1" 30 nothing)

ticketed-HoldsTicket : HoldsTicket memory ticketed.db "alice" "10.0.0.1"
unfolding ticket_key
ticketed-HoldsTicket = tt

ticketed-accepted : (validate_and_consume "alice" "10.0.0.1" "t1" ticketed).0 ≡ ok true
unfolding ticket_key
ticketed-accepted =
    (validate-consumes memory "alice" "10.0.0.1" "t1" ticketed tt ticketed-HoldsTicket).0

consumed-Answers : Answers (validate_and_consume "alice" "10.0.0.1" "t1" ticketed).1
unfolding validate_and_consume
consumed-Answers = rw (round_trip_ok _ _ ticketed tt) tt

abbrev empty : World memory
empty = calm memory nothing

stored-Answers : Answers (store "alice" "10.0.0.1" "t1" 30 empty).1
unfolding store
stored-Answers = rw (round_trip_ok _ _ empty tt) tt

abbrev connected : World memory
connected = calm memory (put "scorpion:conn:alice:10.0.0.1" "node1" 60 nothing)

connected-IsText : IsText (connection memory connected "alice" "10.0.0.1")
unfolding conn_key
connected-IsText = tt

abbrev one_page : C.Scan
one_page = C.page ("scorpion:conn:alice:10.0.0.1" ∷ "scorpion:conn:bob:10.0.0.2" ∷ []) C.finished

cleanup-owned_example :
    (C.cleanup_instance "node1" one_page connected).db "scorpion:conn:alice:10.0.0.1" ≡ none
cleanup-owned_example =
    cleanup-owned memory "node1" one_page "scorpion:conn:alice:10.0.0.1" connected refl
      (tt, (tt, tt))

registries_shared_example :
    (F.validate "alice" "m:e" connected ≡ F.validate "alice:m" "e" connected)
    × (F.mark_acked "alice" "m:e" "t1" connected ≡ F.mark_acked "alice:m" "e" "t1" connected)
registries_shared_example = registries_shared memory "alice" "m" "e" "t1" connected
