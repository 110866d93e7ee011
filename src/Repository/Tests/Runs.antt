-- ===== src/Repository/Tests/Runs.antt =====
-- Sequences of requests to the stores of internal/repository.
use scorpion.Prelude.{
  ◌≡◌, refl, Bool-cases, inl, inr, ◌==◌, eq_iff, List, [], ◌∷◌, ◌++◌, ok, true, false, some, none,
  subst, eq_refl, if◌then◌else◌,
}
use scorpion.Redis.{list}
use scorpion.Redis.Memory.{memory, nothing, update}
use scorpion.World.{World, calm, round_trip}
use scorpion.Repository.Keys.{events_key, conn_key}
use scorpion.Repository.Events.Queue.{queue, HoldsQueue}
use scorpion.Repository.Events.Runs.{
  Op, sends, takes, Queues, served, run, Holds, other_client, run-served,
}
use scorpion.Repository.Events.Fifo.{offered, received, fits, run_fifo}
use scorpion.Repository.Connections as C
use scorpion.Repository.Connections.Streams.{
  State, Apart, All, admit, refuse, poll, Reach, here, next,
}
use scorpion.Repository.Connections.Streams.Single.{KeepsOut, one_stream}

abbrev waiting : World memory
waiting = calm memory (
    update nothing (events_key "alice")
      (some (record { value = list ("e1" ∷ "e2" ∷ []); ttl = none })))

-- Two clients' requests, mixed.
abbrev ops : List Op
ops =
    sends "alice" "e3"
    ∷ sends "bob" "f1"
    ∷ takes "alice" 1
    ∷ sends "alice" "e4"
    ∷ takes "bob" 0
    ∷ takes "alice" 0
    ∷ []

abbrev queues : Queues
queues c = if "alice" == c then "e1" ∷ "e2" ∷ [] else []

waiting-Holds : Holds memory queues waiting
waiting-Holds c = elim (Bool-cases ("alice" == c)) [
  | inl same ↦
      subst (λ z. (queue memory waiting z ≡ queues z) × HoldsQueue memory waiting z)
        ((eq_iff "alice" c).0 same) there
  | inr differ ↦ rw (differ, other_client "alice" c differ) (refl, tt)
]
  where
    there : (queue memory waiting "alice" ≡ queues "alice") × HoldsQueue memory waiting "alice"
    there = rw eq_refl (refl, tt)

run-served_example :
    ((run memory 2 ops waiting).0 ≡ (served 2 ops queues).0)
    × Holds memory (served 2 ops queues).1 (run memory 2 ops waiting).1
run-served_example = run-served memory 2 ops queues waiting refl waiting-Holds

alice_fits : fits 2 "alice" 2 ops ≡ true
unfolding fits
alice_fits = refl

waiting_two : queue memory waiting "alice" ≡ "e1" ∷ "e2" ∷ []
waiting_two = (waiting-Holds "alice").0

run_fifo_example :
    let (answers, w') = run memory 2 ops waiting in
    received "alice" answers ++ queue memory w' "alice"
    ≡ queue memory waiting "alice" ++ offered "alice" ops
run_fifo_example =
    run_fifo memory 2 "alice" ops waiting refl (λ j. (waiting-Holds j).1)
      (rw waiting_two alice_fits)

abbrev calm_start : State memory
calm_start = record { world = calm memory nothing; streams = [] }

-- A stream on the one instance, polled, and ended.
abbrev opened : State memory
opened = record {
  world = (C.register "node1" "alice" "10.0.0.1" 60 calm_start.world).1;
  streams = ("alice", "10.0.0.1") ∷ [];
}

abbrev refused : State memory
refused = record opened { world = (C.register "node2" "alice" "10.0.0.1" 60 opened.world).1 }

abbrev polled : State memory
polled = record refused { world = (C.refresh "alice" "10.0.0.1" 60 refused.world).1 }

free_now : (C.register {r = memory} "node1" "alice" "10.0.0.1" 60 calm_start.world).0 ≡ ok true
unfolding C.register round_trip
free_now = refl

taken_now : (C.register {r = memory} "node2" "alice" "10.0.0.1" 60 opened.world).0 ≡ ok false
unfolding C.register round_trip conn_key
taken_now = refl

abbrev one_run : Reach memory calm_start polled
one_run =
    next
      (next (next here (admit calm_start "node1" "alice" "10.0.0.1" 60 free_now))
        (refuse opened "node2" "alice" "10.0.0.1" 60 taken_now))
      (poll refused "alice" "10.0.0.1" 59)

one_stream_example :
    Apart (("alice", "10.0.0.1") ∷ [])
    × All (KeepsOut memory polled.world) (("alice", "10.0.0.1") ∷ [])
one_stream_example = one_stream memory calm_start.world polled refl one_run
