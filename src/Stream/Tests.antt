-- ===== src/Stream/Tests.antt =====
-- The stream loop on a concrete session.
use Prim.Native.String as S
use scorpion.Prelude.{
  ℕ, ◌+◌, ◌≤◌, String, ◌≡◌, refl, Bool, true, false, Option, none, some, List, [], ◌∷◌, take, drop,
  ◌==◌, arith, Bool-cases, inl, inr, eq_iff, if◌then◌else◌,
}
use scorpion.Prelude.Int.{pos}
use scorpion.Redis.{list}
use scorpion.Redis.Memory.{memory, nothing, update}
use scorpion.World.{calm, answered, broken}
use scorpion.Config.{Sse}
use scorpion.Domain.{EventPayload}
use scorpion.Json.{Json}
use scorpion.Repository.Keys.{events_key}
use scorpion.Repository.Events.Queue.{queue, HoldsQueue}
use scorpion.Stream.Breaker.{Breaker, new_circuit_breaker, is_open}
use scorpion.Stream.Breaker.Opens.{failures, opens_after}
use scorpion.Stream.Frame.{frame}
use scorpion.Stream.Frame.Fields.{frame_inj, frame_injection}
use scorpion.Stream.Session.{Session}
use scorpion.Stream.Drain.{frame_of, drain_and_flush}
use scorpion.Stream.Drain.Frames.{frames}
use scorpion.Stream.Drain.Order.{IsClear, drain-prefix}
use scorpion.Stream.Loop.{heartbeat_tick, poll_tick, ctx_done, run_loop}
use scorpion.Stream.Loop.Once.{run_loop-at_most_once}
use scorpion.Stream.Drain.Writes.{occurs}
use scorpion.Stream.Loop.Tracks.{AllFound, run_loop-tracked}
use scorpion.Stream.Loop.Ends.{run_loop_ends}
use scorpion.Stream.Loop.Conserves.{all_frames, run_loop-conserves}

abbrev breaker : Breaker
breaker = new_circuit_breaker 2 10

opens_after_example : (is_open 105 (failures (100 ∷ 101 ∷ []) (new_circuit_breaker 2 10))).0 ≡ true
opens_after_example = opens_after 2 10 (100 ∷ []) 101 105 (omega arith) (omega arith) (omega arith)

frame_inj_example :
    (◌≡◌ {A = String} "1" "1") × (◌≡◌ {A = String} "a" "a") × (◌≡◌ {A = String} "x" "x")
frame_inj_example =
    frame_inj "1" "1" "a" "a" "x" "x" (omega arith, tt) (omega arith, tt) (omega arith, tt)
      (omega arith, tt) refl

frame_injection_example :
    frame "1" "a\ndata: x\n\nid: 2\nevent: b" "y" ≡ S.◌++◌ (frame "1" "a" "x") (frame "2" "b" "y")
frame_injection_example = frame_injection "1" "a" "x" "2" "b" "y"

abbrev marshal_event : EventPayload → Option String
marshal_event e = if e.type == "note" then some e.id else none

abbrev unmarshal_event : String → Option EventPayload
unmarshal_event s = some (record { id = s; type = "note"; body = s })

short_events_lem :
    (e : EventPayload) (s : String)
    → marshal_event e ≡ some s
    → (d : EventPayload) × (unmarshal_event s ≡ some d) × (d.id ≡ e.id) × (d.type ≡ e.type)
short_events_lem e s h = elim (Bool-cases (e.type == "note")) [
  | inl note ↦ (_, refl, cc (rw note at h), cc ((eq_iff e.type "note").0 note))
  | inr not_note ↦ cc (rw not_note at h)
]

-- An encoding of the events whose data is their id.
abbrev short_events : Json
short_events = record {
  marshal_event = marshal_event;
  unmarshal_event = unmarshal_event;
  decode_ack = λ _. none;
  bind_event = λ _ _ _. none;
  marshal_ack = λ _. none;
  unmarshal-marshal = short_events_lem;
}

abbrev settings : Sse
settings = record {
  poll_interval = 1_000;
  batch_size = pos 2;
  heartbeat_interval = 15_000;
  conn_ttl = 60;
  max_queue_depth = pos 100;
  max_event_bytes = pos 1024;
}

abbrev start : List Bool → Session memory
start writes = record {
  world = calm memory (
      update nothing "scorpion:events:alice"
        (some (record { value = list ("e1" ∷ "e2" ∷ "e3" ∷ []); ttl = none })));
  breaker = new_circuit_breaker 5 10;
  writes = writes;
  written = [];
  flushed = 0;
}

start-HoldsQueue : HoldsQueue memory (start []).world "alice"
unfolding events_key
start-HoldsQueue = tt

start-IsClear : (writes : List Bool) → IsClear memory "alice" (start writes)
unfolding new_circuit_breaker
start-IsClear writes = record { answers = refl; list = start-HoldsQueue; closed = refl }

drain-prefix_example :
    let x = start (true ∷ false ∷ []) in
    let after = drain_and_flush short_events settings "alice" true 100 "t1" x in
    (n : ℕ) × (after.written ≡ take n (frames short_events (take 2 (queue memory x.world "alice"))))
    × (queue memory after.world "alice" ≡ drop 2 (queue memory x.world "alice"))
    × IsClear memory "alice" after
drain-prefix_example =
    drain-prefix memory short_events settings "alice" true 100 "t1" 1 (start (true ∷ false ∷ []))
      refl (start-IsClear (true ∷ false ∷ []))

run_loop-conserves_example :
    let x = start [] in
    let signals = poll_tick 200 "t2" ∷ ctx_done 300 "t3" ∷ [] in
    let after = (run_loop short_events settings "alice" "10.0.0.1" true 100 "t1" signals x).1 in
    all_frames memory short_events settings "alice" "10.0.0.1" true after
    ≡ all_frames memory short_events settings "alice" "10.0.0.1" true x
run_loop-conserves_example =
    run_loop-conserves memory short_events settings "alice" "10.0.0.1" true 1 refl 100 "t1"
      (poll_tick 200 "t2" ∷ ctx_done 300 "t3" ∷ []) (start []) tt refl start-HoldsQueue refl

abbrev first_event : EventPayload
first_event = record { id = "e1"; type = "note"; body = "e1" }

-- A request to Redis breaks after its second command, and a write fails.
abbrev troubled : Session memory
troubled =
    let x = start (true ∷ false ∷ []) in
    record x { world = record x.world { outcomes = answered ∷ broken 2 "EOF" ∷ [] } }

run_loop-at_most_once_example :
    let x = troubled in
    let signals = heartbeat_tick 150 "t1" ∷ poll_tick 200 "t2" ∷ ctx_done 300 "t3" ∷ [] in
    let after = (run_loop short_events settings "alice" "10.0.0.1" true 100 "t1" signals x).1 in
    occurs (frame_of first_event) after.written
      + occurs (frame_of first_event) (frames short_events (queue memory after.world "alice"))
    ≤ occurs (frame_of first_event) x.written
      + occurs (frame_of first_event) (frames short_events (queue memory x.world "alice"))
run_loop-at_most_once_example =
    run_loop-at_most_once memory short_events settings "alice" "10.0.0.1" true first_event 1 refl
      100 "t1" (heartbeat_tick 150 "t1" ∷ poll_tick 200 "t2" ∷ ctx_done 300 "t3" ∷ []) troubled
      start-HoldsQueue

run_loop_ends_example :
    let x = start [] in
    let run = run_loop short_events settings "alice" "10.0.0.1" true 100 "t1" in
    let done = run (poll_tick 200 "t2" ∷ ctx_done 300 "t3" ∷ poll_tick 400 "t4" ∷ []) x in
    (done.0 ≡ false) × (done ≡ run (poll_tick 200 "t2" ∷ ctx_done 300 "t3" ∷ []) x)
run_loop_ends_example =
    run_loop_ends memory short_events settings "alice" "10.0.0.1" true 100 "t1"
      (poll_tick 200 "t2" ∷ []) (ctx_done 300 "t3") (poll_tick 400 "t4" ∷ []) (start []) refl

run_loop-tracked_example :
    let x = start (true ∷ false ∷ []) in
    let signals = heartbeat_tick 150 "t1" ∷ poll_tick 200 "t2" ∷ ctx_done 300 "t3" ∷ [] in
    let after = (run_loop short_events settings "alice" "10.0.0.1" true 100 "t1" signals x).1 in
    (texts : List String) × (after.written ≡ texts)
    × AllFound memory short_events settings "alice" "10.0.0.1" 3600 x.world after.world texts
run_loop-tracked_example =
    run_loop-tracked memory short_events settings "alice" "10.0.0.1" 100 "t1"
      (heartbeat_tick 150 "t1" ∷ poll_tick 200 "t2" ∷ ctx_done 300 "t3" ∷ [])
      (start (true ∷ false ∷ [])) 3600 refl start-HoldsQueue (omega arith)
