-- ===== src/Stream/Loop/Conserves.antt =====
-- loop.go, `RunLoop`: what a whole stream writes of what was queued.
use scorpion.Prelude.{ℕ, suc, String, ◌≡◌, refl, ap, ◌∙◌, Bool, List, [], ◌∷◌, ◌++◌}
use scorpion.Prelude.Int.{pos}
use scorpion.Redis.{Redis, items}
use scorpion.Redis.Keyspace.{at-expire_ne}
use scorpion.World.{World}
use scorpion.World.Trips.{quiet_trip}
use scorpion.Config.{Sse}
use scorpion.Json.{Json}
use scorpion.Repository.Keys.{conn_key, events_key}
use scorpion.Repository.Keys.Distinct.{conn_key-ne-events_key}
use scorpion.Repository.Connections
use scorpion.Repository.Events.Queue.{queue, HoldsQueue}
use scorpion.Stream.Breaker.{new_circuit_breaker}
use scorpion.Stream.Session.{Session}
use scorpion.Stream.Drain.{drain_and_flush}
use scorpion.Stream.Drain.Frames.{frames}
use scorpion.Stream.Drain.Order.{IsClear, drain_complete}
use scorpion.Stream.Loop.{
  Signal, app_done, ctx_done, heartbeat_tick, poll_tick, turn, turns, run_loop,
}

abbrev NoHeartbeat : List Signal → Type 0
NoHeartbeat [] = Unit
NoHeartbeat (heartbeat_tick _ _ ∷ _) = ⊥
NoHeartbeat (_ ∷ rest) = NoHeartbeat rest

-- A session that Redis answers and whose writes succeed.
pub record IsHealthy (r : Redis) (client_id : String) (x : Session r) : Type 0 where
  pub clear : IsClear r client_id x
  pub passes : x.writes ≡ []

module _ (r : Redis) (json : Json) (cfg : Sse) (client_id client_ip : String) (tracks : Bool) where
  -- The frames that were written, and those of the events that wait.
  abbrev pub all_frames : Session r → List String
  all_frames x = x.written ++ frames json (queue r x.world client_id)

  refresh-queue :
      (w : World r)
      → w.outcomes ≡ []
      → let after = (Connections.refresh client_id client_ip cfg.conn_ttl w).1 in
        (after.outcomes ≡ [])
        × (r.at after.db (events_key client_id) ≡ r.at w.db (events_key client_id))
  unfolding Connections.refresh
  refresh-queue w q = rw (quiet_trip _ _ w q) (
    q,
    at-expire_ne r (conn_key client_id client_ip) cfg.conn_ttl w.db (events_key client_id)
        (conn_key-ne-events_key client_id client_ip client_id),
  )

  module _ (b : ℕ) (size : cfg.batch_size ≡ pos (suc b)) where
    drain-IsHealthy :
        (clock : ℕ) (now : String) (x : Session r)
        → IsHealthy r client_id x
        → let after = drain_and_flush json cfg client_id tracks clock now x in
          (all_frames after ≡ all_frames x) × IsHealthy r client_id after
    drain-IsHealthy clock now x h =
        let (same, _, clear, passes) =
          drain_complete r json cfg client_id tracks clock now b x size h.clear h.passes in
        (same, record { clear = clear; passes = passes })

    turns-IsHealthy :
        (signals : List Signal) (x : Session r)
        → NoHeartbeat signals
        → IsHealthy r client_id x
        → let after = (turns json cfg client_id client_ip tracks signals x).1 in
          (all_frames after ≡ all_frames x) × IsHealthy r client_id after
    unfolding turns turn
    turns-IsHealthy [] x n h = (refl, h)
    turns-IsHealthy (app_done clock now ∷ rest) x n h = drain-IsHealthy clock now x h
    turns-IsHealthy (ctx_done clock now ∷ rest) x n h = drain-IsHealthy clock now x h
    turns-IsHealthy (heartbeat_tick clock now ∷ rest) x n h = absurd n
    turns-IsHealthy (poll_tick clock now ∷ rest) x n h =
        let world = (Connections.refresh client_id client_ip cfg.conn_ttl x.world).1 in
        let (quiet, same) = refresh-queue x.world h.clear.answers in
        let y : Session r = record x { world = world } in
        let healthy : IsHealthy r client_id y = record {
          clear = record { answers = quiet; list = rw same h.clear.list; closed = h.clear.closed };
          passes = h.passes;
        } in
        let z = drain_and_flush json cfg client_id tracks clock now y in
        let (drained, healthy') = drain-IsHealthy clock now y healthy in
        let (later, healthy'') = turns-IsHealthy rest z n healthy' in
        (later ∙ drained ∙ ap (λ e. x.written ++ frames json (items e)) same, healthy'')

    -- A whole stream, from the drain on connect over any polls to its end, with a positive batch
    -- size, loses no event that can be decoded and repeats none, while Redis answers, the queue is
    -- a list, and the writes succeed: the frames that it wrote, followed by those of the events
    -- that still wait, are what was written and what waited before, in that order. Heartbeats,
    -- which are written between the frames, are left out of the signals.
    pub run_loop-conserves :
        (clock : ℕ) (now : String) (signals : List Signal) (x : Session r)
        → NoHeartbeat signals
        → x.world.outcomes ≡ []
        → HoldsQueue r x.world client_id
        → x.writes ≡ []
        → let after = (run_loop json cfg client_id client_ip tracks clock now signals x).1 in
          all_frames after ≡ all_frames x
    unfolding run_loop new_circuit_breaker
    run_loop-conserves clock now signals x n q list passes =
        let fresh : Session r = record x { breaker = new_circuit_breaker 5 10_000_000_000 } in
        let healthy : IsHealthy r client_id fresh = record {
          clear = record { answers = q; list = list; closed = refl };
          passes = passes;
        } in
        let (drained, healthy') = drain-IsHealthy clock now fresh healthy in
        (turns-IsHealthy signals _ n healthy').0 ∙ drained
