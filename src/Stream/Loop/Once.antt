-- ===== src/Stream/Loop/Once.antt =====
-- loop.go, `RunLoop`: no event is written more often than it was queued.
use scorpion.Prelude.{
  ℕ, suc, ◌+◌, ◌≤◌, String, ◌≡◌, ap, Bool, true, false, Bool-cases, inl, inr, one_if, List, [], ◌∷◌,
  ◌++◌, if◌then◌else◌, arith,
}
use scorpion.Prelude.Int.{pos}
use scorpion.Redis.{Redis, items}
use scorpion.Redis.Keyspace.{at-expire_ne}
use scorpion.World.{count_metric}
use scorpion.Config.{Sse}
use scorpion.Domain.{EventPayload}
use scorpion.Json.{Json}
use scorpion.Metrics.{heartbeats_sent_total}
use scorpion.Repository.Keys.{conn_key, events_key}
use scorpion.Repository.Keys.Distinct.{conn_key-ne-events_key}
use scorpion.Repository.Connections
use scorpion.Repository.Events.Queue.{queue, HoldsQueue}
use scorpion.Stream.Breaker.{new_circuit_breaker}
use scorpion.Stream.Frame.{heartbeat}
use scorpion.Stream.Frame.Beats.{heartbeat-ne-frame}
use scorpion.Stream.Session.{Session, write, write_next}
use scorpion.Stream.Drain.{frame_of, event_type, drain_and_flush}
use scorpion.Stream.Drain.Frames.{frames}
use scorpion.Stream.Drain.Writes.{occurs, occurs-append, trip_one-at}
use scorpion.Stream.Drain.Once.{Dwindles, Dwindles-trans, drain_and_flush-Dwindles}
use scorpion.Stream.Loop.{
  Signal, app_done, ctx_done, heartbeat_tick, poll_tick, send_heartbeat, turn, turns, run_loop,
}

module _ (r : Redis) (json : Json) (cfg : Sse) (c ip : String) (tracks : Bool) (e : EventPayload)
    (b : ℕ) (size : cfg.batch_size ≡ pos (suc b)) where
  abbrev Fewer : Session r → Session r → Type 0
  Fewer = Dwindles r json c (frame_of e)

  Fewer-refl : (x : Session r) → HoldsQueue r x.world c → Fewer x x
  Fewer-refl x h = record { list = h; less = omega arith }

  -- A heartbeat is written beside the frames.
  beats : (now : String) (x : Session r) → HoldsQueue r x.world c → Fewer x (send_heartbeat now x).1
  unfolding send_heartbeat write
  beats now x h = by_write x.writes
    where
      none_more :
          occurs (frame_of e) (x.written ++ heartbeat now ∷ []) ≤ occurs (frame_of e) x.written
      none_more = omega (
        arith,
        occurs-append (frame_of e) x.written (heartbeat now ∷ []),
        ap one_if (heartbeat-ne-frame now e.id (event_type e) e.body),
      )

      by_write :
          (ws : List Bool)
          → let (won, x') = write_next (heartbeat now) ws x in
            let after : Bool × Session r =
              if won
              then (
                true,
                record x' {
                  world = count_metric heartbeats_sent_total x'.world;
                  flushed = x'.flushed + 1;
                },
              )
              else (false, x') in
            Fewer x after.1
      by_write [] = record { list = h; less = omega (arith, none_more) }
      by_write (true ∷ ws) = record { list = h; less = omega (arith, none_more) }
      by_write (false ∷ ws) = record { list = h; less = omega arith }

  refreshed :
      (x : Session r)
      → HoldsQueue r x.world c
      → Fewer x (record x { world = (Connections.refresh c ip cfg.conn_ttl x.world).1 })
  unfolding Connections.refresh
  refreshed x h =
      let same =
        trip_one-at r (r.expire (conn_key c ip) cfg.conn_ttl) (λ _. tt {0}) x.world (events_key c)
          (λ d.
            at-expire_ne r (conn_key c ip) cfg.conn_ttl d (events_key c)
              (conn_key-ne-events_key c ip c)) in
      record { list = rw same h; less = rw (ap items same) (omega arith) }

  drains :
      (clock : ℕ) (now : String) (x : Session r)
      → HoldsQueue r x.world c
      → Fewer x (drain_and_flush json cfg c tracks clock now x)
  drains clock now x h =
      drain_and_flush-Dwindles r json c (frame_of e) cfg tracks b clock now x size h

  turn-Fewer :
      (s : Signal) (x : Session r)
      → HoldsQueue r x.world c
      → Fewer x (turn json cfg c ip tracks s x).1
  unfolding turn
  turn-Fewer (app_done clock now) x h = drains clock now x h
  turn-Fewer (ctx_done clock now) x h = drains clock now x h
  turn-Fewer (heartbeat_tick clock now) x h = beats now x h
  turn-Fewer (poll_tick clock now) x h =
      let first = refreshed x h in
      Dwindles-trans r json c (frame_of e) first (drains clock now _ first.list)

  turns-Fewer :
      (signals : List Signal) (x : Session r)
      → HoldsQueue r x.world c
      → Fewer x (turns json cfg c ip tracks signals x).1
  unfolding turns
  turns-Fewer [] x h = Fewer-refl x h
  turns-Fewer (s ∷ rest) x h =
      let (again, y) = turn json cfg c ip tracks s x in
      let first = turn-Fewer s x h in
      elim (Bool-cases again) [
        | inl on ↦
            rw on (Dwindles-trans r json c (frame_of e) first (turns-Fewer rest y first.list))
        | inr off ↦ rw off first
      ]

  -- At most once: whatever a stream takes from its `select`, whichever writes fail, and wherever
  -- requests to Redis break, an event's frame is written no more often, counted with the events of
  -- this frame that are left in the queue, than it waited in the queue. The queue is a list, and the
  -- batch size is positive.
  pub run_loop-at_most_once :
      (clock : ℕ) (now : String) (signals : List Signal) (x : Session r)
      → HoldsQueue r x.world c
      → let after = (run_loop json cfg c ip tracks clock now signals x).1 in
        occurs (frame_of e) after.written
          + occurs (frame_of e) (frames json (queue r after.world c))
        ≤ occurs (frame_of e) x.written + occurs (frame_of e) (frames json (queue r x.world c))
  unfolding run_loop
  run_loop-at_most_once clock now signals x h =
      let fresh : Session r = record x { breaker = new_circuit_breaker 5 10_000_000_000 } in
      let first = drains clock now fresh h in
      let whole = Dwindles-trans r json c (frame_of e) first (turns-Fewer signals _ first.list) in
      whole.less
