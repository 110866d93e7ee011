-- ===== src/Stream/Loop/Tracks.antt =====
-- loop.go, `RunLoop`: what the client of a stream can acknowledge.
use scorpion.Prelude.{
  ℕ, ◌+◌, String, ◌≡◌, refl, ap, sym, arith, ltb, ◌<◌, ◌∙◌, ◌⊎◌, Bool, true, false, Bool-cases, inl,
  inr, List, [], ◌∷◌, ◌++◌, ok, if◌then◌else◌,
}
use scorpion.Redis.{Redis, is_some, aged}
use scorpion.Redis.Keyspace.{at-expire_ne}
use scorpion.World.{World, count_metric}
use scorpion.Metrics.{Metric, heartbeats_sent_total}
use scorpion.World.Trips.{quiet_trip}
use scorpion.Config.{Sse}
use scorpion.Domain.{EventPayload}
use scorpion.Json.{Json}
use scorpion.Repository.Keys.{conn_key, in_flight_key, acked_key}
use scorpion.Repository.Keys.Distinct.{
  conn_key-ne-in_flight_key, conn_key-ne-acked_key, in_flight_key-ne-acked_key,
  events_key-ne-acked_key,
}
use scorpion.Repository.Connections
use scorpion.Repository.InFlight
use scorpion.Repository.InFlight.Acks.{in_flight, acked, or_true, validate-registries}
use scorpion.Repository.Tickets.Use.{wait}
use scorpion.Repository.Events.Queue.{HoldsQueue}
use scorpion.Stream.Breaker.{new_circuit_breaker}
use scorpion.Stream.Frame.{heartbeat}
use scorpion.Stream.Session.{Session, write, write_next}
use scorpion.Stream.Drain.{frame_of, drain_and_flush}
use scorpion.Stream.Drain.Known.{
  Fresh, AllKnown, Lasts, Lasts-refl, Lasts-counted, Tracks, Tracks-none, Tracks-trans,
}
use scorpion.Stream.Drain.Tracks.{drain_and_flush-Tracks}
use scorpion.Stream.Loop.Confined.{refresh-Within, run_loop-Within}
use scorpion.Stream.Loop.{
  Signal, app_done, ctx_done, heartbeat_tick, poll_tick, send_heartbeat, turn, turns, run_loop,
}

module _ (r : Redis) (json : Json) (cfg : Sse) (c ip : String) where
  refresh-Lasts :
      (w : World r)
      → w.outcomes ≡ []
      → HoldsQueue r w c
      → Lasts r c w (Connections.refresh c ip cfg.conn_ttl w).1
  unfolding Connections.refresh
  refresh-Lasts w q h =
      let k = conn_key c ip in
      let t = cfg.conn_ttl in
      let within = refresh-Within r json cfg c ip true w in
      let db : (Connections.refresh c ip t w).1.db ≡ r.expire k t w.db =
        rw (quiet_trip (r.expire k t ∷ []) (λ _. tt {0}) w q) refl in
      record {
        quiet = within.quiet q;
        list = within.keys.queue h;
        stays = λ e there. (
          there.0,
          ap (λ d. r.at d (in_flight_key c e)) db
              ∙ at-expire_ne r k t w.db (in_flight_key c e) (conn_key-ne-in_flight_key c ip c e)
              ∙ there.1,
        );
      }

  send_heartbeat-Tracks :
      (s : String) (x : Session r)
      → x.world.outcomes ≡ []
      → HoldsQueue r x.world c
      → Tracks r c x (send_heartbeat s x).1
  unfolding send_heartbeat write
  send_heartbeat-Tracks s x q h = by_write x.writes
    where
      beat :
          (ws : List Bool) (m : List Metric) (n : ℕ)
          → Tracks r c x (record x {
            world = record x.world { metrics = m };
            writes = ws;
            written = x.written ++ heartbeat s ∷ [];
            flushed = n;
          })
      beat ws m n = record {
        lasts = Lasts-counted r c m (Lasts-refl r c x.world q h);
        texts = heartbeat s ∷ [];
        appended = refl;
        known = (inl (s, refl), tt);
      }

      by_write :
          (ws : List Bool)
          → let (won, x') = write_next (heartbeat s) ws x in
            let after : Bool × Session r =
              if won
              then (
                true,
                record x' {
                  world = count_metric heartbeats_sent_total x'.world;
                  flushed = x'.flushed + 1;
                },
              )
              else (false, x') in
            Tracks r c x after.1
      by_write [] = beat x.writes _ _
      by_write (true ∷ ws) = beat ws _ _
      by_write (false ∷ ws) =
          Tracks-none r c x x.world x.breaker ws x.flushed (Lasts-refl r c x.world q h)

  turn-Tracks :
      (s : Signal) (x : Session r)
      → x.world.outcomes ≡ []
      → HoldsQueue r x.world c
      → Tracks r c x (turn json cfg c ip true s x).1
  unfolding turn
  turn-Tracks (app_done clock now) x q h = drain_and_flush-Tracks r c json cfg clock now x q h
  turn-Tracks (ctx_done clock now) x q h = drain_and_flush-Tracks r c json cfg clock now x q h
  turn-Tracks (heartbeat_tick clock now) x q h = send_heartbeat-Tracks now x q h
  turn-Tracks (poll_tick clock now) x q h =
      let l = refresh-Lasts x.world q h in
      Tracks-trans r c (Tracks-none r c x _ x.breaker x.writes x.flushed l)
        (drain_and_flush-Tracks r c json cfg clock now _ l.quiet l.list)

  pub turns-Tracks :
      (signals : List Signal) (x : Session r)
      → x.world.outcomes ≡ []
      → HoldsQueue r x.world c
      → Tracks r c x (turns json cfg c ip true signals x).1
  unfolding turns
  turns-Tracks [] x q h =
      Tracks-none r c x x.world x.breaker x.writes x.flushed (Lasts-refl r c x.world q h)
  turns-Tracks (s ∷ rest) x q h =
      let (again, y) = turn json cfg c ip true s x in
      let first = turn-Tracks s x q h in
      elim (Bool-cases again) [
        | inl on ↦
            rw on (Tracks-trans r c first (turns-Tracks rest y first.lasts.quiet first.lasts.list))
        | inr off ↦ rw off first
      ]

  run_loop-Tracks :
      (clock : ℕ) (now : String) (signals : List Signal) (x : Session r)
      → x.world.outcomes ≡ []
      → HoldsQueue r x.world c
      → Tracks r c x (run_loop json cfg c ip true clock now signals x).1
  unfolding run_loop
  run_loop-Tracks clock now signals x q h =
      let fresh : Session r = record x { breaker = new_circuit_breaker 5 10_000_000_000 } in
      let first = drain_and_flush-Tracks r c json cfg clock now fresh q h in
      let begin =
        Tracks-none r c x x.world fresh.breaker x.writes x.flushed (Lasts-refl r c x.world q h) in
      let opened = Tracks-trans r c begin first in
      Tracks-trans r c opened (
        turns-Tracks signals (drain_and_flush json cfg c true clock now fresh) first.lasts.quiet
          first.lasts.list)

  -- A stream leaves what is acknowledged as it is.
  acked_lem :
      (clock : ℕ) (now : String) (signals : List Signal) (x : Session r) (e : String)
      → HoldsQueue r x.world c
      → r.at (run_loop json cfg c ip true clock now signals x).1.world.db (acked_key c e)
        ≡ r.at x.world.db (acked_key c e)
  acked_lem clock now signals x e h =
      (run_loop-Within r json cfg c ip true clock now signals x).keys.foreign h (acked_key c e) (
        events_key-ne-acked_key c c e,
        conn_key-ne-acked_key c ip c e,
        λ e'. in_flight_key-ne-acked_key c e' c e,
      )

  pub run_loop-acked :
      (clock : ℕ) (now : String) (signals : List Signal) (x : Session r) (e : String)
      → HoldsQueue r x.world c
      → acked r (run_loop json cfg c ip true clock now signals x).1.world c e ≡ acked r x.world c e
  run_loop-acked clock now signals x e h = ap is_some (acked_lem clock now signals x e h)

  -- What `Validate` is to answer for the event of a text some seconds later, if it is a frame.
  abbrev Found : ℕ → World r → World r → String → Type 0
  Found n before after t =
      ((s : String) × (t ≡ heartbeat s))
      ⊎ ((e : EventPayload) × (t ≡ frame_of e)
          × ((InFlight.validate c e.id (wait n after)).0
              ≡ ok (true, acked r (wait n before) c e.id)))

  abbrev pub AllFound : ℕ → World r → World r → List String → Type 0
  AllFound n before after [] = Unit
  AllFound n before after (t ∷ ts) = Found n before after t × AllFound n before after ts

  -- An event is in flight for 72 hours.
  still_there :
      (n : ℕ) (w : World r) (e : String)
      → n < 259_200
      → Fresh r w.db (in_flight_key c e)
      → in_flight r (wait n w) c e ≡ true
  still_there n w e early (v, there) =
      let left : ltb n 259_200 ≡ true = ground arith in
      ap is_some (r.at-elapse n w.db (in_flight_key c e) ∙ ap (aged n) there) ∙ rw left refl

  acked_later :
      (n : ℕ) (before after : World r) (e : String)
      → r.at after.db (acked_key c e) ≡ r.at before.db (acked_key c e)
      → acked r (wait n after) c e ≡ acked r (wait n before) c e
  acked_later n before after e same = ap is_some (
      r.at-elapse n after.db (acked_key c e)
      ∙ ap (aged n) same
      ∙ sym (r.at-elapse n before.db (acked_key c e)))

  all_found :
      (n : ℕ) (before after : World r) (ts : List String)
      → n < 259_200
      → after.outcomes ≡ []
      → ((e : String) → r.at after.db (acked_key c e) ≡ r.at before.db (acked_key c e))
      → AllKnown r c after ts
      → AllFound n before after ts
  all_found n before after [] early q same known = tt
  all_found n before after (t ∷ ts) early q same (inl beat, known) =
      (inl beat, all_found n before after ts early q same known)
  all_found n before after (t ∷ ts) early q same (inr (e, is_frame, there), known) = (
    inr (
      e,
      is_frame,
      (validate-registries r c e.id (wait n after) q).0
          ∙ rw
              (
                still_there n after e.id early there,
                acked_later n before after e.id (same e.id),
                or_true,
              )
              refl,
    ),
    all_found n before after ts early q same known,
  )

  -- Every text that a stream writes is a heartbeat or the frame of an event that can be acknowledged
  -- at any second of the 72 hours after the stream: `Validate` finds the event for the client, and
  -- calls it acknowledged only if it would have without the stream. It holds whatever the stream takes
  -- from its `select` and whichever writes fail, where events are tracked, Redis answers and the
  -- client's queue is a list. While the stream runs, Redis's clock stands still and no other request
  -- is served, so that nobody acknowledges an event before the stream ends.
  pub run_loop-tracked :
      (clock : ℕ) (now : String) (signals : List Signal) (x : Session r) (n : ℕ)
      → x.world.outcomes ≡ []
      → HoldsQueue r x.world c
      → n < 259_200
      → let after = (run_loop json cfg c ip true clock now signals x).1 in
        (texts : List String) × (after.written ≡ x.written ++ texts)
        × AllFound n x.world after.world texts
  run_loop-tracked clock now signals x n q h early =
      let t = run_loop-Tracks clock now signals x q h in
      let after = (run_loop json cfg c ip true clock now signals x).1 in
      (
        t.texts,
        t.appended,
        all_found n x.world after.world t.texts early t.lasts.quiet
            (λ e. acked_lem clock now signals x e h) t.known,
      )
