-- ===== src/Stream/Loop/Confined.antt =====
-- loop.go, `RunLoop`: what a whole stream can change in Redis.
use scorpion.Prelude.{ℕ, String, ◌≡◌, refl, Bool, false, Bool-cases, inl, inr, List, [], ◌∷◌, ◌==◌}
use scorpion.Redis.{Redis}
use scorpion.Redis.Keyspace.{at-expire_ne}
use scorpion.World.{World}
use scorpion.World.Confined.{
  StreamCommand, Confined, Within, Within-refl, Within-trans, Within-at, round_trip-Within,
}
use scorpion.Config.{Sse}
use scorpion.Json.{Json}
use scorpion.Repository.Keys.{conn_key, events_key, in_flight_key}
use scorpion.Repository.Keys.Distinct.{conn_key-ne-events_key}
use scorpion.Repository.Commands.{expire_conn, exec}
use scorpion.Repository.Commands.Reached.{Reached-one}
use scorpion.Repository.Connections
use scorpion.Repository.Events.Queue.{HoldsQueue}
use scorpion.Stream.Frame.{heartbeat}
use scorpion.Stream.Session.{Session, write}
use scorpion.Stream.Drain.Confined.{counted-Within, drain_and_flush-Within, write-world}
use scorpion.Stream.Loop.{
  Signal, app_done, ctx_done, heartbeat_tick, poll_tick, send_heartbeat, turn, turns, run_loop,
}

module _ (r : Redis) (json : Json) (cfg : Sse) (c ip : String) (tracks : Bool) where
  expire-Confined : (t : ℕ) (d : r.Db) → Confined r c ip d (r.expire (conn_key c ip) t d)
  unfolding exec
  expire-Confined t d = record {
    queue = λ h.
        rw (at-expire_ne r (conn_key c ip) t d (events_key c) (conn_key-ne-events_key c ip c)) h;
    sent = Reached-one r (StreamCommand c ip) (expire_conn c ip t) d (refl, refl);
    foreign = λ h j f. at-expire_ne r (conn_key c ip) t d j f.1;
  }

  pub refresh-Within : (w : World r) → Within r c ip w (Connections.refresh c ip cfg.conn_ttl w).1
  unfolding Connections.refresh
  refresh-Within w = round_trip-Within r c ip _ _ w (expire-Confined cfg.conn_ttl, tt)

  send_heartbeat-Within :
      (now : String) (x : Session r) → Within r c ip x.world (send_heartbeat now x).1.world
  unfolding send_heartbeat
  send_heartbeat-Within now x =
      let (done, x') = write (heartbeat now) x in
      let same : x'.world ≡ x.world = write-world r (heartbeat now) x in
      elim (Bool-cases done) [
        | inl won ↦
            rw won (Within-at r c ip same (counted-Within r c ip _ (Within-refl r c ip x'.world)))
        | inr lost ↦ rw lost (Within-at r c ip same (Within-refl r c ip x'.world))
      ]

  turn-Within :
      (s : Signal) (x : Session r) → Within r c ip x.world (turn json cfg c ip tracks s x).1.world
  unfolding turn
  turn-Within (app_done clock now) x = drain_and_flush-Within r c ip json cfg tracks clock now x
  turn-Within (ctx_done clock now) x = drain_and_flush-Within r c ip json cfg tracks clock now x
  turn-Within (heartbeat_tick clock now) x = send_heartbeat-Within now x
  turn-Within (poll_tick clock now) x =
      Within-trans r c ip (refresh-Within x.world)
        (drain_and_flush-Within r c ip json cfg tracks clock now _)

  turns-Within :
      (signals : List Signal) (x : Session r)
      → Within r c ip x.world (turns json cfg c ip tracks signals x).1.world
  unfolding turns
  turns-Within [] x = Within-refl r c ip x.world
  turns-Within (s ∷ rest) x =
      let (again, x') = turn json cfg c ip tracks s x in
      elim (Bool-cases again) [
        | inl on ↦ rw on (Within-trans r c ip (turn-Within s x) (turns-Within rest x'))
        | inr off ↦ rw off (turn-Within s x)
      ]

  pub run_loop-Within :
      (clock : ℕ) (now : String) (signals : List Signal) (x : Session r)
      → Within r c ip x.world (run_loop json cfg c ip tracks clock now signals x).1.world
  unfolding run_loop
  run_loop-Within clock now signals x =
      Within-trans r c ip (drain_and_flush-Within r c ip json cfg tracks clock now _)
        (turns-Within signals _)

  -- A stream changes no key but its client's queue, its connection, and its client's events in
  -- flight, where the queue is a list: whatever it takes from its `select`, whichever writes fail, and
  -- wherever requests to Redis break. The queue stays a list.
  run_loop-confined :
      (clock : ℕ) (now : String) (signals : List Signal) (x : Session r)
      → HoldsQueue r x.world c
      → let after = (run_loop json cfg c ip tracks clock now signals x).1 in
        HoldsQueue r after.world c
        × ((j : String)
            → (events_key c == j) ≡ false
            → (conn_key c ip == j) ≡ false
            → ((e : String) → (in_flight_key c e == j) ≡ false)
            → r.at after.world.db j ≡ r.at x.world.db j)
  run_loop-confined clock now signals x h =
      let within = run_loop-Within clock now signals x in
      (within.keys.queue h, λ j p q s. within.keys.foreign h j (p, q, s))
