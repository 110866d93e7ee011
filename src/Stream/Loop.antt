-- ===== src/Stream/Loop.antt =====
-- loop.go, `RunLoop`, and heartbeat.go: the loop over what its `select` takes, which is the list of
-- signals; the list ends where the observation does.
pub mod Conserves
pub mod Confined
pub mod Ends
pub mod Tracks
pub mod Once
use scorpion.Prelude.{ℕ, ◌+◌, String, Bool, true, false, List, [], ◌∷◌, if◌then◌else◌}
use scorpion.Redis.{Redis}
use scorpion.World.{World, count_metric}
use scorpion.Metrics.{heartbeats_sent_total}
use scorpion.Config.{Sse}
use scorpion.Json.{Json}
use scorpion.Repository.Connections
use scorpion.Stream.Breaker.{new_circuit_breaker}
use scorpion.Stream.Frame.{heartbeat}
use scorpion.Stream.Session.{Session, write}
use scorpion.Stream.Drain.{drain_and_flush}

-- Each signal with the time at which it is handled.
pub data Signal : Type 0 where
  app_done ctx_done heartbeat_tick poll_tick : ℕ → String → Signal

module _ {r : Redis} where
  unfoldable pub send_heartbeat : String → Session r → Bool × Session r
  send_heartbeat now x =
      let (done, x') = write (heartbeat now) x in
      if done
      then (
        true,
        record x' { world = count_metric heartbeats_sent_total x'.world; flushed = x'.flushed + 1 },
      )
      else (false, x')

module _ {r : Redis} (json : Json) (cfg : Sse) (client_id client_ip : String) (tracks : Bool) where
  -- One turn of the loop, and whether it goes on.
  unfoldable pub turn : Signal → Session r → Bool × Session r
  turn (app_done clock now) x = (false, drain_and_flush json cfg client_id tracks clock now x)
  turn (ctx_done clock now) x = (false, drain_and_flush json cfg client_id tracks clock now x)
  turn (heartbeat_tick clock now) x = send_heartbeat now x
  turn (poll_tick clock now) x =
      let world = (Connections.refresh client_id client_ip cfg.conn_ttl x.world).1 in
      (true, drain_and_flush json cfg client_id tracks clock now (record x { world = world }))

  unfoldable pub turns : List Signal → Session r → Bool × Session r
  turns [] x = (true, x)
  turns (s ∷ rest) x =
      let (again, x') = turn s x in
      let later = turns rest x' in if again then later else (false, x')

  -- The breaker is new for each stream: five failures, ten seconds.
  unfoldable pub run_loop : ℕ → String → List Signal → Session r → Bool × Session r
  unfolding turns
  run_loop clock now signals x =
      let x' = record x { breaker = new_circuit_breaker 5 10_000_000_000 } in
      turns signals (drain_and_flush json cfg client_id tracks clock now x')
