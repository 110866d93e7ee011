-- ===== src/Http/Handlers/Health.antt =====
-- health.go: `Healthz` and `Readyz`. A PING is a round trip with no command; no publisher at all
-- counts as connected.
use scorpion.Prelude.{Bool, true, false, Option, none, some, [], Result, ok, err}
use scorpion.Redis.{Redis}
use scorpion.World.{World, round_trip}
use scorpion.Http.{Response, json, health_response, checks_response, degraded_response}

module _ {r : Redis} where
  unfoldable pub ping : World r → Result (Unit {0}) × World r
  ping w = round_trip [] (λ _. tt) w

  unfoldable pub healthy : Result (Unit {0}) × World r → Response × World r
  healthy (err e, w) = (json 503 (degraded_response e), w)
  healthy (ok _, w) = (json 200 (health_response "ok"), w)

  unfoldable pub healthz : World r → Response × World r
  unfolding healthy
  healthz w = healthy (ping w)

  ready : Bool → Result (Unit {0}) × World r → Response × World r
  ready true (ok _, w) = (json 200 (checks_response "ready" "ok" "ok"), w)
  ready false (ok _, w) = (json 503 (checks_response "not_ready" "ok" "disconnected"), w)
  ready true (err _, w) = (json 503 (checks_response "not_ready" "disconnected" "ok"), w)
  ready false (err _, w) = (json 503 (checks_response "not_ready" "disconnected" "disconnected"), w)

  unfoldable readyz : Option Bool → World r → Response × World r
  unfolding ready
  readyz none w = ready true (ping w)
  readyz (some connected) w = ready connected (ping w)
