-- ===== src/Repository/Events.antt =====
-- internal/repository/events.go: `eventStore`.
pub mod Queue
pub mod Runs
pub mod Fifo
pub mod Race
use scorpion.Prelude.{ℕ, suc, String, List, [], ◌∷◌, Result, ok, err}
use Prim.Native.String.{◌++◌}
use scorpion.Prelude.Int.{ℤ, pos, negsuc, ◌-ℤ◌}
use scorpion.Redis.{Redis}
use scorpion.World.{World, round_trip}
use scorpion.Repository.Keys.{events_key}

module _ {r : Redis} where
  -- RPUSH and LTRIM in one pipeline, keeping the last `max_queue_depth` events.
  unfoldable pub push : ℤ → String → String → World r → Result (Unit {0}) × World r
  push max_queue_depth client_id event_json =
      let key = events_key client_id in
      round_trip (r.rpush key event_json ∷ r.ltrim key (pos 0 -ℤ max_queue_depth) (negsuc 0) ∷ [])
        (λ _. tt)

  abbrev pub drained : Result (List String × ℕ) × World r → Result (List String × ℕ) × World r
  drained (ok batch, w) = (ok batch, w)
  drained (err e, w) = (err ("failed to drain events: " ++ e), w)

  -- LRANGE, LTRIM and LLEN in one pipeline.
  unfoldable pub drain : String → ℤ → World r → Result (List String × ℕ) × World r
  drain client_id batch_size w =
      let key = events_key client_id in
      drained (
        round_trip ((λ d. d) ∷ r.ltrim key batch_size (negsuc 0) ∷ (λ d. d) ∷ [])
          (λ d. (
            r.lrange key (pos 0) (batch_size -ℤ pos 1) d,
            r.llen key (r.ltrim key batch_size (negsuc 0) d),
          ))
          w)
