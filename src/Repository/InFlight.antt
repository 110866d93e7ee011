-- ===== src/Repository/InFlight.antt =====
-- internal/repository/inflight.go: `inFlightStore`. Times are formatted texts.
pub mod Acks
use Prim.Native.String.{◌++◌}
use scorpion.Prelude.{ℕ, ◌*◌, String, Bool, true, false, [], ◌∷◌, Result, ok, err, if◌then◌else◌}
use scorpion.Redis.{Redis}
use scorpion.World.{World, round_trip}
use scorpion.Repository.Keys.{in_flight_key, acked_key}

-- 72 hours
abbrev pub in_flight_ttl : ℕ
in_flight_ttl = 72 * 3600

abbrev pub acked_ttl : ℕ
acked_ttl = 72 * 3600

module _ {r : Redis} where
  unfoldable pub register : String → String → String → World r → Result (Unit {0}) × World r
  register client_id event_id delivered_at =
      round_trip (r.set (in_flight_key client_id event_id) delivered_at in_flight_ttl ∷ [])
        (λ _. tt)

  pub in_flight_checked : Result Bool × World r → Result (Bool × Bool) × World r
  in_flight_checked (err e, w) = (err ("inflight check error: " ++ e), w)
  in_flight_checked (ok found, w) = (ok (found, false), w)

  -- The in-flight registry is asked only about an event that is not acknowledged.
  pub acked_checked : String → Result Bool × World r → Result (Bool × Bool) × World r
  unfolding in_flight_checked
  acked_checked key (err e, w) = (err ("acked check error: " ++ e), w)
  acked_checked key (ok true, w) = (ok (true, true), w)
  acked_checked key (ok false, w) = in_flight_checked (round_trip [] (r.exists key) w)

  -- Whether the event is known, and whether it is acknowledged already.
  unfoldable pub validate : String → String → World r → Result (Bool × Bool) × World r
  unfolding acked_checked
  validate client_id event_id w =
      acked_checked (in_flight_key client_id event_id)
        (round_trip [] (r.exists (acked_key client_id event_id)) w)

  unfoldable pub marked : Result (Unit {0}) × World r → Result Bool × World r
  marked (err e, w) = (err ("mark acked error: " ++ e), w)
  marked (ok _, w) = (ok true, w)

  -- SET of the acked key and DEL of the in-flight key in one pipeline.
  unfoldable pub mark_acked : String → String → String → World r → Result Bool × World r
  unfolding marked
  mark_acked client_id event_id now w = marked (
      round_trip
        (r.set (acked_key client_id event_id) now acked_ttl
          ∷ r.del (in_flight_key client_id event_id)
          ∷ [])
        (λ _. tt) w)
