-- ===== src/Stream/Drain.antt =====
-- loop.go, `drainAndFlush`: the times at which its calls happen are arguments, in nanoseconds for
-- the breaker, and as texts for the in-flight registry. Write deadlines are not modelled: `writes`
-- of a session says which writes fail. The spans of internal/telemetry change no state.
pub mod Frames
pub mod Batch
pub mod Order
pub mod Confined
pub mod Known
pub mod Tracks
pub mod Reaches
pub mod Writes
pub mod Once
use scorpion.Prelude.{
  ℕ, suc, String, Bool, true, false, Option, none, some, List, [], ◌∷◌, length, ◌==◌, Result, ok,
  err, if◌then◌else◌,
}
use scorpion.Redis.{Redis}
use scorpion.World.{World, count_metric}
use scorpion.Metrics.{
  events_delivered_total, events_drained_per_tick, event_drain_errors_total, queue_depth,
}
use scorpion.Config.{Sse}
use scorpion.Domain.{EventPayload}
use scorpion.Json.{Json}
use scorpion.Repository.Events
use scorpion.Repository.InFlight
use scorpion.Stream.Breaker.{is_open, record_success, record_failure}
use scorpion.Stream.Frame.{frame}
use scorpion.Stream.Session.{Session, write}

abbrev pub event_type : EventPayload → String
event_type e = if e.type == "" then "message" else e.type

abbrev pub frame_of : EventPayload → String
frame_of e = frame e.id (event_type e) e.body

module _ {r : Redis} (json : Json) (client_id now : String) (tracks : Bool) where
  -- What follows a successful write: the registration, whose failure is only logged, and the count.
  registered : EventPayload → Session r → Session r
  registered e x =
      let world = if tracks then (InFlight.register client_id e.id now x.world).1 else x.world in
      record x { world = count_metric (events_delivered_total (event_type e)) world }

  -- One event of the batch; `false` ends the loop and the whole drain.
  send_event : Option EventPayload → Session r → Bool × Session r
  unfolding registered
  send_event none x = (true, x)
  send_event (some e) x =
      let (done, x') = write (frame_of e) x in if done then (true, registered e x') else (false, x')

  send_batch : List String → Session r → Bool × Session r
  unfolding send_event
  send_batch [] x = (true, x)
  send_batch (raw ∷ rest) x =
      let (done, x') = send_event (json.unmarshal_event raw) x in
      let later = send_batch rest x' in if done then later else (false, x')

  flush_if : Bool → List String → Session r → Session r
  flush_if false batch x = x
  flush_if true [] x = x
  flush_if true (_ ∷ _) x = record x { flushed = suc x.flushed }

  unfoldable pub deliver : List String → Session r → Session r
  unfolding send_batch flush_if
  deliver batch x = let (done, x') = send_batch batch x in flush_if done batch x'

module _ {r : Redis} (json : Json) (cfg : Sse) (client_id : String) (tracks : Bool) where
  after_drain : ℕ → String → Result (List String × ℕ) × World r → Session r → Session r
  unfolding deliver
  after_drain clock now (err _, w) x = record x {
    world = count_metric event_drain_errors_total w;
    breaker = record_failure clock x.breaker;
  }
  after_drain clock now (ok (batch, remaining), w) x =
      deliver json client_id now tracks batch (record x {
        world =
            count_metric (queue_depth remaining)
              (count_metric (events_drained_per_tick (length batch)) w);
        breaker = record_success x.breaker;
      })

  unfoldable pub drain_and_flush : ℕ → String → Session r → Session r
  unfolding after_drain
  drain_and_flush clock now x =
      let (skip, cb) = is_open clock x.breaker in
      let x' = record x { breaker = cb } in
      if skip then x' else after_drain clock now (Events.drain client_id cfg.batch_size x'.world) x'
