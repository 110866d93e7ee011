-- ===== src/Http/Handlers/Ack.antt =====
-- ack.go: `V1AckEvent` and `validateAckRequest`. The state is Redis and the publisher's; the record's
-- id and the two times are arguments.
pub mod Once
pub mod Refusals
use Prim.Native.String.{◌++◌}
use scorpion.Prelude.{
  ℕ, String, Bool, true, false, Option, none, some, ◌==◌, ◌&&◌, not, Result, ok, err, if◌then◌else◌,
}
use scorpion.Redis.{Redis}
use scorpion.World.{World, count_metric}
use scorpion.Metrics.{
  unacked_events_dec, ack_requests_total, ack_processing_duration, ack_validation_errors_total,
  ack_duplicate_total, ack_unknown_event_total, nats_publish_total, nats_publish_duration,
}
use scorpion.Domain.{
  AckRequest, AckRecord, AckResponse, status_received, status_processed, status_failed,
}
use scorpion.Json.{Json}
use scorpion.Ack.{Publisher}
use scorpion.Repository.InFlight
use scorpion.Http.{Request, Context, Response, json, failure, ack_response}
use scorpion.Http.Middleware.{Handler}
use scorpion.Http.Handlers.Poll.{caller_id}

-- The error, if there is one.
unfoldable pub validate_ack_request : AckRequest → Option String
validate_ack_request a =
    if a.event_id == ""
    then some "missing required field: event_id"
    else if a.client_id == ""
    then some "missing required field: client_id"
    else if a.stream_id == ""
    then some "missing required field: stream_id"
    else if a.acked_at == ""
    then some "missing required field: acked_at"
    else if not (a.status == status_received)
        && not (a.status == status_processed)
        && not (a.status == status_failed)
    then some "invalid status: must be one of received, processed, failed"
    else none

abbrev pub State : Redis → Publisher → Type 0
State r p = World r × p.State

module _ (ack_id server_now : String) where
  abbrev pub record_of : AckRequest → AckRecord
  record_of a = record {
    ack_id = ack_id;
    event_id = a.event_id;
    client_id = a.client_id;
    stream_id = a.stream_id;
    acked_at = a.acked_at;
    status = a.status;
    metadata = a.metadata;
    server_received_at = server_now;
  }

  abbrev pub response_of : AckRequest → ℕ → AckResponse
  response_of a seq = record {
    ack_id = ack_id;
    event_id = a.event_id;
    published = true;
    nats_seq = seq;
    timestamp = server_now;
  }

module _ {r : Redis} (p : Publisher) (codec : Json) (ack_id server_now marked_at : String) where
  unfoldable pub published : AckRequest → Result ℕ × p.State → World r → Response × State r p
  published a (err _, s) w =
      let subject = "scorpion.sse.acks." ++ a.client_id in
      (
        json 502 (failure "bad_gateway" "Failed to publish ACK to NATS."),
        (
          count_metric (ack_requests_total 502 a.stream_id)
              (count_metric (nats_publish_total subject "failure") w),
          s,
        ),
      )
  published a (ok seq, s) w =
      let subject = "scorpion.sse.acks." ++ a.client_id in
      let w₁ =
        count_metric (nats_publish_duration subject)
          (count_metric (nats_publish_total subject "success") w) in
      let w₂ = (InFlight.mark_acked a.client_id a.event_id marked_at w₁).1 in
      (
        json 200 (ack_response (response_of ack_id server_now a seq)),
        (
          count_metric (unacked_events_dec a.stream_id a.client_id) (
              count_metric (ack_requests_total 200 a.stream_id)
                (count_metric (ack_processing_duration a.stream_id) w₂)),
          s,
        ),
      )

  -- after `Validate`: whether the event was found, and whether it was acknowledged already
  unfoldable pub validated :
      AckRequest → Result (Bool × Bool) × World r → p.State → Response × State r p
  unfolding published
  validated a (err _, w) s =
      (json 500 (failure "internal_error" "Failed to validate event."), (w, s))
  validated a (ok (_, true), w) s = (
    json 409 (failure "conflict" "This event has already been acknowledged."),
    (
      count_metric (ack_requests_total 409 a.stream_id)
          (count_metric (ack_duplicate_total a.stream_id) w),
      s,
    ),
  )
  validated a (ok (false, false), w) s = (
    json 404 (failure "not_found" "event_id not found in in-flight registry."),
    (
      count_metric (ack_requests_total 404 a.stream_id)
          (count_metric (ack_unknown_event_total a.stream_id) w),
      s,
    ),
  )
  validated a (ok (true, false), w) s = published a (p.publish (record_of ack_id server_now a) s) w

  unfoldable pub checked :
      String → AckRequest → Option String → World r → p.State → Response × State r p
  unfolding validated
  checked authed_client_id a (some message) w s = (
    json 400 (failure "bad_request" message),
    (count_metric (ack_validation_errors_total "missing_fields") w, s),
  )
  checked authed_client_id a none w s =
      if not (a.client_id == authed_client_id)
      then (
        json 403 (failure "forbidden" "client_id does not match authorization token."),
        (count_metric (ack_validation_errors_total "client_id_mismatch") w, s),
      )
      else validated a (InFlight.validate a.client_id a.event_id w) s

  unfoldable pub decoded : String → Option AckRequest → World r → p.State → Response × State r p
  unfolding checked
  decoded authed_client_id none w s = (
    json 400 (failure "bad_request" "Malformed or non-JSON request body."),
    (count_metric (ack_validation_errors_total "malformed_json") w, s),
  )
  decoded authed_client_id (some a) w s = checked authed_client_id a (validate_ack_request a) w s

  unfoldable pub v1_ack_event : Handler (State r p)
  unfolding decoded
  v1_ack_event req ctx (w, s) =
      if not (p.connected s)
      then (
        json 503 (failure "service_unavailable" "ACK handler is not connected to NATS."),
        (w, s),
      )
      else decoded (caller_id ctx) (codec.decode_ack req.body) w s
