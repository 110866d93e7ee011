-- ===== src/Http/Handlers/Event.antt =====
-- event.go: `V1InsertEvent`. The id is the next value of `uuid.NewString`.
pub mod Queues
use scorpion.Prelude.{ℕ, String, Option, none, some, ◌==◌, not, leb, Result, ok, err, if◌then◌else◌}
use scorpion.Prelude.Int.{ℤ, pos_part}
use scorpion.Redis.{Redis}
use scorpion.World.{World}
use scorpion.Config.{Config}
use scorpion.Domain.{EventPayload, EventRequest}
use scorpion.Json.{Json}
use scorpion.Repository.Events
use scorpion.Http.{Request, Context, Response, json, failure, event_response}
use scorpion.Http.Middleware.{Handler}
use scorpion.Http.Handlers.Poll.{caller_id, missing_client_id}

-- The limit that `MaxBytesReader` puts on the body, where the setting is positive.
abbrev pub most_bytes : ℤ → Option ℕ
most_bytes n = if leb (pos_part n) 0 then none else some (pos_part n)

module _ {r : Redis} (codec : Json) (cfg : Config) (uuid : String) where
  unfoldable pub pushed : EventPayload → Result (Unit {0}) × World r → Response × World r
  pushed payload (err _, w) = (json 500 (failure "internal_error" "Failed to push event."), w)
  pushed payload (ok _, w) = (json 201 (event_response payload), w)

  unfoldable pub encoded : String → EventPayload → Option String → World r → Response × World r
  unfolding pushed
  encoded client_id payload none w =
      (json 500 (failure "internal_error" "Failed to encode event."), w)
  encoded client_id payload (some raw) w =
      pushed payload (Events.push cfg.sse.max_queue_depth client_id raw w)

  unfoldable pub bound : String → Option EventRequest → World r → Response × World r
  unfolding encoded
  bound client_id none w =
      (json 400 (failure "bad_request" "Invalid request body or payload too large."), w)
  bound client_id (some e) w =
      if e.type == ""
      then (json 400 (failure "bad_request" "Field 'type' is required."), w)
      else let payload : EventPayload = record { id = uuid; type = e.type; body = e.body } in
        encoded client_id payload (codec.marshal_event payload) w

  unfoldable pub v1_insert_event : Handler (World r)
  unfolding bound
  v1_insert_event req ctx w =
      let client_id = req.param_client_id in
      if client_id == ""
      then (missing_client_id, w)
      else if not (caller_id ctx == client_id)
      then (json 403 (failure "forbidden" "You may only push events to your own queue."), w)
      else bound client_id
          (codec.bind_event (most_bytes cfg.sse.max_event_bytes) req.content_type req.body) w
