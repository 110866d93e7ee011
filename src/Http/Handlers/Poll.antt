-- ===== src/Http/Handlers/Poll.antt =====
-- poll.go: `V1Poll`. `strconv.Atoi` is a parameter.
use scorpion.Prelude.{
  ℕ, String, Option, none, some, List, [], ◌∷◌, length, ◌==◌, ◌&&◌, not, Result, ok, err,
  if◌then◌else◌,
}
use scorpion.Prelude.Int.{ℤ, pos, ltb_ℤ, leb_ℤ}
use scorpion.Redis.{Redis}
use scorpion.World.{World}
use scorpion.Config.{Config}
use scorpion.Domain.{EventPayload}
use scorpion.Json.{Json}
use scorpion.Repository.Events
use scorpion.Http.{Context, Response, json, failure, events_response}
use scorpion.Http.Middleware.{Handler}

-- `callerID, _ := ctx.Get(middleware.ClientID).(string)`
abbrev pub caller_id : Context → String
caller_id ctx = elim ctx.client_id [ none ↦ "" | some c ↦ c ]

abbrev pub missing_client_id : Response
missing_client_id = json 400 (failure "bad_request" "Missing client_id.")

abbrev within : ℤ → ℤ → Option ℤ → ℤ
within most default none = default
within most default (some n) = if ltb_ℤ (pos 0) n && leb_ℤ n most then n else default

unfoldable pub batch_size_of : (String → Option ℤ) → ℤ → String → ℤ
batch_size_of atoi most raw = if raw == "" then most else within most most (atoi raw)

module _ (codec : Json) where
  -- A malformed event is skipped.
  unfoldable payloads : List String → List EventPayload
  payloads [] = []
  payloads (raw ∷ rest) = elim (codec.unmarshal_event raw) [
    | none ↦ payloads rest
    | some p ↦ p ∷ payloads rest
  ]

module _ {r : Redis} (codec : Json) (atoi : String → Option ℤ) (cfg : Config) where
  drained : Result (List String × ℕ) × World r → Response × World r
  unfolding payloads
  drained (err _, w) = (json 500 (failure "internal_error" "Failed to read events."), w)
  drained (ok (raw_events, _), w) = (
    json 200 (events_response (payloads codec raw_events) (length (payloads codec raw_events))),
    w,
  )

  unfoldable pub v1_poll : Handler (World r)
  unfolding drained
  v1_poll req ctx w =
      let client_id = req.param_client_id in
      if client_id == ""
      then (missing_client_id, w)
      else if not (caller_id ctx == client_id)
      then (json 403 (failure "forbidden" "You may only poll your own event queue."), w)
      else drained
          (Events.drain client_id (batch_size_of atoi cfg.sse.batch_size req.query_batch_size) w)
