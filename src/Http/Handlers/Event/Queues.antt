-- ===== src/Http/Handlers/Event/Queues.antt =====
-- event.go: which queue a request reaches, and with what.
use scorpion.Prelude.{
  ℕ, suc, String, ◌≡◌, ◌≢◌, refl, ap, ◌∙◌, false, some, [], ◌∷◌, ◌++◌, ◌==◌, eq_iff, arith,
}
use scorpion.Prelude.Int.{pos}
use scorpion.Redis.{Redis}
use scorpion.World.{World, Answers}
use scorpion.Config.{Config}
use scorpion.Domain.{EventPayload, EventRequest}
use scorpion.Json.{Json}
use scorpion.Repository.Events
use scorpion.Repository.Events.Queue.{queue, HoldsQueue, keep_last, push-keep_last}
use scorpion.Http.{Request, Context, json, event_response}
use scorpion.Http.Handlers.Poll.{caller_id}
use scorpion.Http.Handlers.Event.{most_bytes, pushed, encoded, bound, v1_insert_event}

module _ (r : Redis) (codec : Json) (cfg : Config) (uuid : String) (req : Request)
    (ctx : Context) where
  abbrev pub payload_of : EventRequest → EventPayload
  payload_of e = record { id = uuid; type = e.type; body = e.body }

  pub accepted_lem :
      (e : EventRequest) (raw : String) (w : World r)
      → req.param_client_id ≢ ""
      → caller_id ctx ≡ req.param_client_id
      → codec.bind_event (most_bytes cfg.sse.max_event_bytes) req.content_type req.body ≡ some e
      → e.type ≢ ""
      → codec.marshal_event (payload_of e) ≡ some raw
      → v1_insert_event codec cfg uuid req ctx w
        ≡ pushed codec cfg uuid
            (payload_of e)
            (Events.push cfg.sse.max_queue_depth req.param_client_id raw w)
  unfolding v1_insert_event bound encoded
  accepted_lem e raw w named mine b typed m =
      let c = req.param_client_id in
      let named' : (c == "") ≡ false = ground (arith, eq_iff c "") in
      let typed' : (e.type == "") ≡ false = ground (arith, eq_iff e.type "") in
      rw (named', (eq_iff (caller_id ctx) c).1 mine, b, typed', m) refl

  -- A client that inserts an event with a type into its own queue, from a body that can be bound
  -- and an event that can be encoded, is answered with 201 and the event, and its queue becomes
  -- the last entries, up to a positive depth limit, of the old queue with the encoded event at its
  -- end, while Redis answers and the queue is a list.
  insert_event-push :
      (e : EventRequest) (raw : String) (m : ℕ) (w : World r)
      → req.param_client_id ≢ ""
      → caller_id ctx ≡ req.param_client_id
      → codec.bind_event (most_bytes cfg.sse.max_event_bytes) req.content_type req.body ≡ some e
      → e.type ≢ ""
      → codec.marshal_event (payload_of e) ≡ some raw
      → cfg.sse.max_queue_depth ≡ pos (suc m)
      → Answers w
      → HoldsQueue r w (caller_id ctx)
      → let after = v1_insert_event codec cfg uuid req ctx w in
        (after.0 ≡ json 201 (event_response (payload_of e)))
        × (queue r after.1 (caller_id ctx)
            ≡ keep_last (suc m) (queue r w (caller_id ctx) ++ raw ∷ []))
  unfolding pushed
  insert_event-push e raw m w named mine b typed marshalled depth a h =
      let c = req.param_client_id in
      let h' : HoldsQueue r w c = rw mine at h in
      let (answer, queued, _, _) = push-keep_last r m c raw w a h' in
      let after = (Events.push (pos (suc m)) c raw w).1 in
      rw (accepted_lem e raw w named mine b typed marshalled, depth, mine)
        (
          ap (λ z. (pushed codec cfg uuid (payload_of e) (z, after)).0) answer,
          ap (λ z. queue r (pushed codec cfg uuid (payload_of e) (z, after)).1 c) answer ∙ queued,
        )
