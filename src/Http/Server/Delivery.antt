-- ===== src/Http/Server/Delivery.antt =====
-- From the insertion of an event over the stream that delivers it to its acknowledgement: event.go,
-- loop.go and ack.go.
use Prim.Native.String.{String}
use scorpion.Prelude.{
  ℕ, suc, ◌≡◌, ◌≢◌, refl, ap, ◌∙◌, true, false, some, List, [], ◌∷◌, ◌++◌, ◌-◌, arith, ok,
}
use scorpion.Prelude.Int.{pos}
use scorpion.Redis.{Redis, is_some}
use scorpion.World.{World}
use scorpion.Config.{Config}
use scorpion.Domain.{EventPayload, EventRequest, AckRequest}
use scorpion.Json.{Json}
use scorpion.Ack.{Publisher}
use scorpion.Repository.Keys.{acked_key, in_flight_key}
use scorpion.Repository.Keys.Distinct.{events_key-ne-acked_key}
use scorpion.Repository.Events
use scorpion.Repository.Events.Queue.{queue, HoldsQueue, keep_last, push-keep_last, push-quiet}
use scorpion.Repository.InFlight.Acks.{in_flight, acked}
use scorpion.Stream.Breaker.{new_circuit_breaker}
use scorpion.Stream.Session.{Session}
use scorpion.Stream.Drain.{frame_of, drain_and_flush}
use scorpion.Stream.Drain.Order.{IsClear}
use scorpion.Stream.Drain.Known.{Fresh, Fresh-in_flight}
use scorpion.Stream.Drain.Reaches.{drain_reaches}
use scorpion.Stream.Loop.{Signal, run_loop}
use scorpion.Stream.Loop.Tracks.{turns-Tracks, run_loop-acked}
use scorpion.Http.{Request, Context, json, event_response, ack_response}
use scorpion.Http.Handlers.Poll.{caller_id}
use scorpion.Http.Handlers.Event.{most_bytes, pushed, v1_insert_event}
use scorpion.Http.Handlers.Event.Queues.{payload_of, accepted_lem}
use scorpion.Http.Handlers.Ack.{record_of, response_of, v1_ack_event}
use scorpion.Http.Handlers.Ack.Once.{Accepted, first_lem, published_lem}
use scorpion.Http.Server.Requests.{new_session}

kept_one : (raw : String) (m : ℕ) → keep_last (suc m) (raw ∷ []) ≡ raw ∷ []
kept_one raw m = let none_dropped : 1 - suc m ≡ 0 = omega arith in rw none_dropped refl

-- A stream over a world in which one event waits for the client.
module _ (r : Redis) (codec : Json) (cfg : Config) (c ip : String) where
  -- What the stream has done with the event.
  pub record Delivered (d : EventPayload) (w : World r) (x : Session r) : Type 0 where
    pub quiet : x.world.outcomes ≡ []
    pub rest : List String
    pub first : x.written ≡ frame_of d ∷ rest
    tracked : Fresh r x.world.db (in_flight_key c d.id)
    pub acks : acked r x.world c d.id ≡ acked r w c d.id

  run_loop-Delivered :
      (b clock : ℕ) (now raw : String) (d : EventPayload) (signals : List Signal) (w : World r)
      → cfg.sse.batch_size ≡ pos (suc b)
      → w.outcomes ≡ []
      → HoldsQueue r w c
      → queue r w c ≡ raw ∷ []
      → codec.unmarshal_event raw ≡ some d
      → Delivered d w (run_loop codec cfg.sse c ip true clock now signals (new_session w [])).1
  unfolding run_loop new_circuit_breaker
  run_loop-Delivered b clock now raw d signals w size q h waits decoded =
      let x : Session r = record (new_session w []) {
        breaker = new_circuit_breaker 5 10_000_000_000;
      } in
      let y = drain_and_flush codec cfg.sse c true clock now x in
      let clear : IsClear r c x = record { answers = q; list = h; closed = refl } in
      let (texts, tracked, l) =
        drain_reaches r codec cfg.sse c now clock b raw d x size clear refl waits decoded in
      let t = turns-Tracks r codec cfg.sse c ip signals y l.quiet l.list in
      record {
        quiet = t.lasts.quiet;
        rest = t.texts;
        first = t.appended ∙ ap (λ z. z ++ t.texts) texts;
        tracked = t.lasts.stays d.id tracked;
        acks = run_loop-acked r codec cfg.sse c ip clock now signals (new_session w []) d.id h;
      }

module _ (r : Redis) (p : Publisher) (codec : Json) (cfg : Config) where
  inserted_lem :
      (uuid raw : String) (req : Request) (ctx : Context) (e : EventRequest) (m : ℕ) (w : World r)
      → req.param_client_id ≢ ""
      → caller_id ctx ≡ req.param_client_id
      → codec.bind_event (most_bytes cfg.sse.max_event_bytes) req.content_type req.body ≡ some e
      → e.type ≢ ""
      → codec.marshal_event (payload_of r codec cfg uuid req ctx e) ≡ some raw
      → cfg.sse.max_queue_depth ≡ pos (suc m)
      → w.outcomes ≡ []
      → HoldsQueue r w req.param_client_id
      → v1_insert_event codec cfg uuid req ctx w ≡ (
        json 201 (event_response (payload_of r codec cfg uuid req ctx e)),
        (Events.push (pos (suc m)) req.param_client_id raw w).1,
      )
  unfolding pushed
  inserted_lem uuid raw req ctx e m w named mine b typed marshalled depth q h =
      let c = req.param_client_id in
      let after = (Events.push (pos (suc m)) c raw w).1 in
      let answer = (push-keep_last r m c raw w (rw q tt) h).0 in
      accepted_lem r codec cfg uuid req ctx e raw w named mine b typed marshalled
      ∙ ap
          (λ z.
            pushed codec cfg uuid (payload_of r codec cfg uuid req ctx e) (Events.push z c raw w))
          depth
      ∙ ap (λ z. pushed codec cfg uuid (payload_of r codec cfg uuid req ctx e) (z, after)) answer

  -- An event on its whole way. A client whose queue is empty inserts an event: it is answered with 201.
  -- Then it opens a stream: whatever the stream takes from its `select`, the first that it writes is the
  -- frame of the event, with the id that the server drew for it. Then it acknowledges that id: it is
  -- answered with 200. Redis answers throughout, every write succeeds, events are tracked, the queue is
  -- a list, depth and batch size are positive, the bodies of both requests are accepted, the id is not
  -- acknowledged before, and the publisher is connected and takes the record.
  pub event_delivery :
      (uuid raw ip : String) (req req' : Request) (ctx ctx' : Context) (e : EventRequest)
      (a : AckRequest) (m b clock seq : ℕ) (now ack_id server_now marked_at : String)
      (signals : List Signal) (w : World r) (s s' : p.State)
      → req.param_client_id ≢ ""
      → caller_id ctx ≡ req.param_client_id
      → codec.bind_event (most_bytes cfg.sse.max_event_bytes) req.content_type req.body ≡ some e
      → e.type ≢ ""
      → codec.marshal_event (payload_of r codec cfg uuid req ctx e) ≡ some raw
      → cfg.sse.max_queue_depth ≡ pos (suc m)
      → cfg.sse.batch_size ≡ pos (suc b)
      → w.outcomes ≡ []
      → HoldsQueue r w req.param_client_id
      → queue r w req.param_client_id ≡ []
      → acked r w req.param_client_id uuid ≡ false
      → Accepted r p codec ack_id server_now marked_at req' ctx' a
      → a.client_id ≡ req.param_client_id
      → a.event_id ≡ uuid
      → p.connected s ≡ true
      → p.publish (record_of ack_id server_now a) s ≡ (ok seq, s')
      → let inserted = v1_insert_event codec cfg uuid req ctx w in
        let stream =
          (run_loop codec cfg.sse req.param_client_id ip true clock now signals
            (new_session inserted.1 [])).1 in
        let answer = v1_ack_event p codec ack_id server_now marked_at req' ctx' (stream.world, s) in
        (inserted.0 ≡ json 201 (event_response (payload_of r codec cfg uuid req ctx e)))
        × ((d : EventPayload) × (d.id ≡ uuid)
            × (d.type ≡ e.type)
            × (rest : List String) × (stream.written ≡ frame_of d ∷ rest))
        × (answer.0 ≡ json 200 (ack_response (response_of ack_id server_now a seq)))
  event_delivery uuid raw ip req req' ctx ctx' e a m b clock seq now ack_id server_now marked_at
        signals w s s' named mine bound typed marshalled depth size q h empty fresh valid own this
        up taken =
      let c = req.param_client_id in
      let w₁ = (Events.push (pos (suc m)) c raw w).1 in
      let (_, queued, list, others) = push-keep_last r m c raw w (rw q tt) h in
      let waits : queue r w₁ c ≡ raw ∷ [] =
        queued ∙ ap (λ z. keep_last (suc m) (z ++ raw ∷ [])) empty ∙ kept_one raw m in
      let (d, decoded, id, kind) = codec.unmarshal-marshal _ raw marshalled in
      let sent : Delivered r codec cfg c ip d w₁ (streamed w₁) =
        run_loop-Delivered r codec cfg c ip b clock now raw d signals w₁ size
          (push-quiet r m c raw w q) list waits decoded in
      let same : acked r w₁ c uuid ≡ acked r w c uuid =
        ap is_some (others (acked_key c uuid) ∙ rw (events_key-ne-acked_key c c uuid) refl) in
      let there : in_flight r (streamed w₁).world a.client_id a.event_id ≡ true =
        rw (own, this, ← id) (Fresh-in_flight r (streamed w₁).world c d.id sent.tracked) in
      let new : acked r (streamed w₁).world a.client_id a.event_id ≡ false =
        rw (own, this) (rw id at sent.acks ∙ same ∙ fresh) in
      let v = (streamed w₁).world in
      let first =
        first_lem r p codec ack_id server_now marked_at req' ctx' a v s s' seq valid sent.quiet
          there new up taken in
      let (_, done, _) =
        published_lem r p codec ack_id server_now marked_at req' ctx' a s' seq v sent.quiet in
      rw (inserted_lem uuid raw req ctx e m w named mine bound typed marshalled depth q h)
        (refl, (d, id, kind, sent.rest, sent.first), ap (λ z. z.0) first ∙ done.0)
    where
      streamed : World r → Session r
      streamed v =
          (run_loop codec cfg.sse req.param_client_id ip true clock now signals
            (new_session v [])).1
