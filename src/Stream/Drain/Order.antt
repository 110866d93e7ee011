-- ===== src/Stream/Drain/Order.antt =====
-- loop.go, `drainAndFlush`: what reaches the client of what leaves the queue.
use mathlib.Core.List.{append_assoc}
use scorpion.Prelude.{
  ℕ, suc, String, ◌≡◌, refl, sym, ap, ◌∙◌, Bool, false, List, [], ◌++◌, length, ◌-◌, take, drop,
  take-append-drop,
}
use scorpion.Prelude.Int.{pos}
use scorpion.Redis.{Redis, items}
use scorpion.World.{count_metric}
use scorpion.Metrics.{events_drained_per_tick, queue_depth}
use scorpion.Config.{Sse}
use scorpion.Json.{Json}
use scorpion.Repository.Events
use scorpion.Repository.Events.Queue.{queue, HoldsQueue, drain-take, drain-quiet}
use scorpion.Stream.Breaker.{is_open, record_success}
use scorpion.Stream.Session.{Session}
use scorpion.Stream.Drain.{deliver, after_drain, drain_and_flush}
use scorpion.Stream.Drain.Frames.{frames, frames-append}
use scorpion.Stream.Drain.Batch.{Sends, deliver-take, deliver-all}

-- What a stream session must be for a drain to reach Redis and be answered.
pub record IsClear (r : Redis) (client_id : String) (x : Session r) : Type 0 where
  pub answers : x.world.outcomes ≡ []
  pub list : HoldsQueue r x.world client_id
  pub closed : x.breaker.open_until ≡ 0

module _ (r : Redis) (json : Json) (cfg : Sse) (client_id : String) (tracks : Bool) (clock : ℕ)
    (now : String) where
  closed_lem :
      (x : Session r) → x.breaker.open_until ≡ 0 → is_open clock x.breaker ≡ (false, x.breaker)
  unfolding is_open
  closed_lem x e = rw e refl

  -- The session in which a batch is delivered.
  abbrev pub with_batch : ℕ → Session r → Session r
  with_batch b x = record x {
    world = count_metric (queue_depth (length (queue r x.world client_id) - suc b)) (
        count_metric (events_drained_per_tick (length (take (suc b) (queue r x.world client_id))))
          (Events.drain client_id (pos (suc b)) x.world).1);
    breaker = record_success x.breaker;
  }

  pub drain_step :
      (b : ℕ) (x : Session r)
      → cfg.batch_size ≡ pos (suc b)
      → IsClear r client_id x
      → drain_and_flush json cfg client_id tracks clock now x
        ≡ deliver json client_id now tracks
            (take (suc b) (queue r x.world client_id))
            (with_batch b x)
  unfolding drain_and_flush after_drain
  drain_step b x size clear =
      let answer = (drain-take r b client_id x.world (rw clear.answers tt) clear.list).0 in
      let d = Events.drain client_id (pos (suc b)) x.world in
      rw (closed_lem x clear.closed, size)
        (ap (λ z. after_drain json cfg client_id tracks clock now z x) (λ i. (answer i, d.1)))

  -- What a delivery leaves of the queue, and that the next drain reaches Redis.
  delivered-IsClear :
      (b : ℕ) (x y : Session r) (fs : List String)
      → IsClear r client_id x
      → Sends r json client_id now tracks (with_batch b x) y fs
      → (queue r y.world client_id ≡ drop (suc b) (queue r x.world client_id))
        × IsClear r client_id y
  unfolding record_success
  delivered-IsClear b x y fs clear s =
      let (_, rest, list, _) = drain-take r b client_id x.world (rw clear.answers tt) clear.list in
      (
        ap items (s.keeps.queues client_id) ∙ rest,
        record {
          answers = s.keeps.quiet;
          list = rw (s.keeps.queues client_id) list;
          closed = rw s.breaker refl;
        },
      )

  -- A drain with a positive batch size, of a queue that is a list and while Redis answers, takes
  -- the oldest events, up to the batch size, out of the queue, whatever becomes of the writes:
  -- what the client is written is a beginning of their frames, in their order, so that the events
  -- behind a failed write reach nobody. The breaker is closed before; it is closed after, and
  -- Redis keeps answering.
  pub drain-prefix :
      (b : ℕ) (x : Session r)
      → cfg.batch_size ≡ pos (suc b)
      → IsClear r client_id x
      → let after = drain_and_flush json cfg client_id tracks clock now x in
        (n : ℕ) × (after.written
          ≡ x.written ++ take n (frames json (take (suc b) (queue r x.world client_id))))
        × (queue r after.world client_id ≡ drop (suc b) (queue r x.world client_id))
        × IsClear r client_id after
  drain-prefix b x size clear =
      let q = queue r x.world client_id in
      let (n, s) =
        deliver-take r json client_id now tracks (take (suc b) q) (with_batch b x)
          (drain-quiet r b client_id x.world clear.answers) in
      let (rest, clear') = delivered-IsClear b x _ _ clear s in
      rw (drain_step b x size clear) (n, s.texts, rest, clear')

  -- With a positive batch size, a closed breaker and a queue that is a list, while Redis answers
  -- and every write succeeds, a drain writes to the client the frames of exactly the events that
  -- leave the queue: with the frames of what stays, they are the frames of the queue before.
  pub drain_complete :
      (b : ℕ) (x : Session r)
      → cfg.batch_size ≡ pos (suc b)
      → IsClear r client_id x
      → x.writes ≡ []
      → let after = drain_and_flush json cfg client_id tracks clock now x in
        (after.written ++ frames json (queue r after.world client_id)
          ≡ x.written ++ frames json (queue r x.world client_id))
        × (queue r after.world client_id ≡ drop (suc b) (queue r x.world client_id))
        × IsClear r client_id after
        × (after.writes ≡ [])
  drain_complete b x size clear w =
      let q = queue r x.world client_id in
      let (s, w') =
        deliver-all r json client_id now tracks (take (suc b) q) (with_batch b x)
          (drain-quiet r b client_id x.world clear.answers) w in
      let (rest, clear') = delivered-IsClear b x _ _ clear s in
      let y = deliver json client_id now tracks (take (suc b) q) (with_batch b x) in
      let kept =
        ap (λ z. y.written ++ frames json z) rest
        ∙ ap (λ z. z ++ frames json (drop (suc b) q)) s.texts
        ∙ append_assoc x.written (frames json (take (suc b) q)) (frames json (drop (suc b) q))
        ∙ ap (λ z. x.written ++ z)
            (sym (frames-append json (take (suc b) q) (drop (suc b) q))
              ∙ ap (frames json) (take-append-drop (suc b) q)) in
      rw (drain_step b x size clear) (kept, rest, clear', w')
