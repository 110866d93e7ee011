-- ===== src/Stream/Drain/Once.antt =====
-- loop.go, `drainAndFlush`: no event is written twice, whatever the network and the client do.
use scorpion.Prelude.{
  ℕ, zero, suc, ◌+◌, ◌≤◌, String, ◌≡◌, refl, sym, subst, ap, ◌∙◌, ◌⊎◌, Bool, Bool-cases, inl, inr,
  List, [], ◌∷◌, length, take, drop, take-append-drop, Result, ok, err, arith,
}
use scorpion.Prelude.Int.{pos, negsuc, ◌-ℤ◌}
use scorpion.Redis.{Redis, items, IsList}
use scorpion.World.{World, count_metric, run_some}
use scorpion.World.Trips.{reply_cases}
use scorpion.Config.{Sse}
use scorpion.Json.{Json}
use scorpion.Repository.Keys.{events_key}
use scorpion.Repository.Events
use scorpion.Repository.Events.Queue.{queue, HoldsQueue, drain-take, cut_lem, cut-IsList}
use scorpion.Stream.Breaker.{Breaker, is_open, record_success}
use scorpion.Metrics.{events_drained_per_tick, queue_depth}
use scorpion.Stream.Session.{Session}
use scorpion.Stream.Drain.Frames.{frames, frames-append}
use scorpion.Stream.Drain.{after_drain, drain_and_flush}
use scorpion.Stream.Drain.Writes.{occurs, occurs-append, deliver-Writes}

module _ (r : Redis) (json : Json) (c t : String) where
  -- How often a text was written, or waits in the queue as an event of this frame.
  abbrev due : Session r → ℕ
  due x = occurs t x.written + occurs t (frames json (queue r x.world c))

  -- From the one session to the other the queue stays a list, and the text is due no more often.
  pub record Dwindles (x x' : Session r) : Type 0 where
    pub list : HoldsQueue r x'.world c
    pub less : due x' ≤ due x

  pub Dwindles-trans : {x y z : Session r} → Dwindles x y → Dwindles y z → Dwindles x z
  Dwindles-trans p q = record { list = q.list; less = omega (arith, p.less, q.less) }

  -- The front of a queue, and its rest.
  occurs-cut :
      (n : ℕ) (q : List String)
      → occurs t (frames json (take n q)) + occurs t (frames json (drop n q))
        ≡ occurs t (frames json q)
  occurs-cut n q =
      sym (occurs-append t (frames json (take n q)) (frames json (drop n q)))
      ∙ ap (occurs t)
          (sym (frames-append json (take n q) (drop n q)) ∙ ap (frames json) (take-append-drop n q))

  -- What a drain leaves, which may break: a batch and the rest, or an error and the queue, from which
  -- the batch may have been cut.
  Drained : ℕ → World r → Result (List String × ℕ) × World r → Type 0
  Drained n w (ok (batch, _), w') =
      (batch ≡ take n (queue r w c)) × (queue r w' c ≡ drop n (queue r w c)) × HoldsQueue r w' c
  Drained n w (err _, w') =
      ((queue r w' c ≡ queue r w c) ⊎ (queue r w' c ≡ drop n (queue r w c))) × HoldsQueue r w' c

  broken_drain :
      (b n : ℕ) (d : r.Db)
      → IsList (r.at d (events_key c))
      → let d' =
          run_some n
            ((λ z. z) ∷ r.ltrim (events_key c) (pos (suc b)) (negsuc 0) ∷ (λ z. z) ∷ [])
            d in
        ((items (r.at d' (events_key c)) ≡ items (r.at d (events_key c)))
          ⊎ (items (r.at d' (events_key c)) ≡ drop (suc b) (items (r.at d (events_key c)))))
        × IsList (r.at d' (events_key c))
  broken_drain b zero d h = (inl refl, h)
  broken_drain b (suc zero) d h = (inl refl, h)
  broken_drain b (suc (suc zero)) d h =
      (inr (cut_lem r (events_key c) b d h), cut-IsList r (events_key c) b d h)
  broken_drain b (suc (suc (suc zero))) d h =
      (inr (cut_lem r (events_key c) b d h), cut-IsList r (events_key c) b d h)
  broken_drain b (suc (suc (suc (suc n)))) d h =
      (inr (cut_lem r (events_key c) b d h), cut-IsList r (events_key c) b d h)

  answered_drain :
      (n m : ℕ) (w : World r) (x : Result (List String × ℕ) × World r)
      → x.0 ≡ ok (take n (queue r w c), m)
      → queue r x.1 c ≡ drop n (queue r w c)
      → HoldsQueue r x.1 c
      → Drained n w x
  unfolding Drained
  answered_drain n m w (ok (batch, left), w') e rest list = (cc, rest, list)
  answered_drain n m w (err why, w') e rest list = cc

  drain-Drained :
      (b : ℕ) (w : World r) → HoldsQueue r w c → Drained (suc b) w (Events.drain c (pos (suc b)) w)
  unfolding Drained Events.drain
  drain-Drained b w h =
      let k = events_key c in
      elim (reply_cases {A = List String × ℕ}
        ((λ z. z) ∷ r.ltrim k (pos (suc b)) (negsuc 0) ∷ (λ z. z) ∷ [])
        (λ d. (
          r.lrange k (pos 0) (pos (suc b) -ℤ pos 1) d,
          r.llen k (r.ltrim k (pos (suc b)) (negsuc 0) d),
        ))
        w) [
          | inl answers ↦
              let (answer, rest, list, _) = drain-take r b c w answers h in
              answered_drain (suc b) _ w _ answer rest list
          | inr (why, n, e) ↦
              subst (λ z. Drained (suc b) w (Events.drained z)) (sym e) (broken_drain b n w.db h)
        ]

  -- Whatever breaks, a drain with a positive batch size writes no event more often than it waits, and
  -- leaves none waiting that it wrote.
  pub drain_and_flush-Dwindles :
      (cfg : Sse) (tracks : Bool) (b clock : ℕ) (now : String) (x : Session r)
      → cfg.batch_size ≡ pos (suc b)
      → HoldsQueue r x.world c
      → Dwindles x (drain_and_flush json cfg c tracks clock now x)
  unfolding drain_and_flush after_drain Drained
  drain_and_flush-Dwindles cfg tracks b clock now x size h =
      let (skip, cb) = is_open clock x.breaker in
      let result = Events.drain c (pos (suc b)) x.world in
      elim (Bool-cases skip) [
        | inl on ↦ rw on (record { list = h; less = omega arith })
        | inr off ↦ rw (off, size) (drained result cb (drain-Drained b x.world h))
      ]
    where
      drained :
          (result : Result (List String × ℕ) × World r) (cb : Breaker)
          → Drained (suc b) x.world result
          → Dwindles x (after_drain json cfg c tracks clock now result (record x { breaker = cb }))
      drained (err e, w) cb (inl whole, list) = record {
        list = list;
        less = rw whole (omega arith);
      }
      drained (err e, w) cb (inr cut, list) = record {
        list = list;
        less = rw cut (omega (arith, occurs-cut (suc b) (queue r x.world c)));
      }
      drained (ok (batch, remaining), w) cb (front, rest, list) =
          let y : Session r = record x {
            world =
                count_metric (queue_depth remaining)
                  (count_metric (events_drained_per_tick (length batch)) w);
            breaker = record_success cb;
          } in
          let wrote = deliver-Writes r json c t now tracks batch y in
          record {
            list = rw wrote.same list;
            less =
                rw (ap items wrote.same, rest)
                  (omega (
                    arith,
                    wrote.most,
                    ap (λ z. occurs t (frames json z)) front,
                    occurs-cut (suc b) (queue r x.world c),
                  ));
          }
