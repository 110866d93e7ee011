-- ===== src/Stream/Drain/Tracks.antt =====
-- loop.go, `drainAndFlush`: what is written to the client is registered as in flight.
use scorpion.Prelude.{
  ℕ, String, ◌≡◌, refl, Bool, true, false, Bool-cases, inl, inr, Option, none, some, List, [], ◌∷◌,
  ◌++◌, Result, ok, err, if◌then◌else◌,
}
use scorpion.Redis.{Redis}
use scorpion.World.{World}
use scorpion.Config.{Sse}
use scorpion.Domain.{EventPayload}
use scorpion.Json.{Json}
use scorpion.Repository.Events
use scorpion.Repository.Events.Queue.{HoldsQueue}
use scorpion.Stream.Breaker.{Breaker, is_open}
use scorpion.Stream.Session.{Session, write_next, write}
use scorpion.Stream.Drain.{
  frame_of, registered, send_event, send_batch, flush_if, deliver, after_drain, drain_and_flush,
}
use scorpion.Stream.Drain.Known.{
  Lasts, Lasts-refl, Lasts-counted, Tracks, Tracks-none, Tracks-trans, drain-Lasts, register-Lasts,
}

module _ (r : Redis) (c : String) where
  module _ (json : Json) (now : String) where
    abbrev sent : EventPayload → List Bool → Session r → Session r
    sent e ws x = record x { writes = ws; written = x.written ++ frame_of e ∷ [] }

    registered-Tracks :
        (e : EventPayload) (x : Session r) (ws : List Bool)
        → x.world.outcomes ≡ []
        → HoldsQueue r x.world c
        → Tracks r c x (registered json c now true e (sent e ws x))
    unfolding registered
    registered-Tracks e x ws q h =
        let (l, there) = register-Lasts r c e.id now x.world q h in
        record {
          lasts = Lasts-counted r c _ l;
          texts = frame_of e ∷ [];
          appended = refl;
          known = (inr (e, refl, there), tt);
        }

    send_event-Tracks :
        (o : Option EventPayload) (x : Session r)
        → x.world.outcomes ≡ []
        → HoldsQueue r x.world c
        → Tracks r c x (send_event json c now true o x).1
    unfolding send_event write
    send_event-Tracks none x q h =
        Tracks-none r c x x.world x.breaker x.writes x.flushed (Lasts-refl r c x.world q h)
    send_event-Tracks (some e) x q h = by_write x.writes
      where
        by_write :
            (ws : List Bool)
            → let (won, x') = write_next (frame_of e) ws x in
              let after : Bool × Session r =
                if won then (true, registered json c now true e x') else (false, x') in
              Tracks r c x after.1
        by_write [] = registered-Tracks e x x.writes q h
        by_write (true ∷ ws) = registered-Tracks e x ws q h
        by_write (false ∷ ws) =
            Tracks-none r c x x.world x.breaker ws x.flushed (Lasts-refl r c x.world q h)

    send_batch-Tracks :
        (batch : List String) (x : Session r)
        → x.world.outcomes ≡ []
        → HoldsQueue r x.world c
        → Tracks r c x (send_batch json c now true batch x).1
    unfolding send_batch
    send_batch-Tracks [] x q h =
        Tracks-none r c x x.world x.breaker x.writes x.flushed (Lasts-refl r c x.world q h)
    send_batch-Tracks (raw ∷ rest) x q h =
        let o = json.unmarshal_event raw in
        let (on, y) = send_event json c now true o x in
        let first = send_event-Tracks o x q h in
        elim (Bool-cases on) [
          | inl goes ↦
              rw goes (
                Tracks-trans r c first
                  (send_batch-Tracks rest y first.lasts.quiet first.lasts.list))
          | inr stops ↦ rw stops first
        ]

    flush_if-Tracks :
        (on : Bool) (batch : List String) {x y : Session r}
        → Tracks r c x y
        → Tracks r c x (flush_if json c now true on batch y)
    unfolding flush_if
    flush_if-Tracks false batch t = t
    flush_if-Tracks true [] t = t
    flush_if-Tracks true (_ ∷ _) t = record {
      lasts = t.lasts;
      texts = t.texts;
      appended = t.appended;
      known = t.known;
    }

    deliver-Tracks :
        (batch : List String) (x : Session r)
        → x.world.outcomes ≡ []
        → HoldsQueue r x.world c
        → Tracks r c x (deliver json c now true batch x)
    unfolding deliver
    deliver-Tracks batch x q h =
        let on = (send_batch json c now true batch x).0 in
        flush_if-Tracks on batch (send_batch-Tracks batch x q h)

  -- While Redis answers and the queue is a list, a drain that tracks leaves every event that it wrote in
  -- flight, whichever writes fail.
  pub drain_and_flush-Tracks :
      (json : Json) (cfg : Sse) (clock : ℕ) (now : String) (x : Session r)
      → x.world.outcomes ≡ []
      → HoldsQueue r x.world c
      → Tracks r c x (drain_and_flush json cfg c true clock now x)
  unfolding drain_and_flush after_drain
  drain_and_flush-Tracks json cfg clock now x q h =
      let (skip, cb) = is_open clock x.breaker in
      let (answer, w) = Events.drain c cfg.batch_size x.world in
      elim (Bool-cases skip) [
        | inl on ↦
            rw on (Tracks-none r c x x.world cb x.writes x.flushed (Lasts-refl r c x.world q h))
        | inr off ↦ rw off (drained answer w cb (drain-Lasts r c cfg.batch_size x.world q h))
      ]
    where
      drained :
          (answer : Result (List String × ℕ)) (w : World r) (cb : Breaker)
          → Lasts r c x.world w
          → Tracks r c x
              (after_drain json cfg c true clock now (answer, w) (record x { breaker = cb }))
      drained (err e) w cb l = Tracks-none r c x _ _ x.writes x.flushed (Lasts-counted r c _ l)
      drained (ok (batch, remaining)) w cb l =
          Tracks-trans r c (Tracks-none r c x _ _ x.writes x.flushed (Lasts-counted r c _ l))
            (deliver-Tracks json now batch _ l.quiet l.list)
