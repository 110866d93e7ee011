-- ===== src/Stream/Drain/Confined.antt =====
-- loop.go, `drainAndFlush`: what it can change in Redis, whatever the network and the client do.
use scorpion.Prelude.{
  ℕ, String, ◌≡◌, refl, Bool, true, false, Bool-cases, inl, inr, Option, none, some, List, [], ◌∷◌,
  Result, ok, err,
}
use scorpion.Prelude.Int.{ℤ, negsuc}
use scorpion.Redis.{Redis}
use scorpion.Redis.Keyspace.{at-set_ne, at-ltrim_self, at-ltrim_ne}
use scorpion.Redis.Ranges.{listed-IsList}
use scorpion.World.{World}
use scorpion.World.Confined.{
  StreamCommand, Confined, Confined-refl, Within, Within-refl, Within-trans, Within-at,
  round_trip-Within,
}
use scorpion.Config.{Sse}
use scorpion.Domain.{EventPayload}
use scorpion.Json.{Json}
use scorpion.Repository.Keys.{events_key, in_flight_key}
use scorpion.Repository.Keys.Distinct.{in_flight_key-ne-events_key}
use scorpion.Repository.Commands.{ltrim_events, set_in_flight, exec}
use scorpion.Repository.Commands.Reached.{Reached-one}
use scorpion.Repository.Events
use scorpion.Repository.InFlight
use scorpion.Repository.InFlight.{in_flight_ttl}
use scorpion.Stream.Breaker.{is_open}
use scorpion.Stream.Session.{Session, write, write_next}
use scorpion.Metrics.{Metric}
use scorpion.Stream.Drain.{
  frame_of, registered, send_event, send_batch, flush_if, deliver, after_drain, drain_and_flush,
}

-- A write is no change of Redis.
write_next-world :
    (r : Redis) (s : String) (ws : List Bool) (x : Session r)
    → (write_next s ws x).1.world ≡ x.world
unfolding write_next
write_next-world r s [] x = refl
write_next-world r s (true ∷ ws) x = refl
write_next-world r s (false ∷ ws) x = refl

pub write-world : (r : Redis) (s : String) (x : Session r) → (write s x).1.world ≡ x.world
unfolding write
write-world r s x = write_next-world r s x.writes x

module _ (r : Redis) (c ip : String) where
  -- The commands of a stream.
  trim-Confined : (a b : ℤ) (d : r.Db) → Confined r c ip d (r.ltrim (events_key c) a b d)
  unfolding exec
  trim-Confined a b d = record {
    queue = λ h. rw (at-ltrim_self r (events_key c) a b d h) (listed-IsList _ _);
    sent = Reached-one r (StreamCommand c ip) (ltrim_events c a b) d refl;
    foreign = λ h j f. at-ltrim_ne r (events_key c) a b d j h f.0;
  }

  set-Confined :
      (e v : String) (d : r.Db) → Confined r c ip d (r.set (in_flight_key c e) v in_flight_ttl d)
  unfolding exec
  set-Confined e v d = record {
    queue = λ h.
        rw
          (at-set_ne r (in_flight_key c e) v _ d (events_key c) (in_flight_key-ne-events_key c e c))
          h;
    sent = Reached-one r (StreamCommand c ip) (set_in_flight c e v) d refl;
    foreign = λ h j f. at-set_ne r (in_flight_key c e) v _ d j (f.2 e);
  }

  drained-Within :
      (w : World r) (x : Result (List String × ℕ) × World r)
      → Within r c ip w x.1
      → Within r c ip w (Events.drained x).1
  drained-Within w (ok batch, w') h = h
  drained-Within w (err e, w') h = h

  pub drain-Within : (b : ℤ) (w : World r) → Within r c ip w (Events.drain c b w).1
  unfolding Events.drain
  drain-Within b w = drained-Within w _ (
      round_trip-Within r c ip _ _ w
        (Confined-refl r c ip, (trim-Confined b (negsuc 0), (Confined-refl r c ip, tt))))

  pub register-Within :
      (e now : String) (w : World r) → Within r c ip w (InFlight.register c e now w).1
  unfolding InFlight.register
  register-Within e now w = round_trip-Within r c ip _ _ w (set-Confined e now, tt)

  -- A counted metric is no change of Redis.
  pub counted-Within :
      {w w' : World r} (m : List Metric)
      → Within r c ip w w'
      → Within r c ip w (record w' { metrics = m })
  counted-Within m h = record { keys = h.keys; quiet = h.quiet }

  module _ (json : Json) (now : String) (tracks : Bool) where
    registered-Within :
        (e : EventPayload) (x : Session r)
        → Within r c ip x.world (registered json c now tracks e x).world
    unfolding registered
    registered-Within e x = elim (Bool-cases tracks) [
      | inl on ↦ rw on (counted-Within _ (register-Within e.id now x.world))
      | inr off ↦ rw off (counted-Within _ (Within-refl r c ip x.world))
    ]

    send_event-Within :
        (o : Option EventPayload) (x : Session r)
        → Within r c ip x.world (send_event json c now tracks o x).1.world
    unfolding send_event write
    send_event-Within none x = Within-refl r c ip x.world
    send_event-Within (some e) x =
        let (done, x') = write_next (frame_of e) x.writes x in
        let same : x'.world ≡ x.world = write_next-world r (frame_of e) x.writes x in
        elim (Bool-cases done) [
          | inl won ↦ rw won (Within-at r c ip same (registered-Within e x'))
          | inr lost ↦ rw lost (Within-at r c ip same (Within-refl r c ip x'.world))
        ]

    send_batch-Within :
        (batch : List String) (x : Session r)
        → Within r c ip x.world (send_batch json c now tracks batch x).1.world
    unfolding send_batch
    send_batch-Within [] x = Within-refl r c ip x.world
    send_batch-Within (raw ∷ rest) x =
        let (done, x') = send_event json c now tracks (json.unmarshal_event raw) x in
        let first = send_event-Within (json.unmarshal_event raw) x in
        elim (Bool-cases done) [
          | inl on ↦ rw on (Within-trans r c ip first (send_batch-Within rest x'))
          | inr off ↦ rw off first
        ]

    flush_if-world :
        (done : Bool) (batch : List String) (x : Session r)
        → (flush_if json c now tracks done batch x).world ≡ x.world
    unfolding flush_if
    flush_if-world false batch x = refl
    flush_if-world true [] x = refl
    flush_if-world true (_ ∷ _) x = refl

    deliver-Within :
        (batch : List String) (x : Session r)
        → Within r c ip x.world (deliver json c now tracks batch x).world
    unfolding deliver
    deliver-Within batch x =
        let (done, y) = send_batch json c now tracks batch x in
        rw (flush_if-world done batch y) (send_batch-Within batch x)

  -- A drain stays within the keys of the stream.
  pub drain_and_flush-Within :
      (json : Json) (cfg : Sse) (tracks : Bool) (clock : ℕ) (now : String) (x : Session r)
      → Within r c ip x.world (drain_and_flush json cfg c tracks clock now x).world
  unfolding drain_and_flush after_drain
  drain_and_flush-Within json cfg tracks clock now x =
      let (skip, cb) = is_open clock x.breaker in
      let (answer, w) = Events.drain c cfg.batch_size x.world in
      elim (Bool-cases skip) [
        | inl on ↦ rw on (Within-refl r c ip x.world)
        | inr off ↦
            rw off
              (drained answer w (record x { breaker = cb }) (drain-Within cfg.batch_size x.world))
      ]
    where
      drained :
          (answer : Result (List String × ℕ)) (w : World r) (y : Session r)
          → Within r c ip x.world w
          → Within r c ip x.world (after_drain json cfg c tracks clock now (answer, w) y).world
      drained (err e) w y h = counted-Within _ h
      drained (ok (batch, remaining)) w y h =
          Within-trans r c ip (counted-Within _ h) (deliver-Within json now tracks batch _)
