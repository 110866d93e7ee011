-- ===== src/Stream/Drain/Writes.antt =====
-- loop.go: what the delivery of a batch writes at most, whatever the network and the client do.
use scorpion.Prelude.{
  ℕ, zero, suc, ◌+◌, ◌≤◌, String, ◌≡◌, refl, ◌∙◌, Bool, true, false, Bool-cases, inl, inr, one_if,
  Option, none, some, List, [], ◌∷◌, ◌++◌, ◌==◌, arith, if◌then◌else◌,
}
use scorpion.Redis.{Redis}
use scorpion.Redis.Keyspace.{at-set_ne}
use scorpion.World.{World, round_trip, run_some}
use scorpion.World.Trips.{round_trip_cases}
use scorpion.Domain.{EventPayload}
use scorpion.Json.{Json}
use scorpion.Repository.Keys.{events_key, in_flight_key}
use scorpion.Repository.Keys.Distinct.{in_flight_key-ne-events_key}
use scorpion.Repository.InFlight
use scorpion.Stream.Session.{Session, write_next, write}
use scorpion.Stream.Drain.Frames.{with_frame, frames}
use scorpion.Stream.Drain.{frame_of, registered, send_event, send_batch, flush_if, deliver}

-- How often a text is in a list.
abbrev pub occurs : String → List String → ℕ
occurs t [] = 0
occurs t (x ∷ xs) = one_if (x == t) + occurs t xs

pub occurs-append :
    (t : String) (xs ys : List String) → occurs t (xs ++ ys) ≡ occurs t xs + occurs t ys
occurs-append t [] ys = omega arith
occurs-append t (x ∷ xs) ys = omega (arith, occurs-append t xs ys)

-- One command that leaves a key as it is, whether its request is answered or breaks.
pub trip_one-at {ℓ} :
    {A : Type ℓ} (r : Redis) (f : r.Db → r.Db) (answer : r.Db → A) (w : World r) (k : String)
    → ((d : r.Db) → r.at (f d) k ≡ r.at d k)
    → r.at (round_trip (f ∷ []) answer w).1.db k ≡ r.at w.db k
trip_one-at r f answer w k same = elim (round_trip_cases (f ∷ []) answer w) [
  | inl e ↦ rw e (same w.db)
  | inr (why, n, e) ↦ rw e (some_ran n)
]
  where
    some_ran : (n : ℕ) → r.at (run_some n (f ∷ []) w.db) k ≡ r.at w.db k
    some_ran zero = refl
    some_ran (suc zero) = same w.db
    some_ran (suc (suc n)) = same w.db

module _ (r : Redis) (json : Json) (c t : String) where
  -- From the one session to the other the queue is the same, and these frames at most were written.
  pub record Writes (x x' : Session r) (fs : List String) : Type 0 where
    pub same : r.at x'.world.db (events_key c) ≡ r.at x.world.db (events_key c)
    pub most : occurs t x'.written ≤ occurs t x.written + occurs t fs

  module _ (now : String) (tracks : Bool) where
    registered-at :
        (e : EventPayload) (x : Session r)
        → r.at (registered json c now tracks e x).world.db (events_key c)
          ≡ r.at x.world.db (events_key c)
    unfolding registered InFlight.register
    registered-at e x = elim (Bool-cases tracks) [
      | inl on ↦ rw on (
          trip_one-at r _ (λ _. tt {0}) x.world (events_key c)
            (λ d.
              at-set_ne r (in_flight_key c e.id) now _ d (events_key c)
                (in_flight_key-ne-events_key c e.id c)))
      | inr off ↦ rw off refl
    ]

    written-Writes :
        (e : EventPayload) (x : Session r) (ws : List Bool)
        → Writes x
            (registered json c now tracks e
              (record x { writes = ws; written = x.written ++ frame_of e ∷ [] }))
            (frame_of e ∷ [])
    unfolding registered
    written-Writes e x ws =
        let x' : Session r = record x { writes = ws; written = x.written ++ frame_of e ∷ [] } in
        record {
          same = registered-at e x';
          most = omega (arith, occurs-append t x.written (frame_of e ∷ []));
        }

    send_event-Writes :
        (o : Option EventPayload) (x : Session r)
        → Writes x (send_event json c now tracks o x).1 (with_frame o [])
    unfolding send_event write
    send_event-Writes none x = record { same = refl; most = omega arith }
    send_event-Writes (some e) x = by_write x.writes
      where
        by_write :
            (ws : List Bool)
            → let (won, x') = write_next (frame_of e) ws x in
              let after : Bool × Session r =
                if won then (true, registered json c now tracks e x') else (false, x') in
              Writes x after.1 (frame_of e ∷ [])
        by_write [] = written-Writes e x x.writes
        by_write (true ∷ ws) = written-Writes e x ws
        by_write (false ∷ ws) = record { same = refl; most = omega arith }

    occurs-with_frame :
        (o : Option EventPayload) (fs : List String)
        → occurs t (with_frame o fs) ≡ occurs t (with_frame o []) + occurs t fs
    occurs-with_frame none fs = omega arith
    occurs-with_frame (some e) fs = omega arith

    send_batch-Writes :
        (batch : List String) (x : Session r)
        → Writes x (send_batch json c now tracks batch x).1 (frames json batch)
    unfolding send_batch
    send_batch-Writes [] x = record { same = refl; most = omega arith }
    send_batch-Writes (raw ∷ rest) x =
        let o = json.unmarshal_event raw in
        let (on, y) = send_event json c now tracks o x in
        let first = send_event-Writes o x in
        let later = send_batch-Writes rest y in
        let split = occurs-with_frame o (frames json rest) in
        elim (Bool-cases on) [
          | inl goes ↦ rw goes (record {
            same = later.same ∙ first.same;
            most = omega (arith, first.most, later.most, split);
          })
          | inr stops ↦
              rw stops (record { same = first.same; most = omega (arith, first.most, split) })
        ]

    flush_if-Writes :
        (on : Bool) (batch fs : List String) (x y : Session r)
        → Writes x y fs
        → Writes x (flush_if json c now tracks on batch y) fs
    unfolding flush_if
    flush_if-Writes false batch fs x y s = s
    flush_if-Writes true [] fs x y s = s
    flush_if-Writes true (_ ∷ _) fs x y s = record { same = s.same; most = s.most }

    -- A delivery writes the frames of its batch at most, and leaves the queue.
    pub deliver-Writes :
        (batch : List String) (x : Session r)
        → Writes x (deliver json c now tracks batch x) (frames json batch)
    unfolding deliver
    deliver-Writes batch x =
        let (on, y) = send_batch json c now tracks batch x in
        flush_if-Writes on batch (frames json batch) x y (send_batch-Writes batch x)
