-- ===== src/Stream/Drain/Batch.antt =====
-- loop.go, the loop of `drainAndFlush` over a batch.
use scorpion.Prelude.{
  ℕ, String, ◌≡◌, refl, sym, ◌∙◌, Bool, true, false, ◌⊎◌, Bool-cases, inl, inr, Option, none, some,
  List, [], ◌∷◌, ◌++◌, take,
}
use mathlib.Core.List.{append-nil, append_assoc}
use scorpion.Redis.{Redis}
use scorpion.Redis.Keyspace.{at-set_ne}
use scorpion.World.Trips.{quiet_trip}
use scorpion.Domain.{EventPayload}
use scorpion.Json.{Json}
use scorpion.Repository.Keys.{events_key, in_flight_key}
use scorpion.Repository.Keys.Distinct.{in_flight_key-ne-events_key}
use scorpion.Repository.InFlight
use scorpion.Stream.Session.{Session, write, write_next}
use scorpion.Stream.Drain.Frames.{with_frame, frames, take_all_frames, with_frame-append}
use scorpion.Stream.Drain.{frame_of, registered, send_event, send_batch, flush_if, deliver}

-- From the one session to the other the queues stay as they are and Redis keeps answering.
pub record Keeps (r : Redis) (x x' : Session r) : Type 0 where
  pub quiet : x'.world.outcomes ≡ []
  pub queues : (c : String) → r.at x'.world.db (events_key c) ≡ r.at x.world.db (events_key c)

Keeps-trans : (r : Redis) (x y z : Session r) → Keeps r x y → Keeps r y z → Keeps r x z
Keeps-trans r x y z p q = record { quiet = q.quiet; queues = λ c. q.queues c ∙ p.queues c }

module _ (r : Redis) (json : Json) (client_id now : String) (tracks : Bool) where
  registered-Keeps :
      (e : EventPayload) (x : Session r)
      → x.world.outcomes ≡ []
      → Keeps r x (registered json client_id now tracks e x)
  unfolding registered InFlight.register
  registered-Keeps e x q = elim (Bool-cases tracks) [
    | inl on ↦ rw on (
        rw (quiet_trip _ _ x.world q) (record {
          quiet = q;
          queues = λ c.
              at-set_ne r (in_flight_key client_id e.id) now _ x.world.db (events_key c)
                (in_flight_key-ne-events_key client_id e.id c);
        }))
    | inr off ↦ rw off (record { quiet = q; queues = λ c. refl })
  ]

  -- After a step the client has been written these texts more, and the breaker is as it was.
  pub record Sends (x x' : Session r) (fs : List String) : Type 0 where
    pub keeps : Keeps r x x'
    pub texts : x'.written ≡ x.written ++ fs
    pub breaker : x'.breaker ≡ x.breaker

  Sends-none :
      (x : Session r) (ws : List Bool)
      → x.world.outcomes ≡ []
      → Sends x (record x { writes = ws }) []
  Sends-none x ws q = record {
    keeps = record { quiet = q; queues = λ c. refl };
    texts = sym (append-nil x.written);
    breaker = refl;
  }

  Sends-trans :
      (x y z : Session r) (fs gs : List String) → Sends x y fs → Sends y z gs → Sends x z (fs ++ gs)
  Sends-trans x y z fs gs p q = record {
    keeps = Keeps-trans r x y z p.keeps q.keeps;
    texts = q.texts ∙ rw p.texts (append_assoc x.written fs gs);
    breaker = q.breaker ∙ p.breaker;
  }

  write_next_cases :
      (s : String) (ws : List Bool) (x : Session r)
      → ((vs : List Bool) × (write_next s ws x
            ≡ (true, record x { writes = vs; written = x.written ++ s ∷ [] })))
        ⊎ ((vs : List Bool) × (write_next s ws x ≡ (false, record x { writes = vs })))
  unfolding write_next
  write_next_cases s [] x = inl (x.writes, refl)
  write_next_cases s (true ∷ ws) x = inl (ws, refl)
  write_next_cases s (false ∷ ws) x = inr (ws, refl)

  written-Sends :
      (e : EventPayload) (x : Session r) (ws : List Bool)
      → x.world.outcomes ≡ []
      → Sends x
          (registered json client_id now tracks e
            (record x { writes = ws; written = x.written ++ frame_of e ∷ [] }))
          (frame_of e ∷ [])
  unfolding registered
  written-Sends e x ws q =
      let x' : Session r = record x { writes = ws; written = x.written ++ frame_of e ∷ [] } in
      let k = registered-Keeps e x' q in
      record { keeps = record { quiet = k.quiet; queues = k.queues }; texts = refl; breaker = refl }

  -- An event is written and the loop goes on, or the write failed and the loop ends.
  send_event_cases :
      (o : Option EventPayload) (x : Session r)
      → x.world.outcomes ≡ []
      → let after = send_event json client_id now tracks o x in
        (after.0 ≡ true) × Sends x after.1 (with_frame o [])
        ⊎ (after.0 ≡ false) × Sends x after.1 []
  unfolding send_event write
  send_event_cases none x q = inl (refl, Sends-none x x.writes q)
  send_event_cases (some e) x q = elim (write_next_cases (frame_of e) x.writes x) [
    | inl (ws, done) ↦ rw done (inl (refl, written-Sends e x ws q))
    | inr (ws, lost) ↦ rw lost (inr (refl, Sends-none x ws q))
  ]

  -- Whatever the writes do, the frames that are written are the first ones of the batch.
  send_batch-take :
      (batch : List String) (x : Session r)
      → x.world.outcomes ≡ []
      → (n : ℕ) × Sends x
          (send_batch json client_id now tracks batch x).1
          (take n (frames json batch))
  unfolding send_batch
  send_batch-take [] x q = (0, Sends-none x x.writes q)
  send_batch-take (raw ∷ rest) x q = elim (send_event_cases (json.unmarshal_event raw) x q) [
    | inl (on, sent) ↦
        let y = (send_event json client_id now tracks (json.unmarshal_event raw) x).1 in
        let (n, later) = send_batch-take rest y sent.keeps.quiet in
        let (m, e) = take_all_frames (json.unmarshal_event raw) (frames json rest) n in
        (m, rw (on, ← e) (Sends-trans x y _ _ _ sent later))
    | inr (off, sent) ↦ (0, rw off sent)
  ]

  pub write_next_ok :
      (s : String) (ws : List Bool) (x : Session r)
      → ws ≡ []
      → write_next s ws x ≡ (true, record x { written = x.written ++ s ∷ [] })
  unfolding write_next
  write_next_ok s [] x e = refl
  write_next_ok s (b ∷ ws) x e = cc

  send_event_ok :
      (o : Option EventPayload) (x : Session r)
      → x.writes ≡ []
      → let after = send_event json client_id now tracks o x in
        (after.0 ≡ true) × (after.1.writes ≡ [])
  unfolding send_event write registered
  send_event_ok none x w = (refl, w)
  send_event_ok (some e) x w = rw (write_next_ok (frame_of e) x.writes x w) (refl, w)

  -- Where every write succeeds, the whole batch is written, and the batch is flushed.
  send_batch-all :
      (batch : List String) (x : Session r)
      → x.world.outcomes ≡ []
      → x.writes ≡ []
      → let after = send_batch json client_id now tracks batch x in
        (after.0 ≡ true) × Sends x after.1 (frames json batch) × (after.1.writes ≡ [])
  unfolding send_batch
  send_batch-all [] x q w = (refl, Sends-none x x.writes q, w)
  send_batch-all (raw ∷ rest) x q w =
      let o = json.unmarshal_event raw in
      let y = (send_event json client_id now tracks o x).1 in
      let (done, w') = send_event_ok o x w in
      elim (send_event_cases o x q) [
        | inr (off, _) ↦ cc (done, off)
        | inl (on, sent) ↦
            let (all, later, w'') = send_batch-all rest y sent.keeps.quiet w' in
            rw (on, ← with_frame-append o (frames json rest))
              (all, Sends-trans x y _ _ _ sent later, w'')
      ]

  flush_if-Sends :
      (done : Bool) (batch : List String) (x y : Session r) (fs : List String)
      → Sends x y fs
      → Sends x (flush_if json client_id now tracks done batch y) fs
        × ((flush_if json client_id now tracks done batch y).writes ≡ y.writes)
  unfolding flush_if
  flush_if-Sends false batch x y fs s = (s, refl)
  flush_if-Sends true [] x y fs s = (s, refl)
  flush_if-Sends true (_ ∷ _) x y fs s = (
    record {
      keeps = record { quiet = s.keeps.quiet; queues = s.keeps.queues };
      texts = s.texts;
      breaker = s.breaker;
    },
    refl,
  )

  -- A batch is delivered up to some event, in order, and wholly where every write succeeds.
  pub deliver-take :
      (batch : List String) (x : Session r)
      → x.world.outcomes ≡ []
      → (n : ℕ) × Sends x (deliver json client_id now tracks batch x) (take n (frames json batch))
  unfolding deliver
  deliver-take batch x q =
      let (n, s) = send_batch-take batch x q in
      let (done, y) = send_batch json client_id now tracks batch x in
      (n, (flush_if-Sends done batch x y _ s).0)

  pub deliver-all :
      (batch : List String) (x : Session r)
      → x.world.outcomes ≡ []
      → x.writes ≡ []
      → Sends x (deliver json client_id now tracks batch x) (frames json batch)
        × ((deliver json client_id now tracks batch x).writes ≡ [])
  unfolding deliver
  deliver-all batch x q w =
      let (_, s, w') = send_batch-all batch x q w in
      let (done, y) = send_batch json client_id now tracks batch x in
      let (s', same) = flush_if-Sends done batch x y _ s in (s', same ∙ w')
