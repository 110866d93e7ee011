-- ===== src/Http/Server/Requests/Marks.antt =====
-- ack.go: the commands that an acknowledgement sends.
use scorpion.Prelude.{
  ℕ, String, ◌≡◌, sym, subst, refl, inl, inr, Bool, true, false, Bool-cases, Option, none, some,
  ◌==◌, eq_iff, Result, ok, err,
}
use scorpion.Redis.{Redis}
use scorpion.World.{World}
use scorpion.Domain.{AckRequest}
use scorpion.Json.{Json}
use scorpion.Ack.{Publisher}
use scorpion.Repository.InFlight
use scorpion.Repository.Commands.{Command}
use scorpion.Repository.Commands.Sent.{commands, perform, marks, validates}
use scorpion.Repository.Commands.Reached.{AllAllowed, Reached, perform-Reached}
use scorpion.Http.{Request}
use scorpion.Http.Handlers.Ack as Acks
use scorpion.Http.Server.Requests.Permits.{Names}

module _ (r : Redis) (Allowed : Command → Type 0) (d : r.Db) (p : Publisher) (codec : Json)
    (ack_id server_now marked_at : String) where
  published-Came :
      (a : AckRequest) (x : Result ℕ × p.State) (w : World r)
      → AllAllowed Allowed (commands (marks a.client_id a.event_id marked_at))
      → Reached r Allowed d w.db
      → Reached r Allowed d (Acks.published p codec ack_id server_now marked_at a x w).1.0.db
  unfolding Acks.published perform
  published-Came a (err e, s) w m h = h
  published-Came a (ok seq, s) w m h =
      perform-Reached r Allowed (marks a.client_id a.event_id marked_at) _ m h

  validated_ack-Came :
      (a : AckRequest) (answer : Result (Bool × Bool)) (w : World r) (s : p.State)
      → AllAllowed Allowed (commands (marks a.client_id a.event_id marked_at))
      → Reached r Allowed d w.db
      → Reached r Allowed d
          (Acks.validated p codec ack_id server_now marked_at a (answer, w) s).1.0.db
  unfolding Acks.validated
  validated_ack-Came a (err e) w s m h = h
  validated_ack-Came a (ok (_, true)) w s m h = h
  validated_ack-Came a (ok (false, false)) w s m h = h
  validated_ack-Came a (ok (true, false)) w s m h = published-Came a _ w m h

  checked-Came :
      (c : String) (a : AckRequest) (o : Option String) (w : World r) (s : p.State)
      → (a.client_id ≡ c → AllAllowed Allowed (commands (marks a.client_id a.event_id marked_at)))
      → Reached r Allowed d w.db
      → Reached r Allowed d (Acks.checked p codec ack_id server_now marked_at c a o w s).1.0.db
  unfolding Acks.checked perform commands
  checked-Came c a (some message) w s m h = h
  checked-Came c a none w s m h = elim (Bool-cases (a.client_id == c)) [
    | inr other ↦ rw other h
    | inl own ↦
        let (answer, w') = InFlight.validate a.client_id a.event_id w in
        rw own (
          validated_ack-Came a answer w' s (m ((eq_iff a.client_id c).0 own))
            (perform-Reached r Allowed (validates a.client_id a.event_id) w tt h))
  ]

  decoded-Came :
      (c : String) (o : Option AckRequest) (w : World r) (s : p.State)
      → ((e : String) → Names o c e → AllAllowed Allowed (commands (marks c e marked_at)))
      → Reached r Allowed d w.db
      → Reached r Allowed d (Acks.decoded p codec ack_id server_now marked_at c o w s).1.0.db
  unfolding Acks.decoded
  decoded-Came c none w s m h = h
  decoded-Came c (some a) w s m h =
      checked-Came c a _ w s
        (λ own.
          subst (λ z. AllAllowed Allowed (commands (marks z a.event_id marked_at))) (sym own)
            (m a.event_id (own, refl)))
        h

  -- The event that the body names, of the client of the token, is marked.
  pub v1_ack_event-Came :
      (req : Request) (c ip : String) (w : World r) (s : p.State)
      → ((e : String)
          → Names (codec.decode_ack req.body) c e
          → AllAllowed Allowed (commands (marks c e marked_at)))
      → Reached r Allowed d w.db
      → Reached r Allowed d
          (Acks.v1_ack_event p codec ack_id server_now marked_at req
            (record { client_id = some c; client_ip = some ip })
            (w, s)).1.0.db
  unfolding Acks.v1_ack_event
  v1_ack_event-Came req c ip w s m h = elim (Bool-cases (p.connected s)) [
    | inl on ↦ rw on (decoded-Came c (codec.decode_ack req.body) w s m h)
    | inr off ↦ rw off h
  ]
