-- ===== src/Http/Handlers/Ack/Once.antt =====
-- ack.go: what an acknowledgement publishes, and for whom.
use scorpion.Prelude.{ℕ, String, ◌≡◌, refl, ap, ◌∙◌, true, false, none, some, [], ◌==◌, eq_iff, ok}
use scorpion.Redis.{Redis}
use scorpion.World.{World}
use scorpion.Domain.{AckRequest}
use scorpion.Json.{Json}
use scorpion.Ack.{Publisher}
use scorpion.Repository.InFlight
use scorpion.Repository.InFlight.Acks.{in_flight, acked, validate-registries, mark_acked_lem}
use scorpion.Http.{Request, Context, json, failure, ack_response}
use scorpion.Http.Handlers.Poll.{caller_id}
use scorpion.Http.Handlers.Ack.{
  validate_ack_request, record_of, response_of, published, validated, checked, decoded,
  v1_ack_event,
}

module _ (r : Redis) (p : Publisher) (codec : Json) (ack_id server_now marked_at : String)
    (req : Request) (ctx : Context) where
  -- A request that passes every check before Redis is asked.
  abbrev pub Accepted : AckRequest → Type 0
  Accepted a =
      (codec.decode_ack req.body ≡ some a)
      × (validate_ack_request a ≡ none)
      × (a.client_id ≡ caller_id ctx)

  pub accepted_lem :
      (a : AckRequest) (w : World r) (s : p.State)
      → Accepted a
      → p.connected s ≡ true
      → v1_ack_event p codec ack_id server_now marked_at req ctx (w, s)
        ≡ validated p codec ack_id server_now marked_at a
            (InFlight.validate a.client_id a.event_id w)
            s
  unfolding v1_ack_event decoded checked
  accepted_lem a w s (d, v, mine) c =
      let same : (a.client_id == caller_id ctx) ≡ true =
        (eq_iff a.client_id (caller_id ctx)).1 mine in
      rw (c, d, v, same) refl

  pub first_lem :
      (a : AckRequest) (w : World r) (s s' : p.State) (seq : ℕ)
      → Accepted a
      → w.outcomes ≡ []
      → in_flight r w a.client_id a.event_id ≡ true
      → acked r w a.client_id a.event_id ≡ false
      → p.connected s ≡ true
      → p.publish (record_of ack_id server_now a) s ≡ (ok seq, s')
      → v1_ack_event p codec ack_id server_now marked_at req ctx (w, s)
        ≡ published p codec ack_id server_now marked_at a (ok seq, s') w
  unfolding validated
  first_lem a w s s' seq ok_request q there fresh c taken =
      let (answer, same) = validate-registries r a.client_id a.event_id w q in
      let found : (InFlight.validate a.client_id a.event_id w).0 ≡ ok (true, false) =
        answer ∙ rw (fresh, there) refl in
      accepted_lem a w s ok_request c
      ∙ ap (λ z. validated p codec ack_id server_now marked_at a z s) (λ i. (found i, same i))
      ∙ ap (λ z. published p codec ack_id server_now marked_at a z w) taken

  pub published_lem :
      (a : AckRequest) (s' : p.State) (seq : ℕ) (w : World r)
      → w.outcomes ≡ []
      → let after = published p codec ack_id server_now marked_at a (ok seq, s') w in
        (after.1.0.outcomes ≡ [])
        × ((after.0 ≡ json 200 (ack_response (response_of ack_id server_now a seq)))
            × (after.1.1 ≡ s'))
        × (acked r after.1.0 a.client_id a.event_id ≡ true)
  unfolding published
  published_lem a s' seq w q =
      let (quiet, _, known) =
        mark_acked_lem r a.client_id a.event_id marked_at (record w { metrics = _ }) q in
      (quiet, (refl, refl), known)

  again_lem :
      (a : AckRequest) (w : World r) (s : p.State)
      → Accepted a
      → w.outcomes ≡ []
      → acked r w a.client_id a.event_id ≡ true
      → p.connected s ≡ true
      → let again = v1_ack_event p codec ack_id server_now marked_at req ctx (w, s) in
        (again.0 ≡ json 409 (failure "conflict" "This event has already been acknowledged."))
        × (again.1.1 ≡ s)
  unfolding validated
  again_lem a w s ok_request q known c =
      let (answer, same) = validate-registries r a.client_id a.event_id w q in
      let found : (InFlight.validate a.client_id a.event_id w).0 ≡ ok (true, true) =
        answer ∙ rw known refl in
      let conflict =
        accepted_lem a w s ok_request c
        ∙ ap (λ z. validated p codec ack_id server_now marked_at a z s) (λ i. (found i, same i)) in
      rw conflict (refl, refl)

  -- While Redis answers and the publisher is connected and takes the record, an accepted request for
  -- an event that is in flight and not acknowledged is answered with 200 and the sequence number, and
  -- the event counts as acknowledged then. The same request once more is answered with 409 and
  -- publishes nothing, while the publisher stays connected.
  pub ack_once :
      (a : AckRequest) (w : World r) (s s' : p.State) (seq : ℕ)
      → Accepted a
      → w.outcomes ≡ []
      → in_flight r w a.client_id a.event_id ≡ true
      → acked r w a.client_id a.event_id ≡ false
      → p.connected s ≡ true
      → p.connected s' ≡ true
      → p.publish (record_of ack_id server_now a) s ≡ (ok seq, s')
      → let first = v1_ack_event p codec ack_id server_now marked_at req ctx (w, s) in
        let again = v1_ack_event p codec ack_id server_now marked_at req ctx first.1 in
        (first.0 ≡ json 200 (ack_response (response_of ack_id server_now a seq)))
        × (acked r first.1.0 a.client_id a.event_id ≡ true)
        × (first.1.1 ≡ s')
        × (again.0 ≡ json 409 (failure "conflict" "This event has already been acknowledged."))
        × (again.1.1 ≡ s')
  ack_once a w s s' seq ok_request q there fresh c c' taken =
      let first = first_lem a w s s' seq ok_request q there fresh c taken in
      let (quiet, kept, known) = published_lem a s' seq w q in
      let (w', s'') = (published p codec ack_id server_now marked_at a (ok seq, s') w).1 in
      let (conflict, still) =
        again_lem a w' s'' ok_request quiet known (ap p.connected kept.1 ∙ c') in
      rw first (kept.0, known, kept.1, conflict, still ∙ kept.1)
