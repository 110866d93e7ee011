-- ===== src/Http/Handlers/Ack/Refusals.antt =====
-- ack.go: what a request can change, and for whom.
use scorpion.Prelude.{
  ℕ, String, ◌≡◌, refl, ◌⊎◌, inl, inr, Bool, true, false, Bool-cases, Option, none, some, ◌==◌,
  eq_iff, Result, ok, err,
}
use scorpion.Redis.{Redis}
use scorpion.World.{World}
use scorpion.Domain.{AckRequest}
use scorpion.Json.{Json}
use scorpion.Ack.{Publisher}
use scorpion.Repository.InFlight
use scorpion.Repository.InFlight.Acks.{validate-db}
use scorpion.Http.{Request, Context, Response}
use scorpion.Http.Handlers.Poll.{caller_id}
use scorpion.Http.Handlers.Ack.{
  State, validate_ack_request, record_of, published, validated, checked, decoded, v1_ack_event,
}

module _ (r : Redis) (p : Publisher) (codec : Json) (ack_id server_now marked_at : String) where
  -- Redis and the publisher as they were.
  abbrev pub Unchanged : World r → p.State → Response × State r p → Type 0
  Unchanged w s after = (after.1.0.db ≡ w.db) × (after.1.1 ≡ s)

  -- What the record of an acknowledgement does to the publisher, or nothing.
  abbrev pub Publishes : AckRequest → p.State → Response × State r p → Type 0
  Publishes a s after = after.1.1 ≡ (p.publish (record_of ack_id server_now a) s).1

  published_lem :
      (a : AckRequest) (answer : Result ℕ × p.State) (w : World r)
      → (published p codec ack_id server_now marked_at a answer w).1.1 ≡ answer.1
  unfolding published
  published_lem a (ok seq, s) w = refl
  published_lem a (err e, s) w = refl

  validated_lem :
      (a : AckRequest) (w : World r) (s : p.State) (answer : Result (Bool × Bool)) (w' : World r)
      → w'.db ≡ w.db
      → let after = validated p codec ack_id server_now marked_at a (answer, w') s in
        Unchanged w s after ⊎ Publishes a s after
  unfolding validated
  validated_lem a w s (err e) w' same = inl (same, refl)
  validated_lem a w s (ok (_, true)) w' same = inl (same, refl)
  validated_lem a w s (ok (false, false)) w' same = inl (same, refl)
  validated_lem a w s (ok (true, false)) w' same =
      inr (published_lem a (p.publish (record_of ack_id server_now a) s) w')

  checked_lem :
      (c : String) (a : AckRequest) (w : World r) (s : p.State) (flaw : Option String)
      → validate_ack_request a ≡ flaw
      → let after = checked p codec ack_id server_now marked_at c a flaw w s in
        Unchanged w s after
        ⊎ (validate_ack_request a ≡ none) × (a.client_id ≡ c) × Publishes a s after
  unfolding checked
  checked_lem c a w s (some message) e = inl (refl, refl)
  checked_lem c a w s none e = elim (Bool-cases (a.client_id == c)) [
    | inr other ↦ rw other (inl (refl, refl))
    | inl mine ↦
        let (answer, w') = InFlight.validate a.client_id a.event_id w in
        rw mine (elim (validated_lem a w s answer w' (validate-db r a.client_id a.event_id w)) [
          | inl same ↦ inl same
          | inr sent ↦ inr (e, (eq_iff a.client_id c).0 mine, sent)
        ])
  ]

  decoded_lem :
      (c : String) (w : World r) (s : p.State) (o : Option AckRequest)
      → let after = decoded p codec ack_id server_now marked_at c o w s in
        Unchanged w s after
        ⊎ ((a : AckRequest) × (o ≡ some a)
            × (validate_ack_request a ≡ none)
            × (a.client_id ≡ c)
            × Publishes a s after)
  unfolding decoded
  decoded_lem c w s none = inl (refl, refl)
  decoded_lem c w s (some a) = elim (checked_lem c a w s (validate_ack_request a) refl) [
    | inl same ↦ inl same
    | inr (v, mine, sent) ↦ inr (a, refl, v, mine, sent)
  ]

  -- Whatever happens to Redis, a request leaves the keyspace and the publisher as they are, unless its
  -- body decodes to a valid acknowledgement with the caller's own client id; then the publisher is as
  -- after publishing the record of that acknowledgement.
  pub ack_refusals :
      (req : Request) (ctx : Context) (w : World r) (s : p.State)
      → let after = v1_ack_event p codec ack_id server_now marked_at req ctx (w, s) in
        Unchanged w s after
        ⊎ ((a : AckRequest) × (codec.decode_ack req.body ≡ some a)
            × (validate_ack_request a ≡ none)
            × (a.client_id ≡ caller_id ctx)
            × Publishes a s after)
  unfolding v1_ack_event
  ack_refusals req ctx w s = elim (Bool-cases (p.connected s)) [
    | inl c ↦ rw c (decoded_lem (caller_id ctx) w s (codec.decode_ack req.body))
    | inr c ↦ rw c (inl (refl, refl))
  ]
