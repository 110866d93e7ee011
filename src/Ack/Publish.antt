-- ===== src/Ack/Publish.antt =====
-- nats_publisher.go, `Publish`: how often it tries, and what its answer says.
use scorpion.Prelude.{
  ℕ, zero, suc, ◌≤◌, String, ◌≡◌, refl, ap, ◌∙◌, ◌⊎◌, inl, inr, Option, none, some, List, ◌∷◌,
  arith, Result, ok, err, Result-cases,
}
use scorpion.Domain.{AckRecord}
use scorpion.Json.{Json}
use scorpion.Ack.{JetStream, NatsPublisher, attempts, nats_publish}

module _ (js : JetStream) (p : NatsPublisher) (payload : String) where
  abbrev pub send : js.Js → Result ℕ × js.Js
  send s = js.publish p.subject payload p.timeout_ms s

  -- JetStream after so many attempts.
  abbrev pub after : ℕ → js.Js → js.Js
  after zero s = s
  after (suc n) s = after n (send s).1

  -- The first attempts, so many, all fail.
  abbrev FailFirst : ℕ → js.Js → Type 0
  FailFirst zero s = Unit
  FailFirst (suc n) s = ((e : String) × ((send s).0 ≡ err e)) × FailFirst n (send s).1

  abbrev pub Succeeds : ℕ → js.Js → Result ℕ × js.Js → Type 0
  Succeeds n s answer =
      (k : ℕ) × (seq : ℕ) × (suc k ≤ n)
      × FailFirst k s
      × ((send (after k s)).0 ≡ ok seq)
      × (answer ≡ (ok seq, (send (after k s)).1))

  abbrev pub Fails : ℕ → js.Js → Result ℕ × js.Js → Type 0
  Fails n s answer = (e : String) × FailFirst n s × (answer ≡ (err e, after n s))

  attempts_cases :
      (n : ℕ) (last_err : String) (s : js.Js)
      → Succeeds n s (attempts js p payload n last_err s)
        ⊎ Fails n s (attempts js p payload n last_err s)
  unfolding attempts
  attempts_cases zero last_err s = inr (_, tt, refl)
  attempts_cases (suc n) last_err s = elim (Result-cases (send s).0) [
    | inl (seq, e) ↦ inl (0, seq, omega arith, tt, e, rw (e, attempts) refl)
    | inr (why, e) ↦ elim (attempts_cases n why (send s).1) [
      | inl (k, seq, few, failed, won, same) ↦
          inl (suc k, seq, omega arith, ((why, e), failed), won, rw (e, attempts) same)
      | inr (last, failed, same) ↦ inr (last, ((why, e), failed), rw (e, attempts) same)
    ]
  ]

-- A record that can be marshalled is sent until an attempt is answered, at most one attempt more
-- than the retries: the answer is that of the first attempt that succeeds, and an error is returned
-- only if every one failed.
pub nats_publish-retries :
    (js : JetStream) (json : Json) (p : NatsPublisher) (entry : AckRecord) (payload : String)
    (s : js.Js)
    → json.marshal_ack entry ≡ some payload
    → Succeeds js p payload (suc p.max_retries) s (nats_publish js json p entry s)
      ⊎ Fails js p payload (suc p.max_retries) s (nats_publish js json p entry s)
unfolding nats_publish
nats_publish-retries js json p entry payload s m =
    rw (m, nats_publish) (attempts_cases js p payload (suc p.max_retries) "" s)

-- A publish that returns a sequence number has stored the record's payload under the configured
-- subject, as the latest message.
nats_publish-stored :
    (js : JetStream) (json : Json) (p : NatsPublisher) (entry : AckRecord) (s : js.Js) (seq : ℕ)
    → (nats_publish js json p entry s).0 ≡ ok seq
    → (payload : String) × (earlier : List (String × String)) × (json.marshal_ack entry
        ≡ some payload)
      × (js.stored (nats_publish js json p entry s).1 ≡ (p.subject, payload) ∷ earlier)
unfolding nats_publish
nats_publish-stored js json p entry s seq e = go (json.marshal_ack entry) refl
  where
    go :
        (o : Option String)
        → json.marshal_ack entry ≡ o
        → (payload : String) × (earlier : List (String × String)) × (json.marshal_ack entry
            ≡ some payload)
          × (js.stored (nats_publish js json p entry s).1 ≡ (p.subject, payload) ∷ earlier)
    go none m = cc (e, m)
    go (some payload) m = elim (nats_publish-retries js json p entry payload s m) [
      | inl (k, n, _, _, won, same) ↦ (
        payload,
        js.stored (after js p payload k s),
        m,
        ap (λ z. js.stored z.1) same
            ∙ js.stored-publish p.subject payload p.timeout_ms (after js p payload k s) won,
      )
      | inr (why, _, same) ↦ cc (e, same)
    ]
