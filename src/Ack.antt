-- ===== src/Ack.antt =====
-- internal/ack: the `Publisher` interface, and its implementations over NATS JetStream and the log.
mod Tests
pub mod Publish
pub mod Unheard
pub mod Fixture
use Prim.Native.String.{◌++◌ as ◌<>◌}
use scorpion.Prelude.{
  ℕ, zero, suc, ◌*◌, String, Bool, true, false, Option, none, some, List, [], ◌∷◌, ◌++◌, ◌||◌, ◌≡◌,
  Result, ok, err, if◌then◌else◌,
}
use scorpion.Prelude.Int.{ℤ, pos, negsuc, leb_ℤ}
use scorpion.Config.{Nats}
use scorpion.Domain.{AckRecord}
use scorpion.Json.{Json}

-- The state of a publisher is what it publishes to.
pub record Publisher : Type 1 where
  pub State : Type 0
  pub publish : AckRecord → State → Result ℕ × State
  pub connected : State → Bool
  pub close : State → State

abbrev pub any_of {ℓ} : {A : Type ℓ} → (A → Bool) → List A → Bool
any_of p [] = false
any_of p (x ∷ xs) = let rest = any_of p xs in p x || rest

-- NATS, which is not part of this repository: a publish with a timeout in milliseconds is answered
-- with a sequence number or an error; an answered one has stored the message once more. A message
-- is stored by a stream with a filter that matches its subject, or not at all.
pub record JetStream : Type 1 where
  pub Js : Type 0
  pub is_connected : Js → Bool
  pub jetstream_context : Js → Result (Unit {0})
  pub publish : (subject payload : String) → (timeout_ms : ℕ) → Js → Result ℕ × Js
  pub stream_exists : String → Js → Bool
  pub add_stream : String → List String → Js → Result (Unit {0}) × Js
  -- the filters of all streams, and whether a filter matches a subject
  pub filters : Js → List String
  pub matches : String → String → Bool
  -- what is sent is flushed, and the connection closed
  pub drain : Js → Js
  pub stored : Js → List (String × String)
  pub stored-publish :
      (subject payload : String) (t : ℕ) (s : Js) {n : ℕ}
      → (publish subject payload t s).0 ≡ ok n
      → stored (publish subject payload t s).1 ≡ (subject, payload) ∷ stored s
  pub filters-add_stream :
      (name : String) (fs : List String) (s : Js)
      → (add_stream name fs s).0 ≡ ok tt
      → filters (add_stream name fs s).1 ≡ fs ++ filters s
  pub filters-publish :
      (subject payload : String) (t : ℕ) (s : Js)
      → filters (publish subject payload t s).1 ≡ filters s
  pub publish_unheard :
      (subject payload : String) (t : ℕ) (s : Js)
      → any_of (λ f. matches f subject) (filters s) ≡ false
      → (e : String) × ((publish subject payload t s).0 ≡ err e)
        × (stored (publish subject payload t s).1 ≡ stored s)
  -- The wildcard > stands for one part of a subject or more, never for none.
  pub matches_below : (prefix : String) → matches (prefix <> ".>") prefix ≡ false

pub record NatsPublisher : Type 0 where
  pub subject : String
  pub timeout_ms : ℕ
  pub max_retries : ℕ

-- a setting that is not positive gives way to its default
abbrev or_default : ℤ → ℕ → ℕ
or_default (pos zero) d = d
or_default (pos (suc n)) d = suc n
or_default (negsuc n) d = d

module _ (js : JetStream) where
  unfoldable pub configured : Nats → Result (Unit {0}) × js.Js → Result NatsPublisher × js.Js
  configured cfg (err e, s) = (err ("nats create stream: " <> e), s)
  configured cfg (ok _, s) = (
    ok (record {
      subject = cfg.subject_prefix;
      timeout_ms = or_default cfg.publish_timeout_ms 3000;
      max_retries = or_default cfg.max_retries 3;
    }),
    s,
  )

  unfoldable pub with_context : Nats → js.Js → Result (Unit {0}) → Result NatsPublisher × js.Js
  unfolding configured
  with_context cfg s (err e) = (err ("nats jetstream context: " <> e), s)
  with_context cfg s (ok _) = configured cfg (
      if js.stream_exists cfg.stream_name s
      then (ok tt, s)
      else js.add_stream cfg.stream_name ((cfg.subject_prefix <> ".>") ∷ []) s)

  -- A stream that is missing is created for the subjects below the prefix. The texts of errors leave
  -- out the values that `Errorf` quotes.
  unfoldable pub new_nats_publisher : Nats → js.Js → Result NatsPublisher × js.Js
  unfolding with_context
  new_nats_publisher cfg s = with_context cfg s (js.jetstream_context s)

  module _ (p : NatsPublisher) (payload : String) where
    -- The loop with the attempts that are left, and the last error.
    pub attempts : ℕ → String → js.Js → Result ℕ × js.Js
    attempts zero last_err s = (err ("nats publish failed: " <> last_err), s)
    attempts (suc left) last_err s =
        let (answer, s') = js.publish p.subject payload p.timeout_ms s in
        elim answer [ ok seq ↦ (ok seq, s') | err e ↦ attempts left e s' ]

  module _ (json : Json) (p : NatsPublisher) where
    unfoldable pub nats_publish : AckRecord → js.Js → Result ℕ × js.Js
    unfolding attempts
    nats_publish record_ s = elim (json.marshal_ack record_) [
      | none ↦ (err "ack marshal", s)
      | some payload ↦ attempts p payload (suc p.max_retries) "" s
    ]

    abbrev nats_publisher : Publisher
    nats_publisher = record {
      State = js.Js;
      publish = nats_publish;
      connected = js.is_connected;
      close = js.drain;
    }

-- Only the log sees the record.
abbrev pub log_publisher : Publisher
log_publisher = record {
  State = Unit;
  publish = λ _ s. (ok 0, s);
  connected = λ _. true;
  close = λ s. s;
}
