-- ===== src/Ack/Tests.antt =====
-- The NATS publisher against a JetStream that refuses the first attempts.
use scorpion.Prelude.{String, ◌≡◌, refl, ◌⊎◌, true, Option, none, some, [], ◌∷◌, ok}
use scorpion.Domain.{EventPayload, AckRecord, status_processed}
use scorpion.Json.{Json}
use scorpion.Ack.{NatsPublisher, new_nats_publisher, nats_publish}
use scorpion.Ack.Fixture.{State, in_memory}
use scorpion.Ack.Unheard.{AllErrors, publishes, stream_unheard}
use scorpion.Config.{Nats}
use scorpion.Prelude.Int.{pos}
use scorpion.Ack.Publish.{Succeeds, Fails, nats_publish-retries}

abbrev start : State
start = record { refusing = 2; filters = "scorpion.acks" ∷ []; stored = [] }

nothing_marshalled :
    (e : EventPayload) (s : String)
    → ◌≡◌ {A = Option String} none (some s)
    → (d : EventPayload) × (◌≡◌ {A = Option EventPayload} none (some d))
      × (d.id ≡ e.id)
      × (d.type ≡ e.type)
nothing_marshalled e s h = cc

-- An encoder that refuses events.
abbrev acks_only : Json
acks_only = record {
  marshal_event = λ _. none;
  unmarshal_event = λ _. none;
  decode_ack = λ _. none;
  bind_event = λ _ _ _. none;
  marshal_ack = λ r. some r.ack_id;
  unmarshal-marshal = nothing_marshalled;
}

abbrev publisher : NatsPublisher
publisher = record { subject = "scorpion.acks"; timeout_ms = 3000; max_retries = 3 }

abbrev entry : AckRecord
entry = record {
  ack_id = "a1";
  event_id = "e1";
  client_id = "alice";
  stream_id = "s1";
  acked_at = "2026-01-01T00:00:00Z";
  status = status_processed;
  metadata = [];
  server_received_at = "2026-01-01T00:00:01Z";
}

nats_publish-retries_example :
    Succeeds in_memory publisher "a1" 4 start
      (nats_publish in_memory acks_only publisher entry start)
    ⊎ Fails in_memory publisher "a1" 4 start
        (nats_publish in_memory acks_only publisher entry start)
nats_publish-retries_example =
    nats_publish-retries in_memory acks_only publisher entry "a1" start refl

third_attempt : (nats_publish in_memory acks_only publisher entry start).0 ≡ ok 1
unfolding nats_publish
third_attempt = refl

abbrev settings : Nats
settings = record {
  url = "nats://localhost:4222";
  stream_name = "acks";
  subject_prefix = "scorpion.acks";
  publish_timeout_ms = pos 3000;
  max_retries = pos 3;
  credentials_file = "";
  duplicate_window = 120_000;
  enabled = true;
}

abbrev no_streams : State
no_streams = record { refusing = 0; filters = []; stored = [] }

created : (new_nats_publisher in_memory settings no_streams).0 ≡ ok publisher
unfolding new_nats_publisher
created = refl

stream_unheard_example :
    let made = (new_nats_publisher in_memory settings no_streams).1 in
    AllErrors in_memory (publishes in_memory acks_only publisher (entry ∷ entry ∷ []) made).0
    × ((publishes in_memory acks_only publisher (entry ∷ entry ∷ []) made).1.stored ≡ made.stored)
stream_unheard_example =
    stream_unheard in_memory acks_only settings publisher (entry ∷ entry ∷ []) no_streams refl refl
      created
