-- ===== src/Http/Fixture.antt =====
-- Concrete settings, requests and encodings for the handlers.
use scorpion.Prelude.{
  ◌&&◌, String, ◌≡◌, ◌≢◌, refl, inl, inr, Bool-cases, true, false, Option, none, some, [], eq_iff,
  ◌==◌, if◌then◌else◌,
}
use scorpion.Prelude.Int.{pos}
use scorpion.Redis.Memory.{memory, nothing}
use scorpion.World.{World, calm}
use scorpion.Config.{Config}
use scorpion.Domain.{EventPayload, AckRequest, status_processed}
use scorpion.Json.{Json}
use scorpion.Auth.Fixture.{settings}
use scorpion.Http.{Request, Context}
use scorpion.Http.Middleware.{Strategy}

abbrev pub config : Config
config = record {
  server = record {
    port = pos 8443;
    tls_cert = "cert.pem";
    tls_key = "key.pem";
    shutdown_timeout = 10_000;
    read_timeout = 5_000;
    idle_timeout = 60_000;
  };
  sse = record {
    poll_interval = 1_000;
    batch_size = pos 2;
    heartbeat_interval = 15_000;
    conn_ttl = 60;
    max_queue_depth = pos 100;
    max_event_bytes = pos 1024;
  };
  auth = settings;
  ip = record { strategy = "remote_addr"; header = ""; trusted_count = pos 0; trusted_ranges = [] };
  rate_limit = record { ticket_rpm = pos 10; ticket_burst = pos 5 };
  redis = record {
    address = "localhost:6379";
    password = "";
    db = pos 0;
    max_retries = pos 3;
    pool_size = pos 0;
    min_idle_conns = pos 0;
  };
  observability = record {
    metrics_port = pos 9090;
    log_level = "info";
    log_format = "json";
    tracing_enabled = true;
    otlp_endpoint = "";
  };
  nats = record {
    url = "nats://localhost:4222";
    stream_name = "acks";
    subject_prefix = "acks";
    publish_timeout_ms = pos 3000;
    max_retries = pos 3;
    credentials_file = "";
    duplicate_window = 120_000;
    enabled = true;
  };
}

abbrev pub acknowledgement : AckRequest
acknowledgement = record {
  event_id = "e1";
  client_id = "alice";
  stream_id = "s1";
  acked_at = "t1";
  status = status_processed;
  metadata = [];
}

abbrev pub marshal_event : EventPayload → Option String
marshal_event e = if e.type == "note" then some e.id else none

abbrev pub unmarshal_event : String → Option EventPayload
unmarshal_event s = some (record { id = s; type = "note"; body = "{}" })

pub unmarshal-marshal_lem :
    (e : EventPayload) (s : String)
    → marshal_event e ≡ some s
    → (d : EventPayload) × (unmarshal_event s ≡ some d) × (d.id ≡ e.id) × (d.type ≡ e.type)
unmarshal-marshal_lem e s h = elim (Bool-cases (e.type == "note")) [
  | inl note ↦ (_, refl, cc (rw note at h), cc ((eq_iff e.type "note").0 note))
  | inr not_note ↦ cc (rw not_note at h)
]

-- An encoding that knows one acknowledgement and one event.
abbrev pub codec : Json
codec = record {
  marshal_event = marshal_event;
  unmarshal_event = unmarshal_event;
  decode_ack = λ s. if s == "ack" then some acknowledgement else none;
  bind_event = λ _ t s.
      if t == "application/json" && s == "event"
      then some (record { type = "note"; body = "{}" })
      else none;
  marshal_ack = λ _. none;
  unmarshal-marshal = unmarshal-marshal_lem;
}

abbrev pub request : String → Request
request body = record {
  header = [];
  remote_addr = "10.0.0.1";
  authorization = "Bearer bob's";
  content_type = "application/json";
  param_client_id = "alice";
  query_ticket = "signed";
  query_batch_size = "";
  body = body;
}

abbrev pub alice_context : Context
alice_context = record { client_id = some "alice"; client_ip = some "10.0.0.1" }

abbrev pub bob_context : Context
bob_context = record { client_id = some "bob"; client_ip = some "10.0.0.2" }

abbrev pub empty : World memory
empty = calm memory nothing

abbrev pub remote : Strategy
remote header remote_addr = remote_addr

-- texts told apart
pub differ : {a b : String} → (a == b) ≡ false → a ≢ b
differ {a} {b} h e = cc (h, (eq_iff a b).1 e)
