-- ===== src/Metrics/Register.antt =====
-- metrics.go, `NewMetrics`. The registry of Prometheus is a parameter; help texts and buckets are left
-- out.
pub mod Names
use scorpion.Prelude.{
  String, Bool, ◌≡◌, ◌||◌, ◌==◌, Option, none, some, List, [], ◌∷◌, if◌then◌else◌,
}

pub data Kind : Type 0 where
  gauge counter histogram : Kind

pub data Family : Type 0 where
  family : Kind → String → List String → Family

abbrev pub name : Family → String
name (family _ n _) = n

pub record Registerer : Type 1 where
  pub Registry : Type 0
  pub taken : String → Registry → Bool
  pub register : Family → Registry → Registry
  -- A name is taken once its family has been registered.
  pub taken-register :
      (n : String) (f : Family) (s : Registry) → taken n (register f s) ≡ (name f == n || taken n s)

unfoldable pub families : List Family
families =
    family gauge "scorpion_active_connections" []
    ∷ family counter "scorpion_connections_total" ("status" ∷ [])
    ∷ family counter "scorpion_events_delivered_total" ("event_type" ∷ [])
    ∷ family histogram "scorpion_events_drained_per_tick" []
    ∷ family counter "scorpion_event_drain_errors_total" []
    ∷ family gauge "scorpion_queue_depth" []
    ∷ family counter "scorpion_tickets_issued_total" []
    ∷ family counter "scorpion_tickets_rejected_total" ("reason" ∷ [])
    ∷ family counter "scorpion_auth_ip_mismatch_total" []
    ∷ family counter "scorpion_duplicate_connections_total" []
    ∷ family counter "scorpion_heartbeats_sent_total" []
    ∷ family histogram "scorpion_redis_latency_seconds" ("operation" ∷ [])
    ∷ family counter "scorpion_ratelimit_exceeded_total" []
    ∷ family gauge "sse_unacked_events_total" ("stream_id" ∷ "client_id" ∷ [])
    ∷ family counter "ack_requests_total" ("http_status" ∷ "stream_id" ∷ [])
    ∷ family histogram "ack_processing_duration_seconds" ("stream_id" ∷ [])
    ∷ family counter "ack_validation_errors_total" ("error_type" ∷ [])
    ∷ family counter "ack_duplicate_total" ("stream_id" ∷ [])
    ∷ family histogram "ack_to_event_latency_seconds" ("stream_id" ∷ [])
    ∷ family counter "ack_unknown_event_total" ("stream_id" ∷ [])
    ∷ family counter "nats_publish_total" ("subject" ∷ "status" ∷ [])
    ∷ family histogram "nats_publish_duration_seconds" ("subject" ∷ [])
    ∷ family counter "nats_publish_retries_total" ("subject" ∷ [])
    ∷ family gauge "nats_connection_status" ("server" ∷ [])
    ∷ []

module _ (reg : Registerer) where
  -- Registering a name that is taken panics, which is `none` here.
  unfoldable pub register_all : List Family → reg.Registry → Option reg.Registry
  register_all [] s = some s
  register_all (f ∷ fs) s =
      let rest = register_all fs (reg.register f s) in if reg.taken (name f) s then none else rest

  unfoldable pub new_metrics : reg.Registry → Option reg.Registry
  new_metrics s = register_all families s
