-- ===== src/Metrics.antt =====
-- internal/metrics/metrics.go: the updates of metrics that the handlers and the stream loop make.
-- A histogram's observation of a duration carries no value here.
pub mod Register
use scorpion.Prelude.{ℕ, String}

pub data Metric : Type 0 where
  active_connections_inc active_connections_dec : Metric
  connections_total : String → Metric
  events_delivered_total : String → Metric
  events_drained_per_tick : ℕ → Metric
  event_drain_errors_total : Metric
  queue_depth : ℕ → Metric
  tickets_issued_total : Metric
  tickets_rejected_total : String → Metric
  auth_ip_mismatch_total : Metric
  duplicate_connections_total : Metric
  heartbeats_sent_total : Metric
  rate_limit_exceeded_total : Metric
  unacked_events_dec : String → String → Metric
  ack_requests_total : ℕ → String → Metric
  ack_processing_duration : String → Metric
  ack_validation_errors_total : String → Metric
  ack_duplicate_total : String → Metric
  ack_unknown_event_total : String → Metric
  nats_publish_total : String → String → Metric
  nats_publish_duration : String → Metric
  redis_latency_seconds : String → Metric
