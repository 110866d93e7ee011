-- ===== src/Config.antt =====
-- internal/config/config.go: the settings that the program reads. Times to live are whole seconds,
-- other durations milliseconds; a Go `int` is an integer without the bound of its 64 bits.
pub mod Load
use scorpion.Prelude.{ℕ, String, Bool, List}
use scorpion.Prelude.Int.{ℤ}

pub record Server : Type 0 where
  pub port : ℤ
  pub tls_cert : String
  pub tls_key : String
  pub shutdown_timeout : ℕ
  pub read_timeout : ℕ
  pub idle_timeout : ℕ

pub record Sse : Type 0 where
  pub poll_interval : ℕ
  pub batch_size : ℤ
  pub heartbeat_interval : ℕ
  pub conn_ttl : ℕ
  pub max_queue_depth : ℤ
  pub max_event_bytes : ℤ

pub record Auth : Type 0 where
  pub token_secret : String
  pub ticket_secret : String
  pub ticket_ttl : ℕ

pub record Ip : Type 0 where
  pub strategy : String
  pub header : String
  pub trusted_count : ℤ
  pub trusted_ranges : List String

pub record RateLimit : Type 0 where
  pub ticket_rpm : ℤ
  pub ticket_burst : ℤ

pub record Redis : Type 0 where
  pub address : String
  pub password : String
  pub db : ℤ
  pub max_retries : ℤ
  pub pool_size : ℤ
  pub min_idle_conns : ℤ

pub record Observability : Type 0 where
  pub metrics_port : ℤ
  pub log_level : String
  pub log_format : String
  pub tracing_enabled : Bool
  pub otlp_endpoint : String

pub record Nats : Type 0 where
  pub url : String
  pub stream_name : String
  pub subject_prefix : String
  pub publish_timeout_ms : ℤ
  pub max_retries : ℤ
  pub credentials_file : String
  pub duplicate_window : ℕ
  pub enabled : Bool

pub record Config : Type 0 where
  pub server : Server
  pub sse : Sse
  pub auth : Auth
  pub ip : Ip
  pub rate_limit : RateLimit
  pub redis : Redis
  pub nats : Nats
  pub observability : Observability
