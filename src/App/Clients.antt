-- ===== src/App/Clients.antt =====
-- internal/app/repository.go, redis.go and nats.go: the stores, and the connections to Redis and NATS.
-- The clients' libraries are parameters: pinging Redis is a round trip, and NATS is the `JetStream`
-- of the publishers, with what connecting answers.
use Prim.Native.String.{◌++◌}
use scorpion.Prelude.{ℕ, String, Bool, ◌==◌, Option, none, some, [], Result, ok, err, if◌then◌else◌}
use scorpion.Prelude.Int.{ℤ, negsuc}
use scorpion.Redis.{Redis}
use scorpion.World.{World, round_trip, count_metric}
use scorpion.Metrics.{redis_latency_seconds}
use scorpion.Config as Config
use scorpion.Ack.{JetStream}
use scorpion.Repository.Stores.{
  ConnectionStore, EventStore, TicketStore, InFlightStore, new_connection_store, new_event_store,
  new_ticket_store, new_in_flight_store,
}

pub record Repository (r : Redis) : Type 0 where
  pub connection_store : ConnectionStore r
  pub event_store : EventStore r
  pub ticket_store : TicketStore r
  pub in_flight_store : InFlightStore r

unfoldable pub with_repository :
    {r : Redis} → (instance_id : String) (max_queue_depth : ℤ) → Repository r
with_repository instance_id max_queue_depth = record {
  connection_store = new_connection_store instance_id;
  event_store = new_event_store max_queue_depth;
  ticket_store = new_ticket_store;
  in_flight_store = new_in_flight_store;
}

-- The options that the client of Redis is made with; the backoffs are milliseconds.
pub record RedisOptions : Type 0 where
  pub addr : String
  pub password : String
  pub db : ℤ
  pub max_retries : ℤ
  pub min_retry_backoff : ℕ
  pub max_retry_backoff : ℕ
  pub pool_size : ℤ
  pub min_idle_conns : ℤ

-- A client, and whether the hook that measures its commands is added.
pub record Client : Type 0 where
  pub options : RedisOptions
  hooked : Bool

unfoldable pub redis_options : Config.Redis → RedisOptions
redis_options cfg = record {
  addr = cfg.address;
  password = cfg.password;
  db = cfg.db;
  max_retries = cfg.max_retries;
  min_retry_backoff = 8;
  max_retry_backoff = 512;
  pool_size = cfg.pool_size;
  min_idle_conns = cfg.min_idle_conns;
}

module _ {r : Redis} where
  -- The hooks around a command and around a pipeline: the error is passed on.
  unfoldable pub process_hook :
      (cmd : String)
      → (World r → Result (Unit {0}) × World r)
      → World r
      → Result (Unit {0}) × World r
  process_hook cmd next w = let (e, w') = next w in (e, count_metric (redis_latency_seconds cmd) w')

  unfoldable process_pipeline_hook :
      (World r → Result (Unit {0}) × World r) → World r → Result (Unit {0}) × World r
  process_pipeline_hook next w =
      let (e, w') = next w in (e, count_metric (redis_latency_seconds "pipeline") w')

  abbrev pinged : Client → Result (Unit {0}) × World r → Result Client × World r
  pinged c (err e, w) = (err ("failed to connect to repository: " ++ e), w)
  pinged c (ok _, w) = (ok c, w)

  -- A client that does not answer the ping is closed.
  unfoldable pub new_client : Config.Redis → Bool → World r → Result Client × World r
  new_client cfg has_metrics w =
      let ping = round_trip [] (λ _. tt {0}) in
      pinged (record { options = redis_options cfg; hooked = has_metrics })
        ((if has_metrics then process_hook "ping" ping else ping) w)

pub record NatsOptions : Type 0 where
  pub name : String
  pub reconnect_wait : ℕ
  pub max_reconnects : ℤ
  pub user_credentials : Option String

-- Seconds; a negative number of reconnects has no limit. The handlers of events only log.
unfoldable pub nats_options : Config.Nats → NatsOptions
nats_options cfg = record {
  name = cfg.stream_name;
  reconnect_wait = 2;
  max_reconnects = negsuc 0;
  user_credentials = if cfg.credentials_file == "" then none else some cfg.credentials_file;
}

module _ (js : JetStream) (connect : String → NatsOptions → js.Js → Result (Unit {0}) × js.Js) where
  abbrev pub connected : String → Result (Unit {0}) × js.Js → Result (Unit {0}) × js.Js
  connected url (err e, s) = (err ("nats connect " ++ url ++ ": " ++ e), s)
  connected url (ok _, s) = (ok tt, s)

  unfoldable pub with_nats : Config.Nats → js.Js → Result (Unit {0}) × js.Js
  with_nats cfg s = connected cfg.url (connect cfg.url (nats_options cfg) s)
