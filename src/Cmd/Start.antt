-- ===== src/Cmd/Start.antt =====
-- cmd/scorpion/start.go: `runStart`, from the configuration to the end of the shutdown.
pub mod Releases
use Prim.Native.String.{◌++◌}
use scorpion.Prelude.{
  ℕ, String, Bool, true, Option, none, some, List, [], ◌∷◌, Result, ok, err, if◌then◌else◌,
}
use scorpion.Redis.{Redis}
use scorpion.World.{World}
use scorpion.Config.{Config, Nats}
use scorpion.Config.Load.{ConfigLibs, Loaded, load}
use scorpion.Log.{Logger, new_logger}
use scorpion.Telemetry.{Tracer, init_tracer}
use scorpion.Metrics.Register.{Registerer, new_metrics}
use scorpion.Ack.{JetStream, NatsPublisher, new_nats_publisher}
use scorpion.Repository.Connections.{Scan}
use scorpion.Http.Middleware.{Strategy}
use scorpion.Http.Server.Life.{ServerEvent, serve, shutdown}
use scorpion.App.Ip.{IpLibs, new_ip_strategy}
use scorpion.App.Clients.{Repository, Client, with_repository, new_client, NatsOptions, with_nats}

-- How the command ends: with an error, with a panic, or after a signal.
pub data Exit : Type 0 where
  failed : String → Exit
  panicked : Exit
  stopped : Exit

-- What happened to the connections, the latest first.
pub data Effect : Type 0 where
  redis_opened redis_closed nats_opened nats_drained : Effect

pub data Chosen : Type 0 where
  log_based : Chosen
  nats_based : NatsPublisher → Chosen

-- The libraries and the servers that the command calls, and what happens to it from outside.
pub record Outside (r : Redis) : Type 1 where
  pub config_libs : ConfigLibs
  pub ip_libs : IpLibs
  pub registerer : Registerer
  pub js : JetStream
  pub connect : String → NatsOptions → js.Js → Result (Unit {0}) × js.Js
  pub instance_id : String
  -- all requests until the signal, with the parts that the handlers are given
  pub requests : Config → Strategy → Repository r → Chosen → World r × js.Js → World r × js.Js
  pub metrics_stop : Result (Unit {0})
  pub main_stop : Result (Unit {0})
  pub scan : Scan

module _ {r : Redis} (o : Outside r) where
  pub record Machine : Type 0 where
    pub world : World r
    pub nats : o.js.Js
    pub registry : o.registerer.Registry
    pub printed : List String
    pub logger : Option Logger
    pub tracer : Option Tracer
    pub servers : List ServerEvent
    pub effects : List Effect

  abbrev pub did : Effect → Machine → Machine
  did e m = record m { effects = e ∷ m.effects }

  unfoldable pub with_publisher : Result NatsPublisher × o.js.Js → Machine → Chosen × Machine
  with_publisher (err _, s) m = (log_based, did nats_drained (record m { nats = o.js.drain s }))
  with_publisher (ok p, s) m = (nats_based p, record m { nats = s })

  unfoldable pub with_connection : Nats → Result (Unit {0}) × o.js.Js → Machine → Chosen × Machine
  unfolding with_publisher
  with_connection cfg (err _, s) m = (log_based, record m { nats = s })
  with_connection cfg (ok _, s) m =
      with_publisher (new_nats_publisher o.js cfg s) (did nats_opened m)

  -- NATS if it is enabled and can be used, and the log otherwise.
  unfoldable pub choose_publisher : Nats → Machine → Chosen × Machine
  unfolding with_connection
  choose_publisher cfg m =
      if cfg.enabled
      then with_connection cfg (with_nats o.js o.connect cfg m.nats) m
      else (log_based, m)

  -- the deferred call that only a publisher over NATS has
  unfoldable pub close_publisher : Chosen → Machine → Machine
  close_publisher log_based m = m
  close_publisher (nats_based p) m = did nats_drained (record m { nats = o.js.drain m.nats })

  -- Serving until a signal, the shutdown, whose error is only logged, and the deferred calls.
  unfoldable pub running : Config → Strategy → Chosen → Machine → Exit × Machine
  unfolding close_publisher
  running cfg strategy chosen m =
      let repo = with_repository o.instance_id cfg.sse.max_queue_depth in
      let (w, s) = o.requests cfg strategy repo chosen (m.world, m.nats) in
      let (_, events) = shutdown o.metrics_stop o.main_stop (serve m.servers) in
      let cleaned = repo.connection_store.cleanup_instance o.scan w in
      let m' = record m { world = cleaned; nats = s; servers = events } in
      (stopped, did redis_closed (close_publisher chosen m'))

  unfoldable pub with_client :
      Config → Strategy → Result Client × World r → Machine → Exit × Machine
  unfolding running choose_publisher
  with_client cfg strategy (err e, w) m = (
    failed ("failed to connect to repository: " ++ e),
    did redis_closed (did redis_opened (record m { world = w })),
  )
  with_client cfg strategy (ok client, w) m =
      let (chosen, m') = choose_publisher cfg.nats (did redis_opened (record m { world = w })) in
      running cfg strategy chosen m'

  unfoldable pub with_strategy : Config → Result Strategy → Machine → Exit × Machine
  unfolding with_client
  with_strategy cfg (err e) m = (failed ("failed to initialize IP strategy: " ++ e), m)
  with_strategy cfg (ok strategy) m = with_client cfg strategy (new_client cfg.redis true m.world) m

  unfoldable pub with_metrics : Config → Option o.registerer.Registry → Machine → Exit × Machine
  unfolding with_strategy
  with_metrics cfg none m = (panicked, m)
  with_metrics cfg (some registry) m =
      with_strategy cfg (new_ip_strategy o.ip_libs cfg.ip)
        (record m { registry = registry; tracer = some (init_tracer cfg.observability) })

  unfoldable pub with_config : Option Config → Option String → Machine → Exit × Machine
  unfolding with_metrics
  with_config config (some e) m = (failed ("failed to load config: " ++ e), m)
  with_config none none m = (panicked, m)
  with_config (some cfg) none m =
      with_metrics cfg (new_metrics o.registerer m.registry)
        (record m { logger = some (new_logger cfg.observability) })

  unfoldable pub run_start : String → Machine → Exit × Machine
  unfolding with_config
  run_start config_path m =
      let (loaded, printed) = load o.config_libs config_path m.printed in
      with_config loaded.config loaded.error (record m { printed = printed })
