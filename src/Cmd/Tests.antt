-- ===== src/Cmd/Tests.antt =====
-- The command on concrete settings, with libraries that answer.
use scorpion.Prelude.{
  ◌<◌, leb, String, ◌≡◌, refl, false, Bool, ◌==◌, ◌||◌, none, List, [], ◌∷◌, ok, err, arith,
  if◌then◌else◌,
}
use scorpion.Prelude.Int.{pos}
use scorpion.Redis.Memory.{memory}
use scorpion.Config.{Ip}
use scorpion.Config.Load.{ConfigLibs}
use scorpion.Log.{Slog, Logger, Level, severity}
use scorpion.Metrics.Register.{Registerer, name}
use scorpion.Ack.Fixture.{in_memory}
use scorpion.Repository.Connections.{finished}
use scorpion.Http.Fixture.{config, empty, remote}
use scorpion.App.Ip.{IpLibs, new_ip_strategy}
use scorpion.App.Ip.Chooses.{Chosen, new_ip_strategy-Chosen}
use scorpion.Cmd.Start.{Outside, Machine, run_start}
use scorpion.Cmd.Start.Releases.{Released, start_releases}

-- One file, which holds the settings of the fixture.
abbrev config_libs : ConfigLibs
config_libs = record {
  File = Unit;
  read_in_config = λ path. if path == "config.yaml" then ok tt else err "no such file";
  unmarshal = λ _. ok config;
  marshal_indent = λ c. ok c.auth.token_secret;
  color = λ s. s;
}

-- Networks are their texts.
abbrev ip_libs : IpLibs
ip_libs = record {
  Network = String;
  parse_cidr = λ s. if s == "" then err "invalid CIDR address" else ok s;
  new_rightmost_trusted_count = λ _ _. ok remote;
  new_rightmost_trusted_range = λ _ _. ok remote;
  new_rightmost_non_private = λ _. ok remote;
  new_single_ip_header = λ _. ok remote;
  remote_addr = remote;
}

abbrev two_ranges : Ip
two_ranges = record {
  strategy = "rightmost_trusted_range";
  header = "";
  trusted_count = pos 0;
  trusted_ranges = "10.0.0.0/8" ∷ "192.168.0.0/16" ∷ [];
}

two_ranges_lem : new_ip_strategy ip_libs two_ranges ≡ ok remote
unfolding new_ip_strategy
two_ranges_lem = refl

new_ip_strategy-Chosen_example : Chosen ip_libs two_ranges remote
new_ip_strategy-Chosen_example = new_ip_strategy-Chosen ip_libs two_ranges remote two_ranges_lem

abbrev severe_enough : Logger → Level → Bool
severe_enough l level = leb (severity l.level) (severity level)

below :
    (l : Logger) (level : Level) (msg : String) (out : List String)
    → severity level < severity l.level
    → (if severe_enough l level then msg ∷ out else out) ≡ out
below l level msg out h = ground arith

-- A log that keeps the messages at its level and above.
abbrev slog : Slog
slog = record {
  Out = List String;
  write = λ l level msg args out. if severe_enough l level then msg ∷ out else out;
  write_below = λ l level msg args out h. below l level msg out h;
}

-- A registry is the list of the names that are taken.
abbrev taken : String → List String → Bool
taken n [] = false
taken n (m ∷ ms) = let rest = taken n ms in m == n || rest

abbrev registerer : Registerer
registerer = record {
  Registry = List String;
  taken = taken;
  register = λ f ms. name f ∷ ms;
  taken-register = λ n f ms. refl;
}

abbrev outside : Outside memory
outside = record {
  config_libs = config_libs;
  ip_libs = ip_libs;
  registerer = registerer;
  js = in_memory;
  connect = λ url options s. (err "connection refused", s);
  instance_id = "node1";
  requests = λ _ _ _ _ x. x;
  metrics_stop = ok tt;
  main_stop = err "context deadline exceeded";
  scan = finished;
}

abbrev machine : Machine outside
machine = record {
  world = empty;
  nats = record { refusing = 0; filters = []; stored = [] };
  registry = [];
  printed = [];
  logger = none;
  tracer = none;
  servers = [];
  effects = [];
}

start_releases_example : Released (run_start outside "config.yaml" machine).1.effects
start_releases_example = start_releases outside "config.yaml" machine refl
