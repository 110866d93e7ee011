-- ===== src/Http/Server/Build.antt =====
-- server.go: the two servers of `NewServer` and what `Serve` logs of their ends. Formatting a port as a
-- decimal is that of fmt, an argument; durations are milliseconds, and zero is no limit.
use Prim.Native.String.{◌++◌}
use scorpion.Prelude.{ℕ, String, Option, none, some, List, [], ◌∷◌, Result, ok, err}
use scorpion.Prelude.Int.{ℤ}
use scorpion.Config.{Config}

pub data TlsVersion : Type 0 where
  tls12 : TlsVersion

pub data Mux : Type 0 where
  routes prometheus : Mux

pub record HttpServer : Type 0 where
  pub addr : String
  pub handler : Mux
  pub min_tls : Option TlsVersion
  pub read_timeout : ℕ
  pub idle_timeout : ℕ
  pub write_timeout : ℕ

pub record Server : Type 0 where
  pub cfg : Config
  pub main_srv : HttpServer
  pub metrics_srv : HttpServer
  -- the errors that were logged
  logged : List String

-- What follows `http2.ConfigureServer`, whose error is only logged.
http2_configured : Result (Unit {0}) → List String
http2_configured (ok _) = []
http2_configured (err e) = "failed to configure http2" ∷ []

unfoldable new_server : (itoa : ℤ → String) → Config → Result (Unit {0}) → Server
unfolding http2_configured
new_server itoa cfg http2 = record {
  cfg = cfg;
  main_srv = record {
    addr = ":" ++ itoa cfg.server.port;
    handler = routes;
    min_tls = some tls12;
    read_timeout = cfg.server.read_timeout;
    idle_timeout = cfg.server.idle_timeout;
    write_timeout = 0;
  };
  metrics_srv = record {
    addr = ":" ++ itoa cfg.observability.metrics_port;
    handler = prometheus;
    min_tls = none;
    read_timeout = 0;
    idle_timeout = 0;
    write_timeout = 0;
  };
  logged = http2_configured http2;
}

-- How a call of `ListenAndServe` ends.
pub data ListenEnd : Type 0 where
  ended : ListenEnd
  server_closed : ListenEnd
  listen_error : String → ListenEnd

-- The line that a goroutine of `Serve` logs at the end; a server that was shut down is no error.
unfoldable end_line : (message : String) → ListenEnd → Option String
end_line message ended = none
end_line message server_closed = none
end_line message (listen_error e) = some message

unfoldable serve_lines : (metrics_end main_end : ListenEnd) → Option String × Option String
unfolding end_line
serve_lines metrics_end main_end =
    (end_line "metrics server error" metrics_end, end_line "server error" main_end)
