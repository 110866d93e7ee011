-- ===== src/Http/Server/Life.antt =====
-- server.go: `Serve` and `Shutdown`, as the order in which the two servers start and stop. Listening,
-- TLS and the time that a server is given to stop are I/O.
use scorpion.Prelude.{List, ◌∷◌, Result}

pub data ServerEvent : Type 0 where
  metrics_started main_started metrics_stopped main_stopped : ServerEvent

-- The latest event stands first.
unfoldable pub serve : List ServerEvent → List ServerEvent
serve events = main_started ∷ metrics_started ∷ events

-- The error of the metrics server is dropped.
unfoldable pub shutdown :
    (metrics_answer main_answer : Result (Unit {0}))
    → List ServerEvent
    → Result (Unit {0}) × List ServerEvent
shutdown metrics_answer main_answer events = (main_answer, main_stopped ∷ metrics_stopped ∷ events)
