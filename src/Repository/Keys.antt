-- ===== src/Repository/Keys.antt =====
-- The Redis keys of internal/repository and internal/ratelimit: `connKey`, `eventsKey`,
-- `inFlightKey`, `ackedKey`, `ticketKey` and the key that `Allow` formats.
pub mod Distinct
pub mod Kinds
use Prim.Native.String.{String, ◌++◌}

unfoldable pub conn_key : String → String → String
conn_key client_id ip = "scorpion:conn:" ++ client_id ++ ":" ++ ip

unfoldable pub events_key : String → String
events_key client_id = "scorpion:events:" ++ client_id

unfoldable pub in_flight_key : String → String → String
in_flight_key client_id event_id = "scorpion:inflight:" ++ client_id ++ ":" ++ event_id

unfoldable pub acked_key : String → String → String
acked_key client_id event_id = "scorpion:acked:" ++ client_id ++ ":" ++ event_id

unfoldable pub ticket_key : String → String → String
ticket_key client_id ip = "scorpion:ticket:" ++ client_id ++ ":" ++ ip

unfoldable pub rate_limit_key : String → String
rate_limit_key ip = "scorpion:ratelimit:" ++ ip
