-- ===== src/Repository/Commands.antt =====
-- internal/repository and internal/ratelimit as Redis sees them: the commands and scripts that the
-- stores send. Redis runs them one at a time, so that requests which are served at the same time, by one
-- instance or several, are for the keyspace some sequence of these, in which the commands of
-- different requests may come in turns.
pub mod Sent
pub mod Typed
pub mod Writes
pub mod Reached
pub mod Connections
pub mod Registrations
pub mod Balance
pub mod Tickets
use scorpion.Prelude.{ℕ, String, List, [], ◌∷◌}
use scorpion.Prelude.Int.{ℤ}
use scorpion.Redis.{Redis}
use scorpion.Repository.Keys.{
  conn_key, events_key, in_flight_key, acked_key, ticket_key, rate_limit_key,
}
use scorpion.Repository.Tickets.{ticket_script}
use scorpion.Repository.Connections.{owner_script}
use scorpion.Repository.InFlight.{in_flight_ttl, acked_ttl}
use scorpion.RateLimit.{limit_script, window_seconds}

pub data Command : Type 0 where
  set_ticket : (client_id ip jti : String) (ttl : ℕ) → Command
  use_ticket : (client_id ip jti : String) → Command
  set_nx_conn : (instance_id client_id ip : String) (ttl : ℕ) → Command
  expire_conn : (client_id ip : String) (ttl : ℕ) → Command
  del_conn : (client_id ip : String) → Command
  del_own_conn : (instance_id client_id ip : String) → Command
  rpush_event : (client_id event_json : String) → Command
  ltrim_events : (client_id : String) (first last : ℤ) → Command
  set_in_flight set_acked : (client_id event_id at : String) → Command
  del_in_flight : (client_id event_id : String) → Command
  count_request : (ip : String) → Command
  passes : (seconds : ℕ) → Command
  -- LRANGE, LLEN, GET or EXISTS
  reads : Command

module _ (r : Redis) where
  unfoldable pub exec : Command → r.Db → r.Db
  exec (set_ticket c ip jti ttl) = r.set (ticket_key c ip) jti ttl
  exec (use_ticket c ip jti) = λ d. (ticket_script r (ticket_key c ip) jti d).1
  exec (set_nx_conn i c ip ttl) = r.set_nx (conn_key c ip) i ttl
  exec (expire_conn c ip ttl) = r.expire (conn_key c ip) ttl
  exec (del_conn c ip) = r.del (conn_key c ip)
  exec (del_own_conn i c ip) = owner_script r (conn_key c ip) i
  exec (rpush_event c e) = r.rpush (events_key c) e
  exec (ltrim_events c a b) = r.ltrim (events_key c) a b
  exec (set_in_flight c e at) = r.set (in_flight_key c e) at in_flight_ttl
  exec (set_acked c e at) = r.set (acked_key c e) at acked_ttl
  exec (del_in_flight c e) = r.del (in_flight_key c e)
  exec (count_request ip) = λ d. (limit_script r (rate_limit_key ip) window_seconds d).1
  exec (passes n) = r.elapse n
  exec reads = λ d. d

  unfoldable pub exec_all : List Command → r.Db → r.Db
  exec_all [] d = d
  exec_all (cmd ∷ cmds) d = exec_all cmds (exec cmd d)
