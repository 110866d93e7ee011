-- ===== src/Repository/Stores.antt =====
-- internal/repository: the interfaces of the stores, and their constructors over Redis. The client of
-- Redis, which the constructors keep, is the world that each operation takes.
use scorpion.Prelude.{ℕ, String, Bool, List, Result}
use scorpion.Prelude.Int.{ℤ}
use scorpion.Redis.{Redis}
use scorpion.World.{World}
use scorpion.Repository.Events.{push, drain}
use scorpion.Repository.Tickets.{store, validate_and_consume}
use scorpion.Repository.Connections as C
use scorpion.Repository.InFlight as F

-- An operation that answers with a value or an error.
abbrev pub Op : Redis → Type 0 → Type 0
Op r A = World r → Result A × World r

pub record ConnectionStore (r : Redis) : Type 0 where
  pub register : String → String → ℕ → Op r Bool
  pub refresh : String → String → ℕ → Op r Unit
  pub delete : String → String → Op r Unit
  pub delete_with_value : String → String → Op r Unit
  pub cleanup_instance : C.Scan → World r → World r

pub record EventStore (r : Redis) : Type 0 where
  pub push : String → String → Op r Unit
  pub drain : String → ℤ → Op r (List String × ℕ)

pub record TicketStore (r : Redis) : Type 0 where
  pub store : String → String → String → ℕ → Op r Unit
  pub validate_and_consume : String → String → String → Op r Bool

-- The times of delivery and of marking, which the code reads from the clock, are arguments.
pub record InFlightStore (r : Redis) : Type 0 where
  pub register : (client_id event_id delivered_at : String) → Op r Unit
  pub validate : String → String → Op r (Bool × Bool)
  pub mark_acked : (client_id event_id marked_at : String) → Op r Bool

module _ {r : Redis} where
  unfoldable pub new_connection_store : String → ConnectionStore r
  new_connection_store instance_id = record {
    register = C.register instance_id;
    refresh = C.refresh;
    delete = C.delete;
    delete_with_value = C.delete_with_value instance_id;
    cleanup_instance = C.cleanup_instance instance_id;
  }

  unfoldable pub new_event_store : ℤ → EventStore r
  new_event_store max_queue_depth = record { push = push max_queue_depth; drain = drain }

  unfoldable pub new_ticket_store : TicketStore r
  new_ticket_store = record { store = store; validate_and_consume = validate_and_consume }

  unfoldable pub new_in_flight_store : InFlightStore r
  new_in_flight_store = record {
    register = F.register;
    validate = F.validate;
    mark_acked = F.mark_acked;
  }
