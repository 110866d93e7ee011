-- ===== src/Http.antt =====
-- internal/http: requests, what the middlewares leave for the handlers, and responses.
mod Tests
pub mod Fixture
pub mod Middleware
pub mod Handlers
pub mod Server
use scorpion.Prelude.{ℕ, String, Option, List}
use scorpion.Domain.{EventPayload, AckResponse}

-- What the code asks of a request: its headers and remote address, the Authorization header, the
-- path's and the query's parameters (an empty text where there is none), and the body.
pub record Request : Type 0 where
  pub header : List (String × String)
  pub remote_addr : String
  pub authorization : String
  pub content_type : String
  pub param_client_id : String
  pub query_ticket : String
  pub query_batch_size : String
  pub body : String

-- The values that the middlewares set in echo's context.
pub record Context : Type 0 where
  pub client_id : Option String
  pub client_ip : Option String

pub data Body : Type 0 where
  failure : String → String → Body
  ticket_response : String → ℕ → Body
  event_response : EventPayload → Body
  events_response : List EventPayload → ℕ → Body
  ack_response : AckResponse → Body
  health_response degraded_response : String → Body
  checks_response : String → (redis nats : String) → Body

-- A panic is one that `Recover` turns into a response of its own.
pub data Response : Type 0 where
  json : ℕ → Body → Response
  streamed : Response
  panicked : Response

abbrev pub status : Response → ℕ
status (json n _) = n
status streamed = 200
status panicked = 500
