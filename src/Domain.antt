-- ===== src/Domain.antt =====
-- internal/domain: events and acknowledgements. `Data` is the raw JSON text; a time is a formatted
-- text, and its zero value is the empty one.
use scorpion.Prelude.{ℕ, String, Bool, List}

pub record EventPayload : Type 0 where
  pub id : String
  pub type : String
  pub body : String

pub record EventRequest : Type 0 where
  pub type : String
  pub body : String

abbrev pub status_received : String
status_received = "received"

abbrev pub status_processed : String
status_processed = "processed"

abbrev pub status_failed : String
status_failed = "failed"

pub record AckRequest : Type 0 where
  pub event_id : String
  pub client_id : String
  pub stream_id : String
  pub acked_at : String
  pub status : String
  pub metadata : List (String × String)

pub record AckResponse : Type 0 where
  pub ack_id : String
  pub event_id : String
  pub published : Bool
  pub nats_seq : ℕ
  pub timestamp : String

pub record AckRecord : Type 0 where
  pub ack_id : String
  pub event_id : String
  pub client_id : String
  pub stream_id : String
  pub acked_at : String
  pub status : String
  pub metadata : List (String × String)
  pub server_received_at : String
