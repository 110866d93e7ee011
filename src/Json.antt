-- ===== src/Json.antt =====
-- The JSON libraries, as a parameter: what the handlers and the stream loop encode and decode.
use scorpion.Prelude.{ℕ, String, ◌≡◌, Option, some}
use scorpion.Domain.{EventPayload, EventRequest, AckRequest, AckRecord}

pub record Json : Type 0 where
  pub marshal_event : EventPayload → Option String
  pub unmarshal_event : String → Option EventPayload
  -- `Decode` of an acknowledgement from a request's body, and `Bind` of an event from the body, of
  -- which no more may be read than a limit says, as the request's Content-Type tells
  pub decode_ack : String → Option AckRequest
  pub bind_event : (most_bytes : Option ℕ) (content_type body : String) → Option EventRequest
  pub marshal_ack : AckRecord → Option String
  -- What was marshalled is read back with its id and its type; its data may be laid out anew.
  pub unmarshal-marshal :
      (e : EventPayload) (s : String)
      → marshal_event e ≡ some s
      → (d : EventPayload) × (unmarshal_event s ≡ some d) × (d.id ≡ e.id) × (d.type ≡ e.type)
