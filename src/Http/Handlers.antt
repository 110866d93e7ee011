-- ===== src/Http/Handlers.antt =====
-- internal/http/handlers: one module for each handler of `HTTPHandlers`, whose fields are arguments.
-- `Log` and the spans change no state that is modelled.
pub mod Ticket
pub mod Stream
pub mod Poll
pub mod Event
pub mod Ack
pub mod Health
