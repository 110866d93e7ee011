-- ===== src/Repository.antt =====
-- internal/repository: the stores that the handlers and the stream loop share.
mod Tests
pub mod Keys
pub mod Events
pub mod Tickets
pub mod Connections
pub mod InFlight
pub mod Stores
pub mod Commands
