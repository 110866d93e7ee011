-- ===== src/Scripts.antt =====
-- scripts: the developer's tools that mint tokens and push events.
pub mod Token
pub mod PushEvents
mod Tests
