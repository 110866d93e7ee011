-- ===== src/Stream.antt =====
-- internal/stream: the circuit breaker, the frames, and the loop that drains a queue to a client.
mod Tests
pub mod Breaker
pub mod Frame
pub mod Session
pub mod Drain
pub mod Loop
