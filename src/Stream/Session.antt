-- ===== src/Stream/Session.antt =====
-- A stream to one client: Redis, the circuit breaker and the connection. What is written waits in
-- the server's buffer until it is flushed; `writes` says which of the next writes succeed, those
-- after the last one do. A failed write passes nothing on.
use scorpion.Prelude.{ℕ, String, Bool, true, false, List, [], ◌∷◌, ◌++◌}
use scorpion.Redis.{Redis}
use scorpion.World.{World}
use scorpion.Stream.Breaker.{Breaker}

module _ (r : Redis) where
  pub record Session : Type 0 where
    pub world : World r
    pub breaker : Breaker
    pub writes : List Bool
    pub written : List String
    pub flushed : ℕ

module _ {r : Redis} where
  unfoldable pub write_next : String → List Bool → Session r → Bool × Session r
  write_next s [] x = (true, record x { written = x.written ++ s ∷ [] })
  write_next s (true ∷ ws) x = (true, record x { writes = ws; written = x.written ++ s ∷ [] })
  write_next s (false ∷ ws) x = (false, record x { writes = ws })

  unfoldable pub write : String → Session r → Bool × Session r
  unfolding write_next
  write s x = write_next s x.writes x
