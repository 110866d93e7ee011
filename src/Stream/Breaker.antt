-- ===== src/Stream/Breaker.antt =====
-- loop.go, `circuitBreaker`: times are nanoseconds of the Unix clock, and zero means closed.
pub mod Opens
use Prim.Native.Nat.{◌%◌, ◌^◌}
use scorpion.Prelude.{ℕ, ◌+◌, Bool, true, false, leb, ltb, ◌&&◌, if◌then◌else◌}

pub record Breaker : Type 0 where
  pub max_fails : ℕ
  pub reset_after : ℕ
  pub consecutive_fails : ℕ
  pub open_until : ℕ

unfoldable pub new_circuit_breaker : ℕ → ℕ → Breaker
new_circuit_breaker max_fails reset_after = record {
  max_fails = max_fails;
  reset_after = reset_after;
  consecutive_fails = 0;
  open_until = 0;
}

-- A breaker whose time has passed is reset by the question.
unfoldable pub is_open : ℕ → Breaker → Bool × Breaker
is_open now cb =
    if leb cb.open_until 0
    then (false, cb)
    else if ltb cb.open_until now
    then (false, record cb { open_until = 0; consecutive_fails = 0 })
    else (true, cb)

unfoldable pub record_success : Breaker → Breaker
record_success cb = record cb { consecutive_fails = 0; open_until = 0 }

-- The counter is a `uint32`.
unfoldable pub record_failure : ℕ → Breaker → Breaker
record_failure now cb =
    let n = (cb.consecutive_fails + 1) % 2 ^ 32 in
    if leb cb.max_fails n
    then record cb { consecutive_fails = n; open_until = now + cb.reset_after }
    else record cb { consecutive_fails = n }
