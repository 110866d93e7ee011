-- ===== src/Stream/Breaker/Opens.antt =====
-- loop.go, `circuitBreaker`: when it opens, and for how long.
use Prim.Native.Nat.{◌^◌}
use native.Mathlib.Nat.{add-zero}
use scorpion.Prelude.{
  ℕ, suc, ◌+◌, ◌<◌, ◌≡◌, refl, false, leb, List, [], ◌∷◌, ◌++◌, length, arith, not, if◌then◌else◌,
}
use scorpion.Stream.Breaker.{Breaker, new_circuit_breaker, is_open, record_failure}

-- The breaker after failures at the times of the list, with no success between them.
pub failures : List ℕ → Breaker → Breaker
failures [] cb = cb
failures (now ∷ times) cb = failures times (record_failure now cb)

failures-snoc :
    (times : List ℕ) (last : ℕ) (cb : Breaker)
    → failures (times ++ last ∷ []) cb ≡ record_failure last (failures times cb)
unfolding failures
failures-snoc [] last cb = refl
failures-snoc (now ∷ times) last cb = failures-snoc times last (record_failure now cb)

record Counts (m pause n : ℕ) (cb : Breaker) : Type 0 where
  threshold : cb.max_fails ≡ m
  pausing : cb.reset_after ≡ pause
  counted : cb.consecutive_fails ≡ n
  opened : leb cb.open_until 0 ≡ not (leb m n)

failure-Counts :
    (m pause n now : ℕ) (cb : Breaker)
    → 0 < pause
    → suc n < 2 ^ 32
    → Counts m pause n cb
    → Counts m pause (suc n) (record_failure now cb)
unfolding record_failure
failure-Counts m pause n now cb p h v = ground arith

failures-Counts :
    (m pause n : ℕ) (times : List ℕ) (cb : Breaker)
    → 0 < pause
    → n + length times < 2 ^ 32
    → Counts m pause n cb
    → Counts m pause (n + length times) (failures times cb)
unfolding failures
failures-Counts m pause n [] cb p h v = rw add-zero v
failures-Counts m pause n (now ∷ times) cb p h v =
    let same : suc n + length times ≡ n + suc (length times) = omega arith in
    rw (← same) (
      failures-Counts m pause (suc n) times (record_failure now cb) p (omega arith)
        (failure-Counts m pause n now cb p (omega arith) v))

new-Counts : (m pause : ℕ) → 0 < m → Counts m pause 0 (new_circuit_breaker m pause)
unfolding new_circuit_breaker
new-Counts m pause p = ground arith

last_failure :
    (m pause n last now : ℕ) (cb : Breaker)
    → 0 < pause
    → suc n < 2 ^ 32
    → Counts m pause n cb
    → (is_open now (record_failure last cb)).0
      ≡ (if leb m (suc n) then leb now (last + pause) else false)
unfolding is_open record_failure
last_failure m pause n last now cb p h v = ground arith

-- A new breaker that has only failed, with no success in between and below the wrap of its counter,
-- is open exactly if it failed at least `max_fails` times and the pause since the last failure is
-- not over. Threshold and pause are positive.
pub opens_after :
    (m pause : ℕ) (times : List ℕ) (last now : ℕ)
    → 0 < m
    → 0 < pause
    → suc (length times) < 2 ^ 32
    → (is_open now (failures (times ++ last ∷ []) (new_circuit_breaker m pause))).0
      ≡ (if leb m (suc (length times)) then leb now (last + pause) else false)
opens_after m pause times last now pm pp h =
    let cb = new_circuit_breaker m pause in
    let counted : Counts m pause (0 + length times) (failures times cb) =
      failures-Counts m pause 0 times cb pp (omega arith) (new-Counts m pause pm) in
    let same : 0 + length times ≡ length times = omega arith in
    rw failures-snoc
      (last_failure m pause (length times) last now (failures times cb) pp h (rw same at counted))
