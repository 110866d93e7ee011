-- ===== src/RateLimit/Tests.antt =====
-- The rate limit on a concrete keyspace.
use scorpion.Prelude.{◌+◌, ◌≤◌, ◌<◌, ◌⊎◌, arith, ◌≡◌, refl, false, none, List, [], ◌∷◌, map, ok}
use scorpion.Prelude.Int.{pos}
use scorpion.Redis.Memory.{memory, nothing}
use scorpion.World.{World, calm}
use scorpion.Config.{RateLimit}
use Prim.Native.Nat.{◌^◌}
use scorpion.RateLimit.{Verdict, allow, verdict}
use scorpion.RateLimit.Overflow.{wide, unbounded_verdict, verdict_overflow}
use scorpion.RateLimit.Windows.{
  Step, request, pause, Windows, reply_of, limiter, answers, allow-windows,
}
use scorpion.RateLimit.Window.{calls, allow-limit}

abbrev empty : World memory
empty = calm memory nothing

abbrev settings : RateLimit
settings = record { ticket_rpm = pos 1; ticket_burst = pos 1 }

allow-limit_example :
    (v : Verdict) × ((allow settings 102 "10.0.0.1"
        (calls memory settings "10.0.0.1" (100 ∷ 101 ∷ []) empty)).0
      ≡ ok v)
    × (v.allowed ≡ false)
allow-limit_example =
    allow-limit memory 1 1 "10.0.0.1" (100 ∷ 101 ∷ []) 102 empty (omega arith) refl refl

abbrev no_windows : Windows
no_windows _ = none

-- Two addresses, and a pause that closes their windows.
abbrev schedule : List Step
schedule =
    request "10.0.0.1"
    ∷ request "10.0.0.1"
    ∷ request "10.0.0.2"
    ∷ request "10.0.0.1"
    ∷ pause 60
    ∷ request "10.0.0.1"
    ∷ []

allow-windows_example :
    map reply_of (answers memory settings 100 schedule empty) ≡ limiter 1 1 100 schedule no_windows
allow-windows_example =
    allow-windows memory 1 1 (omega arith) schedule 100 no_windows empty refl (λ _. refl)

verdict_overflow_example :
    (10 + 5 < 2 ^ 63) × (verdict (wide 10 5) 100 3 ≡ unbounded_verdict (wide 10 5) 100 3)
    ⊎ (2 ^ 63 ≤ 10 + 5) × ((verdict (wide 10 5) 100 3).allowed ≡ false)
verdict_overflow_example = verdict_overflow 10 5 100 3 (omega arith) (omega arith) (omega arith)
