-- ===== src/RateLimit.antt =====
-- internal/ratelimit/limiter.go, with scripts/atomic_ratelimit.lua. The `ResetAt` of a result is the
-- time of the call, an argument, and the window's length.
mod Tests
pub mod Window
pub mod Windows
pub mod Overflow
use Prim.Native.String.{◌++◌}
use scorpion.Prelude.{
  ℕ, ◌+◌, String, Bool, false, [], ◌∷◌, leb, ◌&&◌, Result, ok, err, if◌then◌else◌,
}
use scorpion.Prelude.Int.{ℤ, pos, ◌+ℤ◌, ◌-ℤ◌, ltb_ℤ, leb_ℤ}
use scorpion.Prelude.Int64.{int64}
use scorpion.Redis.{Redis}
use scorpion.World.{World, round_trip}
use scorpion.Config.{RateLimit}
use scorpion.Repository.Keys.{rate_limit_key}

pub record Verdict : Type 0 where
  pub allowed : Bool
  pub count : ℕ
  pub limit : ℤ
  pub remaining : ℤ
  pub reset_at : ℕ

-- The zero value of `Result`, which goes with an error.
abbrev pub no_verdict : Verdict
no_verdict = record { allowed = false; count = 0; limit = pos 0; remaining = pos 0; reset_at = 0 }

abbrev pub window_seconds : ℕ
window_seconds = 60

module _ (r : Redis) where
  -- INCR, and EXPIRE if the count is one.
  unfoldable pub limit_script : String → ℕ → r.Db → ℕ × r.Db
  limit_script key window d =
      let d' = r.incr key d in
      let count = r.get_count key d' in
      if leb 1 count && leb count 1 then (count, r.expire key window d') else (count, d')

-- The rest of `Allow`, after the script. The sum and the difference wrap as Go's `int` does.
unfoldable pub verdict : RateLimit → ℕ → ℕ → Verdict
verdict cfg now count =
    let limit = int64 (cfg.ticket_rpm +ℤ cfg.ticket_burst) in
    let left = int64 (limit -ℤ pos count) in
    record {
      allowed = leb_ℤ (pos count) limit;
      count = count;
      limit = cfg.ticket_rpm;
      remaining = if ltb_ℤ left (pos 0) then pos 0 else left;
      reset_at = now + window_seconds;
    }

module _ {r : Redis} where
  abbrev pub judged : RateLimit → ℕ → Result ℕ × World r → Result Verdict × World r
  judged cfg now (err e, w) = (err ("rate limit script error: " ++ e), w)
  judged cfg now (ok count, w) = (ok (verdict cfg now count), w)

  unfoldable pub allow : RateLimit → ℕ → String → World r → Result Verdict × World r
  allow cfg now ip w =
      let key = rate_limit_key ip in
      judged cfg now (
        round_trip ((λ d. (limit_script r key window_seconds d).1) ∷ [])
          (λ d. (limit_script r key window_seconds d).0) w)
