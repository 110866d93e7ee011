-- ===== src/RateLimit/Overflow.antt =====
-- limiter.go, `Allow` in Go's 64-bit integers.
use Prim.Native.Nat.{◌^◌}
use scorpion.Prelude.{
  ℕ, ◌+◌, ◌-◌, ◌≤◌, ◌<◌, ◌≡◌, refl, ◌⊎◌, true, false, Bool-cases, inl, inr, ltb, leb, arith,
  if◌then◌else◌, ltb→lt,
}
use scorpion.Prelude.Int.{pos, negsuc, ◌+ℤ◌, ◌-ℤ◌, ltb_ℤ, leb_ℤ, int_laws}
use scorpion.Prelude.Int64.{int64, int64-Fits}
use scorpion.Config.{RateLimit}
use scorpion.RateLimit.{Verdict, verdict, window_seconds}

-- The answer in integers without bounds.
abbrev pub unbounded_verdict : RateLimit → ℕ → ℕ → Verdict
unbounded_verdict cfg now count =
    let limit = cfg.ticket_rpm +ℤ cfg.ticket_burst in
    let left = limit -ℤ pos count in
    record {
      allowed = leb_ℤ (pos count) limit;
      count = count;
      limit = cfg.ticket_rpm;
      remaining = if ltb_ℤ left (pos 0) then pos 0 else left;
      reset_at = now + window_seconds;
    }

sum_pos : (a b : ℕ) → pos a +ℤ pos b ≡ pos (a + b)
sum_pos a b = omega int_laws

abbrev pub wide : ℕ → ℕ → RateLimit
wide a b = record { ticket_rpm = pos a; ticket_burst = pos b }

pub same_limit : (a b : ℕ) → a + b < 2 ^ 63 → int64 (pos a +ℤ pos b) ≡ pos (a + b)
same_limit a b h = rw (sum_pos a b) (int64-Fits (pos (a + b)) (omega arith, omega arith))

pub same_left : (s n : ℕ) → s < 2 ^ 63 → n < 2 ^ 63 → int64 (pos s -ℤ pos n) ≡ pos s -ℤ pos n
same_left s n h k = int64-Fits (pos s -ℤ pos n) (omega int_laws, omega int_laws)

pub leb_pos : (n m : ℕ) → leb_ℤ (pos n) (pos m) ≡ leb n m
leb_pos n m = ground arith

-- What is left of a limit that is not passed.
pub left_pos :
    (s n : ℕ)
    → leb n s ≡ true
    → (if ltb_ℤ (pos s -ℤ pos n) (pos 0) then pos 0 else (pos s -ℤ pos n)) ≡ pos (s - n)
unfolding ◌-ℤ◌
left_pos s n h = ground arith

wrapped_limit :
    (a b : ℕ)
    → a < 2 ^ 63
    → b < 2 ^ 63
    → 2 ^ 63 ≤ a + b
    → int64 (pos a +ℤ pos b) ≡ negsuc (2 ^ 64 - 1 - (a + b))
unfolding int64
wrapped_limit a b h k l = rw (sum_pos a b) (ground arith)

-- For settings that are no negative 64-bit integers, and a count that is one: if the requests per minute
-- and the burst together fit an `int`, the answer of `Allow` is the one in unbounded integers;
-- otherwise the sum wraps, and no request is allowed.
pub verdict_overflow :
    (a b now n : ℕ)
    → a < 2 ^ 63
    → b < 2 ^ 63
    → n < 2 ^ 63
    → (a + b < 2 ^ 63) × (verdict (wide a b) now n ≡ unbounded_verdict (wide a b) now n)
      ⊎ (2 ^ 63 ≤ a + b) × ((verdict (wide a b) now n).allowed ≡ false)
unfolding verdict
verdict_overflow a b now n h k c = elim (Bool-cases (ltb (a + b) (2 ^ 63))) [
  | inl fits ↦
      let small : a + b < 2 ^ 63 = ltb→lt _ _ fits in
      inl (small, rw (same_limit a b small, sum_pos a b, same_left (a + b) n small c) refl)
  | inr wraps ↦
      let large : 2 ^ 63 ≤ a + b = ground arith in
      inr (large, rw (wrapped_limit a b h k large) (ground arith))
]
