-- ===== src/Prelude/Int64.antt =====
-- Go's `int` on the 64-bit servers that the program is built for: two's complement, which wraps.
use Prim.Native.Nat.{ℕ, ◌-◌, ◌%◌, ◌^◌}
use mathlib.Core.Path.{◌≡◌}
use native.Mathlib.Omega.{arith}
use scorpion.Prelude.Tests.{ltb, if◌then◌else◌}
use scorpion.Prelude.Int.{ℤ, pos, negsuc, ◌≤ℤ◌}

-- The bit pattern of an integer, and the integer that a bit pattern stands for.
abbrev bits : ℤ → ℕ
bits (pos n) = n % 2 ^ 64
bits (negsuc n) = 2 ^ 64 - 1 - n % 2 ^ 64

abbrev of_bits : ℕ → ℤ
of_bits w = if ltb w (2 ^ 63) then pos w else negsuc (2 ^ 64 - 1 - w)

unfoldable pub int64 : ℤ → ℤ
int64 a = of_bits (bits a)

abbrev pub Fits : ℤ → Type 0
Fits a = (negsuc (2 ^ 63 - 1) ≤ℤ a) × (a ≤ℤ pos (2 ^ 63 - 1))

pub int64-Fits : (a : ℤ) → Fits a → int64 a ≡ a
unfolding int64
int64-Fits (pos n) h = ground arith
int64-Fits (negsuc n) h = ground arith
