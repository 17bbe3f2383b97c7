-- ===== src/Common/Ratio.antt =====
-- Quotients of natural numbers, for the fractions that the source computes as floats. The quotient
-- is exact; `den` is positive in every value that the models build or accept.
use Prim.Native.Nat.{ℕ, ◌+◌, ◌-◌, ◌*◌, ◌/◌, ◌≤◌, ◌<◌}
use native.Mathlib.Omega.{arith}
use native.Mathlib.Nat.{lt-div-mul-add, div-lt_iff_lt-mul}
use mathlib.Core.Bool.{Bool}
use dsprod.Common.Tests.{ltb, leb, nat_beq, if◌then◌else◌}

pub record Ratio : Type 0 where
  pub num : ℕ
  pub den : ℕ

-- `(a / b) if b else 0.0`
abbrev pub ratio_or_zero : ℕ → ℕ → Ratio
ratio_or_zero a b = if nat_beq b 0 then record { num = 0; den = 1 } else record { num = a; den = b }

abbrev pub times : Ratio → Ratio → Ratio
times r s = record { num = r.num * s.num; den = r.den * s.den }

-- `r < s` and `r >= s`
abbrev pub ratio_lt : Ratio → Ratio → Bool
ratio_lt r s = ltb (r.num * s.den) (s.num * r.den)

abbrev pub ratio_ge : Ratio → Ratio → Bool
ratio_ge r s = leb (s.num * r.den) (r.num * s.den)

-- `int(r * n)`
abbrev pub floor_times : Ratio → ℕ → ℕ
floor_times r n = (r.num * n) / r.den

-- `-(-a // b)`, for a positive `b`
unfoldable pub ceil_div : ℕ → ℕ → ℕ
ceil_div a b = (a + (b - 1)) / b

pub ceil_div-covers : (a b : ℕ) → 0 < b → a ≤ ceil_div a b * b
unfolding ceil_div
ceil_div-covers a b pos = omega (arith, lt-div-mul-add {a = a + (b - 1)} {b = b} pos)

pub ceil_div-le : (a b n : ℕ) → 0 < b → a ≤ n * b → ceil_div a b ≤ n
unfolding ceil_div
ceil_div-le a b n pos h =
    let below : a + (b - 1) < (n + 1) * b = omega arith in
    omega (arith, (div-lt_iff_lt-mul {k = b} {x = a + (b - 1)} {y = n + 1} pos).1 below)
