-- ===== src/Common/Division.antt =====
-- Quotients of natural numbers.
use Prim.Native.Nat.{ℕ, ◌+◌, ◌*◌, ◌/◌, ◌<◌, ◌≤◌}
use mathlib.Core.Path.{◌≡◌}
use native.Mathlib.Omega.{arith}
use native.Mathlib.Nat.{div-lt_iff_lt-mul, le-div_iff_mul-le}

-- A quotient is what a number of divisors and a rest below the divisor make it.
pub quotient_of : (x d n y : ℕ) → 0 < n → x ≡ d * n + y → y < n → x / n ≡ d
quotient_of x d n y pos e lt =
    let high : x / n < d + 1 = (div-lt_iff_lt-mul pos).1 (grind arith) in
    let low : d ≤ x / n = (le-div_iff_mul-le pos).1 (omega arith) in omega arith
