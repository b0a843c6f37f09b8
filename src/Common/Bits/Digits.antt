-- ===== src/Common/Bits/Digits.antt =====
-- The law of the lowest digit for the native `&`, `|` and `^`.
use Prim.Native.Nat.{
  ℕ, zero, suc, ◌+◌, ◌*◌, ◌/◌, ◌%◌, ◌≤◌, min, max, bit_and, bit_or, bit_xor, digits, differ,
  bit_and-bitwise, bit_or-bitwise, bit_xor-bitwise,
}
use mathlib.Core.Path.{◌≡◌, refl, ap}
use native.Mathlib.Omega.{arith}

-- `op` works digit by digit, as `f` does on one digit.
pub record IsDigitwise (op f : ℕ → ℕ → ℕ) : Type 0 where
  pub zeros : op 0 0 ≡ 0
  pub step : (a b : ℕ) → op a b ≡ op (a / 2) (b / 2) * 2 + f (a % 2) (b % 2)

module _ (z : ℕ → ℕ) (f : ℕ → ℕ → ℕ) where
  enough : (n m a b : ℕ) → a ≤ n → a ≤ m → digits z f n a b ≡ digits z f m a b
  enough zero zero a b p q = refl
  enough zero (suc m) zero b p q = refl
  enough zero (suc m) (suc a) b p q = absurd (omega arith)
  enough (suc n) zero zero b p q = refl
  enough (suc n) zero (suc a) b p q = absurd (omega arith)
  enough (suc n) (suc m) zero b p q = refl
  enough (suc n) (suc m) (suc a) b p q =
      ap (λ (t : ℕ). t * 2 + f (suc a % 2) (b % 2))
        (enough n m (suc a / 2) (b / 2) (omega arith) (omega arith))

  -- one digit of a number that is not 0
  unroll :
      (a b : ℕ)
      → digits z f (suc a) (suc a) b
        ≡ digits z f (suc a / 2) (suc a / 2) (b / 2) * 2 + f (suc a % 2) (b % 2)
  unroll a b =
      ap (λ (t : ℕ). t * 2 + f (suc a % 2) (b % 2))
        (enough a (suc a / 2) (suc a / 2) (b / 2) (omega arith) (omega arith))

  -- the library's recursion, at any first number, given how the rest `z b` splits
  lowest :
      ((b : ℕ) → z b ≡ z (b / 2) * 2 + f 0 (b % 2))
      → (a b : ℕ) → digits z f a a b ≡ digits z f (a / 2) (a / 2) (b / 2) * 2 + f (a % 2) (b % 2)
  lowest h zero b = h b
  lowest h (suc a) b = unroll a b

differ-zero : (b : ℕ) → differ 0 b ≡ b
differ-zero zero = refl
differ-zero (suc b) = refl

pub and-IsDigitwise : IsDigitwise bit_and min
and-IsDigitwise = record {
  zeros = bit_and-bitwise 0 0;
  step = λ a b. omega (
    arith,
    bit_and-bitwise a b,
    bit_and-bitwise (a / 2) (b / 2),
    lowest (λ b. zero) min (λ b. omega arith) a b,
  );
}

pub or-IsDigitwise : IsDigitwise bit_or max
or-IsDigitwise = record {
  zeros = bit_or-bitwise 0 0;
  step = λ a b. omega (
    arith,
    bit_or-bitwise a b,
    bit_or-bitwise (a / 2) (b / 2),
    lowest (λ b. b) max (λ b. omega arith) a b,
  );
}

pub xor-IsDigitwise : IsDigitwise bit_xor differ
xor-IsDigitwise = record {
  zeros = bit_xor-bitwise 0 0;
  step = λ a b. omega (
    arith,
    bit_xor-bitwise a b,
    bit_xor-bitwise (a / 2) (b / 2),
    lowest (λ b. b) differ (λ b. omega (arith, differ-zero (b % 2))) a b,
  );
}
