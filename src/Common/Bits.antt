-- ===== src/Common/Bits.antt =====
-- `&`, `|`, `^` and masks of any width in arithmetic. The program packs the fields of a word
-- with them, and the modules below read the fields back.
mod Digits
use Digits.{IsDigitwise, and-IsDigitwise, or-IsDigitwise, xor-IsDigitwise}
use Prim.Native.Nat.{
  ℕ, zero, suc, ◌+◌, ◌-◌, ◌*◌, ◌/◌, ◌%◌, ◌^◌, ◌≤◌, ◌<◌, bit_and, bit_or, bit_xor, differ,
}
use mathlib.Core.Path.{◌≡◌, refl, ap, sym, ◌∙◌}
use native.Mathlib.Nat.{pow-succ', one-le-pow, div-add-mod', mod-lt}
use native.Mathlib.Omega.{arith}

-- The parts of `q * 2 ^ k + r` that one digit more leaves.
double_power : (q k : ℕ) → q * 2 ^ suc k ≡ q * 2 ^ k * 2
double_power q k = omega (arith, ap (λ (t : ℕ). q * t) (pow-succ' 2 k))

module _ {op : ℕ → ℕ → ℕ} {f : ℕ → ℕ → ℕ} (d : IsDigitwise op f) where
  -- Above and below bit `k` the operation goes its own way.
  digitwise_split :
      (k q s r t : ℕ)
      → r < 2 ^ k
      → t < 2 ^ k
      → op (q * 2 ^ k + r) (s * 2 ^ k + t) ≡ op q s * 2 ^ k + op r t
  digitwise_split zero q s r t hr ht = ground (arith, d.zeros)
  digitwise_split (suc k) q s r t hr ht = ground (
    arith,
    d.step (q * 2 ^ suc k + r) (s * 2 ^ suc k + t),
    d.step r t,
    double_power q k,
    double_power s k,
    double_power 1 k,
    double_power (op q s) k,
    digitwise_split k q s (r / 2) (t / 2),
  )

-- What has run out on one side.
bit_and-zero_below : (n a : ℕ) → a < n → bit_and a 0 ≡ 0
bit_and-zero_below zero a h = absurd (omega arith)
bit_and-zero_below (suc n) zero h = and-IsDigitwise.zeros
bit_and-zero_below (suc n) (suc a) h =
    omega (arith, and-IsDigitwise.step (suc a) 0, bit_and-zero_below n (suc a / 2))

pub bit_and-zero : (a : ℕ) → bit_and a 0 ≡ 0
bit_and-zero a = bit_and-zero_below (suc a) a (omega arith)

bit_or-zero_below : (n a : ℕ) → a < n → bit_or a 0 ≡ a
bit_or-zero_below zero a h = absurd (omega arith)
bit_or-zero_below (suc n) zero h = or-IsDigitwise.zeros
bit_or-zero_below (suc n) (suc a) h =
    omega (arith, or-IsDigitwise.step (suc a) 0, bit_or-zero_below n (suc a / 2))

pub bit_or-zero : (a : ℕ) → bit_or a 0 ≡ a
bit_or-zero a = bit_or-zero_below (suc a) a (omega arith)

differ-zero_right : (a : ℕ) → differ a 0 ≡ a
differ-zero_right zero = refl
differ-zero_right (suc a) = refl

differ-one : (a : ℕ) → a < 2 → differ a 1 ≡ 1 - a
differ-one zero h = refl
differ-one (suc zero) h = refl
differ-one (suc (suc a)) h = absurd (omega arith)

bit_xor-zero_below : (n a : ℕ) → a < n → bit_xor a 0 ≡ a
bit_xor-zero_below zero a h = absurd (omega arith)
bit_xor-zero_below (suc n) zero h = xor-IsDigitwise.zeros
bit_xor-zero_below (suc n) (suc a) h = ground (
  arith,
  xor-IsDigitwise.step (suc a) 0,
  differ-zero_right (suc a % 2),
  bit_xor-zero_below n (suc a / 2),
)

pub bit_xor-zero : (a : ℕ) → bit_xor a 0 ≡ a
bit_xor-zero a = bit_xor-zero_below (suc a) a (omega arith)

-- the lowest bit turned over
pub bit_xor-one : (a : ℕ) → bit_xor a 1 ≡ a / 2 * 2 + (1 - a % 2)
bit_xor-one a =
    ground (arith, xor-IsDigitwise.step a 1, differ-one (a % 2) (omega arith), bit_xor-zero (a / 2))

zero-bit_or_below : (n a : ℕ) → a < n → bit_or 0 a ≡ a
zero-bit_or_below zero a h = absurd (omega arith)
zero-bit_or_below (suc n) zero h = or-IsDigitwise.zeros
zero-bit_or_below (suc n) (suc a) h =
    ground (arith, or-IsDigitwise.step 0 (suc a), zero-bit_or_below n (suc a / 2))

pub zero-bit_or : (a : ℕ) → bit_or 0 a ≡ a
zero-bit_or a = zero-bit_or_below (suc a) a (omega arith)

-- `x & (2 ^ k - 1)`
ones_keep : (k a : ℕ) → a < 2 ^ k → bit_and a (2 ^ k - 1) ≡ a
ones_keep zero a h = ground (arith, bit_and-zero a)
ones_keep (suc k) a h = ground (
  arith,
  and-IsDigitwise.step a (2 ^ suc k - 1),
  double_power 1 k,
  one-le-pow k 2,
  ones_keep k (a / 2),
)

pub bit_and-mask : (k a : ℕ) → bit_and a (2 ^ k - 1) ≡ a % 2 ^ k
bit_and-mask k a = ground (
  arith,
  one-le-pow k 2,
  div-add-mod' a (2 ^ k),
  mod-lt a (one-le-pow k 2 (omega arith)),
  digitwise_split and-IsDigitwise k (a / 2 ^ k) 0 (a % 2 ^ k) (2 ^ k - 1),
  bit_and-zero (a / 2 ^ k),
  ones_keep k (a % 2 ^ k),
)

-- `x & (1 << k)`
pub bit_and-bit : (k a : ℕ) → bit_and a (2 ^ k) ≡ a / 2 ^ k % 2 * 2 ^ k
bit_and-bit k a = ground (
  arith,
  one-le-pow k 2,
  div-add-mod' a (2 ^ k),
  mod-lt a (one-le-pow k 2 (omega arith)),
  digitwise_split and-IsDigitwise k (a / 2 ^ k) 1 (a % 2 ^ k) 0,
  bit_and-mask 1 (a / 2 ^ k),
  bit_and-zero (a % 2 ^ k),
)

-- `(q << k) | r` for `r` below `2 ^ k`
pub bit_or-fields : (k q r : ℕ) → r < 2 ^ k → bit_or (q * 2 ^ k) r ≡ q * 2 ^ k + r
bit_or-fields k q r h =
    ground (
      arith,
      one-le-pow k 2,
      digitwise_split or-IsDigitwise k q 0 0 r,
      bit_or-zero q,
      zero-bit_or r,
    )

pub bit_or-fields_right : (k q r : ℕ) → r < 2 ^ k → bit_or r (q * 2 ^ k) ≡ q * 2 ^ k + r
bit_or-fields_right k q r h =
    ground (
      arith,
      one-le-pow k 2,
      digitwise_split or-IsDigitwise k 0 q r 0,
      zero-bit_or q,
      bit_or-zero r,
    )

-- each operation on two words with a field of `k` bits at the bottom
pub bit_and-split :
    (k q s r t : ℕ)
    → r < 2 ^ k
    → t < 2 ^ k
    → bit_and (q * 2 ^ k + r) (s * 2 ^ k + t) ≡ bit_and q s * 2 ^ k + bit_and r t
bit_and-split = digitwise_split and-IsDigitwise

pub bit_or-split :
    (k q s r t : ℕ)
    → r < 2 ^ k
    → t < 2 ^ k
    → bit_or (q * 2 ^ k + r) (s * 2 ^ k + t) ≡ bit_or q s * 2 ^ k + bit_or r t
bit_or-split = digitwise_split or-IsDigitwise

pub bit_xor-split :
    (k q s r t : ℕ)
    → r < 2 ^ k
    → t < 2 ^ k
    → bit_xor (q * 2 ^ k + r) (s * 2 ^ k + t) ≡ bit_xor q s * 2 ^ k + bit_xor r t
bit_xor-split = digitwise_split xor-IsDigitwise

-- one bit turned over
pub bit_xor-bit :
    (k a : ℕ) → bit_xor a (2 ^ k) ≡ (a / 2 ^ k / 2 * 2 + (1 - a / 2 ^ k % 2)) * 2 ^ k + a % 2 ^ k
bit_xor-bit k a =
    let pos = one-le-pow k 2 (omega arith) in
    ap (λ (x : ℕ). bit_xor x (2 ^ k)) (sym (div-add-mod' a (2 ^ k)))
    ∙ ap (λ (y : ℕ). bit_xor (a / 2 ^ k * 2 ^ k + a % 2 ^ k) y) {y = 1 * 2 ^ k + 0} (omega arith)
    ∙ bit_xor-split k (a / 2 ^ k) 1 (a % 2 ^ k) 0 (mod-lt a pos) pos
    ∙ rw (bit_xor-one, bit_xor-zero) refl
