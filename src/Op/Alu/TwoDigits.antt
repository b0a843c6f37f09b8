-- ===== src/Op/Alu/TwoDigits.antt =====
-- Numbers of two digits in base 2 ^ 56: what the arithmetic instructions compute in a word of 128 bits.
use ol.Common.{
  ℕ, zero, suc, ap, ◌∙◌, ◌+◌, ◌-◌, ◌*◌, ◌/◌, ◌%◌, ◌^◌, ◌≤◌, ◌<◌, ◌≡◌, arith, bit_and, bit_or,
}
use ol.Common.Bits.{bit_and-mask, bit_or-fields_right}
use ol.Common.Division.{quotient_of}
use native.Mathlib.Nat.{
  pow-succ', one-le-pow, mul-lt-mul_of_pos_right, pow-le-pow_right, mul-le-mul, div-add-mod',
  mod-lt,
}
use ol.Word.{value, small, highbit, vmax}
use ol.Word.Fields.{value-small}
use ol.Op.Alu.{big_mod}

-- A product of two digits fits two digits.
pub product_lt : (a b : ℕ) → a < 2 ^ 56 → b < 2 ^ 56 → a * b < 2 ^ 112
product_lt a b ha hb =
    let below : a * b ≤ (2 ^ 56 - 1) * (2 ^ 56 - 1) =
      mul-le-mul {n₂ = 2 ^ 56 - 1} {m₂ = 2 ^ 56 - 1} (omega arith) (omega arith) in
    omega arith

pub shifted_lt : (a n : ℕ) → a < 2 ^ 56 → n ≤ 56 → a * 2 ^ n < 2 ^ 112
shifted_lt a n ha hn =
    let power : 2 ^ n ≤ 2 ^ 56 = pow-le-pow_right {n = 2} (omega arith) hn in
    let below : a * 2 ^ n ≤ (2 ^ 56 - 1) * 2 ^ 56 =
      mul-le-mul {n₂ = 2 ^ 56 - 1} {m₂ = 2 ^ 56} (omega arith) power in
    omega arith

-- the two digits that an instruction writes of a number of two digits
pub two_digits :
    (r : ℕ)
    → r < 2 ^ 112
    → (value (small (r / 2 ^ 56)) * highbit + value (small (bit_and r vmax)) ≡ r)
      × (value (small (r / 2 ^ 56)) < highbit)
      × (value (small (bit_and r vmax)) < highbit)
two_digits r h =
    ground (arith, bit_and-mask 56 r, value-small (r / 2 ^ 56), value-small (r % 2 ^ 56))

-- `al | (ah << 56)`
pub dividend :
    (ah al : ℕ) → ah < 2 ^ 56 → al < 2 ^ 56 → bit_or al (ah * 2 ^ 56 % big_mod) ≡ ah * highbit + al
dividend ah al hh hl = ground (arith, bit_or-fields_right 56 ah al)

power_add : (m n : ℕ) → 2 ^ m * 2 ^ n ≡ 2 ^ (m + n)
power_add zero n = ground arith
power_add (suc m) n =
    let e : suc m + n ≡ suc (m + n) = omega arith in
    rw (e, pow-succ', pow-succ') (omega (arith, power_add m n))

-- what a shift through the two digits leaves above
pub shifted_out : (a n : ℕ) → n ≤ 56 → a * 2 ^ (56 - n) / 2 ^ 56 ≡ a / 2 ^ n
shifted_out a n hn =
    let p : ℕ = 2 ^ (56 - n) in
    let q : ℕ = 2 ^ n in
    let whole : q * p ≡ 2 ^ 56 =
      power_add n (56 - n) ∙ ap (λ (t : ℕ). 2 ^ t) {y = 56} (omega arith) in
    let posp : 0 < p = one-le-pow (56 - n) 2 (omega arith) in
    let posq : 0 < q = one-le-pow n 2 (omega arith) in
    let fits : a % q * p < q * p = mul-lt-mul_of_pos_right (mod-lt a posq) posp in
    quotient_of (a * p) (a / q) (2 ^ 56) (a % q * p) (omega arith)
      (omega (arith, ap (λ (t : ℕ). t * p) (div-add-mod' a q), ap (λ (t : ℕ). a / q * t) whole))
      (omega arith)
