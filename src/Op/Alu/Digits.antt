-- ===== src/Op/Alu/Digits.antt =====
-- The arithmetic instructions of src/olvm.c on digits in base 2 ^ 56.
use ol.Common.{
  ℕ, ◌+◌, ◌-◌, ◌*◌, ◌/◌, ◌%◌, ◌^◌, ◌≤◌, ◌<◌, ◌≡◌, ◌≢◌, refl, arith, bit_and, ◌==◌, if◌then◌else◌,
  [], ◌∷◌, ne→==_false, le→ltb_false,
}
use ol.Common.Bits.{bit_and-mask, bit_and-bit, bit_or-fields_right}
use native.Mathlib.Nat.{div-add-mod', mod-lt, div-le_self}
use ol.Word.{value, highbit, vmax, vbits}
use ol.Word.Fields.{value-small}
use ol.Word.Types.{itrue}
use ol.Machine.{Vm, fault, Continues, Wrote, arg, operand}
use ol.Op.Alu.TwoDigits.{product_lt, shifted_lt, two_digits, dividend, shifted_out}
use ol.Op.Alu.{addition, subtraction, multiplication, division, shift_left, shift_right}

-- a register as a word
abbrev pub IsWord : ℕ → Type 0
IsWord w = w < 2 ^ 64

-- `ADDITION` puts the lowest digit of the sum into its third operand and the carry, as #true or #false,
-- into its fourth.
pub addition_lem :
    (s : Vm)
    → IsWord (arg s 0)
    → IsWord (arg s 1)
    → operand s 2 ≢ operand s 3
    → Continues (addition s) λ t.
      (value (t.regs (operand s 2)) + (if t.regs (operand s 3) == itrue then highbit else 0)
        ≡ value (arg s 0) + value (arg s 1))
      × (value (t.regs (operand s 2)) < highbit)
      × Wrote s 4 (2 ∷ 3 ∷ []) t
unfolding addition
addition_lem s ha hb ne =
    let r = value (arg s 0) + value (arg s 1) in
    let low = value-small (bit_and r vmax) in
    (
      ground (arith, bit_and-mask 56 r, bit_and-bit 56 r, low),
      ground (arith, bit_and-mask 56 r, low),
      record { moved = refl; same_heap = refl; others = λ q out. ground arith },
    )

-- `SUBTRACTION` puts the lowest digit of the difference into its third operand and says in its fourth
-- whether it borrowed.
pub subtraction_lem :
    (s : Vm)
    → IsWord (arg s 0)
    → IsWord (arg s 1)
    → operand s 2 ≢ operand s 3
    → Continues (subtraction s) λ t.
      (value (t.regs (operand s 2)) + value (arg s 1)
        ≡ value (arg s 0) + (if t.regs (operand s 3) == itrue then highbit else 0))
      × (value (t.regs (operand s 2)) < highbit)
      × Wrote s 4 (2 ∷ 3 ∷ []) t
unfolding subtraction
subtraction_lem s ha hb ne =
    let a = value (arg s 0) in
    let r = a + highbit - value (arg s 1) in
    let low = value-small (bit_and r vmax) in
    let top = bit_or-fields_right 56 1 a (omega arith) in
    (
      ground (arith, bit_and-mask 56 r, bit_and-bit 56 r, low, top),
      ground (arith, bit_and-mask 56 r, low, top),
      record { moved = refl; same_heap = refl; others = λ q out. ground arith },
    )

-- `MULTIPLICATION` puts the low digit of the product into its third operand and the high one into its
-- fourth.
pub multiplication_lem :
    (s : Vm)
    → IsWord (arg s 0)
    → IsWord (arg s 1)
    → operand s 2 ≢ operand s 3
    → Continues (multiplication s) λ t.
      (value (t.regs (operand s 3)) * highbit + value (t.regs (operand s 2))
        ≡ value (arg s 0) * value (arg s 1))
      × (value (t.regs (operand s 2)) < highbit)
      × (value (t.regs (operand s 3)) < highbit)
      × Wrote s 4 (2 ∷ 3 ∷ []) t
unfolding multiplication
multiplication_lem s ha hb ne =
    let r = value (arg s 0) * value (arg s 1) in
    let fits = product_lt (value (arg s 0)) (value (arg s 1)) (omega arith) (omega arith) in
    let (sum, high, low) = two_digits r fits in
    (
      ground arith,
      ground arith,
      ground arith,
      record { moved = refl; same_heap = refl; others = λ q out. ground arith },
    )

-- `DIVISION` of two digits by one: quotient in two digits and remainder; none by zero.
pub division_lem :
    (s : Vm)
    → IsWord (arg s 0)
    → IsWord (arg s 1)
    → IsWord (arg s 2)
    → 0 < value (arg s 2)
    → operand s 3 ≢ operand s 4
    → operand s 3 ≢ operand s 5
    → operand s 4 ≢ operand s 5
    → Continues (division s) λ t.
      ((value (t.regs (operand s 3)) * highbit + value (t.regs (operand s 4))) * value (arg s 2)
          + value (t.regs (operand s 5))
        ≡ value (arg s 0) * highbit + value (arg s 1))
      × (value (t.regs (operand s 5)) < value (arg s 2))
      × Wrote s 6 (3 ∷ 4 ∷ 5 ∷ []) t
unfolding division
division_lem s hh hl hb pos n34 n35 n45 =
    let ah = value (arg s 0) in
    let al = value (arg s 1) in
    let b = value (arg s 2) in
    let a = ah * highbit + al in
    let whole = dividend ah al (omega arith) (omega arith) in
    let (sum, high, low) = two_digits (a / b) (omega (arith, div-le_self a b)) in
    let small_rest : a % b < b = mod-lt a pos in
    let rest = value-small (a % b) (omega arith) in
    let split = div-add-mod' a b in
    rw (ne→==_false b 0 (omega arith), whole)
      (
        ground arith,
        ground arith,
        record { moved = refl; same_heap = refl; others = λ q out. ground arith },
      )

-- A division by zero has no behaviour that C defines.
division_by_zero : (s : Vm) → value (arg s 2) ≡ 0 → division s ≡ fault
unfolding division
division_by_zero s h = rw h

-- `SHIFT_LEFT` by at most 56 bits multiplies by a power of two: the digit that leaves the word at the top
-- in the third operand, the rest in the fourth.
pub shift_left_lem :
    (s : Vm)
    → IsWord (arg s 0)
    → value (arg s 1) ≤ vbits
    → operand s 2 ≢ operand s 3
    → Continues (shift_left s) λ t.
      (value (t.regs (operand s 2)) * highbit + value (t.regs (operand s 3))
        ≡ value (arg s 0) * 2 ^ value (arg s 1))
      × (value (t.regs (operand s 3)) < highbit)
      × Wrote s 4 (2 ∷ 3 ∷ []) t
unfolding shift_left
shift_left_lem s ha hn ne =
    let r = value (arg s 0) * 2 ^ value (arg s 1) in
    let fits = shifted_lt (value (arg s 0)) (value (arg s 1)) (omega arith) hn in
    let (sum, high, low) = two_digits r fits in
    rw (le→ltb_false 127 (value (arg s 1)) (omega arith)) (
      ground arith,
      ground arith,
      record { moved = refl; same_heap = refl; others = λ q out. ground arith },
    )

-- `SHIFT_RIGHT` by at most 56 bits: the third operand is the quotient by the power of two, and the
-- fourth holds the bits that fell out, at the top of their digit.
pub shift_right_lem :
    (s : Vm)
    → IsWord (arg s 0)
    → value (arg s 1) ≤ vbits
    → operand s 2 ≢ operand s 3
    → Continues (shift_right s) λ t.
      (value (t.regs (operand s 2)) ≡ value (arg s 0) / 2 ^ value (arg s 1))
      × (value (t.regs (operand s 2)) * highbit + value (t.regs (operand s 3))
          ≡ value (arg s 0) * 2 ^ (vbits - value (arg s 1)))
      × (value (t.regs (operand s 3)) < highbit)
      × Wrote s 4 (2 ∷ 3 ∷ []) t
unfolding shift_right
shift_right_lem s ha hn ne =
    let n = value (arg s 1) in
    let r = value (arg s 0) * 2 ^ (vbits - n) in
    let fits = shifted_lt (value (arg s 0)) (vbits - n) (omega arith) (omega arith) in
    let (sum, high, low) = two_digits r fits in
    let out = shifted_out (value (arg s 0)) n hn in
    rw (le→ltb_false vbits n hn) (
      ground arith,
      ground arith,
      ground arith,
      record { moved = refl; same_heap = refl; others = λ q out. ground arith },
    )
