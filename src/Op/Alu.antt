-- ===== src/Op/Alu.antt =====
-- The arithmetic and logic unit of src/olvm.c: digits in base 2 ^ 56, and bitwise operations on words.
pub mod Digits
pub mod TwoDigits
use ol.Common.{ℕ, ◌+◌, ◌-◌, ◌*◌, ◌/◌, ◌%◌, ◌^◌, bit_and, bit_or, bit_xor, if◌then◌else◌, ltb, ◌==◌}
use ol.Word.{truthy, shl, vbits, highbit, vmax, ipos, word_mod, value, small}
use ol.Word.Types.{ifalse, itrue}
use ol.Machine.{Vm, Outcome, fault, arg, set_arg, next}

-- the modulus of `big_t`
abbrev pub big_mod : ℕ
big_mod = 2 ^ 128

unfoldable pub addition : Vm → Outcome
addition s =
    let r = (value (arg s 0) + value (arg s 1)) % word_mod in
    let s1 = set_arg s 2 (small (bit_and r vmax)) in
    next (set_arg s1 3 (if truthy (bit_and r highbit) then itrue else ifalse)) 4

unfoldable pub subtraction : Vm → Outcome
subtraction s =
    let r = (bit_or (value (arg s 0)) highbit + word_mod - value (arg s 1)) % word_mod in
    let s1 = set_arg s 2 (small (bit_and r vmax)) in
    next (set_arg s1 3 (if truthy (bit_and r highbit) then ifalse else itrue)) 4

unfoldable pub multiplication : Vm → Outcome
multiplication s =
    let r = value (arg s 0) * value (arg s 1) % big_mod in
    let s1 = set_arg s 2 (small (bit_and r vmax)) in next (set_arg s1 3 (small (r / 2 ^ vbits))) 4

-- C has no value for a division by zero.
unfoldable pub division : Vm → Outcome
division s =
    let a = bit_or (value (arg s 1)) (value (arg s 0) * 2 ^ vbits % big_mod) in
    let b = value (arg s 2) in
    if b == 0
    then fault
    else (let s1 = set_arg s 3 (small (a / b / 2 ^ vbits)) in
        let s2 = set_arg s1 4 (small (bit_and (a / b) vmax)) in
        next (set_arg s2 5 (small (a % b))) 6)

unfoldable pub binary_and : Vm → Outcome
binary_and s = next (set_arg s 2 (bit_and (arg s 0) (arg s 1))) 3

unfoldable pub binary_or : Vm → Outcome
binary_or s = next (set_arg s 2 (bit_or (arg s 0) (arg s 1))) 3

unfoldable pub binary_xor : Vm → Outcome
binary_xor s = next (set_arg s 2 (bit_xor (arg s 0) (bit_and (arg s 1) (shl vmax ipos)))) 3

-- A shift by 128 or more, or by a negative count, has no value in C.
unfoldable pub shift_right : Vm → Outcome
shift_right s =
    let n = value (arg s 1) in
    let r = value (arg s 0) * 2 ^ (vbits - n) % big_mod in
    if ltb vbits n
    then fault
    else (let s1 = set_arg s 2 (small (r / 2 ^ vbits)) in
        next (set_arg s1 3 (small (bit_and r vmax))) 4)

unfoldable pub shift_left : Vm → Outcome
shift_left s =
    let n = value (arg s 1) in
    let r = value (arg s 0) * 2 ^ n % big_mod in
    if ltb 127 n
    then fault
    else (let s1 = set_arg s 2 (small (r / 2 ^ vbits)) in
        next (set_arg s1 3 (small (bit_and r vmax))) 4)
