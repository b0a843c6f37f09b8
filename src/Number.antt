-- ===== src/Number.antt =====
-- Integers of a machine word (src/olvm.c, "numeric value types"; extensions/ffi.c, `from_uint`): an
-- immediate word where 56 bits are enough, else a list of two digits in base 2 ^ 56, lowest first.
pub mod RoundTrip
use ol.Common.{
  ℕ, ◌/◌, ◌^◌, bit_and, bit_or, [], ◌∷◌, leb, ◌||◌, if◌then◌else◌, ℤ, pos, magnitude, is_negative,
}
use ol.Word.{shl, vbits, vmax, is_value, is_reference}
use ol.Word.Sign.{uvtoi, itouv, itosv}
use ol.Word.Types.{tintp, tintn, inull}
use ol.Heap.{Heap, car, cdr, new_list}

-- `untoi(num)`
unfoldable pub untoi : Heap → ℕ → ℕ
unfolding uvtoi
untoi h num =
    if is_value num
    then uvtoi num
    else bit_or (uvtoi (car h num)) (shl (uvtoi (car h (cdr h num))) vbits)

-- `itoun(val)`
unfoldable pub itoun : Heap → ℕ → ℕ × Heap
unfolding itouv new_list
itoun h x =
    if leb x vmax
    then (itouv x, h)
    else new_list h tintp (itouv (bit_and x vmax) ∷ itouv (x / 2 ^ vbits) ∷ [])

-- `itosn(val)`. The least number is not negated: -x5 overflows, and stays below VMAX.
unfoldable pub itosn : Heap → ℤ → ℕ × Heap
unfolding itosv itouv new_list
itosn h x =
    let x6 = magnitude x in
    if leb x6 vmax || leb (2 ^ 63) x6
    then (itosv x, h)
    else new_list h (if is_negative x then tintn else tintp)
        (itouv (bit_and x6 vmax) ∷ itouv (x6 / 2 ^ vbits) ∷ [])

-- the first two digits of a long integer, as an argument of a foreign function
unfoldable pub from_uint : Heap → ℕ → ℕ
from_uint h arg = bit_or (car h arg / 2 ^ 8) (shl (car h (cdr h arg) / 2 ^ 8) vbits)
