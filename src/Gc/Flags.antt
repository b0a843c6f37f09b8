-- ===== src/Gc/Flags.antt =====
-- Marks in the lowest bit of a pointer, as the collector of src/olvm.c sets and tests them.
use ol.Common.{ℕ, ◌+◌, ◌/◌, ◌%◌, ◌^◌, ◌≡◌, ◌||◌, ◌==◌, arith, bit_and, bit_or}
use ol.Common.Bits.{bit_and-bit, bit_or-fields, bit_and-split}
use ol.Word.{truthy, rawbit, is_value, is_reference, is_rawobject}
use ol.Gc.{is_flagged}

pub is_flagged-odd : (x : ℕ) → is_flagged x ≡ (x % 2 == 1)
unfolding is_flagged
is_flagged-odd x = ground (arith, bit_and-bit 0 x)

pub is_reference-bit : (x : ℕ) → is_reference x ≡ (x / 2 % 2 == 0)
unfolding is_reference is_value
is_reference-bit x = ground (arith, bit_and-bit 1 x)

-- `(word) pos | 1`
pub mark-sum : (q : ℕ) → q % 8 ≡ 0 → bit_or q 1 ≡ q + 1
mark-sum q aligned = ground (arith, bit_or-fields 1 (q / 2) 1)

-- the test of `mark` for an object that is not entered
pub passed-cases : (x : ℕ) → truthy (bit_and x (bit_or rawbit 1)) ≡ ((x % 2 == 1) || is_rawobject x)
unfolding is_rawobject
passed-cases x = ground (
  arith,
  bit_and-bit 11 x,
  bit_and-split 11 (x / 2 ^ 11) 1 (x % 2 ^ 11) 1,
  bit_and-bit 0 (x / 2 ^ 11),
  bit_and-bit 0 (x % 2 ^ 11),
)
