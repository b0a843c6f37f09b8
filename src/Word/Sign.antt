-- ===== src/Word/Sign.antt =====
-- Small integers in an immediate word (`uvtoi`, `itouv`, `svtoi`, `itosv`): sign in the type, magnitude
-- in the payload.
use ol.Common.{
  ℕ, suc, ◌==◌, ◌+◌, ◌*◌, ◌/◌, ◌%◌, ◌^◌, ◌<◌, ◌≡◌, true, false, arith, bit_and, bit_or,
  if◌then◌else◌, ℤ, pos, negsuc, neg, magnitude, is_negative,
}
use ol.Common.Bits.{bit_or-fields, bit_and-bit}
use ol.Word.Types.{tfixp, tfixn}
use ol.Word.{truthy, shl, ipos, is_value, thetype, is_fix, is_fixn}
use ol.Word.Fields.{is_value-digit, thetype-mod, valuetype-mod}

unfoldable pub uvtoi : ℕ → ℕ
uvtoi v = v / 2 ^ ipos

unfoldable pub itouv : ℕ → ℕ
itouv i = bit_or (shl i ipos) 2

unfoldable pub svtoi : ℕ → ℤ
svtoi v = let y = v / 2 ^ ipos in if truthy (bit_and v 0x80) then neg y else pos y

unfoldable pub itosv : ℤ → ℕ
itosv (negsuc n) = bit_or (shl (suc n) ipos) 0x82
itosv (pos n) = bit_or (shl n ipos) 2

pub itouv-sum : (i : ℕ) → i < 2 ^ 56 → itouv i ≡ i * 256 + 2
unfolding itouv
itouv-sum i h = ground (arith, bit_or-fields 8 i 2)

pub itosv-sum :
    (i : ℤ)
    → magnitude i < 2 ^ 56
    → itosv i ≡ magnitude i * 256 + (if is_negative i then 0x82 else 2)
unfolding itosv
itosv-sum (pos n) h = ground (arith, bit_or-fields 8 n 2)
itosv-sum (negsuc n) h = ground (arith, bit_or-fields 8 (suc n) 0x82)

svtoi-digit : (v : ℕ) → svtoi v ≡ (if v / 128 % 2 == 1 then neg (v / 256) else pos (v / 256))
unfolding svtoi
svtoi-digit v = ground (arith, bit_and-bit 7 v)

-- A signed integer below 2 ^ 56 in magnitude survives its word, whose type carries the sign.
pub svtoi-itosv :
    (i : ℤ)
    → magnitude i < 2 ^ 56
    → (svtoi (itosv i) ≡ i)
      × (is_value (itosv i) ≡ true)
      × (thetype (itosv i) ≡ (if is_negative i then tfixn else tfixp))
svtoi-itosv (pos n) h =
    let w = itosv (pos n) in
    ground (arith, itosv-sum (pos n) h, svtoi-digit w, is_value-digit w, thetype-mod w)
svtoi-itosv (negsuc n) h =
    let w = itosv (negsuc n) in
    ground (arith, itosv-sum (negsuc n) h, svtoi-digit w, is_value-digit w, thetype-mod w)

is_fixn-never : (w : ℕ) → is_fixn w ≡ false
unfolding is_fixn
is_fixn-never w = ground (arith, valuetype-mod w)

-- The word of every small integer, negative ones included, passes `is_fix`, and none passes `is_fixn`:
-- `valuetype` drops the bit that sets TFIXN apart from TFIXP.
pub is_fix-itosv :
    (i : ℤ) → magnitude i < 2 ^ 56 → (is_fix (itosv i) ≡ true) × (is_fixn (itosv i) ≡ false)
unfolding is_fix
is_fix-itosv (pos n) h =
    let w = itosv (pos n) in
    ground (arith, itosv-sum (pos n) h, is_value-digit w, valuetype-mod w, is_fixn-never w)
is_fix-itosv (negsuc n) h =
    let w = itosv (negsuc n) in
    ground (arith, itosv-sum (negsuc n) h, is_value-digit w, valuetype-mod w, is_fixn-never w)
