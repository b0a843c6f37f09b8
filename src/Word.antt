-- ===== src/Word.antt =====
-- The word of the virtual machine (src/olvm.c, "descriptor format"): an immediate value with a type
-- and a payload, a reference to an aligned object, or the header of an object. Words have 64 bits.
pub mod Types
pub mod Fields
pub mod Sign
mod Tests
use ol.Common.{ℕ, ◌-◌, ◌*◌, ◌/◌, ◌%◌, ◌^◌, bit_and, bit_or, Bool, not, ◌&&◌, ◌==◌}
use Types.{tport, tfixp, tfixn}

-- `sizeof (word)`
abbrev pub wsize : ℕ
wsize = 8

abbrev pub word_mod : ℕ
word_mod = 2 ^ 64

-- IPOS, TPOS, RPOS, SPOS
abbrev pub ipos : ℕ
ipos = 8

abbrev pub tpos : ℕ
tpos = 2

abbrev pub rpos : ℕ
rpos = 11

abbrev pub spos : ℕ
spos = 16

-- VBITS, HIGHBIT, VMAX
abbrev pub vbits : ℕ
vbits = 56

abbrev pub highbit : ℕ
highbit = 2 ^ 56

abbrev pub vmax : ℕ
vmax = 2 ^ 56 - 1

abbrev pub rawbit : ℕ
rawbit = 2 ^ 11

-- `(word) x << k`
abbrev pub shl : ℕ → ℕ → ℕ
shl x k = x * 2 ^ k % word_mod

-- a word in the place of a condition
abbrev pub truthy : ℕ → Bool
truthy x = not (x == 0)

unfoldable pub make_value : ℕ → ℕ → ℕ
make_value type payload = bit_or (bit_or 2 (shl payload ipos)) (shl type tpos)

unfoldable pub make_header : ℕ → ℕ → ℕ
make_header type size = bit_or (bit_or 2 (shl size spos)) (shl type tpos)

unfoldable pub make_raw_header : ℕ → ℕ → ℕ → ℕ
make_raw_header type size p =
    bit_or (bit_or (bit_or (bit_or 2 (shl size spos)) (shl type tpos)) (shl p 8)) rawbit

unfoldable pub is_value : ℕ → Bool
is_value x = truthy (bit_and x 2)

unfoldable pub is_reference : ℕ → Bool
unfolding is_value
is_reference x = not (is_value x)

unfoldable pub is_rawobject : ℕ → Bool
is_rawobject x = truthy (bit_and x rawbit)

unfoldable pub hdrsize : ℕ → ℕ
hdrsize x = x / 2 ^ spos

unfoldable pub padsize : ℕ → ℕ
padsize x = bit_and (x / 2 ^ ipos) 7

unfoldable pub thetype : ℕ → ℕ
thetype x = bit_and (x / 2 ^ tpos) 0x3F

unfoldable pub valuetype : ℕ → ℕ
unfolding thetype
valuetype x = bit_and (thetype x) 0x1F

-- `value(v)`, the payload
abbrev pub value : ℕ → ℕ
value x = x / 2 ^ ipos

-- `I(val)`
unfoldable pub small : ℕ → ℕ
unfolding make_value
small v = make_value 0 v

-- is_port, is_fix, is_fixn: tests of an immediate value by its type
unfoldable pub is_port : ℕ → Bool
unfolding is_value valuetype
is_port ob = is_value ob && valuetype ob == tport

unfoldable pub is_fix : ℕ → Bool
unfolding is_value valuetype
is_fix ob = is_value ob && valuetype ob == tfixp

unfoldable pub is_fixn : ℕ → Bool
unfolding is_value valuetype
is_fixn ob = is_value ob && valuetype ob == tfixn

-- `make_port(a)`
unfoldable pub make_port : ℕ → ℕ
unfolding make_value
make_port a = make_value tport a
