-- ===== src/Word/Fields.antt =====
-- The macros of src/olvm.c that build a word, and those that take it apart.
use ol.Common.{ℕ, ◌==◌, ◌+◌, ◌*◌, ◌/◌, ◌%◌, ◌^◌, ◌<◌, ◌≡◌, true, false, arith}
use ol.Common.Bits.{
  bit_or-fields, bit_or-fields_right, bit_or-split, bit_or-zero, bit_and-mask, bit_and-bit,
}
use ol.Word.{
  make_value, make_header, make_raw_header, is_value, is_rawobject, hdrsize, padsize, thetype,
  valuetype, value, small,
}

-- In arithmetic, for a type of 6 bits and a payload that fits.
pub make_value-sum :
    (type payload : ℕ)
    → type < 64
    → payload < 2 ^ 56
    → make_value type payload ≡ payload * 256 + type * 4 + 2
unfolding make_value
make_value-sum type payload ht hp = ground (
  arith,
  bit_or-fields_right 8 payload 2,
  bit_or-split 8 payload 0 2 (type * 4),
  bit_or-zero payload,
  bit_or-fields_right 2 type 2,
)

pub make_header-sum :
    (type size : ℕ)
    → type < 64
    → size < 2 ^ 48
    → make_header type size ≡ size * 65536 + type * 4 + 2
unfolding make_header
make_header-sum type size ht hs = ground (
  arith,
  bit_or-fields_right 16 size 2,
  bit_or-split 16 size 0 2 (type * 4),
  bit_or-zero size,
  bit_or-fields_right 2 type 2,
)

pub make_raw_header-sum :
    (type size p : ℕ)
    → type < 64
    → size < 2 ^ 48
    → p < 8
    → make_raw_header type size p ≡ size * 65536 + 2048 + p * 256 + type * 4 + 2
unfolding make_raw_header
make_raw_header-sum type size p ht hs hp = ground (
  arith,
  bit_or-fields_right 16 size 2,
  bit_or-split 16 size 0 2 (type * 4),
  bit_or-zero size,
  bit_or-fields_right 2 type 2,
  bit_or-split 8 (size * 256) p (type * 4 + 2) 0,
  bit_or-fields 8 size p,
  bit_or-zero (type * 4 + 2),
  bit_or-split 11 (size * 32) 1 (p * 256 + type * 4 + 2) 0,
  bit_or-fields 5 size 1,
  bit_or-zero (p * 256 + type * 4 + 2),
)

-- The tests and projections of a word, in arithmetic.
pub is_value-digit : (x : ℕ) → is_value x ≡ (x / 2 % 2 == 1)
unfolding is_value
is_value-digit x = ground (arith, bit_and-bit 1 x)

pub is_rawobject-digit : (x : ℕ) → is_rawobject x ≡ (x / 2048 % 2 == 1)
unfolding is_rawobject
is_rawobject-digit x = ground (arith, bit_and-bit 11 x)

pub padsize-mod : (x : ℕ) → padsize x ≡ x / 256 % 8
unfolding padsize
padsize-mod x = ground (arith, bit_and-mask 3 (x / 256))

pub thetype-mod : (x : ℕ) → thetype x ≡ x / 4 % 64
unfolding thetype
thetype-mod x = ground (arith, bit_and-mask 6 (x / 4))

pub valuetype-mod : (x : ℕ) → valuetype x ≡ x / 4 % 32
unfolding valuetype
valuetype-mod x = ground (arith, thetype-mod x, bit_and-mask 5 (thetype x))

-- An immediate value of a type and a payload is told from a reference, and gives both back.
pub make_value_fields :
    (type payload : ℕ)
    → type < 64
    → payload < 2 ^ 56
    → (is_value (make_value type payload) ≡ true)
      × (thetype (make_value type payload) ≡ type)
      × (value (make_value type payload) ≡ payload)
make_value_fields type payload ht hp =
    let w = make_value type payload in
    ground (arith, make_value-sum type payload, is_value-digit w, thetype-mod w)

-- A header of a plain object is marked immediate and not raw, and gives type and size back.
pub make_header_fields :
    (type size : ℕ)
    → type < 64
    → size < 2 ^ 48
    → (is_value (make_header type size) ≡ true)
      × (is_rawobject (make_header type size) ≡ false)
      × (thetype (make_header type size) ≡ type)
      × (hdrsize (make_header type size) ≡ size)
unfolding hdrsize
make_header_fields type size ht hs =
    let w = make_header type size in
    ground (arith, make_header-sum type size, is_value-digit w, is_rawobject-digit w, thetype-mod w)

-- A header of a raw object is marked raw, and gives type, size and padding back.
pub make_raw_header_fields :
    (type size p : ℕ)
    → type < 64
    → size < 2 ^ 48
    → p < 8
    → (is_rawobject (make_raw_header type size p) ≡ true)
      × (thetype (make_raw_header type size p) ≡ type)
      × (hdrsize (make_raw_header type size p) ≡ size)
      × (padsize (make_raw_header type size p) ≡ p)
unfolding hdrsize
make_raw_header_fields type size p ht hs hp =
    let w = make_raw_header type size p in
    ground
      (arith, make_raw_header-sum type size p, is_rawobject-digit w, thetype-mod w, padsize-mod w)

pub small-sum : (v : ℕ) → v < 2 ^ 56 → small v ≡ v * 256 + 2
unfolding small
small-sum v h = omega (arith, make_value-sum 0 v (omega arith) h)

pub value-small : (v : ℕ) → v < 2 ^ 56 → value (small v) ≡ v
value-small v h = omega (arith, small-sum v h)
