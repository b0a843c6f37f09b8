-- ===== src/Ffi/RoundTrip.antt =====
-- Integers between Ol and native functions (extensions/ffi.c).
use ol.Common.{
  ◌≢◌, Bool, ℕ, ◌+◌, ◌%◌, ◌^◌, ◌<◌, ◌≡◌, ◌∙◌, ap, sym, true, false, ℤ, pos, negsuc, magnitude,
  is_negative, leb, if◌then◌else◌, arith, Bool-cases, inl, inr,
}
use ol.Word.{vmax, make_header, thetype, is_value}
use ol.Word.Fields.{is_value-digit, make_header_fields}
use ol.Word.Sign.{svtoi, svtoi-itosv}
use ol.Word.Types.{tintp, tintn}
use ol.Heap.{Heap, load, reftype}
use ol.Number.{itosn, from_uint}
use ol.Number.RoundTrip.{itosn_lem, two_digits_lem}
use ol.Ffi.{Floats, word_of, signed, minus, integer_argument, tint64}
use ol.Ffi.Results.{Memory, ffi_result}

-- the 64 bits of a word are those of the signed integer
word_of-signed : (w : ℕ) → w < 2 ^ 64 → word_of (signed 64 w) ≡ w
word_of-signed w lt = ground arith

magnitude-signed : (w : ℕ) → w < 2 ^ 64 → w ≢ 2 ^ 63 → magnitude (signed 64 w) < 2 ^ 63
magnitude-signed w lt least = ground arith

-- the magnitude under the sign of the header
word_of-magnitude :
    (x : ℤ)
    → magnitude x < 2 ^ 64
    → word_of x ≡ (if is_negative x then minus (magnitude x) else magnitude x)
word_of-magnitude (pos n) lt = ground arith
word_of-magnitude (negsuc n) lt = ground arith

itosn-is_value :
    (h : Heap) (x : ℤ)
    → h.fp % 8 ≡ 0
    → leb (magnitude x) vmax ≡ false
    → leb (2 ^ 63) (magnitude x) ≡ false
    → is_value (itosn h x).0 ≡ false
unfolding itosn
itosn-is_value h x aligned long fits =
    rw (long, fits)
      (ground (
        arith,
        is_value-digit (h.fp + 24),
        two_digits_lem h (if is_negative x then tintn else tintp) (magnitude x),
      ))

integer_argument-value :
    (fl : Floats) (h : Heap) (w : ℕ)
    → is_value w ≡ true
    → integer_argument fl h w ≡ word_of (svtoi w)
unfolding integer_argument
integer_argument-value fl h w value = rw (integer_argument, value)

integer_argument-digits :
    (fl : Floats) (h : Heap) (w : ℕ) (negative : Bool)
    → is_value w ≡ false
    → load h w ≡ make_header (if negative then tintn else tintp) 3
    → integer_argument fl h w ≡ (if negative then minus (from_uint h w) else from_uint h w)
unfolding integer_argument reftype
integer_argument-digits fl h w true object header =
    let type : thetype (load h w) ≡ tintn =
      ap thetype header ∙ (make_header_fields tintn 3 (omega arith) (omega arith)).2 in
    rw (integer_argument, object, type)
integer_argument-digits fl h w false object header =
    let type : thetype (load h w) ≡ tintp =
      ap thetype header ∙ (make_header_fields tintp 3 (omega arith) (omega arith)).2 in
    rw (integer_argument, object, type)

integer_argument-itosn :
    (fl : Floats) (h : Heap) (x : ℤ)
    → h.fp % 8 ≡ 0
    → magnitude x < 2 ^ 63
    → integer_argument fl (itosn h x).1 (itosn h x).0 ≡ word_of x
integer_argument-itosn fl h x aligned lt = elim (Bool-cases (leb (magnitude x) vmax)) [
  | inl short ↦
      let (at, reads) = rw short at (itosn_lem h x lt) in
      let value : is_value (itosn h x).0 ≡ true =
        ap is_value at ∙ (svtoi-itosv x (ground arith)).1 in
      integer_argument-value fl (itosn h x).1 (itosn h x).0 value ∙ ap word_of reads
  | inr long ↦
      let (digits, header) = rw long at (itosn_lem h x lt) in
      integer_argument-digits fl (itosn h x).1 (itosn h x).0 (is_negative x)
        (itosn-is_value h x aligned long (ground arith)) header
      ∙ ap (λ (n : ℕ). if is_negative x then minus n else n) digits
      ∙ sym (word_of-magnitude x (omega arith))
]

-- A native function that gives the 64 bits of a signed integer, not the least one: passed to another as an argument of
-- an integer type, the result has the same 64 bits, negative ones and those of two digits included.
pub integer_argument-ffi_result :
    (fl : Floats) (memory : Memory) (h : Heap) (got : ℕ)
    → h.fp % 8 ≡ 0
    → got < 2 ^ 64
    → got ≢ 2 ^ 63
    → let (w, h1) = ffi_result fl memory h tint64 got in integer_argument fl h1 w ≡ got
unfolding ffi_result
integer_argument-ffi_result fl memory h got aligned lt least =
    integer_argument-itosn fl h (signed 64 got) aligned (magnitude-signed got lt least)
    ∙ word_of-signed got lt
