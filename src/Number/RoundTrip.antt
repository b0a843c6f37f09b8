-- ===== src/Number/RoundTrip.antt =====
-- `itoun` and `itosn` against `untoi`, `svtoi` and `from_uint` (src/olvm.c, extensions/ffi.c).
use ol.Common.{
  false, ℕ, ◌+◌, ◌*◌, ◌/◌, ◌%◌, ◌^◌, ◌<◌, ◌≡◌, refl, arith, bit_and, bit_or, [], ◌∷◌, if◌then◌else◌,
  leb, ℤ, magnitude, is_negative, Bool-cases, inl, inr,
}
use ol.Common.Bits.{bit_and-mask, bit_or-fields_right}
use ol.Word.{vmax, vbits, make_header}
use ol.Word.Fields.{is_value-digit}
use ol.Word.Sign.{uvtoi, itouv, itosv, itouv-sum, svtoi, svtoi-itosv}
use ol.Word.Types.{tintp, tintn, tpair, inull}
use ol.Heap.{Heap, load, car, cdr, new_pair, new_list}
use ol.Heap.Laws.{Extends, Extends-refl, Extends-trans, new_pair_lem, new_pair-Extends}
use ol.Number.{untoi, itoun, itosn, from_uint}

abbrev pub two_digits : Heap → ℕ → ℕ → ℕ × Heap
two_digits h type x = new_list h type (itouv (bit_and x vmax) ∷ itouv (x / 2 ^ vbits) ∷ [])

-- the list of two digits: its address, its header, its head, and the head of its tail
pub two_digits_lem :
    (h : Heap) (type x : ℕ)
    → ((two_digits h type x).0 ≡ h.fp + 24)
      × (load (two_digits h type x).1 (h.fp + 24) ≡ make_header type 3)
      × (car (two_digits h type x).1 (h.fp + 24) ≡ itouv (bit_and x vmax))
      × (car (two_digits h type x).1 (cdr (two_digits h type x).1 (h.fp + 24))
          ≡ itouv (x / 2 ^ vbits))
unfolding new_list
two_digits_lem h type x =
    let d0 = itouv (bit_and x vmax) in
    let d1 = itouv (x / 2 ^ vbits) in
    let h1 : Heap = (new_pair h tpair d1 inull).1 in
    ground (
      arith,
      new_pair_lem h tpair d1 inull,
      new_pair_lem h1 type d0 h.fp,
      (new_pair-Extends h1 type d0 h.fp).keeps (h.fp + 8),
    )

pub two_digits-Extends : (h : Heap) (type x : ℕ) → Extends h (two_digits h type x).1
unfolding new_list
two_digits-Extends h type x =
    Extends-trans (new_pair-Extends h tpair (itouv (x / 2 ^ vbits)) inull)
      (new_pair-Extends _ type (itouv (bit_and x vmax)) _)

-- the two digits put together
pub digits_sum :
    (x : ℕ)
    → x < 2 ^ 64
    → bit_or (uvtoi (itouv (bit_and x vmax))) (uvtoi (itouv (x / 2 ^ vbits)) * 2 ^ 56 % 2 ^ 64) ≡ x
unfolding uvtoi
digits_sum x lt = ground (
  arith,
  bit_and-mask 56 x,
  itouv-sum (x % 2 ^ 56),
  itouv-sum (x / 2 ^ 56),
  bit_or-fields_right 56 (x / 2 ^ 56) (x % 2 ^ 56),
)

-- `untoi` reads back every machine word that `itoun` made, and `itoun` leaves the heap below `fp` as
-- it was.
pub untoi-itoun :
    (h : Heap) (x : ℕ)
    → h.fp % 8 ≡ 0
    → x < 2 ^ 64
    → (untoi (itoun h x).1 (itoun h x).0 ≡ x) × Extends h (itoun h x).1
unfolding untoi itoun
untoi-itoun h x aligned lt = elim (Bool-cases (leb x vmax)) [
  | inl short ↦ rw short (ground (arith, itouv-sum x, is_value-digit (itouv x)), Extends-refl h)
  | inr long ↦ rw long (
    ground (arith, two_digits_lem h tintp x, is_value-digit (h.fp + 24), digits_sum x),
    two_digits-Extends h tintp x,
  )
]

-- `itosn` makes of a short integer the word that `svtoi` reads, and of a long one a list of two digits under the header
-- that carries the sign, whose digits `from_uint` puts together again; the number is below 2 ^ 63 in magnitude.
pub itosn_lem :
    (h : Heap) (x : ℤ)
    → magnitude x < 2 ^ 63
    → if leb (magnitude x) vmax
      then ((itosn h x).0 ≡ itosv x) × (svtoi (itosn h x).0 ≡ x)
      else (from_uint (itosn h x).1 (itosn h x).0 ≡ magnitude x)
        × (load (itosn h x).1 (itosn h x).0
            ≡ make_header (if is_negative x then tintn else tintp) 3)
unfolding itosn from_uint uvtoi
itosn_lem h x lt = elim (Bool-cases (leb (magnitude x) vmax)) [
  | inl short ↦ rw short (refl, (svtoi-itosv x (ground arith)).0)
  | inr long ↦
      let m = magnitude x in
      let type : ℕ = if is_negative x then tintn else tintp in
      let fits : leb (2 ^ 63) m ≡ false = ground arith in
      rw (long, fits)
        (
          ground (arith, two_digits_lem h type m, digits_sum m (omega arith)),
          ground (arith, two_digits_lem h type m),
        )
]
