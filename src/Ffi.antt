-- ===== src/Ffi.antt =====
-- The types of extensions/ffi.c, and its conversions of integers. Floating-point numbers are their bits, and what is
-- computed with them is a parameter.
pub mod Arguments
pub mod Results
pub mod Callback
pub mod RoundTrip
pub mod Incoming
use ol.Common.{
  ℕ, zero, suc, ◌+◌, ◌-◌, ◌*◌, ◌%◌, ◌^◌, List, [], ◌∷◌, Option, none, some, ◌==◌, ltb,
  if◌then◌else◌, ℤ, pos, negsuc,
}
use ol.Word.{is_value, is_reference}
use ol.Word.Sign.{svtoi}
use ol.Word.Types.{inull, tintp, tintn, trational, tcomplex, ifalse}
use ol.Heap.{Heap, car, cdr, reftype, has_header}
use ol.Number.{from_uint}
use ol.Sys.{int_of, int_of_word}

-- TFLOAT to TUINT64, TVOID, TUNKNOWN and TANY
abbrev pub tfloat : ℕ
tfloat = 46

abbrev pub tdouble : ℕ
tdouble = 47

abbrev pub tvoid : ℕ
tvoid = 48

abbrev pub tint8 : ℕ
tint8 = 50

abbrev pub tint16 : ℕ
tint16 = 51

abbrev pub tint32 : ℕ
tint32 = 52

abbrev pub tint64 : ℕ
tint64 = 53

abbrev pub tuint8 : ℕ
tuint8 = 55

abbrev pub tuint16 : ℕ
tuint16 = 56

abbrev pub tuint32 : ℕ
tuint32 = 57

abbrev pub tuint64 : ℕ
tuint64 = 58

abbrev pub tunknown : ℕ
tunknown = 62

abbrev pub tany : ℕ
tany = 63

abbrev pub tstringwide : ℕ
tstringwide = 22

-- FFT_PTR and FFT_REF
abbrev pub fft_ptr : ℕ
fft_ptr = 0x10000

abbrev pub fft_ref : ℕ
fft_ref = 0x20000

-- What is computed in floating point: a rational number as an integer, a number as a double, as a float, and as a double
-- that becomes a float; a number made of a double; and a float times 10000 as an integer.
pub record Floats : Type 0 where
  pub to_integer : Heap → ℕ → ℤ
  pub to_double : Heap → ℕ → ℕ
  pub to_float : Heap → ℕ → ℕ
  pub narrowed : Heap → ℕ → ℕ
  pub from_double : Heap → ℕ → ℕ × Heap
  pub scaled : ℕ → ℤ

-- an integer as a word
abbrev pub word_of : ℤ → ℕ
word_of (pos n) = n % 2 ^ 64
word_of (negsuc n) = 2 ^ 64 - 1 - n % 2 ^ 64

-- the low `bits` of a word, with their sign
abbrev pub signed : ℕ → ℕ → ℤ
signed bits w =
    let low = w % 2 ^ bits in
    if ltb low (2 ^ (bits - 1)) then pos low else negsuc (2 ^ bits - 1 - low)

-- `-from_uint(arg)` in a word
abbrev pub minus : ℕ → ℕ
minus w = (2 ^ 64 - w) % 2 ^ 64

-- the pairs of a list, for `llen` and the loops that run along it
unfoldable pub cells : ℕ → Heap → ℕ → Option (List ℕ)
cells zero h l = none
cells (suc n) h l =
    let rest = cells n h (cdr h l) in
    let more : Option (List ℕ) = elim rest [ none ↦ none | some ls ↦ some (l ∷ ls) ] in
    if l == inull then some [] else more

unfoldable pub cars : Heap → List ℕ → List ℕ
cars h [] = []
cars h (l ∷ ls) = car h l ∷ cars h ls

module _ (fl : Floats) where
  -- `none`: the parts of complex numbers do not end
  unfoldable pub to_int : ℕ → Heap → ℕ → Option ℤ
  unfolding from_uint reftype svtoi
  to_int zero h arg = none
  to_int (suc n) h arg =
      let type = reftype h arg in
      let part = to_int n h (car h arg) in
      if is_value arg
      then some (int_of (svtoi arg))
      else (if type == tintp
          then some (int_of_word (from_uint h arg))
          else (if type == tintn
              then some (int_of_word (minus (from_uint h arg)))
              else (if type == trational
                  then some (int_of (fl.to_integer h arg))
                  else (if type == tcomplex then part else some (pos 0)))))

  -- the argument of an integer type
  unfoldable pub integer_argument : Heap → ℕ → ℕ
  unfolding from_uint reftype svtoi
  integer_argument h arg =
      let type = reftype h arg in
      if is_value arg
      then word_of (svtoi arg)
      else (if type == tintp
          then from_uint h arg
          else (if type == tintn
              then minus (from_uint h arg)
              else (if type == trational then word_of (fl.to_integer h arg) else 0)))
