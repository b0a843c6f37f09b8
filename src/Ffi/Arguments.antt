-- ===== src/Ffi/Arguments.antt =====
-- The arguments of a native function, from the list of Ol to the words and arrays that it is given (extensions/ffi.c,
-- `OL_ffi`).
use ol.Common.{
  ℕ, zero, suc, ◌+◌, ◌-◌, ◌*◌, ◌/◌, ◌%◌, ◌^◌, Bool, false, ◌||◌, List, [], ◌∷◌, ◌++◌, length,
  Option, none, some, ◌==◌, if◌then◌else◌, ℤ, pos, negsuc,
}
use ol.Word.{wsize, value, is_value, is_reference, hdrsize, make_raw_header}
use ol.Word.Sign.{itosv}
use ol.Word.Types.{inull, ifalse, tstring, tbvec, tvptr, tport, tcallable}
use ol.Heap.{Heap, load, car, reftype, has_header, new_raw_object, store_words}
use ol.Op.Query.{raw_length}
use ol.Sys.{int_of_word, read_bytes}
use ol.Ffi.{
  Floats, tfloat, tdouble, tvoid, tint8, tint16, tint32, tint64, tuint8, tuint16, tuint32, tuint64,
  tunknown, tany, tstringwide, fft_ptr, fft_ref, word_of, signed, cells, cars, to_int,
  integer_argument,
}

-- A word, or an array on the stack of C.
pub data Passed : Type 0 where
  word : ℕ → Passed
  shorts ints floats doubles pointers : List ℕ → Passed

-- what an argument becomes: a word or array, with the heap in which it may stand, or a floating-point register
pub data Converted : Type 0 where
  integer : Passed → Heap → Converted
  floating : ℕ → Converted

-- the arrays and locals of `OL_ffi`: words, floating-point numbers, the mask that tells them apart, and whether
-- something is written back
pub record Frame : Type 0 where
  pub heap : Heap
  pub args : List Passed
  pub ad : List ℕ
  pub floatsmask : ℕ
  pub has_wb : Bool

abbrev pub Conversion : Type 0
Conversion = Heap → ℕ → Option Converted

-- the addresses of the bytes of strings
unfoldable pub contents : List ℕ → List ℕ
contents [] = []
contents (a ∷ xs) = (a + wsize) ∷ contents xs

-- signed bytes as `short`
unfoldable pub widened : List ℕ → List ℕ
widened [] = []
widened (b ∷ bs) = (word_of (signed 8 b) % 2 ^ 16) ∷ widened bs

-- the values in consecutive words, as `short`
unfoldable pub wide_values : ℕ → Heap → ℕ → List ℕ
wide_values zero h a = []
wide_values (suc n) h a = (load h a / 2 ^ 8 % 2 ^ 16) ∷ wide_values n h (a + wsize)

abbrev pub just_word : Heap → ℕ → Option Converted
just_word h w = some (integer (word w) h)

-- an array of the elements of a list, or 0 for the empty list
unfoldable pub array_argument : (Heap → List ℕ → Option Passed) → Conversion
unfolding cells cars
array_argument make h arg = if arg == inull then just_word h 0 else elim (cells h.fp h arg) [
  | none ↦ none
  | some ls ↦ elim (make h (cars h ls)) [ none ↦ none | some p ↦ some (integer p h) ]
]

-- by the type of an object; a value has none
abbrev pub of_object : Heap → ℕ → Option Converted → Option Converted
of_object h arg c = if is_reference arg then c else none

unfoldable pub vptr_argument : Conversion
unfolding reftype
vptr_argument h arg =
    let type = reftype h arg in
    if is_reference arg
    then just_word h
        (if type == tvptr then car h arg else (if type == tbvec then arg + wsize else 0))
    else just_word h 0

-- The array of a list has the elements themselves.
unfoldable pub vptrs_argument : Conversion
unfolding reftype array_argument
vptrs_argument h arg =
    if arg == inull
    then just_word h 0
    else of_object h arg (
        if reftype h arg == tvptr
        then just_word h (arg + wsize)
        else array_argument (λ h xs. some (pointers xs)) h arg)

unfoldable pub string_argument : Conversion
unfolding reftype
string_argument h arg =
    let type = reftype h arg in
    of_object h arg (just_word h (if type == tbvec || type == tstring then arg + wsize else 0))

-- the array of the addresses stands in a new object
unfoldable pub strings_argument : Conversion
unfolding cells cars contents new_raw_object store_words
strings_argument h arg = elim (cells h.fp h arg) [
  | none ↦ none
  | some ls ↦
      let (p, h1) = new_raw_object h tbvec (length ls + 1) 0 in
      just_word (store_words h1 (p + wsize) (contents (cars h ls))) (p + wsize)
]

-- all characters but the last, and 0
unfoldable pub wide_argument : Conversion
unfolding reftype read_bytes widened wide_values
wide_argument h arg =
    let type = reftype h arg in
    let hdr = load h arg in
    of_object h arg (
      if type == tbvec || type == tstring
      then some (
          integer (shorts (widened (read_bytes (raw_length hdr - 1) h (arg + wsize)) ++ (0 ∷ [])))
            h)
      else (if type == tstringwide
          then some (integer (shorts (wide_values (hdrsize hdr - 1) h (arg + wsize) ++ (0 ∷ []))) h)
          else just_word h 0))

unfoldable pub callable_argument : Conversion
callable_argument h arg =
    just_word h (if has_header h arg (make_raw_header tcallable 2 0) then car h arg else 0)

module _ (fl : Floats) (stdio : ℕ → ℕ) where
  unfoldable pub integer_conversion : Conversion
  unfolding integer_argument
  integer_conversion h arg = just_word h (integer_argument fl h arg)

  unfoldable pub ints_of : ℕ → Heap → List ℕ → Option (List ℕ)
  unfolding to_int
  ints_of bits h [] = some []
  ints_of bits h (x ∷ xs) =
      let rest = ints_of bits h xs in
      elim (to_int fl h.fp h x) [
        | none ↦ none
        | some i ↦ elim rest [ none ↦ none | some is ↦ some (word_of i % 2 ^ bits ∷ is) ]
      ]

  unfoldable pub floats_of : (Heap → ℕ → ℕ) → Heap → List ℕ → List ℕ
  floats_of f h [] = []
  floats_of f h (x ∷ xs) = f h x ∷ floats_of f h xs

  unfoldable pub shorts_argument : Conversion
  unfolding array_argument ints_of
  shorts_argument =
      array_argument λ h xs. elim (ints_of 16 h xs) [ none ↦ none | some is ↦ some (shorts is) ]

  unfoldable pub ints_argument : Conversion
  unfolding array_argument ints_of
  ints_argument =
      array_argument λ h xs. elim (ints_of 32 h xs) [ none ↦ none | some is ↦ some (ints is) ]

  unfoldable pub floats_argument : Conversion
  unfolding array_argument floats_of
  floats_argument = array_argument λ h xs. some (floats (floats_of fl.to_float h xs))

  unfoldable pub doubles_argument : Conversion
  unfolding array_argument floats_of
  doubles_argument = array_argument λ h xs. some (doubles (floats_of fl.to_double h xs))

  -- the three standard ports are their `FILE*`
  unfoldable pub port_argument : Conversion
  unfolding itosv
  port_argument h arg =
      let fd = int_of_word (value arg) in
      let file =
        if fd_is fd 0
        then stdio 0
        else (if fd_is fd 1 then stdio 1 else (if fd_is fd 2 then stdio 2 else word_of fd)) in
      just_word h (if arg == itosv (negsuc 0) then 2 ^ 64 - 1 else file)
    where
      fd_is : ℤ → ℕ → Bool
      fd_is (pos n) k = n == k
      fd_is (negsuc n) k = false

  -- the cases of the `switch` on the type
  unfoldable pub conversions : List (ℕ × Conversion)
  conversions =
      (tint8, integer_conversion)
      ∷ (tuint8, integer_conversion)
      ∷ (tint16, integer_conversion)
      ∷ (tuint16, integer_conversion)
      ∷ (tint32, integer_conversion)
      ∷ (tuint32, integer_conversion)
      ∷ (tint64, integer_conversion)
      ∷ (tuint64, integer_conversion)
      ∷ (tint16 + fft_ref, shorts_argument)
      ∷ (tuint16 + fft_ref, shorts_argument)
      ∷ (tint16 + fft_ptr, shorts_argument)
      ∷ (tuint16 + fft_ptr, shorts_argument)
      ∷ (tint32 + fft_ref, ints_argument)
      ∷ (tuint32 + fft_ref, ints_argument)
      ∷ (tint32 + fft_ptr, ints_argument)
      ∷ (tuint32 + fft_ptr, ints_argument)
      ∷ (tfloat, (λ h arg. some (floating (fl.narrowed h arg))))
      ∷ (tfloat + fft_ref, floats_argument)
      ∷ (tfloat + fft_ptr, floats_argument)
      ∷ (tdouble, (λ h arg. some (floating (fl.to_double h arg))))
      ∷ (tdouble + fft_ref, doubles_argument)
      ∷ (tdouble + fft_ptr, doubles_argument)
      ∷ (tunknown, just_word)
      ∷ (tvptr, vptr_argument)
      ∷ (tvptr + fft_ref, vptrs_argument)
      ∷ (tvptr + fft_ptr, vptrs_argument)
      ∷ (tstring, string_argument)
      ∷ (tstring + fft_ptr, strings_argument)
      ∷ (tstringwide, wide_argument)
      ∷ (tcallable, callable_argument)
      ∷ (tport, port_argument)
      ∷ (tvoid, (λ h arg. just_word h 0))
      ∷ []

  unfoldable pub convert : List (ℕ × Conversion) → ℕ → Conversion
  convert [] type h arg = just_word h 0
  convert ((c, f) ∷ rest) type h arg = if c == type then f h arg else convert rest type h arg

  -- `TANY` is the type of the argument
  abbrev pub type_for : Heap → ℕ → ℕ → ℕ
  type_for h type arg =
      if type == tany then (if is_value arg then tint64 else reftype h arg) else type

  -- the types with `FFT_REF` that set `has_wb`
  abbrev pub writes_back : ℕ → Bool
  writes_back type =
      type == tint16 + fft_ref
      || type == tuint16 + fft_ref
      || type == tint32 + fft_ref
      || type == tuint32 + fft_ref
      || type == tfloat + fft_ref
      || type == tdouble + fft_ref
      || type == tvptr + fft_ref

  -- one round of the loop; #false is 0 for every type
  unfoldable pub pass : Frame → ℕ → ℕ → Option Frame
  unfolding convert conversions reftype
  pass f type arg =
      let mask = f.floatsmask * 2 % 2 ^ 64 in
      let type = type_for f.heap type arg in
      if arg == ifalse
      then some (record f { args = f.args ++ (word 0 ∷ []); floatsmask = mask })
      else elim (convert conversions type f.heap arg) [
        | none ↦ none
        | some (integer p h) ↦ some (record f {
          heap = h;
          args = f.args ++ (p ∷ []);
          floatsmask = mask;
          has_wb = f.has_wb || writes_back type;
        })
        | some (floating bits) ↦ some (record f { ad = f.ad ++ (bits ∷ []); floatsmask = mask + 1 })
      ]

  -- `while (p != INULL)`
  unfoldable pub pass_all : Frame → List ℕ → List ℕ → Option Frame
  unfolding pass
  pass_all f [] types = some f
  pass_all f (arg ∷ args) [] = none
  pass_all f (arg ∷ args) (type ∷ types) = elim (pass f (value type) arg) [
    | none ↦ none
    | some f' ↦ pass_all f' args types
  ]
