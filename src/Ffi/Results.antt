-- ===== src/Ffi/Results.antt =====
-- What comes back from a native function: the arrays that it has written, and its result (extensions/ffi.c, `OL_ffi`).
use ol.Common.{
  ◌||◌, ℕ, ◌+◌, ◌%◌, ◌^◌, Bool, true, false, List, [], ◌∷◌, get_or, take, Option, none, some, ◌==◌,
  if◌then◌else◌, bit_and, pos,
}
use ol.Word.{wsize, value, vmax, small, make_port}
use ol.Word.Sign.{itosv, itouv}
use ol.Word.Types.{ifalse, itrue, tfixp, tport, tvptr, tstring}
use ol.Heap.{Heap, car, cdr, set_ref, new_object, store_words, new_vptr}
use ol.Heap.Bytes.{new_string}
use ol.Machine.{Vm, set_reg, with_heap}
use ol.Number.{itoun, itosn}
use ol.Sys.Files.{lenn}
use ol.Ffi.{
  Floats, tfloat, tdouble, tvoid, tint8, tint16, tint32, tint64, tuint8, tuint16, tuint32, tuint64,
  tstringwide, fft_ref, word_of, signed, cells, cars,
}
use ol.Ffi.Arguments.{Passed, word, shorts, ints, floats, doubles, pointers, Frame, pass_all}

-- the values of an array put into the pairs of a list, each by a function of heap, pair and value
unfoldable pub store_cells : (Heap → ℕ → ℕ → Heap) → Heap → List ℕ → List ℕ → Option Heap
store_cells put h [] vs = some h
store_cells put h (l ∷ ls) [] = none
store_cells put h (l ∷ ls) (v ∷ vs) = store_cells put (put h l v) ls vs

-- `TUINT32` reads an `int`
abbrev pub put_word : (ℕ → ℕ) → Heap → ℕ → ℕ → Heap
put_word f h l v = set_ref h l 1 (f v)

module _ (fl : Floats) where
  -- a float as a rational number of ten thousandths
  abbrev pub put_float : Heap → ℕ → ℕ → Heap
  put_float h l v =
      let num = car h l in set_ref (set_ref h num 1 (itosv (fl.scaled v))) num 2 (itosv (pos 10000))

  abbrev pub put_vptr : Heap → ℕ → ℕ → Heap
  put_vptr h l v = set_ref h (car h l) 1 v

  -- one argument, by its type and what was passed for it
  unfoldable pub write_back : Heap → ℕ → ℕ → Passed → Option Heap
  unfolding cells store_cells itosv itouv
  write_back h type arg p =
      let at = cells h.fp h arg in
      let into : (Heap → ℕ → ℕ → Heap) → List ℕ → Option Heap =
        λ put vs. elim at [ none ↦ none | some ls ↦ store_cells put h ls vs ] in
      elim p [
        | word w ↦ if arg_empty at then some h else (if written type then none else some h)
        | shorts vs ↦
            if type == tint16 + fft_ref
            then into (put_word λ v. itosv (signed 16 v)) vs
            else (if type == tuint16 + fft_ref then into (put_word itouv) vs else some h)
        | ints vs ↦
            if type == tint32 + fft_ref
            then into (put_word λ v. itosv (signed 32 v)) vs
            else (if type == tuint32 + fft_ref
                then into (put_word λ v. itouv (word_of (signed 32 v))) vs
                else some h)
        | floats vs ↦ if type == tfloat + fft_ref then into put_float vs else some h
        | doubles vs ↦ some h
        | pointers vs ↦ if type == tvptr + fft_ref then into put_vptr vs else some h
      ]
    where
      arg_empty : Option (List ℕ) → Bool
      arg_empty none = false
      arg_empty (some []) = true
      arg_empty (some (l ∷ ls)) = false

      written : ℕ → Bool
      written type =
          type == tint16 + fft_ref
          || type == tuint16 + fft_ref
          || type == tint32 + fft_ref
          || type == tuint32 + fft_ref
          || type == tfloat + fft_ref
          || type == tvptr + fft_ref

  -- The loop over the arguments: `i` counts all of them, also those that were passed as floating-point numbers.
  unfoldable pub write_back_all : ℕ → List Passed → Heap → List ℕ → List ℕ → Option Heap
  unfolding write_back
  write_back_all i passed h [] types = some h
  write_back_all i passed h (arg ∷ args) [] = none
  write_back_all i passed h (arg ∷ args) (type ∷ types) =
      let rest : Heap → Option Heap = λ h'. write_back_all (i + 1) passed h' args types in
      if arg == ifalse
      then rest h
      else elim (write_back h (value type) arg (get_or passed i (word 0))) [
        | none ↦ none
        | some h' ↦ rest h'
      ]

-- the memory of the process, for results that are strings: the bytes and the characters before a 0
pub record Memory : Type 0 where
  pub bytes_at : ℕ → List ℕ
  pub wide_at : ℕ → List ℕ

unfoldable pub smalls : List ℕ → List ℕ
unfolding small
smalls [] = []
smalls (x ∷ xs) = small x ∷ smalls xs

module _ (fl : Floats) (memory : Memory) where
  -- the `switch` on the type of the result, `got` being its 64 bits
  unfoldable pub ffi_result : Heap → ℕ → ℕ → ℕ × Heap
  unfolding itosv itosn itoun make_port new_vptr lenn new_string new_object store_words smalls
  ffi_result h type got =
      if type == tfixp
      then (itosv (signed 64 got), h)
      else (if type == tint8
          then itosn h (signed 8 got)
          else (if type == tint16
              then itosn h (signed 16 got)
              else (if type == tint32
                  then itosn h (signed 32 got)
                  else (if type == tint64 then itosn h (signed 64 got) else unsigned_or_other))))
    where
      text : ℕ × Heap
      text = let bytes = memory.bytes_at got in new_string h (take (lenn bytes (vmax + 1)) bytes)

      wide : ℕ × Heap
      wide =
          let chars = memory.wide_at got in
          let l = lenn chars (vmax + 1) in
          let (p, h1) = new_object h tstringwide (l + 1) in
          (p, store_words h1 (p + wsize) (smalls (take l chars)))

      other : ℕ × Heap
      other =
          if type == tport
          then (make_port got, h)
          else (if type == tvoid
              then (itrue, h)
              else (if type == tfloat || type == tdouble
                  then fl.from_double h got
                  else (if got == 0
                      then (ifalse, h)
                      else (if type == tvptr
                          then new_vptr h got
                          else (if type == tstring
                              then text
                              else (if type == tstringwide then wide else (ifalse, h)))))))

      unsigned_or_other : ℕ × Heap
      unsigned_or_other =
          if type == tuint8
          then itoun h (got % 2 ^ 8)
          else (if type == tuint16
              then itoun h (got % 2 ^ 16)
              else (if type == tuint32
                  then itoun h (got % 2 ^ 32)
                  else (if type == tuint64 then itoun h got else other)))

-- The machine code of x64_call and the function that it calls: the 64 bits of the result, the arrays afterwards, and the
-- machine, whose heap and registers a callable and its collections may have changed.
abbrev pub NativeCall : Type 0
NativeCall = ℕ → ℕ → Frame → Vm → ℕ × List Passed × Vm

module _ (fl : Floats) (stdio : ℕ → ℕ) (memory : Memory) (native : NativeCall) where
  -- the lists of values and types of the registers 129 and 130, which the call may have moved
  unfoldable pub collect_back : Vm → Bool → List Passed → Option Heap
  unfolding cells cars write_back_all
  collect_back t has_wb passed =
      let h = t.heap in
      if has_wb
      then elim (cells h.fp h (t.regs 130)) [
        | none ↦ none
        | some args ↦ elim (cells h.fp h (cdr h (t.regs 129))) [
          | none ↦ none
          | some types ↦ write_back_all fl 0 passed h (cars h args) (cars h types)
        ]
      ]
      else some h

  -- the call with the arguments, and what comes back
  unfoldable pub call_out : Vm → ℕ → ℕ → Frame → Option (ℕ × Vm)
  unfolding collect_back ffi_result
  call_out s function returntype f =
      let type = bit_and returntype 0x3F in
      let (got, passed, t) = native function type f (with_heap s f.heap) in
      elim (collect_back t f.has_wb passed) [
        | none ↦ none
        | some h ↦ let (r, h1) = ffi_result fl memory h type got in some (r, with_heap t h1)
      ]

  -- the arguments are function, types and values; `none` where the code has no defined behaviour
  unfoldable pub ol_ffi : Vm → ℕ → Option (ℕ × Vm)
  unfolding cells cars pass_all call_out
  ol_ffi s arguments =
      let h = s.heap in
      let a = car h arguments in
      let b = car h (cdr h arguments) in
      let c = car h (cdr h (cdr h arguments)) in
      let start : Frame = record { heap = h; args = []; ad = []; floatsmask = 0; has_wb = false } in
      elim (cells h.fp h c) [
        | none ↦ none
        | some args ↦ elim (cells h.fp h (cdr h b)) [
          | none ↦ none
          | some types ↦ elim (pass_all fl stdio start (cars h args) (cars h types)) [
            | none ↦ none
            | some f ↦ call_out (set_reg (set_reg s 129 b) 130 c) (car h a) (value (car h b)) f
          ]
        ]
      ]
