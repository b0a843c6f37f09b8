-- ===== src/Op/Make.antt =====
-- Instructions of src/olvm.c that make objects: closures, tuples, objects from lists, pairs, and the
-- list of extra arguments. The bytes of an instruction lie below `fp`, where allocation writes
-- nothing, so all its operands are read first.
pub mod Extra
pub mod Objects
use ol.Common.{
  ℕ, zero, suc, ◌+◌, ◌-◌, ◌*◌, ◌/◌, List, [], ◌∷◌, ◌++◌, Option, none, some, ◌==◌, ltb, leb,
  if◌then◌else◌, bit_and, length, ◌||◌,
}
use ol.Word.{wsize, is_value, make_header, word_mod}
use ol.Word.Sign.{uvtoi}
use ol.Word.Types.{tpair, inull, ifalse}
use ol.Heap.{
  Heap, car, cdr, ref, set_ref, store, store_words, is_pair, new_object, new_pair, new_bytevector,
  words_for,
}
use ol.Heap.Bytes.{store_bytes}
use ol.Machine.{Vm, Outcome, loop, fault, operand, arg, set_reg, set_arg, with_heap, next}
use ol.Op.Move.{arity_offset}

-- the registers that `n` operands from `k` on name
unfoldable pub gather : Vm → ℕ → ℕ → List ℕ
gather s k zero = []
gather s k (suc n) = arg s k ∷ gather s (k + 1) n

-- A closure of `size` words: header, code and environment, whose registers the operands from `k` on
-- name. The loop up to `size` does not end below 2.
unfoldable pub closure : Vm → ℕ → ℕ → ℕ → ℕ → Outcome
closure s type size code k =
    let (t, h1) = new_object s.heap type size in
    let h2 = store_words (set_ref h1 t 1 code) (t + 2 * wsize) (gather s k (size - 2)) in
    if ltb size 2
    then fault
    else next (with_heap (set_arg s (k + (size - 2)) t) h2) (k + (size - 2) + 1)

-- `OCLOSE(proctype)`: the code is a field of the object in a register
unfoldable pub oclose : ℕ → Vm → Outcome
unfolding closure gather store_words new_object
oclose type s = closure s type (operand s 0) (ref s.heap (arg s 1) (operand s 2)) 3

-- `CLOSE1(proctype)`: the code is a field of the object in register 1
unfoldable pub close1 : ℕ → Vm → Outcome
unfolding closure gather store_words new_object
close1 type s = closure s type (operand s 0) (ref s.heap (s.regs 1) (operand s 1)) 2

-- `new t f1 .. fs r`
unfoldable pub vmnew : Vm → Outcome
unfolding gather store_words new_object
vmnew s =
    let size = operand s 1 + 1 in
    let (p, h1) = new_object s.heap (operand s 0) (size + 1) in
    let h2 = store_words h1 (p + wsize) (gather s 2 size) in
    next (with_heap (set_arg s (2 + size) p) h2) (size + 3)

unfoldable pub cons : Vm → Outcome
unfolding new_pair
cons s =
    let (p, h1) = new_pair s.heap tpair (arg s 0) (arg s 1) in next (with_heap (set_arg s 2 p) h1) 3

-- `while (acc > arity)`, of `n` rounds
unfoldable pub pack : ℕ → Vm → ℕ → Vm × ℕ
unfolding new_pair
pack zero s tail = (s, tail)
pack (suc n) s tail =
    let (p, h1) = new_pair s.heap tpair (s.regs (s.acc + 2)) tail in
    pack n (record s { heap = h1; acc = s.acc - 1 }) p

-- jafx: packs the extra arguments into a list
unfoldable pub jafx : Vm → Outcome
unfolding pack
jafx s =
    let (s1, tail) = pack (s.acc - operand s 0) s inull in
    if leb (operand s 0) s.acc
    then loop (record (set_reg s1 (s1.acc + 3) tail) { ip = s.ip + 3 })
    else next s (arity_offset s + 3)

-- `while (is_pair(list)) list = cdr(list);` with the heads that it passes, and where it stops. The
-- count of rounds is a bound for a list that ends.
unfoldable pub walk : ℕ → Heap → ℕ → Option (List ℕ × ℕ)
unfolding is_pair
walk zero h w = none
walk (suc n) h w =
    let rest = walk n h (cdr h w) in
    if is_pair h w
    then elim rest [ none ↦ none | some (xs, end) ↦ some (car h w ∷ xs, end) ]
    else some ([], w)

-- `heap->end - fp`, in words, as the unsigned number of a comparison
abbrev pub words_left : Heap → ℕ
words_left h = if leb h.fp h.end then (h.end - h.fp) / wsize else word_mod - (h.fp - h.end) / wsize

-- `uvtoi(car(p)) & 255` along a list
unfoldable pub low_bytes : List ℕ → List ℕ
unfolding uvtoi
low_bytes [] = []
low_bytes (x ∷ xs) = bit_and (uvtoi x) 255 ∷ low_bytes xs

-- the zeros up to the next word
unfoldable pub padding : ℕ → List ℕ
padding zero = []
padding (suc n) = 0 ∷ padding n

-- the collector is `ol->gc`
module _ (gc : Vm → ℕ → Vm) where
  -- A collection moves the code: `ip` is kept relative to `this`.
  unfoldable pub collect : Vm → ℕ → Vm
  collect s n = let s' = gc s n in record s' { ip = s'.this + (s.ip - s.this) }

  -- a collection where the list does not fit
  unfoldable pub room_for : Vm → ℕ → Vm
  unfolding collect
  room_for s n = if ltb s.heap.end (s.heap.fp + n * wsize) then collect s n else s

  -- the list in the second operand, which a collection may have moved, becomes an object
  unfoldable pub object_of : Vm → ℕ → Outcome
  unfolding walk store_words
  object_of s type = elim (walk s.heap.fp s.heap (arg s 1)) [
    | none ↦ fault
    | some (xs, end) ↦
        let p = s.heap.fp in
        let h1 = store s.heap p (make_header type (length xs + 1)) in
        let h2 = store_words h1 (p + wsize) xs in
        let h3 = record h2 { fp = p + (length xs + 1) * wsize } in
        next (with_heap (set_arg s 2 p) h3) 3
  ]

  -- `(vm:new-object type list)`; only a proper list makes an object
  unfoldable pub vmnew_object : Vm → Outcome
  unfolding room_for object_of walk uvtoi
  vmnew_object s = elim (walk s.heap.fp s.heap (arg s 1)) [
    | none ↦ fault
    | some (xs, end) ↦
        if end == inull
        then object_of (room_for s (length xs)) (uvtoi (arg s 0))
        else next (set_arg s 2 ifalse) 3
  ]

  -- an immediate operand is the size, `()` and #false standing for 0
  abbrev pub raw_size : ℕ → ℕ
  raw_size w = if w == inull || w == ifalse then 0 else uvtoi w

  abbrev pub make_room : Vm → ℕ → Vm
  make_room s len = if ltb (words_left s.heap) (len / wsize) then collect s (len / wsize) else s

  -- `(vm:new-raw-object type list|size)`
  unfoldable pub vmnew_rawobject : Vm → Outcome
  unfolding collect walk low_bytes padding new_bytevector store_bytes uvtoi
  vmnew_rawobject s =
      let type = uvtoi (arg s 0) in
      if is_value (arg s 1)
      then (let s1 = make_room s (raw_size (arg s 1)) in
          let (raw, h1) = new_bytevector s1.heap type (raw_size (arg s 1)) in
          next (with_heap (set_arg s1 2 raw) h1) 3)
      else elim (walk s.heap.fp s.heap (arg s 1)) [
        | none ↦ fault
        | some (xs, end) ↦
            let s1 = make_room s (length xs) in
            let (raw, h1) = new_bytevector s1.heap type (length xs) in
            elim (walk s1.heap.fp h1 (arg s1 1)) [
              | none ↦ fault
              | some (ys, end') ↦
                  let pads = words_for (length xs) * wsize - length xs in
                  let h2 = store_bytes h1 (raw + wsize) (low_bytes ys ++ padding pads) in
                  next (with_heap (set_arg s1 2 raw) h2) 3
            ]
      ]
