-- ===== src/Runtime/Growth/Objects.antt =====
-- `vm:new-object`, `vm:new-raw-object` and `cast` of src/olvm.c, which collect first where the heap has no room.
use ol.Common.{
  Bool-cases, inl, inr, ℕ, ◌+◌, ◌-◌, ◌*◌, ◌/◌, ◌==◌, ◌&&◌, ◌++◌, if◌then◌else◌, ltb, bit_and, List,
  length, Option, none, some, arith,
}
use ol.Word.{wsize, make_header, make_raw_header, is_value, is_reference, value, hdrsize}
use ol.Word.Sign.{uvtoi}
use ol.Word.Types.{ifalse, inull, tport, tvptr, tinexact, trational}
use ol.Heap.{
  Heap, load, reftype, store, store_words, words_for, new_bytevector, new_vptr, new_raw_object, new,
}
use ol.Heap.Laws.{Extends, Extends-refl, Extends-trans}
use ol.Heap.Raw.{new_bytevector-Extends}
use ol.Heap.Bytes.{store_bytes}
use ol.Machine.{Vm, Outcome, fault, raise, set_arg, with_heap, next, arg}
use ol.Op.Float.{Doubles}
use ol.Runtime.Growth.Floats.{to_inexact-Grows, from_inexact-Grows}
use ol.Op.Cast.{retype, recast, cast_port, cast_vptr, vmcast}
use ol.Op.Make.{
  walk, low_bytes, padding, collect, room_for, object_of, vmnew_object, vmnew_rawobject, words_left,
  make_room, raw_size,
}
use ol.Runtime.Growth.{
  Grows, looped, failed, faulted, if-Grows, Pure, store-Extends, move_fp-Extends,
  store_words-Extends, write_bytes-Extends, copy_words-Extends,
}

module _ (gc : Vm → ℕ → Vm) (stays : (s : Vm) (n : ℕ) → Extends s.heap (gc s n).heap) where
  room_for-Extends : (s : Vm) (n : ℕ) → Extends s.heap (room_for gc s n).heap
  unfolding room_for collect
  room_for-Extends s n = elim (Bool-cases (ltb s.heap.end (s.heap.fp + n * wsize))) [
    | inl full ↦ rw full (stays s n)
    | inr free ↦ rw free (Extends-refl s.heap)
  ]

  make_room-Extends : (s : Vm) (n : ℕ) → Extends s.heap (make_room gc s n).heap
  unfolding collect
  make_room-Extends s n = elim (Bool-cases (ltb (words_left s.heap) (n / wsize))) [
    | inl full ↦ rw full (stays s (n / wsize))
    | inr free ↦ rw free (Extends-refl s.heap)
  ]

  -- an object after a collection, of the old heap
  object_of-Grows :
      (h : Heap) (s : Vm) (type : ℕ) → Extends h s.heap → Grows h (object_of gc s type)
  unfolding object_of
  object_of-Grows h s type x =
      let p = s.heap.fp in
      let goes_on : Option (List ℕ × ℕ) → Outcome = λ o. elim o as (λ v. Outcome) [
        | none ↦ fault
        | some (xs, end) ↦
            let h1 = store s.heap p (make_header type (length xs + 1)) in
            let h2 = store_words h1 (p + wsize) xs in
            let h3 = record h2 { fp = p + (length xs + 1) * wsize } in
            next (with_heap (set_arg s 2 p) h3) 3
      ] in
      elim (walk s.heap.fp s.heap (arg s 1)) as (λ o. Grows h (goes_on o)) [
        | none ↦ faulted
        | some (xs, end) ↦ looped (
            move_fp-Extends
              (store_words-Extends
                (store-Extends x p (make_header type (length xs + 1)) (omega arith)) (p + wsize) xs
                (omega arith))
              (p + (length xs + 1) * wsize) (omega arith))
      ]

  pub vmnew_object-Pure : Pure (vmnew_object gc)
  unfolding vmnew_object
  vmnew_object-Pure s =
      let goes_on : Option (List ℕ × ℕ) → Outcome = λ o. elim o as (λ v. Outcome) [
        | none ↦ fault
        | some (xs, end) ↦
            if end == inull
            then object_of gc (room_for gc s (length xs)) (uvtoi (arg s 0))
            else next (set_arg s 2 ifalse) 3
      ] in
      elim (walk s.heap.fp s.heap (arg s 1)) as (λ o. Grows s.heap (goes_on o)) [
        | none ↦ faulted
        | some (xs, end) ↦
            if-Grows (end == inull)
              (object_of-Grows s.heap (room_for gc s (length xs)) (uvtoi (arg s 0))
                (room_for-Extends s (length xs)))
              (looped (Extends-refl s.heap))
      ]

  raw-Extends :
      (s : Vm) (type len : ℕ) → Extends s.heap (new_bytevector (make_room gc s len).heap type len).1
  raw-Extends s type len =
      Extends-trans (make_room-Extends s len)
        (new_bytevector-Extends (make_room gc s len).heap type len)

  pub vmnew_rawobject-Pure : Pure (vmnew_rawobject gc)
  unfolding vmnew_rawobject
  vmnew_rawobject-Pure s =
      let type = uvtoi (arg s 0) in
      let room = make_room gc s in
      let raw : ℕ → Heap = λ n. (new_bytevector (room n).heap type n).1 in
      let filled : List ℕ → List ℕ → Heap = λ xs ys.
        store_bytes (raw (length xs)) ((room (length xs)).heap.fp + wsize)
          (low_bytes ys ++ padding (words_for (length xs) * wsize - length xs)) in
      let made : ℕ → Heap → Outcome =
        λ n h. next (with_heap (set_arg (room n) 2 (room n).heap.fp) h) 3 in
      let again : List ℕ → Option (List ℕ × ℕ) → Outcome = λ xs o. elim o as (λ v. Outcome) [
        | none ↦ fault
        | some (ys, end) ↦ made (length xs) (filled xs ys)
      ] in
      let walked : List ℕ → Option (List ℕ × ℕ) =
        λ xs. walk (room (length xs)).heap.fp (raw (length xs)) (arg (room (length xs)) 1) in
      let first : Option (List ℕ × ℕ) → Outcome =
        λ o. elim o as (λ v. Outcome) [ none ↦ fault | some (xs, end) ↦ again xs (walked xs) ] in
      if-Grows (is_value (arg s 1)) (looped (raw-Extends s type (raw_size gc (arg s 1))))
        (elim (walk s.heap.fp s.heap (arg s 1)) as (λ o. Grows s.heap (first o)) [
          | none ↦ faulted
          | some (xs, end) ↦ elim (walked xs) as (λ o. Grows s.heap (again xs o)) [
            | none ↦ faulted
            | some (ys, end') ↦ looped (
                write_bytes-Extends (raw-Extends s type (length xs))
                  ((room (length xs)).heap.fp + wsize)
                  (low_bytes ys ++ padding (words_for (length xs) * wsize - length xs))
                  (let x = make_room-Extends s (length xs) in omega arith))
          ]
        ])

recast-Grows : (s : Vm) (t type : ℕ) → Grows s.heap (recast s t type)
unfolding recast new
recast-Grows s t type =
    let size = hdrsize (load s.heap t) in
    let moved = move_fp-Extends (Extends-refl s.heap) (s.heap.fp + size * wsize) (omega arith) in
    let header = store-Extends moved s.heap.fp (retype (load s.heap t) type) (omega arith) in
    if-Grows (is_value t) (looped (Extends-refl s.heap))
      (looped (copy_words-Extends header (size - 1) 1 t s.heap.fp (omega arith)))

cast_port-Grows : (s : Vm) (t : ℕ) → Grows s.heap (cast_port s t)
unfolding cast_port raise
cast_port-Grows s t =
    if-Grows (is_value t) (looped (Extends-refl s.heap)) (failed (Extends-refl s.heap))

cast_vptr-Grows : (s : Vm) (t : ℕ) → Grows s.heap (cast_vptr s t)
unfolding cast_vptr new_vptr new_raw_object
cast_vptr-Grows s t =
    let moved = move_fp-Extends (Extends-refl s.heap) (s.heap.fp + 2 * wsize) (omega arith) in
    let header = store-Extends moved s.heap.fp (make_raw_header tvptr 2 0) (omega arith) in
    if-Grows (is_value t && value t == 0)
      (looped (store-Extends header (s.heap.fp + 1 * wsize) 0 (omega arith)))
      (looped (Extends-refl s.heap))

pub vmcast-Pure : (d : Doubles) → Pure (vmcast d)
unfolding vmcast raise
vmcast-Pure d s =
    let t = arg s 0 in
    let type = bit_and (uvtoi (arg s 1)) 63 in
    if-Grows (is_value (arg s 1))
      (if-Grows (type == tport) (cast_port-Grows s t) (
        if-Grows (type == tvptr) (cast_vptr-Grows s t) (
          if-Grows (type == tinexact) (to_inexact-Grows d s t) (
            if-Grows (type == trational && is_reference t && reftype s.heap t == tinexact)
              (from_inexact-Grows d s t) (recast-Grows s t type)))))
      (failed (Extends-refl s.heap))
