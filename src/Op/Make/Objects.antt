-- ===== src/Op/Make/Objects.antt =====
-- `vm:new-object` (src/olvm.c) on a proper list.
use ol.Common.{
  ℕ, ◌+◌, ◌*◌, ◌≤◌, ◌<◌, ◌≡◌, refl, ◌∙◌, List, length, get_or, arith, ap, sym, subst, le→ltb_false,
}
use ol.Word.{wsize, make_header}
use ol.Word.Sign.{uvtoi}
use ol.Heap.{Heap, load, ref, store, store_words}
use ol.Heap.Chain.{IsList, walk-IsList}
use ol.Heap.Laws.{Extends, store_words-fields, store_words-below, store_words-get}
use ol.Machine.{Vm, Outcome, Continues, arg, operand}
use ol.Op.Make.{room_for, object_of, vmnew_object}

room_for-enough :
    (gc : Vm → ℕ → Vm) (s : Vm) (n : ℕ) → s.heap.fp + n * wsize ≤ s.heap.end → room_for gc s n ≡ s
unfolding room_for
room_for-enough gc s n room = rw (le→ltb_false s.heap.end (s.heap.fp + n * wsize) room)

-- what the last part of `vm:new-object` makes of the list in its second operand
abbrev pub MadeObject : Vm → ℕ → List ℕ → Vm → Type 0
MadeObject s type xs t =
    (t.regs (operand s 2) ≡ s.heap.fp)
    × (load t.heap s.heap.fp ≡ make_header type (length xs + 1))
    × ((i : ℕ) → i < length xs → ref t.heap s.heap.fp (i + 1) ≡ get_or xs i 0)
    × (t.heap.fp ≡ s.heap.fp + (length xs + 1) * wsize)
    × Extends s.heap t.heap
    × (t.ip ≡ s.ip + 3)

object_of_lem :
    (gc : Vm → ℕ → Vm) (s : Vm) (type : ℕ) (xs : List ℕ)
    → IsList s.heap xs (arg s 1)
    → length xs < s.heap.fp
    → Continues (object_of gc s type) (MadeObject s type xs)
unfolding object_of
object_of_lem gc s type xs is bound =
    let walked = walk-IsList s.heap.fp s.heap xs (arg s 1) is bound in
    let h1 : Heap = store s.heap s.heap.fp (make_header type (length xs + 1)) in
    let (b, e, g, f) = store_words-fields h1 (s.heap.fp + wsize) xs in
    let below = store_words-below h1 (s.heap.fp + wsize) xs in
    let there = store_words-get h1 (s.heap.fp + wsize) xs in
    rw (object_of, walked)
      (
        ground arith,
        below s.heap.fp (omega arith) ∙ ground arith,
        λ i lo.
            ap (store_words h1 (s.heap.fp + wsize) xs).mem {y = s.heap.fp + wsize + i * wsize}
              (omega arith)
            ∙ there i lo,
        refl,
        record {
          same_begin = b;
          same_end = e;
          same_genstart = g;
          grows = omega arith;
          keeps = λ a lt. below a (omega arith) ∙ ground arith;
        },
        refl,
      )

vmnew_object-list :
    (gc : Vm → ℕ → Vm) (s : Vm) (xs : List ℕ)
    → IsList s.heap xs (arg s 1)
    → length xs < s.heap.fp
    → vmnew_object gc s ≡ object_of gc (room_for gc s (length xs)) (uvtoi (arg s 0))
unfolding vmnew_object
vmnew_object-list gc s xs is bound =
    rw (vmnew_object, walk-IsList s.heap.fp s.heap xs (arg s 1) is bound)

-- `vm:new-object` of a type and a proper list, with room for the words of the list: it ends, whatever
-- the collector is, and its third operand is a new object of that type whose fields are the elements of the list, behind
-- a heap that is otherwise as it was.
pub vmnew_object_lem :
    (gc : Vm → ℕ → Vm) (s : Vm) (xs : List ℕ)
    → IsList s.heap xs (arg s 1)
    → length xs < s.heap.fp
    → s.heap.fp + length xs * wsize ≤ s.heap.end
    → Continues (vmnew_object gc s) (MadeObject s (uvtoi (arg s 0)) xs)
vmnew_object_lem gc s xs is bound room =
    let e =
      vmnew_object-list gc s xs is bound
      ∙ ap (λ (t : Vm). object_of gc t (uvtoi (arg s 0))) (room_for-enough gc s (length xs) room) in
    subst (λ (o : Outcome). Continues o (MadeObject s (uvtoi (arg s 0)) xs)) (sym e)
      (object_of_lem gc s (uvtoi (arg s 0)) xs is bound)
