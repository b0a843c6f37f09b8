-- ===== src/Gc.antt =====
-- The collector of src/olvm.c: `chase`, `mark`, `sweep`, `resize_heap`, `gc` and `OL__gc`. Addresses are in bytes, sizes in
-- words. The loops follow pointers, so they run on a bound for their rounds, and `none` says that it did not do.
pub mod Resize
pub mod Objects
pub mod Relocate
pub mod Flags
pub mod Threads
pub mod Chase
pub mod Visits
pub mod Marking
pub mod Unthread
pub mod Slide
pub mod Sweeping
pub mod Rows
pub mod Compact
pub mod Tidy
pub mod Observe
pub mod Registers
use ol.Common.{
  ℕ, zero, suc, ◌+◌, ◌-◌, ◌*◌, ◌/◌, ◌%◌, ◌^◌, Bool, true, false, ◌&&◌, ◌||◌, not, List, [], ◌∷◌,
  ◌++◌, Option, none, some, ◌==◌, ltb, leb, if◌then◌else◌, bit_and, bit_or,
}
use ol.Word.{wsize, word_mod, rawbit, truthy, is_reference, is_rawobject, hdrsize, make_header}
use ol.Word.Types.{ttuple}
use ol.Heap.{Heap, load, ref, store, store_words}
use ol.Machine.{Vm, nr, cr, mempad}
use ol.Op.Access.{copy_words}
use ol.Runtime.Apply.{registers}

unfoldable pub is_flagged : ℕ → Bool
is_flagged x = truthy (bit_and x 1)

-- `x & ~1`
abbrev pub unflag : ℕ → ℕ
unflag x = x - x % 2

-- the end of the chain of flagged references
unfoldable pub chase : ℕ → Heap → ℕ → Option ℕ
unfolding is_flagged
chase zero h pos = none
chase (suc n) h pos =
    let p = load h (unflag pos) in
    let rest = chase n h p in if is_reference p && is_flagged p then rest else some (unflag pos)

-- One round of `mark`: where it goes on, and the heap with the pointer turned round.
unfoldable pub mark_step : ℕ → Heap → ℕ → Option (ℕ × Heap)
unfolding chase
mark_step n h pos =
    let val = load h pos in
    let hdr = load h val in
    let turned = store (store h pos hdr) val (bit_or pos 1) in
    if is_reference val && leb h.genstart val
    then (if is_flagged val
        then elim (chase n h val) [ none ↦ none | some p ↦ some (p - wsize, h) ]
        else some (
          if truthy (bit_and hdr (bit_or rawbit 1))
              then pos - wsize
              else val + (hdrsize hdr - 1) * wsize,
          turned,
        ))
    else some (pos - wsize, h)

-- `while (pos != end)`
unfoldable pub mark : ℕ → Heap → ℕ → ℕ → Option Heap
unfolding mark_step
mark zero h pos end = none
mark (suc n) h pos end = elim (pos == end) [
  | true ↦ some h
  | false ↦ elim (mark_step n h pos) [ none ↦ none | some (pos', h') ↦ mark n h' pos' end ]
]

-- `while (is_flagged(val))`: every pointer to the object is turned back, to its new place
unfoldable pub turn_back : ℕ → Heap → ℕ → ℕ → Option (ℕ × Heap)
unfolding is_flagged
turn_back zero h newobject val = none
turn_back (suc n) h newobject val =
    let h1 = store h newobject (load h (unflag val)) in
    let h2 = store h1 (unflag val) newobject in
    let rest = turn_back n h2 newobject (load h2 newobject) in
    if is_flagged val then rest else some (val, h)

-- one round of `sweep`: `old`, `newobject` and the heap behind it
unfoldable pub sweep_step : ℕ → Heap → ℕ → ℕ → Option (ℕ × ℕ × Heap)
unfolding is_flagged turn_back copy_words
sweep_step n h old newobject =
    if is_flagged (load h old)
    then elim (turn_back n (store h newobject (load h old)) newobject (load h old)) [
      | none ↦ none
      | some (val, h1) ↦
          let size = hdrsize val in
          if old == newobject
          then some (old + size * wsize, newobject + size * wsize, h1)
          else (if size == 0
              then none
              else some (
                old + size * wsize,
                newobject + size * wsize,
                copy_words (size - 1) 1 h1 old newobject,
              ))
    ]
    else some (old + hdrsize (load h old) * wsize, newobject, h)

-- `while (old < end)`: the new end of the objects, and the heap
unfoldable pub sweep : ℕ → Heap → ℕ → ℕ → ℕ → Option (ℕ × Heap)
unfolding sweep_step
sweep zero h old newobject end = none
sweep (suc n) h old newobject end = elim (ltb old end) [
  | false ↦ some (newobject, h)
  | true ↦ elim (sweep_step n h old newobject) [
    | none ↦ none
    | some (old', newobject', h') ↦ sweep n h' old' newobject' end
  ]
]
