-- ===== src/Gc/Resize.antt =====
-- The size of the heap after a collection, the pointers after a move of its block, and `OL__gc` (src/olvm.c).
use ol.Common.{
  ℕ, zero, suc, ◌+◌, ◌-◌, ◌*◌, ◌/◌, ◌%◌, true, false, ◌&&◌, ◌||◌, not, [], ◌∷◌, ◌++◌, Option, none,
  some, ◌==◌, ltb, if◌then◌else◌,
}
use ol.Word.{wsize, word_mod, truthy, is_reference, is_rawobject, hdrsize, make_header}
use ol.Word.Types.{ttuple}
use ol.Heap.{Heap, load, ref, store, new_object, store_words}
use ol.Machine.{Vm, nr, cr, mempad}
use ol.Op.Control.{restore}
use ol.Runtime.Apply.{registers}
use ol.Gc.{mark, sweep}

-- `*pos = val + delta*W` for a reference; the difference is a word
unfoldable pub fix_field : ℕ → ℕ → ℕ
fix_field delta val = if is_reference val then (val + delta) % word_mod else val

-- `while (sz--)`
unfoldable pub fix_fields : ℕ → Heap → ℕ → ℕ → Heap
unfolding fix_field
fix_fields zero h pos delta = h
fix_fields (suc n) h pos delta =
    fix_fields n (store h pos (fix_field delta (load h pos))) (pos + wsize) delta

-- one object; the loop over the fields of an object of no words does not end
unfoldable pub fix_object : Heap → ℕ → ℕ → Option Heap
unfolding fix_fields
fix_object h pos delta =
    let hdr = load h pos in
    if is_rawobject hdr
    then some h
    else (if hdrsize hdr == 0
        then none
        else some (fix_fields (hdrsize hdr - 1) h (pos + wsize) delta))

-- `while (pos < end)`
unfoldable pub fix_pointers : ℕ → Heap → ℕ → ℕ → ℕ → Option Heap
unfolding fix_object
fix_pointers zero h pos end delta = none
fix_pointers (suc n) h pos end delta = elim (ltb pos end) [
  | false ↦ some h
  | true ↦ elim (fix_object h pos delta) [
    | none ↦ none
    | some h' ↦ fix_pointers n h' (pos + hdrsize (load h pos) * wsize) end delta
  ]
]

-- What `realloc` gives: the address of the block, 0 if there is none, and what stands in memory. It is
-- called with the memory that there is and the size in words.
abbrev pub Realloc : Type 0
Realloc = Heap → ℕ → ℕ × (ℕ → ℕ)

module _ (realloc : Realloc) where
  -- The difference of the addresses as a word, and the heap. `none`: the machine gives up by `longjmp`,
  -- or a loop does not end.
  unfoldable pub resize_heap : ℕ → Heap → ℕ → Option (ℕ × Heap)
  unfolding fix_pointers
  resize_heap sandboxp h cells =
      let (begin, contents) = realloc h (cells + (nr + 3)) in
      let delta = (begin + word_mod - h.begin) % word_mod in
      let moved : Heap = record {
        begin = begin;
        end = begin + cells * wsize;
        genstart = h.genstart;
        fp = (h.fp + delta) % word_mod;
        mem = contents;
      } in
      if truthy sandboxp
      then some (0, h)
      else (if begin == h.begin
          then some (0, record h { end = begin + cells * wsize; mem = contents })
          else (if begin == 0
              then none
              else elim (fix_pointers (moved.fp + 1) moved begin moved.fp delta) [
                | none ↦ none
                | some h' ↦ some (delta, h')
              ]))

  -- The root is a word behind `fp`; `rounds` bounds the loops of both passes.
  unfoldable pub compact : ℕ → Heap → ℕ → Option (ℕ × Heap)
  unfolding mark sweep
  compact rounds h regs =
      let root = h.fp + wsize in
      let h0 = store (store h h.fp (make_header ttuple 2)) root regs in
      elim (mark rounds h0 root h.fp) [
        | none ↦ none
        | some h1 ↦ elim (sweep rounds h1 h1.genstart h1.genstart h.fp) [
          | none ↦ none
          | some (fp, h2) ↦ some (load h2 root, record h2 { fp = fp })
        ]
      ]

  -- the new generation starts at the registers
  abbrev settled : Option (ℕ × Heap) → ℕ → Option (ℕ × Heap)
  settled none regs = none
  settled (some (delta, h)) regs =
      let regs' = (regs + delta) % word_mod in some (regs', record h { genstart = regs' })

  -- the size of the heap after a full collection
  unfoldable pub fit_heap : ℕ → Heap → ℕ → ℕ → Option (ℕ × Heap)
  unfolding resize_heap
  fit_heap sandboxp h query regs =
      let hsize = (h.end - h.begin) / wsize in
      let nused = (regs - h.begin) / wsize + query in
      let more = if ltb nused hsize then hsize else nused in
      if ltb (hsize / 2) nused
      then settled (resize_heap sandboxp h (more + more / 3)) regs
      else (if ltb nused (hsize / 3)
          then settled (resize_heap sandboxp h (hsize - hsize / 9)) regs
          else settled (some (0, h)) regs)

  -- a collection of all generations
  unfoldable pub gc_full : ℕ → ℕ → Heap → ℕ → ℕ → Option (ℕ × Heap)
  unfolding compact fit_heap
  gc_full rounds sandboxp h query regs =
      elim (compact rounds (record h { genstart = h.begin }) regs) [
        | none ↦ none
        | some (regs, h1) ↦ fit_heap sandboxp h1 (query + mempad) regs
      ]

  -- `gc(heap, query, regs)`: the registers' object where it stands now, and the heap. Its call of itself is
  -- for a full collection, which makes no other.
  unfoldable pub gc : ℕ → ℕ → Heap → ℕ → ℕ → Option (ℕ × Heap)
  unfolding compact gc_full
  gc rounds sandboxp h query regs = elim ((query == 0) || (h.genstart == h.begin)) [
    | true ↦ gc_full rounds sandboxp h query regs
    | false ↦ elim (compact rounds h regs) [
      | none ↦ none
      | some (regs, h1) ↦
          let hsize = (h1.end - h1.begin) / wsize in
          let nused = (regs - h1.begin) / wsize + (query + mempad) in
          elim (ltb hsize (hsize / 5 + nused)) [
            | true ↦ gc_full rounds sandboxp h1 (query + mempad) regs
            | false ↦ some (regs, record h1 { genstart = regs })
          ]
    ]
  ]

  -- `OL__gc`: the registers and the code are saved in an object at the top, and come back from it
  unfoldable pub ol_gc : ℕ → Vm → ℕ → Option Vm
  unfolding gc registers restore new_object store_words
  ol_gc rounds s ws =
      let n = nr + cr in
      let (regs, h1) = new_object s.heap ttuple (n + 2) in
      let h2 = store_words h1 (regs + wsize) (registers s.regs 0 n ++ (s.this ∷ [])) in
      if (not (ws == 0)) && ltb (s.heap.fp + ws * wsize) (s.heap.end - mempad * wsize)
      then some s
      else elim (gc rounds s.sandboxp h2 ws regs) [
        | none ↦ none
        | some (regs, h) ↦ some (record s {
          heap = record h { fp = regs };
          regs = λ i. if ltb i n then ref h regs (i + 1) else s.regs i;
          this = ref h regs (n + 1);
        })
      ]
