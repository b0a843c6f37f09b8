-- ===== src/Gc/Registers/Restored.antt =====
-- `OL__gc` and `gc` (src/olvm.c) in a heap that keeps its size: they are one `compact` of all generations.
use ol.Common.{
  ℕ, ◌+◌, ◌-◌, ◌*◌, ◌/◌, ◌%◌, ◌<◌, ◌≡◌, inl, inr, refl, ◌∙◌, ap, true, false, ◌==◌, ◌&&◌, ◌||◌, not,
  ltb, some, if◌then◌else◌, arith, Bool-cases,
}
use ol.Word.{wsize, word_mod, truthy}
use ol.Heap.{Heap, ref}
use ol.Machine.{Vm, nr, cr, mempad}
use ol.Gc.Resize.{Realloc, resize_heap, compact, fit_heap, gc_full, gc, ol_gc}
use ol.Gc.Registers.{saved, written, written-fields}

-- in the sandbox the heap keeps its size, and the new generation starts at the registers
fit_heap-sandboxed :
    (realloc : Realloc) (sandboxp : ℕ) (h : Heap) (query regs : ℕ)
    → truthy sandboxp ≡ true
    → regs < word_mod
    → fit_heap realloc sandboxp h query regs ≡ some (regs, record h { genstart = regs })
unfolding fit_heap resize_heap
fit_heap-sandboxed realloc sandboxp h query regs sandboxed small =
    let word : (regs + 0) % word_mod ≡ regs = omega arith in
    let hsize = (h.end - h.begin) / wsize in
    let nused = (regs - h.begin) / wsize + query in
    elim (Bool-cases (ltb (hsize / 2) nused)) [
      | inl grown ↦ rw (fit_heap, grown, sandboxed, word) refl
      | inr kept ↦ elim (Bool-cases (ltb nused (hsize / 3))) [
        | inl shrunk ↦ rw (fit_heap, kept, shrunk, sandboxed, word) refl
        | inr same ↦ rw (fit_heap, kept, same, word) refl
      ]
    ]

-- a full collection, by `gc`
gc-full :
    (realloc : Realloc) (rounds sandboxp : ℕ) (h : Heap) (query regs regs' : ℕ) (h' : Heap)
    → truthy sandboxp ≡ true
    → (query == 0) || (h.genstart == h.begin) ≡ true
    → compact realloc rounds (record h { genstart = h.begin }) regs ≡ some (regs', h')
    → regs' < word_mod
    → gc realloc rounds sandboxp h query regs ≡ some (regs', record h' { genstart = regs' })
unfolding gc gc_full
gc-full realloc rounds sandboxp h query regs regs' h' sandboxed full ran small =
    rw (gc, full, gc_full, ran)
      (fit_heap-sandboxed realloc sandboxp h' (query + mempad) regs' sandboxed small)

module _ (s : Vm) where
  -- the machine with the registers and the code from the object at `regs`
  abbrev pub restored : Heap → ℕ → Vm
  restored h regs = record s {
    heap = record h { genstart = regs; fp = regs };
    regs = λ i. if ltb i (nr + cr) then ref h regs (i + 1) else s.regs i;
    this = ref h regs (nr + cr + 1);
  }

  -- the heap that `gc` is called with, all of it to be collected
  written-saved : record (written s) { genstart = (written s).begin } ≡ saved s
  written-saved = ap (λ g. record (written s) { genstart = g }) (written-fields s).0

  pub ol_gc-full :
      (realloc : Realloc) (rounds ws regs : ℕ) (h : Heap)
      → truthy s.sandboxp ≡ true
      → (ws == 0) || (s.heap.genstart == s.heap.begin) ≡ true
      → not (ws == 0) && ltb (s.heap.fp + ws * wsize) (s.heap.end - mempad * wsize) ≡ false
      → compact realloc rounds (saved s) s.heap.fp ≡ some (regs, h)
      → regs < word_mod
      → ol_gc realloc rounds s ws ≡ some (restored h regs)
  unfolding ol_gc
  ol_gc-full realloc rounds ws regs h sandboxed full needed ran small =
      let (begin, end, start, fp) = written-fields s in
      let full' : (ws == 0) || ((written s).genstart == (written s).begin) ≡ true =
        rw (begin, start) full in
      let ran' : compact realloc rounds (record (written s) { genstart = (written s).begin })
            s.heap.fp
          ≡ some (regs, h) =
        ap (λ x. compact realloc rounds x s.heap.fp) written-saved ∙ ran in
      let collected =
        gc-full realloc rounds s.sandboxp (written s) ws s.heap.fp regs h sandboxed full' ran'
          small in
      rw (ol_gc, needed, collected) refl
