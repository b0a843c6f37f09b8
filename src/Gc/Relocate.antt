-- ===== src/Gc/Relocate.antt =====
-- The move of the heap's block in `resize_heap` (src/olvm.c), on a heap that is a row of objects.
use ol.Common.{
  ℕ, zero, suc, ◌+◌, ◌-◌, ◌*◌, ◌%◌, ◌≤◌, ◌<◌, ◌≡◌, ◌≢◌, ◌⊎◌, inl, inr, refl, sym, ◌∙◌, ap, subst,
  Bool, true, false, List, [], ◌∷◌, length, some, if◌then◌else◌, arith, ne→==_false, le→ltb_false,
  lt→ltb, Bool-cases,
}
use ol.Word.{wsize, word_mod, is_reference, is_rawobject, hdrsize}
use ol.Heap.{Heap, load, store}
use ol.Machine.{nr}
use ol.Gc.Objects.{
  Obj, WordsAt, ObjsAt, extent, fix_words, fix_objs, length-fix_words, WordsAt-same, ObjsAt-same,
}
use ol.Gc.Resize.{fix_field, fix_fields, fix_object, fix_pointers, Realloc, resize_heap}

-- `fix_fields` fixes the words that it passes, and no others
fix_fields_lem :
    (ws : List ℕ) (h : Heap) (pos delta : ℕ)
    → WordsAt h pos ws
    → WordsAt (fix_fields (length ws) h pos delta) pos (fix_words delta ws)
      × ((a : ℕ)
          → (a < pos) ⊎ (pos + length ws * wsize ≤ a)
          → (fix_fields (length ws) h pos delta).mem a ≡ h.mem a)
      × ((fix_fields (length ws) h pos delta).fp ≡ h.fp)
      × ((fix_fields (length ws) h pos delta).begin ≡ h.begin)
      × ((fix_fields (length ws) h pos delta).end ≡ h.end)
unfolding fix_fields
fix_fields_lem [] h pos delta at = (tt, λ a out. refl, refl, refl, refl)
fix_fields_lem (w ∷ ws) h pos delta (e, at) =
    let h1 : Heap = store h pos (fix_field delta (load h pos)) in
    let at1 = WordsAt-same ws h h1 (pos + wsize) (pos + wsize) (λ i lt. ground arith) at in
    let (fixed, same, fp, begin, end) = fix_fields_lem ws h1 (pos + wsize) delta at1 in
    (
      (same pos (inl (omega arith)) ∙ ground arith, fixed),
      λ a out. same a (ground arith) ∙ ground arith,
      fp,
      begin,
      end,
    )

-- the heap after the pass over objects
unfoldable pub relocated : Heap → ℕ → ℕ → List Obj → Heap
relocated h pos delta [] = h
relocated h pos delta ((hdr, ws) ∷ os) =
    relocated (if is_rawobject hdr then h else fix_fields (length ws) h (pos + wsize) delta)
      (pos + (length ws + 1) * wsize) delta os

-- One object is fixed; everything outside its fields stays.
fix_object_lem :
    (hdr : ℕ) (ws : List ℕ) (h : Heap) (pos delta : ℕ)
    → load h pos ≡ hdr
    → hdrsize hdr ≡ length ws + 1
    → WordsAt h (pos + wsize) ws
    → let h' = if is_rawobject hdr then h else fix_fields (length ws) h (pos + wsize) delta in
      (fix_object h pos delta ≡ some h')
      × WordsAt h' (pos + wsize) (if is_rawobject hdr then ws else fix_words delta ws)
      × ((a : ℕ) → (a < pos + wsize) ⊎ (pos + (length ws + 1) * wsize ≤ a) → h'.mem a ≡ h.mem a)
      × (h'.fp ≡ h.fp)
      × (h'.begin ≡ h.begin)
      × (h'.end ≡ h.end)
unfolding fix_object
fix_object_lem hdr ws h pos delta e size at =
    let (fixed, same, fp, begin, end) = fix_fields_lem ws h (pos + wsize) delta at in
    let count : hdrsize hdr - 1 ≡ length ws = omega arith in
    elim (Bool-cases (is_rawobject hdr)) [
      | inl raw ↦ rw (e, raw) (refl, at, λ a out. refl, refl, refl, refl)
      | inr plain ↦
          rw (e, plain, ne→==_false (hdrsize hdr) 0 (omega arith), count)
            (refl, fixed, λ a out. same a (ground arith), fp, begin, end)
    ]

length-fixed :
    (delta : ℕ) (raw : Bool) (ws : List ℕ)
    → length (if raw then ws else fix_words delta ws) ≡ length ws
length-fixed delta true ws = refl
length-fixed delta false ws = length-fix_words delta ws

fix_pointers-end :
    (n : ℕ) (h : Heap) (pos end delta : ℕ)
    → end ≤ pos
    → fix_pointers (suc n) h pos end delta ≡ some h
unfolding fix_pointers
fix_pointers-end n h pos end delta le = rw (fix_pointers, le→ltb_false pos end le)

fix_pointers-next :
    (n : ℕ) (h h' : Heap) (pos end delta : ℕ)
    → pos < end
    → fix_object h pos delta ≡ some h'
    → fix_pointers (suc n) h pos end delta
      ≡ fix_pointers n h' (pos + hdrsize (load h pos) * wsize) end delta
unfolding fix_pointers
fix_pointers-next n h h' pos end delta lt e = rw (fix_pointers, lt→ltb pos end lt, e)

fix_pointers_lem :
    (os : List Obj) (n : ℕ) (h : Heap) (pos end delta : ℕ)
    → length os < n
    → end ≡ pos + extent os * wsize
    → ObjsAt h pos os
    → (fix_pointers n h pos end delta ≡ some (relocated h pos delta os))
      × ObjsAt (relocated h pos delta os) pos (fix_objs delta os)
      × ((a : ℕ) → a < pos → (relocated h pos delta os).mem a ≡ h.mem a)
      × ((relocated h pos delta os).fp ≡ h.fp)
      × ((relocated h pos delta os).begin ≡ h.begin)
      × ((relocated h pos delta os).end ≡ h.end)
unfolding relocated extent
fix_pointers_lem os zero h pos end delta lt last at = absurd (omega arith)
fix_pointers_lem [] (suc n) h pos end delta lt last at =
    (fix_pointers-end n h pos end delta (omega arith), tt, λ a lo. refl, refl, refl, refl)
fix_pointers_lem ((hdr, ws) ∷ os) (suc n) h pos end delta lt last (e, size, words, at) =
    let h1 : Heap = if is_rawobject hdr then h else fix_fields (length ws) h (pos + wsize) delta in
    let next = pos + (length ws + 1) * wsize in
    let ws' : List ℕ = if is_rawobject hdr then ws else fix_words delta ws in
    let long : length ws' ≡ length ws = length-fixed delta (is_rawobject hdr) ws in
    let (one, fixed, same, fp, begin, end1) = fix_object_lem hdr ws h pos delta e size words in
    let at1 = ObjsAt-same os h h1 next next (λ i lo. same (next + i) (inr (omega arith))) at in
    let (rest, there, below, fp', begin', end') =
      fix_pointers_lem os n h1 next end delta (omega arith) (omega arith) at1 in
    let h2 : Heap = relocated h1 next delta os in
    let step : pos + hdrsize (load h pos) * wsize ≡ next =
      ap (λ (w : ℕ). pos + hdrsize w * wsize) e ∙ omega arith in
    (
      fix_pointers-next n h h1 pos end delta (omega arith) one
          ∙ ap (λ (a : ℕ). fix_pointers n h1 a end delta) step
          ∙ rest,
      (
        below pos (omega arith) ∙ same pos (inl (omega arith)) ∙ e,
        omega arith,
        WordsAt-same ws' h1 h2 (pos + wsize) (pos + wsize)
            (λ i lo. below (pos + wsize + i) (omega arith)) fixed,
        subst (λ (k : ℕ). ObjsAt h2 (pos + (k + 1) * wsize) (fix_objs delta os)) (sym long) there,
      ),
      λ a lo. below a (omega arith) ∙ same a (inl (omega arith)),
      fp' ∙ fp,
      begin' ∙ begin,
      end' ∙ end1,
    )

length-extent : (os : List Obj) → length os ≤ extent os
unfolding extent
length-extent [] = omega arith
length-extent ((hdr, ws) ∷ os) = omega (arith, length-extent os)

-- Where the heap is a row of objects, and `realloc` moves the block with its contents, `resize_heap` ends: the same
-- objects stand in the new block, raw ones with the words that they had, the others with every field that is a reference
-- shifted by the difference of the blocks, which leads a reference into the old block to the same place in the new one.
pub resize_heap_lem :
    (realloc : Realloc) (h : Heap) (cells : ℕ) (os : List Obj)
    → h.begin < word_mod
    → h.fp ≡ h.begin + extent os * wsize
    → ObjsAt h h.begin os
    → (realloc h (cells + (nr + 3))).0 ≢ 0
    → (realloc h (cells + (nr + 3))).0 ≢ h.begin
    → (realloc h (cells + (nr + 3))).0 + extent os * wsize < word_mod
    → ((i : ℕ)
        → i < extent os * wsize
        → (realloc h (cells + (nr + 3))).1 ((realloc h (cells + (nr + 3))).0 + i)
          ≡ h.mem (h.begin + i))
    → let begin = (realloc h (cells + (nr + 3))).0 in
      let delta = (begin + word_mod - h.begin) % word_mod in
      (h' : Heap) × (resize_heap realloc 0 h cells ≡ some (delta, h'))
      × (h'.begin ≡ begin)
      × (h'.end ≡ begin + cells * wsize)
      × (h'.fp ≡ begin + extent os * wsize)
      × ObjsAt h' begin (fix_objs delta os)
      × ((val : ℕ)
          → is_reference val ≡ true
          → h.begin ≤ val
          → val ≤ h.fp
          → fix_field delta val ≡ begin + (val - h.begin))
unfolding resize_heap fix_field
resize_heap_lem realloc h cells os low fp at some_block other fits copied =
    let begin = (realloc h (cells + (nr + 3))).0 in
    let delta = (begin + word_mod - h.begin) % word_mod in
    let moved : Heap = record {
      begin = begin;
      end = begin + cells * wsize;
      genstart = h.genstart;
      fp = (h.fp + delta) % word_mod;
      mem = (realloc h (cells + (nr + 3))).1;
    } in
    let top : moved.fp ≡ begin + extent os * wsize = omega arith in
    let long = length-extent os in
    let at1 = ObjsAt-same os h moved h.begin begin copied at in
    let (run, there, below, fp', begin', end') =
      fix_pointers_lem os (moved.fp + 1) moved begin moved.fp delta (omega arith) top at1 in
    (
      relocated moved begin delta os,
      rw (resize_heap, ne→==_false begin h.begin other, ne→==_false begin 0 some_block, run),
      begin',
      end',
      fp' ∙ top,
      there,
      λ val is lo hi. rw is (omega arith),
    )
