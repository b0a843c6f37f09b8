-- ===== src/Gc/Registers.antt =====
-- The object of the registers that `OL__gc` (src/olvm.c) makes for a collection.
pub mod Restored
pub mod Roots
use ol.Common.{
  get_or-left, ℕ, zero, suc, ◌+◌, ◌-◌, ◌*◌, ◌%◌, ◌≤◌, ◌<◌, ◌≡◌, ◌⊎◌, inl, inr, refl, ◌∙◌, sym, ap,
  subst, Bool, true, false, ◌==◌, ltb, leb, List, [], ◌∷◌, ◌++◌, length, length-append, get_or,
  if◌then◌else◌, arith, Bool-cases,
}
use ol.Word.{wsize, make_header, is_reference, is_value, is_rawobject, hdrsize}
use ol.Word.Types.{ttuple}
use ol.Heap.{Heap, new, new_object, store_words}
use ol.Heap.Laws.{store_words-fields, store_words-below, store_words-get}
use ol.Machine.{Vm, nr, cr}
use ol.Runtime.Apply.{registers}
use ol.Runtime.Thread.{length-registers, get_or-registers}
use ol.Gc.Threads.{young}
use ol.Gc.Tidy.{Tidy}
use ol.Gc.Tidy.Extend.{Tidy-Longer}

get_or-right : (xs ys : List ℕ) (i : ℕ) → get_or (xs ++ ys) (length xs + i) 0 ≡ get_or ys i 0
get_or-right [] ys i = ap (λ j. get_or ys j 0) {y = i} (omega arith)
get_or-right (x ∷ xs) ys i =
    ap (λ j. get_or (x ∷ (xs ++ ys)) j 0) {y = suc (length xs + i)} (omega arith)
    ∙ get_or-right xs ys i

module _ (s : Vm) where
  abbrev saved_words : List ℕ
  saved_words = registers s.regs 0 (nr + cr) ++ (s.this ∷ [])

  -- the heap with the registers and the code in an object behind the others
  abbrev pub written : Heap
  written = store_words (new_object s.heap ttuple (nr + cr + 2)).1 (s.heap.fp + wsize) saved_words

  -- all of it is to be collected
  abbrev pub saved : Heap
  saved = record written { genstart = s.heap.begin }

  count_words : length saved_words ≡ 273
  count_words =
      length-append (registers s.regs 0 (nr + cr)) (s.this ∷ [])
      ∙ ap (λ n. n + 1) (length-registers s.regs 0 (nr + cr))

  pub saved-below : (x : ℕ) → x < s.heap.fp → saved.mem x ≡ s.heap.mem x
  unfolding new_object new
  saved-below x lt =
      store_words-below (new_object s.heap ttuple (nr + cr + 2)).1 (s.heap.fp + wsize) saved_words x
        (omega arith)
      ∙ ground arith

  pub saved-header : saved.mem s.heap.fp ≡ make_header ttuple 274
  unfolding new_object new
  saved-header =
      store_words-below (new_object s.heap ttuple (nr + cr + 2)).1 (s.heap.fp + wsize) saved_words
        s.heap.fp (omega arith)
      ∙ ground arith

  saved-word : (i : ℕ) → i < 273 → saved.mem (s.heap.fp + (i + 1) * 8) ≡ get_or saved_words i 0
  saved-word i lt =
      let size = count_words in
      ap saved.mem {y = s.heap.fp + wsize + i * wsize} (omega arith)
      ∙ store_words-get (new_object s.heap ttuple (nr + cr + 2)).1 (s.heap.fp + wsize) saved_words i
          (omega arith)

  pub saved-register : (i : ℕ) → i < nr + cr → saved.mem (s.heap.fp + (i + 1) * 8) ≡ s.regs i
  saved-register i lt =
      let size = length-registers s.regs 0 (nr + cr) in
      saved-word i (omega arith)
      ∙ get_or-left (registers s.regs 0 (nr + cr)) (s.this ∷ []) i 0 (omega arith)
      ∙ get_or-registers s.regs 0 (nr + cr) i lt
      ∙ ap s.regs (omega arith)

  pub saved-code : saved.mem (s.heap.fp + 273 * 8) ≡ s.this
  saved-code =
      let size = length-registers s.regs 0 (nr + cr) in
      ap saved.mem {y = s.heap.fp + (nr + cr + 1) * 8} (omega arith)
      ∙ saved-word (nr + cr) (omega arith)
      ∙ ap (λ j. get_or saved_words j 0) {y = length (registers s.regs 0 (nr + cr)) + 0}
          (omega arith)
      ∙ get_or-right (registers s.regs 0 (nr + cr)) (s.this ∷ []) 0

  pub written-fields :
      (written.begin ≡ s.heap.begin)
      × (written.end ≡ s.heap.end)
      × (written.genstart ≡ s.heap.genstart)
      × (written.fp ≡ s.heap.fp + 274 * 8)
  unfolding new_object new
  written-fields =
      let (begin, end, start, fp) =
        store_words-fields (new_object s.heap ttuple (nr + cr + 2)).1 (s.heap.fp + wsize)
          saved_words in
      (begin, end, start, fp ∙ omega arith)

  -- a register leads, if it leads into the heap, to an object
  abbrev pub Leading : (ℕ → Type 0) → Type 0
  Leading Start =
      ((i : ℕ) → i < nr + cr → young s.heap.begin (s.regs i) ≡ true → Start (s.regs i))
      × (young s.heap.begin s.this ≡ true → Start s.this)

  module _ {Start : ℕ → Type 0} (tidy : Tidy s.heap.mem s.heap.begin s.heap.fp Start)
      (leading : Leading Start) where
    saved_leads :
        (i : ℕ)
        → 1 ≤ i
        → i < 274
        → young s.heap.begin (saved.mem (s.heap.fp + i * 8)) ≡ true
        → Start (saved.mem (s.heap.fp + i * 8))
    saved_leads i lo hi is = elim (Bool-cases (i == 273)) [
      | inl last ↦
          let e : i ≡ 273 = ground arith in
          let word : saved.mem (s.heap.fp + i * 8) ≡ s.this =
            ap (λ j. saved.mem (s.heap.fp + j * 8)) e ∙ saved-code in
          let is' : young s.heap.begin s.this ≡ true = rw word at is in rw word (leading.1 is')
      | inr other ↦
          let lt : i - 1 < nr + cr = ground arith in
          let word : saved.mem (s.heap.fp + i * 8) ≡ s.regs (i - 1) =
            ap (λ j. saved.mem (s.heap.fp + j * 8)) {y = i - 1 + 1} (omega arith)
            ∙ saved-register (i - 1) lt in
          let is' : young s.heap.begin (s.regs (i - 1)) ≡ true = rw word at is in
          rw word (leading.0 (i - 1) lt is')
    ]

    pub Tidy-saved :
        Tidy saved.mem s.heap.begin (s.heap.fp + 274 * 8) (λ b. Start b ⊎ (b ≡ s.heap.fp))
    unfolding hdrsize make_header is_reference is_value
    Tidy-saved =
        Tidy-Longer tidy saved.mem 274 saved-below (omega arith) (rw saved-header refl)
          (rw saved-header refl) (rw saved-header refl) saved_leads
