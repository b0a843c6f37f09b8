-- ===== src/Gc/Registers/Roots.antt =====
-- A full collection with the registers as roots (src/olvm.c, `OL__gc`), in a heap that keeps its size.
use ol.Common.{
  ℕ, ◌+◌, ◌-◌, ◌*◌, ◌≤◌, ◌<◌, ◌≡◌, ◌⊎◌, inl, inr, refl, ◌∙◌, sym, ap, subst, Bool, true, false,
  ◌==◌, ◌&&◌, ◌||◌, not, ltb, List, some, arith, Bool-cases,
}
use ol.Word.{wsize, word_mod, truthy, make_header, is_rawobject, hdrsize}
use ol.Word.Types.{ttuple}
use ol.Heap.{Heap}
use ol.Machine.{Vm, nr, cr, mempad}
use ol.Gc.Resize.{Realloc, ol_gc}
use ol.Gc.Flags.{is_reference-bit}
use ol.Gc.Threads.{young}
use ol.Gc.Compact.Collected.{Collected, forward}
use ol.Gc.Tidy.{Tidy}
use ol.Gc.Tidy.Extend.{low_row, Tidy-Shorter}
use ol.Gc.Tidy.Root.{with_root, below_root, Row-root, Layout-root}
use ol.Gc.Tidy.Again.{target_live, compact-Tidy}
use ol.Gc.Observe.{follow, forwarded, Seen, follow-forward}
use ol.Gc.Observe.Kept.{follow-same}
use ol.Gc.Registers.Restored.{restored, ol_gc-full}
use ol.Gc.Registers.{
  saved, saved-below, saved-header, saved-register, saved-code, written-fields, Leading, Tidy-saved,
}

module _ (s : Vm) {Start : ℕ → Type 0} (tidy : Tidy s.heap.mem s.heap.begin s.heap.fp Start)
    (leading : Leading s Start) where
  -- the starts with that of the saved registers
  abbrev pub Saved : ℕ → Type 0
  Saved b = Start b ⊎ (b ≡ s.heap.fp)

  saved_tidy : Tidy (saved s).mem s.heap.begin (saved s).fp Saved
  saved_tidy =
      subst (λ (e : ℕ). Tidy (saved s).mem s.heap.begin e Saved) (sym (written-fields s).3)
        (Tidy-saved s tidy leading)

  Saved-Start : young s.heap.begin s.heap.fp ≡ true → Saved s.heap.fp
  Saved-Start is = inr refl

  abbrev rooted_words : ℕ → ℕ
  rooted_words = with_root saved_tidy s.heap.fp Saved-Start

  saved_young : young s.heap.begin s.heap.fp ≡ true
  saved_young =
      let even = tidy.even in
      let base = low_row tidy tidy.row in ground (arith, is_reference-bit s.heap.fp)

  -- the object of the registers, with the root behind it
  saved_object :
      (i w : ℕ)
      → i < 274
      → (saved s).mem (s.heap.fp + i * 8) ≡ w
      → (is_rawobject (rooted_words s.heap.fp) ≡ false)
        × (hdrsize (rooted_words s.heap.fp) ≡ 274)
        × (rooted_words (s.heap.fp + i * 8) ≡ w)
  unfolding hdrsize make_header is_rawobject
  saved_object i w hi word =
      let (begin, end, start, top) = written-fields s in
      let same = below_root saved_tidy s.heap.fp Saved-Start in
      let header : rooted_words s.heap.fp ≡ make_header ttuple 274 =
        same s.heap.fp (omega arith) ∙ saved-header s in
      (rw header refl, rw header refl, same (s.heap.fp + i * 8) (omega arith) ∙ word)

  module _ {live : ℕ → Bool} {place : ℕ → ℕ} {h : Heap}
      (collected : Collected
        (Row-root saved_tidy s.heap.fp Saved-Start saved_tidy.row)
        live
        place
        h)
      (kept : live s.heap.fp ≡ true) where
    -- what is read from the object of the registers is what was saved, set to the new place
    read_back :
        (i w : ℕ)
        → 1 ≤ i
        → i < 274
        → (saved s).mem (s.heap.fp + i * 8) ≡ w
        → h.mem (place s.heap.fp + i * 8) ≡ forward s.heap.begin place w
    read_back i w lo hi word =
        let (plain, size, old) = saved_object i w hi word in
        collected.words s.heap.fp i kept lo (omega arith) ∙ rw (plain, old) refl

    read_registers :
        (i : ℕ)
        → i < nr + cr
        → (restored s h (place s.heap.fp)).regs i ≡ forward s.heap.begin place (s.regs i)
    read_registers i lt =
        let in_range : ltb i (nr + cr) ≡ true = ground arith in
        rw in_range
          (read_back (i + 1) (s.regs i) (omega arith) (omega arith) (saved-register s i lt))

    read_code : (restored s h (place s.heap.fp)).this ≡ forward s.heap.begin place s.this
    read_code = read_back (nr + cr + 1) s.this (omega arith) (omega arith) (saved-code s)

    -- what the object of the registers leads to is kept
    kept_word :
        (i w : ℕ)
        → 1 ≤ i
        → i < 274
        → (saved s).mem (s.heap.fp + i * 8) ≡ w
        → young s.heap.begin w ≡ true
        → live w ≡ true
    kept_word i w lo hi word is =
        let (plain, size, old) = saved_object i w hi word in
        let (led, less) =
          target_live (Layout-root saved_tidy s.heap.fp Saved-Start) collected s.heap.fp i kept
            plain lo (omega arith) (rw old is) in
        rw⁻¹ old led

    -- what a path of fields from a word that the object of the registers holds leads to
    read_path :
        (i w : ℕ)
        → 1 ≤ i
        → i < 274
        → (saved s).mem (s.heap.fp + i * 8) ≡ w
        → (young s.heap.begin w ≡ true → Start w)
        → (path : List ℕ)
        → follow h.mem s.heap.begin path (forward s.heap.begin place w)
          ≡ forwarded (forward s.heap.begin place) (follow s.heap.mem s.heap.begin path w)
    read_path i w lo hi word starts path =
        let layout = Layout-root saved_tidy s.heap.fp Saved-Start in
        let seen : Seen layout collected w = elim (Bool-cases (young s.heap.begin w)) [
          | inl is ↦ inr (is, kept_word i w lo hi word is)
          | inr old ↦ inl old
        ] in
        follow-forward layout collected path w seen
        ∙ ap (forwarded (forward s.heap.begin place)) (
            follow-same saved_tidy (with_root saved_tidy s.heap.fp Saved-Start)
              (below_root saved_tidy s.heap.fp Saved-Start) path w (λ is. inl (starts is))
            ∙ follow-same tidy (saved s).mem (saved-below s) path w starts)

-- In the sandbox, where the heap keeps its size, and where the heap is a row of objects, every reference in it leads to
-- an object further down, and each register and the code lead to objects if they lead into the heap: a full collection,
-- when room is asked for that there is not, ends, with any bound for its rounds from some number on. Afterwards each
-- register and the code hold what they held, references set to the new places; a path of fields from a register or from
-- the code leads to the word that it led to, set to the new place, or nowhere as before; and the heap up to its new end
-- is again such a row of objects.
pub ol_gc_lem :
    (realloc : Realloc) (s : Vm) (ws : ℕ) (Start : ℕ → Type 0)
    → truthy s.sandboxp ≡ true
    → (ws == 0) || (s.heap.genstart == s.heap.begin) ≡ true
    → not (ws == 0) && ltb (s.heap.fp + ws * wsize) (s.heap.end - mempad * wsize) ≡ false
    → s.heap.fp < word_mod
    → Tidy s.heap.mem s.heap.begin s.heap.fp Start
    → Leading s Start
    → (enough : ℕ) × (live : ℕ → Bool) × (place : ℕ → ℕ) × ((rounds : ℕ)
        → enough ≤ rounds
        → (s' : Vm) × (ol_gc realloc rounds s ws ≡ some s')
          × ((i : ℕ) → i < nr + cr → s'.regs i ≡ forward s.heap.begin place (s.regs i))
          × (s'.this ≡ forward s.heap.begin place s.this)
          × ((i : ℕ) (path : List ℕ)
              → i < nr + cr
              → follow s'.heap.mem s.heap.begin path (s'.regs i)
                ≡ forwarded
                    (forward s.heap.begin place)
                    (follow s.heap.mem s.heap.begin path (s.regs i)))
          × ((path : List ℕ)
              → follow s'.heap.mem s.heap.begin path s'.this
                ≡ forwarded
                    (forward s.heap.begin place)
                    (follow s.heap.mem s.heap.begin path s.this))
          × Tidy s'.heap.mem s.heap.begin s'.heap.fp
              (λ x. ((c : ℕ) × (live c ≡ true) × (place c ≡ x)) × (x < s'.heap.fp)))
ol_gc_lem realloc s ws Start sandboxed full needed small tidy leading =
    let (enough, live, place, run) =
      compact-Tidy realloc (saved s) s.heap.fp (Saved s tidy leading) (saved_tidy s tidy leading)
        (Saved-Start s tidy leading) in
    (
      enough,
      live,
      place,
      λ rounds le.
          let (h, ran, begin, end, start, collected, again, root) = run rounds le in
          let kept = root (saved_young s tidy leading) in
          let (low, down, even, inside) = collected.inside s.heap.fp kept in
          let moved : forward s.heap.begin place s.heap.fp ≡ place s.heap.fp =
            rw (saved_young s tidy leading) refl in
          let ran' = rw moved at ran in
          (
            restored s h (place s.heap.fp),
            ol_gc-full s realloc rounds ws (place s.heap.fp) h sandboxed full needed ran'
                (omega arith),
            read_registers s tidy leading collected kept,
            read_code s tidy leading collected kept,
            λ i path lt.
                ap (follow h.mem s.heap.begin path)
                  (read_registers s tidy leading collected kept i lt)
                ∙ read_path s tidy leading collected kept (i + 1) (s.regs i) (omega arith)
                    (omega arith) (saved-register s i lt) (leading.0 i lt) path,
            λ path.
                ap (follow h.mem s.heap.begin path) (read_code s tidy leading collected kept)
                ∙ read_path s tidy leading collected kept 273 s.this (omega arith) (omega arith)
                    (saved-code s) leading.1 path,
            subst
                (λ (g : ℕ).
                  Tidy h.mem g (place s.heap.fp)
                    (λ x. ((c : ℕ) × (live c ≡ true) × (place c ≡ x)) × (x < place s.heap.fp)))
                start (Tidy-Shorter again (place s.heap.fp) (s.heap.fp, kept, refl)),
          ),
    )
