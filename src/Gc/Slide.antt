-- ===== src/Gc/Slide.antt =====
-- One round of `sweep` (src/olvm.c) at the first word of an object.
use ol.Common.{
  ℕ, ◌+◌, ◌-◌, ◌*◌, ◌≤◌, ◌<◌, ◌≡◌, ◌≢◌, inl, inr, refl, ◌∙◌, ap, true, false, List, length, some,
  ◌==◌, if◌then◌else◌, arith, Bool-cases, ne→==_false,
}
use ol.Word.{hdrsize}
use ol.Heap.{Heap, load, store}
use ol.Op.Access.{copy_words}
use ol.Gc.{is_flagged, turn_back, sweep_step}
use ol.Gc.Flags.{is_flagged-odd}
use ol.Gc.Threads.{Layout, linked, has, before, link, Threaded}
use ol.Gc.Chase.{Mark-link, link-none}
use ol.Gc.Unthread.{turned, turn_back_lem, copy_words-down}

sweep_step-dead :
    (n : ℕ) (h : Heap) (old new : ℕ)
    → is_flagged (load h old) ≡ false
    → sweep_step n h old new ≡ some (old + hdrsize (load h old) * 8, new, h)
unfolding sweep_step
sweep_step-dead n h old new e = rw (sweep_step, e) refl

sweep_step-live :
    (n : ℕ) (h h1 : Heap) (old new val : ℕ)
    → is_flagged (load h old) ≡ true
    → turn_back n (store h new (load h old)) new (load h old) ≡ some (val, h1)
    → hdrsize val ≢ 0
    → sweep_step n h old new
      ≡ some (
        old + hdrsize val * 8,
        new + hdrsize val * 8,
        if old == new then h1 else copy_words (hdrsize val - 1) 1 h1 old new,
      )
unfolding sweep_step
sweep_step-live n h h1 old new val flagged e some_words = elim (Bool-cases (old == new)) [
  | inl same ↦ rw (sweep_step, flagged, e, same) refl
  | inr apart ↦ rw (sweep_step, flagged, e, apart, ne→==_false (hdrsize val) 0 some_words) refl
]

-- the words of an object from its second on in their new place, and the rest of the memory
slid :
    (size : ℕ) (h : Heap) (old new : ℕ)
    → new ≤ old
    → 1 ≤ size
    → (mem : ℕ → ℕ) × ((if old == new then h else copy_words (size - 1) 1 h old new)
        ≡ record h { mem = mem })
      × ((i : ℕ) → 1 ≤ i → i < size → mem (new + i * 8) ≡ h.mem (old + i * 8))
      × ((x : ℕ) → x ≤ new → mem x ≡ h.mem x)
      × ((x : ℕ) → old + size * 8 ≤ x → mem x ≡ h.mem x)
slid size h old new le some_words = elim (Bool-cases (old == new)) [
  | inl same ↦
      let e : old ≡ new = ground arith in
      (h.mem, rw same refl, λ i lo hi. rw e refl, λ x lo. refl, λ x hi. refl)
  | inr apart ↦
      let lt : new < old = ground arith in
      let (mem, run, copied, below, above) = copy_words-down (size - 1) 1 h old new lt in
      (
        mem,
        rw apart run,
        λ i lo hi. copied i lo (omega arith),
        λ x lo. below x (omega arith),
        λ x hi. above x (omega arith),
      )
]

module _ {m : ℕ → ℕ} {g root : ℕ} {Start : ℕ → Type 0} (layout : Layout m g root Start) where
  pub sweep_step_lem :
      (rs : List ℕ) (n : ℕ) (h : Heap) (a new : ℕ)
      → Start a
      → new ≤ a
      → Threaded m g Start rs
      → ((q : ℕ) → linked q rs ≡ true → m q ≡ a → h.mem q ≡ link m a (before q rs))
      → ((q : ℕ) → linked q rs ≡ true → m q ≡ a → a < q)
      → h.mem a ≡ link m a rs
      → has m a rs ≡ true
      → length rs < n
      → (mem : ℕ → ℕ) × (sweep_step n h a new
          ≡ some (a + hdrsize (m a) * 8, new + hdrsize (m a) * 8, record h { mem = mem }))
        × (mem new ≡ m a)
        × ((i : ℕ)
            → 1 ≤ i
            → i < hdrsize (m a)
            → mem (new + i * 8) ≡ turned m a new rs h.mem (a + i * 8))
        × ((x : ℕ) → x < new → mem x ≡ turned m a new rs h.mem x)
        × ((x : ℕ) → a + hdrsize (m a) * 8 ≤ x → mem x ≡ turned m a new rs h.mem x)
  sweep_step_lem rs n h a new start le ok links higher head pointed lt =
      let (mark, low) = Mark-link layout rs a ok pointed in
      let some_words = layout.nonempty a start in
      let h0 : Heap = store h new (h.mem a) in
      let links0 : (q : ℕ) → linked q rs ≡ true → m q ≡ a → h0.mem q ≡ link m a (before q rs) =
        λ q among e.
          let above = higher q among e in rw (ne→==_false new q (omega arith)) (links q among e) in
      let (mem1, run1, is_turned) =
        turn_back_lem layout rs n h0 a new start le ok links0 (rw head (ground arith)) lt in
      let h1 : Heap = record h { mem = mem1 } in
      let (mem, run, copied, below, above) = slid (hdrsize (m a)) h1 a new le some_words in
      let settled : (x : ℕ) → turned m a new rs h0.mem x ≡ turned m a new rs h.mem x =
        λ x. ground arith in
      (
        mem,
        sweep_step-live n h h1 a new (m a) (rw head mark.flagged)
              (ap (λ (w : ℕ). turn_back n h0 new w) head ∙ run1) (omega arith)
            ∙ ap (λ (k : Heap). some (a + hdrsize (m a) * 8, new + hdrsize (m a) * 8, k)) run,
        below new (omega arith) ∙ is_turned new ∙ ground arith,
        λ i lo hi. copied i lo hi ∙ is_turned (a + i * 8) ∙ settled (a + i * 8),
        λ x lo. below x (omega arith) ∙ is_turned x ∙ settled x,
        λ x hi. above x hi ∙ is_turned x ∙ settled x,
      )

  pub sweep_step-skip :
      (rs : List ℕ) (n : ℕ) (h : Heap) (a new : ℕ)
      → Start a
      → h.mem a ≡ link m a rs
      → has m a rs ≡ false
      → sweep_step n h a new ≡ some (a + hdrsize (m a) * 8, new, h)
  sweep_step-skip rs n h a new start head unseen =
      let e : h.mem a ≡ m a = head ∙ link-none m a rs unseen in
      let even = layout.unmarked a start in
      let plain : is_flagged (m a) ≡ false = is_flagged-odd (m a) ∙ ground arith in
      sweep_step-dead n h a new (rw e plain) ∙ ap (λ (w : ℕ). some (a + hdrsize w * 8, new, h)) e
