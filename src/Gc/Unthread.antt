-- ===== src/Gc/Unthread.antt =====
-- The loop of `sweep` (src/olvm.c) that turns the pointers to an object back, and the copy of its words to a lower place.
use ol.Common.{
  ℕ, zero, suc, ◌+◌, ◌*◌, ◌≤◌, ◌<◌, ◌≡◌, ◌≢◌, inl, inr, refl, ◌∙◌, sym, ap, true, false, ◌&&◌, List,
  [], ◌∷◌, length, some, ◌==◌, if◌then◌else◌, arith, bit_or, Bool-cases, ==_refl, ne→==_false, upd,
}
use ol.Heap.{Heap, ref, set_ref}
use ol.Op.Access.{copy_words}
use ol.Gc.{is_flagged, unflag, turn_back}
use ol.Gc.Flags.{is_flagged-odd}
use ol.Gc.Threads.{Layout, linked, before, link, Threaded, Slot-aligned, Slot-target, linked-Slot}
use ol.Gc.Chase.{Mark-slot}

-- the memory after the pointers to `a` among the slots have been turned back to `new`
abbrev pub turned : (ℕ → ℕ) → ℕ → ℕ → List ℕ → (ℕ → ℕ) → ℕ → ℕ
turned m a new ts mem x = if x == new then m a else (if linked x ts && m x == a then new else mem x)

turn_back-end :
    (n : ℕ) (h : Heap) (new val : ℕ)
    → is_flagged val ≡ false
    → turn_back (suc n) h new val ≡ some (val, h)
unfolding turn_back
turn_back-end n h new val e = rw (turn_back, e) refl

turn_back-next :
    (n : ℕ) (h : Heap) (new q val : ℕ)
    → is_flagged val ≡ true
    → unflag val ≡ q
    → new ≢ q
    → turn_back (suc n) h new val
      ≡ turn_back n (record h { mem = upd (upd h.mem new (h.mem q)) q new }) new (h.mem q)
unfolding turn_back
turn_back-next n h new q val flagged e ne =
    rw (turn_back, flagged, e, ne→==_false q new (λ same. ne (sym same)), ==_refl new) refl

module _ {m : ℕ → ℕ} {g root : ℕ} {Start : ℕ → Type 0} (layout : Layout m g root Start) where
  linked-fresh : (q p : ℕ) (ts : List ℕ) → q ≡ p → linked q ts ≡ false → linked p ts ≡ true → ⊥
  linked-fresh q p ts e fresh among =
      let no : linked p ts ≡ false = rw⁻¹ e fresh in absurd (ground arith)

  turned-other :
      (q x a new : ℕ) (ts : List ℕ) (mem : ℕ → ℕ)
      → (m q == a) ≡ false
      → turned m a new ts mem x ≡ turned m a new (q ∷ ts) mem x
  turned-other q x a new ts mem other = elim (Bool-cases (q == x)) [
    | inl same ↦
        let e : q ≡ x = ground arith in
        let other' : (m x == a) ≡ false = rw⁻¹ e other in ground arith
    | inr apart ↦ ground arith
  ]

  turned-here :
      (q x a new : ℕ) (ts : List ℕ) (mem : ℕ → ℕ)
      → (m q == a) ≡ true
      → turned m a new ts (upd (upd mem new (mem q)) q new) x ≡ turned m a new (q ∷ ts) mem x
  turned-here q x a new ts mem here = elim (Bool-cases (q == x)) [
    | inl same ↦
        let e : q ≡ x = ground arith in let here' : (m x == a) ≡ true = rw⁻¹ e here in ground arith
    | inr apart ↦ ground arith
  ]

  pub turn_back_lem :
      (ts : List ℕ) (n : ℕ) (h : Heap) (a new : ℕ)
      → Start a
      → new ≤ a
      → Threaded m g Start ts
      → ((q : ℕ) → linked q ts ≡ true → m q ≡ a → h.mem q ≡ link m a (before q ts))
      → h.mem new ≡ link m a ts
      → length ts < n
      → (mem : ℕ → ℕ) × (turn_back n h new (link m a ts) ≡ some (m a, record h { mem = mem }))
        × ((x : ℕ) → mem x ≡ turned m a new ts h.mem x)
  turn_back_lem ts zero h a new start le ok links head lt = absurd (omega arith)
  turn_back_lem [] (suc n) h a new start le ok links head lt =
      let even = layout.unmarked a start in
      let plain : is_flagged (m a) ≡ false = is_flagged-odd (m a) ∙ ground arith in
      (h.mem, turn_back-end n h new (m a) plain, λ x. ground arith)
  turn_back_lem (q ∷ ts) (suc n) h a new start le (slot, is, fresh, ok) links head lt =
      let links' : (p : ℕ) → linked p ts ≡ true → m p ≡ a → h.mem p ≡ link m a (before p ts) =
        λ p among e. elim (Bool-cases (q == p)) [
          | inl same ↦
              let ep : q ≡ p = ground arith in
              let no : linked p ts ≡ false = rw⁻¹ ep fresh in absurd (ground arith)
          | inr other ↦ links p (rw (other, among) refl) e ∙ rw other refl
        ] in
      elim (Bool-cases (m q == a)) [
        | inr other ↦
            let (mem, run, is_turned) =
              turn_back_lem ts (suc n) h a new start le ok links' (head ∙ rw other refl)
                (omega arith) in
            (
              mem,
              ap (λ (w : ℕ). turn_back (suc n) h new w) {y = link m a ts} (rw other refl) ∙ run,
              λ x. is_turned x ∙ turned-other q x a new ts h.mem other,
            )
        | inl here ↦
            let e : m q ≡ a = ground arith in
            let (mark, back) = Mark-slot q (Slot-aligned layout q slot) in
            let (there, lower) = Slot-target layout q slot is in
            let some_words = layout.nonempty a start in
            let some_there = layout.nonempty (m q) there in
            let above : a < q = omega arith in
            let next : h.mem q ≡ link m a ts =
              links q (ground (arith, ==_refl q)) e ∙ rw (==_refl q) refl in
            let h1 : Heap = record h { mem = upd (upd h.mem new (h.mem q)) q new } in
            let (mem, run, is_turned) =
              turn_back_lem ts n h1 a new start le ok
                (λ p among ep.
                  let (slot_p, is_p) = linked-Slot layout ts p ok among in
                  let (there_p, lower_p) = Slot-target layout p slot_p is_p in
                  let some_p = layout.nonempty (m p) there_p in
                  let apart : (q == p) ≡ false =
                    ne→==_false q p (λ same. linked-fresh q p ts same fresh among) in
                  rw (apart, ne→==_false new p (omega arith)) (links' p among ep))
                (ground arith) (omega arith) in
            (
              mem,
              rw here (
                  turn_back-next n h new q (bit_or q 1) mark.flagged back (omega arith)
                  ∙ ap (λ (w : ℕ). turn_back n h1 new w) next
                  ∙ run),
              λ x. is_turned x ∙ turned-here q x a new ts h.mem here,
            )
      ]

-- a copy of words to a lower place, from the first on, where the two may overlap
pub copy_words-down :
    (k i : ℕ) (h : Heap) (p q : ℕ)
    → q < p
    → (mem : ℕ → ℕ) × (copy_words k i h p q ≡ record h { mem = mem })
      × ((j : ℕ) → i ≤ j → j < i + k → mem (q + j * 8) ≡ h.mem (p + j * 8))
      × ((x : ℕ) → x < q + i * 8 → mem x ≡ h.mem x)
      × ((x : ℕ) → q + (i + k) * 8 ≤ x → mem x ≡ h.mem x)
unfolding copy_words
copy_words-down zero i h p q lt =
    (h.mem, refl, λ j lo hi. absurd (omega arith), λ x lo. refl, λ x hi. refl)
copy_words-down (suc k) i h p q lt =
    let h1 : Heap = set_ref h q i (ref h p i) in
    let (mem, run, copied, below, above) = copy_words-down k (i + 1) h1 p q lt in
    (
      mem,
      run,
      λ j lo hi. elim (Bool-cases (i == j)) [
        | inl same ↦
            let e : i ≡ j = ground arith in rw⁻¹ e (below (q + i * 8) (omega arith) ∙ ground arith)
        | inr other ↦ copied j (ground arith) (omega arith) ∙ ground arith
      ],
      λ x lo. below x (omega arith) ∙ ground arith,
      λ x hi. above x (omega arith) ∙ ground arith,
    )
