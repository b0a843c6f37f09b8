-- ===== src/Gc/Sweeping/Live.antt =====
-- One round of `sweep` (src/olvm.c) at an object that is pointed to.
use ol.Common.{
  ℕ, ◌+◌, ◌*◌, ◌%◌, ◌≤◌, ◌<◌, ◌≡◌, ◌≢◌, inl, inr, refl, ◌∙◌, sym, ap, true, List, length, some,
  ◌==◌, arith, Bool-cases, ==_refl, ne→==_false,
}
use ol.Word.{hdrsize}
use ol.Heap.{Heap}
use ol.Gc.{sweep_step}
use ol.Gc.Threads.{Layout, linked, has, before, link, Threaded}
use ol.Gc.Unthread.{turned}
use ol.Gc.Slide.{sweep_step_lem}
use ol.Gc.Sweeping.{settled, Swept, start-unlinked, linked-lower, body-unpointed, start-cases}

module _ {m : ℕ → ℕ} {g root : ℕ} {Start : ℕ → Type 0} (layout : Layout m g root Start)
    (rs : List ℕ) (ok : Threaded m g Start rs) (place : ℕ → ℕ) (a new : ℕ) (h : Heap)
    (start : Start a) (swept : Swept m g Start place rs a new h.mem) (here : place a ≡ new) where
  abbrev past : ℕ
  past = a + hdrsize (m a) * 8

  -- what `turn_back` leaves of the words that do not point to the object
  turned-same :
      (x : ℕ) → x ≢ new → (linked x rs ≡ true → m x ≢ a) → turned m a new rs h.mem x ≡ h.mem x
  turned-same x apart other = elim (Bool-cases (linked x rs)) [
    | inl among ↦ rw (ne→==_false x new apart, among, ne→==_false (m x) a (other among)) refl
    | inr free ↦ rw (ne→==_false x new apart, free) refl
  ]

  module _ (mem : ℕ → ℕ) (head : mem new ≡ m a)
      (body : (i : ℕ)
        → 1 ≤ i
        → i < hdrsize (m a)
        → mem (new + i * 8) ≡ turned m a new rs h.mem (a + i * 8))
      (below : (x : ℕ) → x < new → mem x ≡ turned m a new rs h.mem x)
      (above : (x : ℕ) → past ≤ x → mem x ≡ turned m a new rs h.mem x) where
    kept_above : (x : ℕ) → past ≤ x → (linked x rs ≡ true → m x ≢ a) → mem x ≡ h.mem x
    kept_above x le other =
        let low = swept.lower in
        let some_words = layout.nonempty a start in above x le ∙ turned-same x (omega arith) other

    kept_below : (x : ℕ) → x < new → mem x ≡ h.mem x
    kept_below x lt =
        let low = swept.lower in
        below x lt
        ∙ turned-same x (omega arith)
            (λ among e. let (there, lower, less) = linked-lower layout rs ok x among in omega arith)

    -- a field of the object, whose pointer has been set before
    settled_body :
        (i : ℕ) → 1 ≤ i → i < hdrsize (m a) → mem (new + i * 8) ≡ settled place m rs (a + i * 8)
    settled_body i lo hi =
        let low = swept.lower in
        let x = a + i * 8 in
        elim (Bool-cases (linked x rs)) [
          | inl among ↦
              let (there, lower, less) = linked-lower layout rs ok x among in
              let clear = start-cases layout rs ok a (m x) start there in
              let down : m x < a = ground arith in
              body i lo hi
              ∙ turned-same x (omega arith) (λ _. omega arith)
              ∙ swept.moved x among (omega arith) down
              ∙ rw among refl
          | inr free ↦
              body i lo hi
              ∙ turned-same x (omega arith) (λ among. absurd (ground arith))
              ∙ swept.rest x (omega arith) free (body-unpointed layout rs ok a i start lo hi)
              ∙ rw free refl
        ]

    moved_above : (q : ℕ) → linked q rs ≡ true → past ≤ q → m q < past → mem q ≡ place (m q)
    moved_above q among le lt =
        let low = swept.lower in
        let some_words = layout.nonempty a start in
        let (there, lower, less) = linked-lower layout rs ok q among in
        elim (start-cases layout rs ok a (m q) start there) [
          | inl down ↦ kept_above q le (λ _. omega arith) ∙ swept.moved q among (omega arith) down
          | inr (inl same) ↦
              above q le
              ∙ rw (ne→==_false q new (omega arith), among, same, ==_refl a) (sym here)
              ∙ ap place (sym same)
          | inr (inr up) ↦ absurd (omega arith)
        ]

    module _ (c : ℕ) (sc : Start c) (pointed : has m c rs ≡ true) (lt : c < past) where
      placed_at :
          (i : ℕ) → i < hdrsize (m c) → mem (place c + i * 8) ≡ settled place m rs (c + i * 8)
      placed_at i hi = elim (start-cases layout rs ok a c start sc) [
        | inl down ↦
            let room = swept.room c sc pointed down in
            kept_below (place c + i * 8) (omega arith) ∙ swept.placed c i sc pointed down hi
        | inr (inr up) ↦ absurd (omega arith)
        | inr (inl same) ↦
            rw (same, here)
              (elim (Bool-cases (i == 0)) [
                | inl first ↦
                    let e : i ≡ 0 = ground arith in
                    ap mem {y = new} (omega arith)
                    ∙ head
                    ∙ rw (start-unlinked layout rs ok a start) refl
                    ∙ ap (settled place m rs) {x = a} (omega arith)
                | inr later ↦
                    let hi' : i < hdrsize (m a) = rw same at hi in settled_body i (ground arith) hi'
              ])
      ]

      room_at : place c + hdrsize (m c) * 8 ≤ new + hdrsize (m a) * 8
      room_at = elim (start-cases layout rs ok a c start sc) [
        | inl down ↦ let room = swept.room c sc pointed down in omega arith
        | inr (inl same) ↦ rw (same, here) (omega arith)
        | inr (inr up) ↦ absurd (omega arith)
      ]

      bounds_at : (g ≤ place c) × (place c ≤ c) × (place c % 8 ≡ 0)
      bounds_at = elim (start-cases layout rs ok a c start sc) [
        | inl down ↦ swept.bounds c sc pointed down
        | inr (inl same) ↦ rw (same, here) (swept.base, swept.lower, swept.even)
        | inr (inr up) ↦ absurd (omega arith)
      ]

      ordered_at :
          (d : ℕ) → Start d → has m d rs ≡ true → d < c → place d + hdrsize (m d) * 8 ≤ place c
      ordered_at d sd pointed_d less = elim (start-cases layout rs ok a c start sc) [
        | inl down ↦ swept.ordered d c sd sc pointed_d pointed less down
        | inr (inl same) ↦
            let room = swept.room d sd pointed_d (omega arith) in rw (same, here) room
        | inr (inr up) ↦ absurd (omega arith)
      ]

    Swept-next : Swept m g Start place rs past (new + hdrsize (m a) * 8) mem
    Swept-next =
        let low = swept.lower in
        let base = swept.base in
        let some_words = layout.nonempty a start in
        let low_a = layout.low a start in
        record {
          heads = λ c sc le.
              kept_above c le
                (λ among. let free = start-unlinked layout rs ok c sc in absurd (ground arith))
              ∙ swept.heads c sc (omega arith);
          links = λ q among le le'.
              kept_above q le (λ _. omega arith) ∙ swept.links q among (omega arith) (omega arith);
          moved = moved_above;
          rest = λ x le free none.
              kept_above x le (λ among. absurd (ground arith))
              ∙ swept.rest x (omega arith) free none;
          placed = λ c i sc pointed lt hi. placed_at c sc pointed lt i hi;
          room = room_at;
          bounds = bounds_at;
          ordered = λ d c sd sc pd pc less lt. ordered_at c sc pc lt d sd pd less;
          frame = λ x lt. kept_below x (omega arith) ∙ swept.frame x lt;
          lower = omega arith;
          base = omega arith;
          even = let even = swept.even in omega arith;
        }

  pub Swept-live :
      (n : ℕ)
      → has m a rs ≡ true
      → length rs < n
      → (mem : ℕ → ℕ) × (sweep_step n h a new
          ≡ some (past, new + hdrsize (m a) * 8, record h { mem = mem }))
        × Swept m g Start place rs past (new + hdrsize (m a) * 8) mem
  Swept-live n pointed lt =
      let links : (q : ℕ) → linked q rs ≡ true → m q ≡ a → h.mem q ≡ link m a (before q rs) =
        λ q among e.
          let (there, lower, less) = linked-lower layout rs ok q among in
          swept.links q among (omega arith) (omega arith)
          ∙ ap (λ (t : ℕ). link m t (before q rs)) e in
      let higher : (q : ℕ) → linked q rs ≡ true → m q ≡ a → a < q =
        λ q among e. let (there, lower, less) = linked-lower layout rs ok q among in omega arith in
      let (mem, run, head, body, below, above) =
        sweep_step_lem layout rs n h a new start swept.lower ok links higher
          (swept.heads a start (omega arith)) pointed lt in
      (mem, run, Swept-next mem head body below above)
