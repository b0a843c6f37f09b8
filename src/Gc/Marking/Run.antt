-- ===== src/Gc/Marking/Run.antt =====
-- The run of `mark` (src/olvm.c) over a visit: it comes to the start of the object with every slot threaded.
use ol.Common.{
  ℕ, suc, ◌+◌, ◌-◌, ◌*◌, ◌<◌, ◌≡◌, refl, ◌∙◌, ap, ap₂, true, false, List, ◌∷◌, length, some, arith,
  ==_refl,
}
use ol.Heap.{Heap}
use ol.Gc.{mark}
use ol.Gc.Threads.{Layout, has, first, view-start}
use ol.Gc.Chase.{Mark-link, chase-first}
use ol.Gc.Visits.{
  Visits, none, skip, again, enter, Ready, Kept, field_target, Ready-push, Ready-enter,
}
use ol.Gc.Visits.Keeps.{Ready-skip, Ready-after, Visits-Kept}
use ol.Gc.Marking.{
  threads, Agrees-view, step_over, step_again, step_enter, mark-next, mark_step-back,
}

pub same_mark : (h : Heap) (k l p q end : ℕ) → k ≡ l → p ≡ q → mark k h p end ≡ mark l h q end
same_mark h k l p q end e f = ap₂ (λ (x : ℕ) (y : ℕ). mark x h y end) e f

module _ (h : Heap) {Start : ℕ → Type 0} (layout : Layout h.mem h.genstart h.fp Start) where
  -- From the start of an object `mark` goes back to the slot from which the object was entered.
  step_leave :
      (k q t : ℕ) (rs rs1 : List ℕ) (limit : ℕ)
      → Start t
      → t < h.fp
      → h.mem q ≡ t
      → has h.mem t rs ≡ false
      → Kept h.mem h.genstart h.fp Start limit (q ∷ rs) rs1
      → length rs1 < k
      → mark (suc k) (threads h rs1) t h.fp ≡ mark k (threads h rs1) (q - 8) h.fp
  step_leave k q t rs rs1 limit start lt e new kept fuel =
      let points : has h.mem t (q ∷ rs) ≡ true = ground (arith, ==_refl t) in
      let pointed = kept.still_has t points in
      let head = view-start layout rs1 t kept.threaded start in
      let (mark, low) = Mark-link layout rs1 t kept.threaded pointed in
      let first_one : first h.mem t rs1 ≡ q = kept.same_first t points ∙ rw new refl in
      let back =
        chase-first layout rs1 k (threads h rs1) t start kept.threaded
          (Agrees-view h layout rs1 kept.threaded) pointed fuel in
      mark-next k (threads h rs1) (threads h rs1) t (q - 8) h.fp (omega arith) (
        mark_step-back k (threads h rs1) t q (rw (head, mark.reference) (ground arith))
          (rw head mark.flagged) (rw head (back ∙ ap (λ (x : ℕ). some x) first_one)))

  -- The number of rounds is that of the visit; the fuel left over must do for the longest thread.
  pub mark-Visits :
      {b n : ℕ} {rs rs' : List ℕ}
      → Visits h.mem h.genstart b n rs rs'
      → Ready h.mem h.genstart h.fp Start b n rs
      → (k : ℕ) × ((x : ℕ)
          → length rs' < x
          → mark (k + x) (threads h rs) (b + n * 8) h.fp ≡ mark x (threads h rs') b h.fp)
  mark-Visits (none {b} {rs}) ready =
      (0, λ x lt. same_mark (threads h rs) (0 + x) x (b + 0 * 8) b h.fp (omega arith) (omega arith))
  mark-Visits (skip {b} {n} {rs} {rs'} out v) ready =
      let (k, run) = mark-Visits v (Ready-skip layout b n rs ready) in
      (
        suc k,
        λ x lt.
            same_mark (threads h rs) (suc k + x) (suc (k + x)) (b + suc n * 8) (b + suc n * 8) h.fp
              (omega arith) refl
            ∙ step_over h layout b n rs ready (k + x) out
            ∙ run x lt,
      )
  mark-Visits (again {b} {n} {rs} {rs'} is seen v) ready =
      let (k, run) = mark-Visits v (Ready-push layout ready is) in
      (
        suc k,
        λ x lt.
            same_mark (threads h rs) (suc k + x) (suc (k + x)) (b + suc n * 8) (b + suc n * 8) h.fp
              (omega arith) refl
            ∙ step_again h layout b n rs ready (k + x) is seen
            ∙ run x lt,
      )
  mark-Visits (enter {b} {n} {rs} {rs1} {rs'} is new v w) ready =
      let inside = Ready-enter layout ready is new in
      let inner = Visits-Kept layout v inside in
      let after = Ready-after layout b n rs rs1 ready is inner in
      let outer = Visits-Kept layout w after in
      let longer = outer.longer in
      let (start, lower) =
        field_target layout b (suc n) ready.start ready.fields (omega arith) ready.inside is in
      let some_words = layout.nonempty (h.mem (b + suc n * 8)) start in
      let high = layout.high b ready.start in
      let (k1, run1) = mark-Visits v inside in
      let (k2, run2) = mark-Visits w after in
      (
        suc (k1 + suc k2),
        λ x lt.
            same_mark (threads h rs) (suc (k1 + suc k2) + x) (suc (k1 + suc (k2 + x)))
              (b + suc n * 8) (b + suc n * 8) h.fp (omega arith) refl
            ∙ step_enter h layout b n rs ready (k1 + suc (k2 + x)) is new
            ∙ run1 (suc (k2 + x)) (omega arith)
            ∙ step_leave (k2 + x) (b + suc n * 8) (h.mem (b + suc n * 8)) rs rs1 _ start
                (omega arith) refl (ground arith) inner (omega arith)
            ∙ same_mark (threads h rs1) (k2 + x) (k2 + x) (b + suc n * 8 - 8) (b + n * 8) h.fp refl
                (omega arith)
            ∙ run2 x lt,
      )
