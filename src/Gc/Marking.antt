-- ===== src/Gc/Marking.antt =====
-- `mark` (src/olvm.c) passes the slots in the order of their visit and threads them.
pub mod Run
use ol.Common.{
  ℕ, zero, suc, ◌+◌, ◌-◌, ◌*◌, ◌%◌, ◌/◌, ◌≤◌, ◌<◌, ◌≡◌, ◌≢◌, ◌⊎◌, inl, inr, refl, ◌∙◌, sym, ap,
  Bool, true, false, ◌&&◌, ◌||◌, List, [], ◌∷◌, length, Option, some, ◌==◌, leb, if◌then◌else◌,
  arith, Bool-cases, ==_refl, ne→==_false, upd, bit_and, bit_or,
}
use ol.Word.{wsize, truthy, rawbit, is_reference, is_rawobject, hdrsize}
use ol.Heap.{Heap, load, store}
use ol.Gc.{is_flagged, chase, mark_step, mark}
use ol.Gc.Flags.{passed-cases, is_flagged-odd}
use ol.Gc.Threads.{
  young, Layout, Slot, linked, has, link, before, first, view, Threaded, view-start, view-Slot,
  view-unlinked, linked-Slot,
}
use ol.Gc.Chase.{Agrees, Mark-link, link-none, chase-first}
use ol.Gc.Visits.{
  Visits, none, skip, again, enter, Ready, Kept, field_target, Ready-push, Ready-enter,
}
use ol.Gc.Visits.Keeps.{Ready-skip, Ready-after, Visits-Kept}

pub mark-next :
    (n : ℕ) (h h' : Heap) (pos pos' end : ℕ)
    → pos ≢ end
    → mark_step n h pos ≡ some (pos', h')
    → mark (suc n) h pos end ≡ mark n h' pos' end
unfolding mark
mark-next n h h' pos pos' end ne e = rw (mark, ne→==_false pos end ne, e) refl

mark_step-over :
    (n : ℕ) (h : Heap) (pos : ℕ)
    → young h.genstart (load h pos) ≡ false
    → mark_step n h pos ≡ some (pos - 8, h)
unfolding mark_step
mark_step-over n h pos e = rw (mark_step, e) refl

pub mark_step-back :
    (n : ℕ) (h : Heap) (pos p : ℕ)
    → young h.genstart (load h pos) ≡ true
    → is_flagged (load h pos) ≡ true
    → chase n h (load h pos) ≡ some p
    → mark_step n h pos ≡ some (p - 8, h)
unfolding mark_step
mark_step-back n h pos p is flagged e = rw (mark_step, is, flagged, e) refl

mark_step-thread :
    (n : ℕ) (h : Heap) (pos t : ℕ) (passed : Bool)
    → load h pos ≡ t
    → young h.genstart t ≡ true
    → is_flagged t ≡ false
    → truthy (bit_and (load h t) (bit_or rawbit 1)) ≡ passed
    → mark_step n h pos
      ≡ some (
        if passed then pos - 8 else t + (hdrsize (load h t) - 1) * 8,
        record h { mem = upd (upd h.mem pos (h.mem t)) t (bit_or pos 1) },
      )
unfolding mark_step
mark_step-thread n h pos t passed e is flagged pass = rw (mark_step, e, is, flagged, pass) refl

-- the heap with slots threaded
abbrev pub threads : Heap → List ℕ → Heap
threads h rs = record h { mem = view h.mem rs }

module _ (h : Heap) {Start : ℕ → Type 0} (layout : Layout h.mem h.genstart h.fp Start) where
  pub Agrees-view :
      (rs : List ℕ) → Threaded h.mem h.genstart Start rs → Agrees h.mem (view h.mem rs) rs
  Agrees-view rs ok q among = view-Slot layout rs q ok among (linked-Slot layout rs q ok among).0

  module _ (b n : ℕ) (rs : List ℕ) (ready : Ready h.mem h.genstart h.fp Start b (suc n) rs) where
    abbrev q : ℕ
    q = b + suc n * 8

    slot_kept : load (threads h rs) q ≡ h.mem q
    slot_kept =
        view-unlinked layout rs q ready.threaded
          (ready.unlinked (suc n) (omega arith) (omega arith))
          (record {
            owner = b;
            index = suc n;
            starts = ready.start;
            fields = ready.fields;
            positive = omega arith;
            inside = ready.inside;
            place = refl;
          })

    not_end : q ≢ h.fp
    not_end =
        let clear = layout.apart b h.fp ready.start layout.last in
        let high = layout.high b ready.start in let lt = ready.inside in ground arith

    pub step_over :
        (k : ℕ)
        → young h.genstart (h.mem q) ≡ false
        → mark (suc k) (threads h rs) q h.fp ≡ mark k (threads h rs) (b + n * 8) h.fp
    step_over k out =
        mark-next k (threads h rs) (threads h rs) q (q - 8) h.fp not_end
          (mark_step-over k (threads h rs) q (rw slot_kept out))
        ∙ ap (λ (p : ℕ). mark k (threads h rs) p h.fp) (omega arith)

    target_unflagged : young h.genstart (h.mem q) ≡ true → is_flagged (h.mem q) ≡ false
    target_unflagged is =
        let (start, lower) =
          field_target layout b (suc n) ready.start ready.fields (omega arith) ready.inside is in
        let aligned = layout.aligned (h.mem q) start in is_flagged-odd (h.mem q) ∙ ground arith

    header : young h.genstart (h.mem q) ≡ true → view h.mem rs (h.mem q) ≡ link h.mem (h.mem q) rs
    header is =
        view-start layout rs (h.mem q) ready.threaded
          (field_target layout b (suc n) ready.start ready.fields (omega arith) ready.inside is).0

    passed_seen :
        young h.genstart (h.mem q) ≡ true
        → (is_rawobject (h.mem (h.mem q)) || has h.mem (h.mem q) rs) ≡ true
        → truthy (bit_and (view h.mem rs (h.mem q)) (bit_or rawbit 1)) ≡ true
    passed_seen is seen =
        rw (header is, passed-cases (link h.mem (h.mem q) rs))
          (elim (Bool-cases (has h.mem (h.mem q) rs)) [
            | inl pointed ↦
                let (mark, low) = Mark-link layout rs (h.mem q) ready.threaded pointed in
                let odd = is_flagged-odd (link h.mem (h.mem q) rs) in
                rw (sym odd ∙ mark.flagged) refl
            | inr unseen ↦
                let raw : is_rawobject (h.mem (h.mem q)) ≡ true = ground arith in
                rw (link-none h.mem (h.mem q) rs unseen, raw) (ground arith)
          ])

    passed_new :
        young h.genstart (h.mem q) ≡ true
        → (is_rawobject (h.mem (h.mem q)) || has h.mem (h.mem q) rs) ≡ false
        → (view h.mem rs (h.mem q) ≡ h.mem (h.mem q))
          × (truthy (bit_and (view h.mem rs (h.mem q)) (bit_or rawbit 1)) ≡ false)
    passed_new is new =
        let (start, lower) =
          field_target layout b (suc n) ready.start ready.fields (omega arith) ready.inside is in
        let even = layout.unmarked (h.mem q) start in
        let plain : is_rawobject (h.mem (h.mem q)) ≡ false = ground arith in
        let e : view h.mem rs (h.mem q) ≡ h.mem (h.mem q) =
          header is ∙ link-none h.mem (h.mem q) rs (ground arith) in
        (e, rw (e, passed-cases (h.mem (h.mem q)), plain) (ground arith))

    pub step_again :
        (k : ℕ)
        → young h.genstart (h.mem q) ≡ true
        → (is_rawobject (h.mem (h.mem q)) || has h.mem (h.mem q) rs) ≡ true
        → mark (suc k) (threads h rs) q h.fp ≡ mark k (threads h (q ∷ rs)) (b + n * 8) h.fp
    step_again k is seen =
        mark-next k (threads h rs) (threads h (q ∷ rs)) q (q - 8) h.fp not_end (
          mark_step-thread k (threads h rs) q (h.mem q) true slot_kept is (target_unflagged is)
            (passed_seen is seen))
        ∙ ap (λ (p : ℕ). mark k (threads h (q ∷ rs)) p h.fp) (omega arith)

    pub step_enter :
        (k : ℕ)
        → young h.genstart (h.mem q) ≡ true
        → (is_rawobject (h.mem (h.mem q)) || has h.mem (h.mem q) rs) ≡ false
        → mark (suc k) (threads h rs) q h.fp
          ≡ mark k (threads h (q ∷ rs)) (h.mem q + (hdrsize (h.mem (h.mem q)) - 1) * 8) h.fp
    step_enter k is new =
        let (e, pass) = passed_new is new in
        mark-next k (threads h rs) (threads h (q ∷ rs)) q
          (h.mem q + (hdrsize (view h.mem rs (h.mem q)) - 1) * 8) h.fp not_end
          (mark_step-thread k (threads h rs) q (h.mem q) false slot_kept is (target_unflagged is)
            pass)
        ∙ ap (λ (w : ℕ). mark k (threads h (q ∷ rs)) (h.mem q + (hdrsize w - 1) * 8) h.fp) e
