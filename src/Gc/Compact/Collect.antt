-- ===== src/Gc/Compact/Collect.antt =====
-- A collection of the young generation (src/olvm.c, `gc`): what it keeps, where it puts it, and what it frees.
use ol.Common.{
  ℕ, suc, ◌+◌, ◌-◌, ◌*◌, ◌%◌, ◌≤◌, ◌<◌, ◌≡◌, inl, inr, refl, ◌∙◌, ap, Bool, true, false, List, [],
  ◌∷◌, length, some, ◌==◌, if◌then◌else◌, arith, Bool-cases, ==_refl,
}
use ol.Word.{wsize, hdrsize}
use ol.Heap.{Heap}
use ol.Gc.{mark}
use ol.Gc.Resize.{Realloc, compact}
use ol.Gc.Threads.{young, Layout, linked, has, Threaded, linked-Slot, Slot-target}
use ol.Gc.Visits.{Visits}
use ol.Gc.Visits.Keeps.{Visits-total}
use ol.Gc.Marking.{threads}
use ol.Gc.Marking.Run.{same_mark, mark-Visits}
use ol.Gc.Sweeping.{settled, Swept, start-unlinked, has-Start, linked-has}
use ol.Gc.Rows.{
  Row, done, object, count, destination, extent, Places, Places-destination, sweep-Swept,
}
use ol.Gc.Compact.{
  mark-end, Ready-root, Swept-start, visited, has-Reach, Reach-has, settled-word, Complete-has,
}
use ol.Gc.Compact.Collected.{rooted, total, Packed, forward, Collected}

extent-total :
    (m : ℕ → ℕ) (Start : ℕ → Type 0) (end : ℕ) (rs : List ℕ) {a : ℕ} (row : Row m Start end a)
    (new : ℕ)
    → extent m Start end rs row new ≡ new + total (λ c. has m c rs) row * 8
extent-total m Start end rs done new = omega arith
extent-total m Start end rs (object a start lt row) new = elim (Bool-cases (has m a rs)) [
  | inl pointed ↦
      rw pointed (extent-total m Start end rs row (new + hdrsize (m a) * 8) ∙ omega arith)
  | inr unseen ↦ rw unseen (extent-total m Start end rs row new ∙ omega arith)
]

Packed-Places :
    (m : ℕ → ℕ) (Start : ℕ → Type 0) (end : ℕ) (rs : List ℕ) (place : ℕ → ℕ) {a : ℕ}
    (row : Row m Start end a) (new : ℕ)
    → Places m Start end rs place row new
    → Packed (λ c. has m c rs) place row new
Packed-Places m Start end rs place done new places = tt
Packed-Places m Start end rs place (object a start lt row) new (here, places) = (
  here,
  Packed-Places m Start end rs place row (if has m a rs then new + hdrsize (m a) * 8 else new)
      places,
)

module _ {m : ℕ → ℕ} {g root : ℕ} {Start : ℕ → Type 0} (layout : Layout m g root Start) where
  -- what a slot points to lies below the root
  has-lower : (rs : List ℕ) (c : ℕ) → Threaded m g Start rs → has m c rs ≡ true → c < root
  has-lower [] c ok pointed = absurd (ground arith)
  has-lower (q ∷ rs) c (slot, is, new, ok) pointed = elim (Bool-cases (m q == c)) [
    | inr other ↦ has-lower rs c ok (ground arith)
    | inl same ↦
        let e : m q ≡ c = ground arith in
        let (start, lower) = Slot-target layout q slot is in
        let some_words = layout.nonempty (m q) start in
        let high = layout.high (m q) start in
        let own = layout.high slot.owner slot.starts in
        let clear = layout.apart slot.owner root slot.starts layout.last in
        let size = layout.last_size in
        let place = slot.place in
        let inside = slot.inside in
        let less : m q < root = elim (Bool-cases (m q == root)) [
          | inr apart ↦ ground arith
          | inl at ↦
              let at_root : m q ≡ root = ground arith in
              let two : hdrsize (m (m q)) ≡ 2 = rw at_root size in
              elim (Bool-cases (slot.owner == root)) [
                | inr below ↦ ground arith
                | inl own_root ↦
                    let owned : slot.owner ≡ root = ground arith in
                    let two' : hdrsize (m slot.owner) ≡ 2 = rw owned size in absurd (omega arith)
              ]
        ] in
        rw⁻¹ e less
  ]

  pub row_aligned : {a : ℕ} → Row m Start root a → a % 8 ≡ 0
  row_aligned done = layout.aligned root layout.last
  row_aligned (object a start lt row) = layout.aligned a start

  Collected-Swept :
      (row : Row m Start root g) (rs : List ℕ) (visits : Visits m g root 1 [] rs) (h : Heap)
      (place : ℕ → ℕ)
      → Swept m g Start place rs root h.fp h.mem
      → h.fp ≡ extent m Start root rs row g
      → Places m Start root rs place row g
      → Collected row (λ c. has m c rs) place h
  Collected-Swept row rs visits h place swept size places =
      let ok = visited layout rs visits in
      let start : (c : ℕ) → has m c rs ≡ true → Start c =
        λ c pointed. has-Start layout rs ok rs c ok pointed in
      record {
        only_reached = has-Reach layout rs visits;
        all_reached = Reach-has layout rs visits;
        below_root = λ c live. has-lower rs c ok live;
        packed = Packed-Places m Start root rs place row g places;
        header = λ c live.
            let some_words = layout.nonempty c (start c live) in
            ap h.mem {y = place c + 0 * 8} (omega arith)
            ∙ swept.placed c 0 (start c live) live (has-lower rs c ok live) (omega arith)
            ∙ ap (settled place m rs) {y = c} (omega arith)
            ∙ rw (start-unlinked layout rs ok c (start c live)) refl;
        words = λ c i live lo hi.
            swept.placed c i (start c live) live (has-lower rs c ok live) hi
            ∙ settled-word layout rs visits place c i (start c live) (inr live) lo hi;
        inside = λ c live.
            let lower = has-lower rs c ok live in
            let (base, down, even) = swept.bounds c (start c live) live lower in
            (base, down, even, swept.room c (start c live) live lower);
        ordered = λ c d live_c live_d lt.
            swept.ordered c d (start c live_c) (start d live_d) live_c live_d lt
              (has-lower rs d ok live_d);
        frame = swept.frame;
        taken = size ∙ extent-total m Start root rs row g;
      }

  -- the word of the root after the collection
  root-word :
      (rs : List ℕ) (visits : Visits m g root 1 [] rs) (place : ℕ → ℕ) (new : ℕ) (mem : ℕ → ℕ)
      → Swept m g Start place rs root new mem
      → mem (root + 8) ≡ forward g place (m (root + 8))
  root-word rs visits place new mem swept =
      let ok = visited layout rs visits in
      let size = layout.last_size in
      elim (Bool-cases (linked (root + 8) rs)) [
        | inl among ↦
            let (slot, is) = linked-Slot layout rs (root + 8) ok among in
            let lower =
              has-lower rs (m (root + 8)) ok (linked-has layout rs ok rs (root + 8) among) in
            swept.moved (root + 8) among (omega arith) lower ∙ rw is refl
        | inr free ↦
            let none : has m (root + 8) rs ≡ false = elim (Bool-cases (has m (root + 8) rs)) [
              | inr none ↦ none
              | inl pointed ↦ let lower = has-lower rs (root + 8) ok pointed in absurd (omega arith)
            ] in
            let old : young g (m (root + 8)) ≡ false = elim (Bool-cases (young g (m (root + 8)))) [
              | inr old ↦ old
              | inl is ↦
                  let among : linked (root + 1 * 8) rs ≡ true =
                    Complete-has layout rs visits root 1 (inl refl) layout.last_plain (omega arith)
                      (omega arith) is in
                  absurd (ground arith)
            ] in
            swept.rest (root + 8) (omega arith) free none ∙ rw old refl
      ]

-- Where the young generation is a row of objects, and every reference in it into it leads to an object further down, a
-- collection ends, with any bound for its rounds from some number on. It gives back the root, with its reference set to
-- the new place; the objects that are kept are exactly those that can be reached from the root, with their words, the
-- references among them set to the new places; they keep their order, stand one behind the other, and nothing else takes
-- room; the older generation is as it was.
pub compact_lem :
    (realloc : Realloc) (h : Heap) (regs : ℕ) (Start : ℕ → Type 0)
    → Layout (rooted h regs).mem h.genstart h.fp Start
    → (row : Row (rooted h regs).mem Start h.fp h.genstart)
    → (enough : ℕ) × (live : ℕ → Bool) × (place : ℕ → ℕ) × ((rounds : ℕ)
        → enough ≤ rounds
        → (h' : Heap) × (compact realloc rounds h regs ≡ some (forward h.genstart place regs, h'))
          × (h'.begin ≡ h.begin)
          × (h'.end ≡ h.end)
          × (h'.genstart ≡ h.genstart)
          × Collected row live place h')
unfolding compact
compact_lem realloc h regs Start layout row =
    let h0 : Heap = rooted h regs in
    let (rs, visits) = Visits-total layout (suc h.fp) h.fp 1 [] (omega arith) (Ready-root layout) in
    let (k, marked) = mark-Visits h0 layout visits (Ready-root layout) in
    let ok = visited layout rs visits in
    let place = destination h0.mem Start h.fp rs row h.genstart in
    (
      k + (count row + length rs + 2),
      λ c. has h0.mem c rs,
      place,
      λ rounds le.
          let y = rounds - k - 1 in
          let mark_run : mark rounds h0 (h.fp + wsize) h.fp ≡ some (threads h0 rs) =
            same_mark h0 rounds (k + suc y) (h.fp + wsize) (h.fp + 1 * 8) h.fp (omega arith)
              (omega arith)
            ∙ marked (suc y) (omega arith)
            ∙ mark-end y (threads h0 rs) h.fp in
          let (mem, sweep_run, swept) =
            sweep-Swept layout rs ok place row h.genstart (threads h0 rs)
              (Places-destination layout rs ok row h.genstart)
              (Swept-start layout rs place ok (row_aligned layout row)) rounds (omega arith) in
          let end = extent h0.mem Start h.fp rs row h.genstart in
          let h' : Heap = record h0 { mem = mem; fp = end } in
          let root : mem (h.fp + wsize) ≡ forward h.genstart place regs =
            root-word layout rs visits place end mem swept
            ∙ ap (forward h.genstart place) {y = regs} (rw (==_refl (h.fp + wsize)) refl) in
          (
            h',
            rw (compact, mark_run, sweep_run, root) refl,
            refl,
            refl,
            refl,
            Collected-Swept layout row rs visits h' place swept refl
                (Places-destination layout rs ok row h.genstart),
          ),
    )
