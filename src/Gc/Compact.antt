-- ===== src/Gc/Compact.antt =====
-- `mark` and `sweep` together (src/olvm.c, `gc`): a collection keeps what can be reached, and nothing else.
pub mod Collected
pub mod Collect
use ol.Common.{
  ℕ, zero, suc, ◌+◌, ◌-◌, ◌*◌, ◌%◌, ◌≤◌, ◌<◌, ◌≡◌, ◌≢◌, ◌⊎◌, ◌↔◌, inl, inr, refl, ◌∙◌, sym, ap,
  Bool, true, false, List, [], ◌∷◌, length, some, ◌==◌, if◌then◌else◌, arith, Bool-cases, ==_refl,
  ne→==_false,
}
use ol.Word.{wsize, make_header, is_rawobject, hdrsize}
use ol.Word.Types.{ttuple}
use ol.Heap.{Heap, load, store}
use ol.Gc.{mark, sweep}
use ol.Gc.Resize.{compact}
use ol.Gc.Threads.{
  young, Layout, Slot, linked, has, view, Threaded, view-start, view-Slot, view-other, linked-Slot,
  same_owner,
}
use ol.Gc.Visits.{Visits, Ready, Kept}
use ol.Gc.Visits.Keeps.{Visits-total, Visits-Kept}
use ol.Gc.Visits.Reached.{Reach, top, field, Complete, Visits-Complete, Visits-Reach}
use ol.Gc.Marking.{threads}
use ol.Gc.Marking.Run.{mark-Visits}
use ol.Gc.Sweeping.{settled, Swept, start-unlinked, linked-lower, linked-has, has-Start}
use ol.Gc.Rows.{Row, count, destination, extent, Places-destination, sweep-Swept}

pub mark-end : (n : ℕ) (h : Heap) (pos : ℕ) → mark (suc n) h pos pos ≡ some h
unfolding mark
mark-end n h pos = rw (mark, ==_refl pos) refl

module _ {m : ℕ → ℕ} {g root : ℕ} {Start : ℕ → Type 0} (layout : Layout m g root Start) where
  pub Ready-root : Ready m g root Start root 1 []
  Ready-root = record {
    start = layout.last;
    fields = layout.last_plain;
    inside = let size = layout.last_size in omega arith;
    threaded = tt;
    owned = λ c i start lo hi among. absurd (ground arith);
    entered = inr refl;
    unlinked = λ i lo hi. refl;
  }

  -- before `sweep` has moved anything
  pub Swept-start :
      (rs : List ℕ) (place : ℕ → ℕ)
      → Threaded m g Start rs
      → g % 8 ≡ 0
      → Swept m g Start place rs g g (view m rs)
  Swept-start rs place ok even = record {
    heads = λ c start le. view-start layout rs c ok start;
    links = λ q among le le'. view-Slot layout rs q ok among (linked-Slot layout rs q ok among).0;
    moved = λ q among le lt.
        let (there, lower, less) = linked-lower layout rs ok q among in
        let low = layout.low (m q) there in absurd (omega arith);
    rest = λ x le free none. view-other layout rs x ok free none;
    placed = λ c i start pointed lt hi. let low = layout.low c start in absurd (omega arith);
    room = λ c start pointed lt. let low = layout.low c start in absurd (omega arith);
    bounds = λ c start pointed lt. let low = layout.low c start in absurd (omega arith);
    ordered = λ c d start sd pc pd less lt. let low = layout.low d sd in absurd (omega arith);
    frame = λ x lt.
        view-other layout rs x ok
          (elim (Bool-cases (linked x rs)) [
            | inr free ↦ free
            | inl among ↦
                let (there, lower, less) = linked-lower layout rs ok x among in
                let low = layout.low (m x) there in absurd (omega arith)
          ])
          (elim (Bool-cases (has m x rs)) [
            | inr none ↦ none
            | inl pointed ↦
                let low = layout.low x (has-Start layout rs ok rs x ok pointed) in
                absurd (omega arith)
          ]);
    lower = omega arith;
    base = omega arith;
    even = even;
  }

  module _ (rs : List ℕ) (visits : Visits m g root 1 [] rs) where
    pub visited : Threaded m g Start rs
    visited = let kept = Visits-Kept layout visits Ready-root in kept.threaded

    pub has-Reach : (c : ℕ) → has m c rs ≡ true → Reach m g root c
    has-Reach c pointed = elim (Visits-Reach layout visits Ready-root top c pointed) [
      | inl never ↦ absurd (ground arith)
      | inr found ↦ found
    ]

    -- all references of an object that is kept are threaded
    pub Complete-has :
        (c i : ℕ)
        → (c ≡ root) ⊎ (has m c rs ≡ true)
        → is_rawobject (m c) ≡ false
        → 1 ≤ i
        → i < hdrsize (m c)
        → young g (m (c + i * 8)) ≡ true
        → linked (c + i * 8) rs ≡ true
    Complete-has c i (inl at_root) plain lo hi is =
        let (own, others) = Visits-Complete layout visits Ready-root in
        let size = layout.last_size in
        let hi' : i < hdrsize (m root) = rw at_root at hi in
        let is' : young g (m (root + i * 8)) ≡ true = rw at_root at is in
        rw at_root (own i lo (omega arith) is')
    Complete-has c i (inr pointed) plain lo hi is =
        let (own, others) = Visits-Complete layout visits Ready-root in
        elim (others c plain pointed) [
          | inl never ↦ absurd (ground arith)
          | inr complete ↦ complete i lo (omega arith) is
        ]

    pub Reach-has : (c : ℕ) → Reach m g root c → (c ≡ root) ⊎ (has m c rs ≡ true)
    Reach-has c top = inl refl
    Reach-has c (field b i reached plain lo hi is) = inr (
        linked-has layout rs visited rs (b + i * 8)
          (Complete-has b i (Reach-has b reached) plain lo hi is))

    -- the words of an object that is kept
    pub settled-word :
        (place : ℕ → ℕ) (c i : ℕ)
        → Start c
        → (c ≡ root) ⊎ (has m c rs ≡ true)
        → 1 ≤ i
        → i < hdrsize (m c)
        → settled place m rs (c + i * 8) ≡ (
            if is_rawobject (m c)
            then m (c + i * 8)
            else (if young g (m (c + i * 8)) then place (m (c + i * 8)) else m (c + i * 8)))
    settled-word place c i start kept lo hi = elim (Bool-cases (linked (c + i * 8) rs)) [
      | inl among ↦
          let (slot, is) = linked-Slot layout rs (c + i * 8) visited among in
          let one =
            same_owner layout c slot.owner i slot.index start slot.starts lo hi slot.positive
              slot.inside slot.place in
          let plain : is_rawobject (m c) ≡ false = rw one slot.fields in rw (among, plain, is) refl
      | inr free ↦ elim (Bool-cases (is_rawobject (m c))) [
        | inl raw ↦ rw (free, raw) refl
        | inr plain ↦ elim (Bool-cases (young g (m (c + i * 8)))) [
          | inr old ↦ rw (free, plain, old) refl
          | inl is ↦ let among = Complete-has c i kept plain lo hi is in absurd (ground arith)
        ]
      ]
    ]
