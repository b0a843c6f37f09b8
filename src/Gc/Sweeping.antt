-- ===== src/Gc/Sweeping.antt =====
-- The heap in the midst of `sweep` (src/olvm.c): the objects before `old` that are pointed to stand at their new places,
-- with their pointers set, and from `old` on the threads that are left are as `mark` made them.
pub mod Live
use ol.Common.{
  ℕ, zero, suc, ◌+◌, ◌-◌, ◌*◌, ◌%◌, ◌≤◌, ◌<◌, ◌≡◌, ◌≢◌, ◌⊎◌, inl, inr, refl, ◌∙◌, sym, ap, Bool,
  true, false, ◌&&◌, ◌||◌, List, [], ◌∷◌, length, some, ◌==◌, ltb, if◌then◌else◌, arith, Bool-cases,
  ==_refl, ne→==_false,
}
use ol.Word.{hdrsize}
use ol.Heap.{Heap}
use ol.Gc.{sweep_step}
use ol.Gc.Threads.{
  young, Layout, Slot, linked, has, before, link, Threaded, start-Slot, Slot-target, linked-Slot,
}
use ol.Gc.Unthread.{turned}
use ol.Gc.Slide.{sweep_step_lem, sweep_step-skip}

-- a word with its pointer set to the new place
abbrev pub settled : (ℕ → ℕ) → (ℕ → ℕ) → List ℕ → ℕ → ℕ
settled place m rs x = if linked x rs then place (m x) else m x

pub record Swept (m : ℕ → ℕ) (g : ℕ) (Start : ℕ → Type 0) (place : ℕ → ℕ) (rs : List ℕ)
    (old new : ℕ) (mem : ℕ → ℕ) : Type 0 where
  pub heads : (c : ℕ) → Start c → old ≤ c → mem c ≡ link m c rs
  pub links :
      (q : ℕ) → linked q rs ≡ true → old ≤ q → old ≤ m q → mem q ≡ link m (m q) (before q rs)
  pub moved : (q : ℕ) → linked q rs ≡ true → old ≤ q → m q < old → mem q ≡ place (m q)
  pub rest : (x : ℕ) → old ≤ x → linked x rs ≡ false → has m x rs ≡ false → mem x ≡ m x
  pub placed :
      (c i : ℕ)
      → Start c
      → has m c rs ≡ true
      → c < old
      → i < hdrsize (m c)
      → mem (place c + i * 8) ≡ settled place m rs (c + i * 8)
  pub room : (c : ℕ) → Start c → has m c rs ≡ true → c < old → place c + hdrsize (m c) * 8 ≤ new
  pub bounds :
      (c : ℕ)
      → Start c
      → has m c rs ≡ true
      → c < old
      → (g ≤ place c) × (place c ≤ c) × (place c % 8 ≡ 0)
  pub ordered :
      (c d : ℕ)
      → Start c
      → Start d
      → has m c rs ≡ true
      → has m d rs ≡ true
      → c < d
      → d < old
      → place c + hdrsize (m c) * 8 ≤ place d
  pub frame : (x : ℕ) → x < g → mem x ≡ m x
  pub lower : new ≤ old
  pub base : g ≤ new
  pub even : new % 8 ≡ 0

module _ {m : ℕ → ℕ} {g root : ℕ} {Start : ℕ → Type 0} (layout : Layout m g root Start)
    (rs : List ℕ) (ok : Threaded m g Start rs) where
  pub start-unlinked : (c : ℕ) → Start c → linked c rs ≡ false
  start-unlinked c start = elim (Bool-cases (linked c rs)) [
    | inl among ↦ absurd (start-Slot layout c c start (linked-Slot layout rs c ok among).0 refl)
    | inr free ↦ free
  ]

  -- what a slot points to lies below it
  pub linked-lower :
      (q : ℕ) → linked q rs ≡ true → Start (m q) × (m q + hdrsize (m (m q)) * 8 ≤ q) × (m q < q)
  linked-lower q among =
      let (slot, is) = linked-Slot layout rs q ok among in
      let (start, lower) = Slot-target layout q slot is in
      let some_words = layout.nonempty (m q) start in (start, lower, omega arith)

  pub linked-has : (ts : List ℕ) (q : ℕ) → linked q ts ≡ true → has m (m q) ts ≡ true
  linked-has [] q among = absurd (ground arith)
  linked-has (x ∷ ts) q among = elim (Bool-cases (x == q)) [
    | inl same ↦ let e : x ≡ q = ground arith in rw e (ground (arith, ==_refl (m q)))
    | inr other ↦ let rest = linked-has ts q (ground arith) in ground arith
  ]

  pub has-Start : (ts : List ℕ) (c : ℕ) → Threaded m g Start ts → has m c ts ≡ true → Start c
  has-Start [] c ok pointed = absurd (ground arith)
  has-Start (q ∷ ts) c (slot, is, new, ok) pointed = elim (Bool-cases (m q == c)) [
    | inl same ↦ let e : m q ≡ c = ground arith in rw⁻¹ e (Slot-target layout q slot is).0
    | inr other ↦ has-Start ts c ok (ground arith)
  ]

  -- no word of an object but its first is the start of one
  pub body-unpointed :
      (a i : ℕ) → Start a → 1 ≤ i → i < hdrsize (m a) → has m (a + i * 8) rs ≡ false
  body-unpointed a i start lo hi = elim (Bool-cases (has m (a + i * 8) rs)) [
    | inr none ↦ none
    | inl pointed ↦
        let clear = layout.apart a (a + i * 8) start (has-Start rs (a + i * 8) ok pointed) in
        absurd (ground arith)
  ]

  pub start-cases :
      (a c : ℕ) → Start a → Start c → (c < a) ⊎ ((c ≡ a) ⊎ (a + hdrsize (m a) * 8 ≤ c))
  start-cases a c sa sc = let clear = layout.apart a c sa sc in ground arith

  module _ (place : ℕ → ℕ) (a new : ℕ) (h : Heap) (start : Start a)
      (swept : Swept m g Start place rs a new h.mem) where
    -- an object that nothing points to is passed over
    pub Swept-skip : has m a rs ≡ false → Swept m g Start place rs (a + hdrsize (m a) * 8) new h.mem
    Swept-skip unseen =
        let some_words = layout.nonempty a start in
        let live : (c : ℕ) → Start c → has m c rs ≡ true → c < a + hdrsize (m a) * 8 → c < a =
          λ c sc pointed lt. elim (start-cases a c start sc) [
            | inl below ↦ below
            | inr (inl same) ↦ let no : has m c rs ≡ false = rw same unseen in absurd (ground arith)
            | inr (inr above) ↦ absurd (omega arith)
          ] in
        record {
          heads = λ c sc le. swept.heads c sc (omega arith);
          links = λ q among le le'. swept.links q among (omega arith) (omega arith);
          moved = λ q among le lt.
              let (there, lower, less) = linked-lower q among in
              swept.moved q among (omega arith) (live (m q) there (linked-has rs q among) lt);
          rest = λ x le free none. swept.rest x (omega arith) free none;
          placed = λ c i sc pointed lt hi. swept.placed c i sc pointed (live c sc pointed lt) hi;
          room = λ c sc pointed lt. swept.room c sc pointed (live c sc pointed lt);
          bounds = λ c sc pointed lt. swept.bounds c sc pointed (live c sc pointed lt);
          ordered = λ c d sc sd pc pd lt lt'. swept.ordered c d sc sd pc pd lt (live d sd pd lt');
          frame = swept.frame;
          lower = let le = swept.lower in omega arith;
          base = swept.base;
          even = swept.even;
        }
