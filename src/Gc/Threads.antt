-- ===== src/Gc/Threads.antt =====
-- Threads of pointers: the heap of src/olvm.c in the midst of `mark`. Every slot that has been passed holds the next
-- slot of the thread of its object, or the object's header, and the object's first word holds the
-- last slot, marked.
use ol.Common.{
  ℕ, ◌+◌, ◌*◌, ◌%◌, ◌≤◌, ◌<◌, ◌≡◌, ◌≢◌, inl, inr, refl, Bool, true, false, ◌&&◌, ◌||◌, List, [],
  ◌∷◌, ◌==◌, leb, if◌then◌else◌, upd, arith, bit_or, Bool-cases, ==_refl, ne→==_false,
}
use ol.Word.{is_reference, is_rawobject, hdrsize}

-- a reference into the young generation
abbrev pub young : ℕ → ℕ → Bool
young g w = is_reference w && leb g w

-- What the collector relies on: objects start at the addresses `Start`, the last of them the pair of header and root
-- at `root`, and every reference into the young generation leads to an object that lies below.
pub record Layout (m : ℕ → ℕ) (g root : ℕ) (Start : ℕ → Type 0) : Type 0 where
  pub nonempty : (b : ℕ) → Start b → 1 ≤ hdrsize (m b)
  pub plain : (b : ℕ) → Start b → is_reference (m b) ≡ false
  pub unmarked : (b : ℕ) → Start b → m b % 2 ≡ 0
  pub aligned : (b : ℕ) → Start b → b % 8 ≡ 0
  pub low : (b : ℕ) → Start b → g ≤ b
  pub high : (b : ℕ) → Start b → b ≤ root
  pub last : Start root
  pub last_size : hdrsize (m root) ≡ 2
  pub last_plain : is_rawobject (m root) ≡ false
  pub apart : (b c : ℕ) → Start b → Start c → b < c → b + hdrsize (m b) * 8 ≤ c
  pub target :
      (b i : ℕ)
      → Start b
      → is_rawobject (m b) ≡ false
      → 1 ≤ i
      → i < hdrsize (m b)
      → young g (m (b + i * 8)) ≡ true
      → Start (m (b + i * 8)) × (m (b + i * 8) < b)

-- a field of an object that is not raw
pub record Slot (m : ℕ → ℕ) (Start : ℕ → Type 0) (q : ℕ) : Type 0 where
  pub owner : ℕ
  pub index : ℕ
  pub starts : Start owner
  pub fields : is_rawobject (m owner) ≡ false
  pub positive : 1 ≤ index
  pub inside : index < hdrsize (m owner)
  pub place : q ≡ owner + index * 8

-- is the slot among those threaded, and is one of them a pointer to the object
abbrev pub linked : ℕ → List ℕ → Bool
linked a [] = false
linked a (q ∷ rs) = q == a || linked a rs

abbrev pub has : (ℕ → ℕ) → ℕ → List ℕ → Bool
has m b [] = false
has m b (q ∷ rs) = m q == b || has m b rs

-- the slots threaded before
abbrev pub before : ℕ → List ℕ → List ℕ
before a [] = []
before a (q ∷ rs) = if q == a then rs else before a rs

-- the head of an object's thread, and the slot that was threaded first
abbrev pub link : (ℕ → ℕ) → ℕ → List ℕ → ℕ
link m b [] = m b
link m b (q ∷ rs) = if m q == b then bit_or q 1 else link m b rs

abbrev pub first : (ℕ → ℕ) → ℕ → List ℕ → ℕ
first m b [] = 0
first m b (q ∷ rs) = if has m b rs then first m b rs else q

-- the memory with the slots threaded, the last one in front
abbrev pub view : (ℕ → ℕ) → List ℕ → ℕ → ℕ
view m [] = m
view m (q ∷ rs) = upd (upd (view m rs) q (view m rs (m q))) (m q) (bit_or q 1)

-- slots that may be threaded, none twice
abbrev pub Threaded : (ℕ → ℕ) → ℕ → (ℕ → Type 0) → List ℕ → Type 0
Threaded m g Start [] = Unit
Threaded m g Start (q ∷ rs) =
    Slot m Start q × (young g (m q) ≡ true) × (linked q rs ≡ false) × Threaded m g Start rs

module _ {m : ℕ → ℕ} {g root : ℕ} {Start : ℕ → Type 0} (layout : Layout m g root Start) where
  open layout use {nonempty, aligned, apart, target, low, high}

  pub start-Slot : (c q : ℕ) → Start c → Slot m Start q → c ≢ q
  start-Slot c q start slot e =
      let left = apart c slot.owner start slot.starts in
      let right = apart slot.owner c slot.starts start in
      let place = slot.place in
      let inside = slot.inside in
      let positive = slot.positive in let some = nonempty c start in ground arith

  -- a slot has one owner
  pub same_owner :
      (b c i j : ℕ)
      → Start b
      → Start c
      → 1 ≤ i
      → i < hdrsize (m b)
      → 1 ≤ j
      → j < hdrsize (m c)
      → b + i * 8 ≡ c + j * 8
      → b ≡ c
  same_owner b c i j sb sc i1 ib j1 jc e =
      let left = apart b c sb sc in let right = apart c b sc sb in ground arith

  -- the object that a threaded slot points to
  pub Slot-target :
      (q : ℕ)
      → Slot m Start q
      → young g (m q) ≡ true
      → Start (m q) × (m q + hdrsize (m (m q)) * 8 ≤ q)
  Slot-target q slot is =
      let e = slot.place in
      let young_field : young g (m (slot.owner + slot.index * 8)) ≡ true = rw⁻¹ e is in
      let (start, lower) =
        target slot.owner slot.index slot.starts slot.fields slot.positive slot.inside
          young_field in
      let start' : Start (m q) = rw e start in
      let lower' : m q < slot.owner = rw e lower in
      let clear = apart (m q) slot.owner start' slot.starts lower' in (start', omega arith)

  pub Slot-aligned : (q : ℕ) → Slot m Start q → q % 8 ≡ 0
  Slot-aligned q slot = let a = aligned slot.owner slot.starts in let e = slot.place in omega arith

  -- a start holds the head of its thread
  pub view-start :
      (rs : List ℕ) (b : ℕ) → Threaded m g Start rs → Start b → view m rs b ≡ link m b rs
  view-start [] b ok start = refl
  view-start (q ∷ rs) b (slot, is, new, ok) start =
      let rest = view-start rs b ok start in let other = start-Slot b q start slot in ground arith

  -- a slot holds what the start held before
  pub view-Slot :
      (rs : List ℕ) (q : ℕ)
      → Threaded m g Start rs
      → linked q rs ≡ true
      → Slot m Start q
      → view m rs q ≡ link m (m q) (before q rs)
  view-Slot [] q ok among slot = absurd (ground arith)
  view-Slot (x ∷ rs) q (slot_x, is, new, ok) among slot =
      let (start, lower) = Slot-target x slot_x is in
      let not_start = start-Slot (m x) q start slot in
      elim (Bool-cases (x == q)) [
        | inl here ↦
            let e : x ≡ q = ground arith in
            let head = view-start rs (m x) ok start in
            let some = nonempty (m x) start in
            let self = ==_refl x in rw⁻¹ e (rw (self, ne→==_false (m x) x (omega arith)) head)
        | inr there ↦ let rest = view-Slot rs q ok (ground arith) slot in ground arith
      ]

  -- any other word is as it was
  pub view-other :
      (rs : List ℕ) (a : ℕ)
      → Threaded m g Start rs
      → linked a rs ≡ false
      → has m a rs ≡ false
      → view m rs a ≡ m a
  view-other [] a ok out none = refl
  view-other (q ∷ rs) a (slot, is, new, ok) out none =
      let rest = view-other rs a ok (ground arith) (ground arith) in ground arith

  -- a slot that is not threaded is as it was
  pub view-unlinked :
      (rs : List ℕ) (a : ℕ)
      → Threaded m g Start rs
      → linked a rs ≡ false
      → Slot m Start a
      → view m rs a ≡ m a
  view-unlinked [] a ok out slot = refl
  view-unlinked (q ∷ rs) a (slot_q, is, new, ok) out slot =
      let rest = view-unlinked rs a ok (ground arith) slot in
      let (start, lower) = Slot-target q slot_q is in
      let other = start-Slot (m q) a start slot in ground arith

  pub linked-Slot :
      (rs : List ℕ) (a : ℕ)
      → Threaded m g Start rs
      → linked a rs ≡ true
      → Slot m Start a × (young g (m a) ≡ true)
  linked-Slot [] a ok among = absurd (ground arith)
  linked-Slot (q ∷ rs) a (slot, is, new, ok) among = elim (Bool-cases (q == a)) [
    | inl here ↦ let e : q ≡ a = ground arith in rw⁻¹ e (slot, is)
    | inr there ↦ linked-Slot rs a ok (ground arith)
  ]
