-- ===== src/Gc/Visits.antt =====
-- The order in which `mark` (src/olvm.c) passes the slots: the fields of an object from the last to the first, and the
-- fields of an object that is met for the first time in the midst of them.
pub mod Keeps
pub mod Reached
use ol.Common.{
  ℕ, zero, suc, ◌+◌, ◌-◌, ◌*◌, ◌≤◌, ◌<◌, ◌≡◌, ◌≢◌, ◌⊎◌, inl, inr, refl, ◌∙◌, sym, ap, Bool, true,
  false, ◌||◌, List, [], ◌∷◌, length, ◌==◌, if◌then◌else◌, arith, Bool-cases, ==_refl,
}
use ol.Word.{is_rawobject, hdrsize}
use ol.Gc.Threads.{young, Layout, Slot, linked, has, first, Threaded, same_owner}

-- From the field `n` of the object at `b` down to its first, the slots threaded before and after.
pub data Visits (m : ℕ → ℕ) (g : ℕ) : ℕ → ℕ → List ℕ → List ℕ → Type 0 where
  none : {b : ℕ} {rs : List ℕ} → Visits m g b 0 rs rs
  skip :
      {b n : ℕ} {rs rs' : List ℕ}
      → young g (m (b + suc n * 8)) ≡ false
      → Visits m g b n rs rs'
      → Visits m g b (suc n) rs rs'
  again :
      {b n : ℕ} {rs rs' : List ℕ}
      → young g (m (b + suc n * 8)) ≡ true
      → (is_rawobject (m (m (b + suc n * 8))) || has m (m (b + suc n * 8)) rs) ≡ true
      → Visits m g b n ((b + suc n * 8) ∷ rs) rs'
      → Visits m g b (suc n) rs rs'
  enter :
      {b n : ℕ} {rs rs1 rs' : List ℕ}
      → young g (m (b + suc n * 8)) ≡ true
      → (is_rawobject (m (m (b + suc n * 8))) || has m (m (b + suc n * 8)) rs) ≡ false
      → Visits m g
          (m (b + suc n * 8))
          (hdrsize (m (m (b + suc n * 8))) - 1)
          ((b + suc n * 8) ∷ rs)
          rs1
      → Visits m g b n rs1 rs'
      → Visits m g b (suc n) rs rs'

-- a slot is threaded only after its object has been entered
abbrev pub Owned : (ℕ → ℕ) → ℕ → (ℕ → Type 0) → List ℕ → Type 0
Owned m root Start rs =
    (c i : ℕ)
    → Start c
    → 1 ≤ i
    → i < hdrsize (m c)
    → linked (c + i * 8) rs ≡ true
    → (has m c rs ≡ true) ⊎ (c ≡ root)

-- `mark` stands at the field `n` of an object that it has entered
pub record Ready (m : ℕ → ℕ) (g root : ℕ) (Start : ℕ → Type 0) (b n : ℕ) (rs : List ℕ)
    : Type 0 where
  pub start : Start b
  pub fields : is_rawobject (m b) ≡ false
  pub inside : n < hdrsize (m b)
  pub threaded : Threaded m g Start rs
  pub owned : Owned m root Start rs
  pub entered : (has m b rs ≡ true) ⊎ (b ≡ root)
  pub unlinked : (i : ℕ) → 1 ≤ i → i ≤ n → linked (b + i * 8) rs ≡ false

-- what is so after the visit of slots below an address
pub record Kept (m : ℕ → ℕ) (g root : ℕ) (Start : ℕ → Type 0) (limit : ℕ) (rs rs' : List ℕ)
    : Type 0 where
  pub threaded : Threaded m g Start rs'
  pub owned : Owned m root Start rs'
  pub above : (q : ℕ) → limit ≤ q → linked q rs' ≡ linked q rs
  pub still_has : (c : ℕ) → has m c rs ≡ true → has m c rs' ≡ true
  pub same_first : (c : ℕ) → has m c rs ≡ true → first m c rs' ≡ first m c rs
  pub still_linked : (q : ℕ) → linked q rs ≡ true → linked q rs' ≡ true
  pub longer : length rs ≤ length rs'

module _ {m : ℕ → ℕ} {g root : ℕ} {Start : ℕ → Type 0} (layout : Layout m g root Start) where
  pub field_target :
      (b i : ℕ)
      → Start b
      → is_rawobject (m b) ≡ false
      → 1 ≤ i
      → i < hdrsize (m b)
      → young g (m (b + i * 8)) ≡ true
      → Start (m (b + i * 8)) × (m (b + i * 8) + hdrsize (m (m (b + i * 8))) * 8 ≤ b)
  field_target b i start plain lo hi is =
      let (there, lower) = layout.target b i start plain lo hi is in
      (there, layout.apart (m (b + i * 8)) b there start lower)

  module _ {b n : ℕ} {rs : List ℕ} (ready : Ready m g root Start b (suc n) rs)
      (is : young g (m (b + suc n * 8)) ≡ true) where
    abbrev slot : ℕ
    slot = b + suc n * 8

    Owned-push : Owned m root Start (slot ∷ rs)
    Owned-push c i start lo hi among = elim (Bool-cases (slot == c + i * 8)) [
      | inl here ↦
          let same =
            same_owner layout b c (suc n) i ready.start start (omega arith) ready.inside lo hi
              (ground arith) in
          elim (ready.entered) [
            | inl pointed ↦ inl (rw⁻¹ same (ground arith))
            | inr top ↦ inr (sym same ∙ top)
          ]
      | inr there ↦ elim (ready.owned c i start lo hi (ground arith)) [
        | inl pointed ↦ inl (ground arith)
        | inr top ↦ inr top
      ]
    ]

    pub Ready-push : Ready m g root Start b n (slot ∷ rs)
    Ready-push = record {
      start = ready.start;
      fields = ready.fields;
      inside = let lt = ready.inside in omega arith;
      threaded = (
        record {
          owner = b;
          index = suc n;
          starts = ready.start;
          fields = ready.fields;
          positive = omega arith;
          inside = ready.inside;
          place = refl;
        },
        is,
        ready.unlinked (suc n) (omega arith) (omega arith),
        ready.threaded,
      );
      owned = Owned-push;
      entered = elim (ready.entered) [ inl pointed ↦ inl (ground arith) | inr top ↦ inr top ];
      unlinked = λ i lo hi. let rest = ready.unlinked i lo (omega arith) in ground arith;
    }

    -- what has been visited from there has been visited from here
    pub Kept-push :
        (rs' : List ℕ)
        → Kept m g root Start (b + suc n * 8) (slot ∷ rs) rs'
        → Kept m g root Start (b + suc (suc n) * 8) rs rs'
    Kept-push rs' kept = record {
      threaded = kept.threaded;
      owned = kept.owned;
      above = λ q le. kept.above q (omega arith) ∙ ground arith;
      still_has = λ c pointed. kept.still_has c (ground arith);
      same_first = λ c pointed. kept.same_first c (ground arith) ∙ rw pointed refl;
      still_linked = λ q among. kept.still_linked q (ground arith);
      longer = let le = kept.longer in omega arith;
    }

    -- the object that the slot points to, where it is entered
    pub Ready-enter :
        (is_rawobject (m (m slot)) || has m (m slot) rs) ≡ false
        → Ready m g root Start (m slot) (hdrsize (m (m slot)) - 1) (slot ∷ rs)
    Ready-enter new =
        let (start, lower) =
          field_target b (suc n) ready.start ready.fields (omega arith) ready.inside is in
        let some = layout.nonempty (m slot) start in
        let high = layout.high b ready.start in
        let pushed = Ready-push in
        record {
          start = start;
          fields = ground arith;
          inside = omega arith;
          threaded = pushed.threaded;
          owned = pushed.owned;
          entered = inl (rw (==_refl (m slot)) refl);
          unlinked = λ i lo hi. elim (Bool-cases (linked (m slot + i * 8) rs)) [
            | inl among ↦ elim (ready.owned (m slot) i start lo (omega arith) among) [
              | inl pointed ↦ absurd (ground arith)
              | inr top ↦ absurd (omega arith)
            ]
            | inr free ↦ ground arith
          ];
        }
