-- ===== src/Gc/Chase.antt =====
-- `chase` (src/olvm.c) along the thread of an object ends at the slot that was threaded first.
use ol.Common.{
  ℕ, zero, suc, ◌%◌, ◌≤◌, ◌<◌, ◌≡◌, inl, inr, refl, ◌∙◌, true, false, List, [], ◌∷◌, length, some,
  ◌==◌, arith, bit_or, Bool-cases, ==_refl,
}
use ol.Word.{is_reference}
use ol.Heap.{Heap}
use ol.Gc.{is_flagged, unflag, chase}
use ol.Gc.Flags.{mark-sum, is_flagged-odd, is_reference-bit}
use ol.Gc.Threads.{Layout, linked, has, before, link, first, Threaded, Slot-aligned}

-- the slots hold the links of the threads
abbrev pub Agrees : (ℕ → ℕ) → (ℕ → ℕ) → List ℕ → Type 0
Agrees m mem ts = (q : ℕ) → linked q ts ≡ true → mem q ≡ link m (m q) (before q ts)

pub Agrees-tail :
    (m mem : ℕ → ℕ) (x : ℕ) (ts : List ℕ)
    → linked x ts ≡ false
    → Agrees m mem (x ∷ ts)
    → Agrees m mem ts
Agrees-tail m mem x ts new agrees q among = elim (Bool-cases (x == q)) [
  | inl same ↦
      let e : x ≡ q = ground arith in
      let no : linked q ts ≡ false = rw⁻¹ e new in absurd (ground arith)
  | inr other ↦ agrees q (rw (other, among)) ∙ rw other refl
]

pub link-none : (m : ℕ → ℕ) (b : ℕ) (ts : List ℕ) → has m b ts ≡ false → link m b ts ≡ m b
link-none m b [] none = refl
link-none m b (x ∷ ts) none = let rest = link-none m b ts (ground arith) in ground arith

-- a mark, as a slot's address with the lowest bit
pub record Mark (x : ℕ) : Type 0 where
  pub flagged : is_flagged x ≡ true
  pub reference : is_reference x ≡ true

pub Mark-slot : (q : ℕ) → q % 8 ≡ 0 → Mark (bit_or q 1) × (unflag (bit_or q 1) ≡ q)
Mark-slot q aligned =
    let sum = mark-sum q aligned in
    (
      record {
        flagged = rw (is_flagged-odd (bit_or q 1), sum) (ground arith);
        reference = rw (is_reference-bit (bit_or q 1), sum) (ground arith);
      },
      omega arith,
    )

module _ {m : ℕ → ℕ} {g root : ℕ} {Start : ℕ → Type 0} (layout : Layout m g root Start) where
  pub Mark-link :
      (ts : List ℕ) (b : ℕ)
      → Threaded m g Start ts
      → has m b ts ≡ true
      → Mark (link m b ts) × (g ≤ link m b ts)
  Mark-link [] b ok pointed = absurd (ground arith)
  Mark-link (x ∷ ts) b (slot, is, new, ok) pointed = elim (Bool-cases (m x == b)) [
    | inl here ↦
        let aligned = Slot-aligned layout x slot in
        let low = layout.low slot.owner slot.starts in
        let place = slot.place in
        let sum = mark-sum x aligned in rw here ((Mark-slot x aligned).0, omega arith)
    | inr there ↦ rw there (Mark-link ts b ok (ground arith))
  ]

  pub chase-first :
      (ts : List ℕ) (n : ℕ) (h : Heap) (b : ℕ)
      → Start b
      → Threaded m g Start ts
      → Agrees m h.mem ts
      → has m b ts ≡ true
      → length ts < n
      → chase n h (link m b ts) ≡ some (first m b ts)
  unfolding chase
  chase-first [] n h b start ok agrees pointed lt = absurd (ground arith)
  chase-first (x ∷ ts) zero h b start ok agrees pointed lt = absurd (omega arith)
  chase-first (x ∷ ts) (suc n) h b start (slot, is, new, ok) agrees pointed lt =
      let tail = Agrees-tail m h.mem x ts new agrees in
      elim (Bool-cases (m x == b)) [
        | inl here ↦
            let (mark, back) = Mark-slot x (Slot-aligned layout x slot) in
            let e : m x ≡ b = ground arith in
            let next : h.mem x ≡ link m b ts =
              agrees x (ground (arith, ==_refl x)) ∙ rw (==_refl x, e) refl in
            elim (Bool-cases (has m b ts)) [
              | inl more ↦
                  let (mark', low) = Mark-link ts b ok more in
                  rw (here, chase, back, next, mark'.reference, mark'.flagged, more)
                    (chase-first ts n h b start ok tail more (omega arith))
              | inr none ↦
                  rw (here, chase, back, next, link-none m b ts none, layout.plain b start, none)
                    refl
            ]
        | inr there ↦
            let more : has m b ts ≡ true = ground arith in
            rw (there, more) (chase-first ts (suc n) h b start ok tail more (omega arith))
      ]
