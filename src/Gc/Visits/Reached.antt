-- ===== src/Gc/Visits/Reached.antt =====
-- What a visit of `mark` (src/olvm.c) threads: all fields of the objects that it enters, and nothing but what can be reached.
use ol.Common.{
  ℕ, suc, ◌+◌, ◌-◌, ◌*◌, ◌≤◌, ◌<◌, ◌≡◌, ◌⊎◌, inl, inr, true, false, List, ◌==◌, arith, Bool-cases,
  ==_refl,
}
use ol.Word.{is_rawobject, hdrsize}
use ol.Gc.Threads.{young, Layout, linked, has}
use ol.Gc.Visits.{Visits, none, skip, again, enter, Ready, Ready-push, Ready-enter}
use ol.Gc.Visits.Keeps.{Ready-skip, Ready-after, Visits-Kept}

-- an object of the young generation to which a path of fields leads from the root
pub data Reach (m : ℕ → ℕ) (g root : ℕ) : ℕ → Type 0 where
  top : Reach m g root root
  field :
      (b i : ℕ)
      → Reach m g root b
      → is_rawobject (m b) ≡ false
      → 1 ≤ i
      → i < hdrsize (m b)
      → young g (m (b + i * 8)) ≡ true
      → Reach m g root (m (b + i * 8))

-- every reference of the object into the young generation is threaded, up to the field `n`
abbrev pub Complete : (ℕ → ℕ) → ℕ → ℕ → ℕ → List ℕ → Type 0
Complete m g b n rs =
    (i : ℕ) → 1 ≤ i → i ≤ n → young g (m (b + i * 8)) ≡ true → linked (b + i * 8) rs ≡ true

module _ {m : ℕ → ℕ} {g root : ℕ} {Start : ℕ → Type 0} (layout : Layout m g root Start) where
  pub Visits-Complete :
      {b n : ℕ} {rs rs' : List ℕ}
      → Visits m g b n rs rs'
      → Ready m g root Start b n rs
      → Complete m g b n rs'
        × ((c : ℕ)
            → is_rawobject (m c) ≡ false
            → has m c rs' ≡ true
            → (has m c rs ≡ true) ⊎ Complete m g c (hdrsize (m c) - 1) rs')
  Visits-Complete none ready = (λ i lo hi is. absurd (omega arith), λ c plain pointed. inl pointed)
  Visits-Complete (skip {b} {n} {rs} {rs'} out v) ready =
      let (own, others) = Visits-Complete v (Ready-skip layout b n rs ready) in
      (
        λ i lo hi is. elim (Bool-cases (i == suc n)) [
          | inl same ↦
              let e : i ≡ suc n = ground arith in
              let is' : young g (m (b + suc n * 8)) ≡ true = rw e at is in absurd (ground arith)
          | inr other ↦ own i lo (ground arith) is
        ],
        others,
      )
  Visits-Complete (again {b} {n} {rs} {rs'} is seen v) ready =
      let pushed = Ready-push layout ready is in
      let kept = Visits-Kept layout v pushed in
      let (own, others) = Visits-Complete v pushed in
      let here = kept.still_linked (b + suc n * 8) (ground (arith, ==_refl (b + suc n * 8))) in
      (
        λ i lo hi young_i. elim (Bool-cases (i == suc n)) [
          | inl same ↦ let e : i ≡ suc n = ground arith in rw e here
          | inr other ↦ own i lo (ground arith) young_i
        ],
        λ c plain pointed. elim (others c plain pointed) [
          | inr complete ↦ inr complete
          | inl was ↦ elim (Bool-cases (m (b + suc n * 8) == c)) [
            | inr other ↦ inl (ground arith)
            | inl same ↦
                let e : m (b + suc n * 8) ≡ c = ground arith in
                let plain' : is_rawobject (m (m (b + suc n * 8))) ≡ false = rw e plain in
                inl (rw⁻¹ e (ground arith))
          ]
        ],
      )
  Visits-Complete (enter {b} {n} {rs} {rs1} {rs'} is new v w) ready =
      let inside = Ready-enter layout ready is new in
      let inner = Visits-Kept layout v inside in
      let after = Ready-after layout b n rs rs1 ready is inner in
      let outer = Visits-Kept layout w after in
      let (own1, others1) = Visits-Complete v inside in
      let (own2, others2) = Visits-Complete w after in
      let here =
        outer.still_linked (b + suc n * 8)
          (inner.still_linked (b + suc n * 8) (ground (arith, ==_refl (b + suc n * 8)))) in
      (
        λ i lo hi young_i. elim (Bool-cases (i == suc n)) [
          | inl same ↦ let e : i ≡ suc n = ground arith in rw e here
          | inr other ↦ own2 i lo (ground arith) young_i
        ],
        λ c plain pointed. elim (others2 c plain pointed) [
          | inr complete ↦ inr complete
          | inl was ↦ elim (others1 c plain was) [
            | inr complete ↦
                inr (λ i lo hi young_i. outer.still_linked (c + i * 8) (complete i lo hi young_i))
            | inl before ↦ elim (Bool-cases (m (b + suc n * 8) == c)) [
              | inr other ↦ inl (ground arith)
              | inl same ↦
                  let e : m (b + suc n * 8) ≡ c = ground arith in
                  inr (
                    rw⁻¹ e (λ i lo hi young_i.
                      outer.still_linked (m (b + suc n * 8) + i * 8) (own1 i lo hi young_i)))
            ]
          ]
        ],
      )

  pub Visits-Reach :
      {b n : ℕ} {rs rs' : List ℕ}
      → Visits m g b n rs rs'
      → Ready m g root Start b n rs
      → Reach m g root b
      → (c : ℕ) → has m c rs' ≡ true
      → (has m c rs ≡ true) ⊎ Reach m g root c
  Visits-Reach none ready reached c pointed = inl pointed
  Visits-Reach (skip {b} {n} {rs} out v) ready reached c pointed =
      Visits-Reach v (Ready-skip layout b n rs ready) reached c pointed
  Visits-Reach (again {b} {n} {rs} is seen v) ready reached c pointed =
      let inside = ready.inside in
      let target = field b (suc n) reached ready.fields (omega arith) inside is in
      elim (Visits-Reach v (Ready-push layout ready is) reached c pointed) [
        | inr found ↦ inr found
        | inl was ↦ elim (Bool-cases (m (b + suc n * 8) == c)) [
          | inl same ↦ let e : m (b + suc n * 8) ≡ c = ground arith in inr (rw⁻¹ e target)
          | inr other ↦ inl (ground arith)
        ]
      ]
  Visits-Reach (enter {b} {n} {rs} {rs1} is new v w) ready reached c pointed =
      let enters = Ready-enter layout ready is new in
      let after = Ready-after layout b n rs rs1 ready is (Visits-Kept layout v enters) in
      let target = field b (suc n) reached ready.fields (omega arith) ready.inside is in
      elim (Visits-Reach w after reached c pointed) [
        | inr found ↦ inr found
        | inl was ↦ elim (Visits-Reach v enters target c was) [
          | inr found ↦ inr found
          | inl before ↦ elim (Bool-cases (m (b + suc n * 8) == c)) [
            | inl same ↦ let e : m (b + suc n * 8) ≡ c = ground arith in inr (rw⁻¹ e target)
            | inr other ↦ inl (ground arith)
          ]
        ]
      ]
