-- ===== src/Gc/Visits/Keeps.antt =====
-- Every visit of `mark` (src/olvm.c) ends, keeps what is threaded, and is complete.
use ol.Common.{
  ℕ, zero, suc, ◌+◌, ◌-◌, ◌*◌, ◌≤◌, ◌<◌, ◌≡◌, inl, inr, refl, ◌∙◌, true, ◌||◌, List, ◌∷◌, arith,
  Bool-cases,
}
use ol.Word.{is_rawobject, hdrsize}
use ol.Gc.Threads.{young, Layout, has, Threaded}
use ol.Gc.Visits.{
  Visits, none, skip, again, enter, Owned, Ready, Kept, field_target, Ready-push, Kept-push,
  Ready-enter,
}

module _ {m : ℕ → ℕ} {g root : ℕ} {Start : ℕ → Type 0} (layout : Layout m g root Start) where
  pub Ready-skip :
      (b n : ℕ) (rs : List ℕ) → Ready m g root Start b (suc n) rs → Ready m g root Start b n rs
  Ready-skip b n rs ready = record {
    start = ready.start;
    fields = ready.fields;
    inside = let lt = ready.inside in omega arith;
    threaded = ready.threaded;
    owned = ready.owned;
    entered = ready.entered;
    unlinked = λ i lo hi. ready.unlinked i lo (omega arith);
  }

  -- after the object that a slot points to, the rest of the fields
  pub Ready-after :
      (b n : ℕ) (rs rs1 : List ℕ)
      → (ready : Ready m g root Start b (suc n) rs) → (is : young g (m (b + suc n * 8)) ≡ true)
      → Kept m g root Start
          (m (b + suc n * 8) + suc (hdrsize (m (m (b + suc n * 8))) - 1) * 8)
          ((b + suc n * 8) ∷ rs)
          rs1
      → Ready m g root Start b n rs1
  Ready-after b n rs rs1 ready is kept =
      let pushed = Ready-push layout ready is in
      let (start, lower) =
        field_target layout b (suc n) ready.start ready.fields (omega arith) ready.inside is in
      let some = layout.nonempty (m (b + suc n * 8)) start in
      record {
        start = ready.start;
        fields = ready.fields;
        inside = pushed.inside;
        threaded = kept.threaded;
        owned = kept.owned;
        entered = elim (pushed.entered) [
          | inl pointed ↦ inl (kept.still_has b pointed)
          | inr top ↦ inr top
        ];
        unlinked = λ i lo hi. kept.above (b + i * 8) (omega arith) ∙ pushed.unlinked i lo hi;
      }

  Kept-trans :
      (near far : ℕ) (rs rs1 rs2 : List ℕ)
      → near ≤ far
      → Kept m g root Start near rs rs1
      → Kept m g root Start far rs1 rs2
      → Kept m g root Start far rs rs2
  Kept-trans near far rs rs1 rs2 le x y = record {
    threaded = y.threaded;
    owned = y.owned;
    above = λ q hi. y.above q hi ∙ x.above q (omega arith);
    still_has = λ c is. y.still_has c (x.still_has c is);
    same_first = λ c is. y.same_first c (x.still_has c is) ∙ x.same_first c is;
    still_linked = λ q is. y.still_linked q (x.still_linked q is);
    longer = let a = x.longer in let b = y.longer in omega arith;
  }

  Kept-refl :
      (limit : ℕ) (rs : List ℕ)
      → Threaded m g Start rs
      → Owned m root Start rs
      → Kept m g root Start limit rs rs
  Kept-refl limit rs threaded owned = record {
    threaded = threaded;
    owned = owned;
    above = λ q hi. refl;
    still_has = λ c is. is;
    same_first = λ c is. refl;
    still_linked = λ q is. is;
    longer = omega arith;
  }

  pub Visits-Kept :
      {b n : ℕ} {rs rs' : List ℕ}
      → Visits m g b n rs rs'
      → Ready m g root Start b n rs
      → Kept m g root Start (b + suc n * 8) rs rs'
  Visits-Kept (none {b} {rs}) ready = Kept-refl (b + 1 * 8) rs ready.threaded ready.owned
  Visits-Kept (skip {b} {n} {rs} {rs'} not_young v) ready =
      let far = Kept-refl (b + suc n * 8) rs ready.threaded ready.owned in
      let kept = Visits-Kept v (Ready-skip b n rs ready) in
      record {
        threaded = kept.threaded;
        owned = kept.owned;
        above = λ q hi. kept.above q (omega arith);
        still_has = kept.still_has;
        same_first = kept.same_first;
        still_linked = kept.still_linked;
        longer = kept.longer;
      }
  Visits-Kept (again {rs'} is seen v) ready =
      Kept-push layout ready is rs' (Visits-Kept v (Ready-push layout ready is))
  Visits-Kept (enter {b} {n} {rs} {rs1} {rs'} is new v w) ready =
      let inner = Visits-Kept v (Ready-enter layout ready is new) in
      let outer = Visits-Kept w (Ready-after b n rs rs1 ready is inner) in
      let (start, lower) =
        field_target layout b (suc n) ready.start ready.fields (omega arith) ready.inside is in
      let some = layout.nonempty (m (b + suc n * 8)) start in
      Kept-push layout ready is rs' (
        Kept-trans (m (b + suc n * 8) + suc (hdrsize (m (m (b + suc n * 8))) - 1) * 8)
          (b + suc n * 8) ((b + suc n * 8) ∷ rs) rs1 rs' (omega arith) inner outer)

  -- The visit ends, since every object lies behind those that it points to.
  pub Visits-total :
      (d b n : ℕ) (rs : List ℕ)
      → b < d
      → Ready m g root Start b n rs
      → (rs' : List ℕ) × Visits m g b n rs rs'
  Visits-total zero b n rs lt ready = absurd (omega arith)
  Visits-total (suc d) b zero rs lt ready = (rs, none)
  Visits-total (suc d) b (suc n) rs lt ready = elim (Bool-cases (young g (m (b + suc n * 8)))) [
    | inr not_young ↦
        let (rs', v) = Visits-total (suc d) b n rs lt (Ready-skip b n rs ready) in
        (rs', skip not_young v)
    | inl is ↦
        elim (Bool-cases (is_rawobject (m (m (b + suc n * 8))) || has m (m (b + suc n * 8)) rs)) [
          | inl seen ↦
              let (rs', v) =
                Visits-total (suc d) b n ((b + suc n * 8) ∷ rs) lt (Ready-push layout ready is) in
              (rs', again is seen v)
          | inr new ↦
              let (start, lower) =
                field_target layout b (suc n) ready.start ready.fields (omega arith) ready.inside
                  is in
              let some = layout.nonempty (m (b + suc n * 8)) start in
              let inside = Ready-enter layout ready is new in
              let (rs1, v) =
                Visits-total d (m (b + suc n * 8)) (hdrsize (m (m (b + suc n * 8))) - 1)
                  ((b + suc n * 8) ∷ rs) (omega arith) inside in
              let (rs', w) =
                Visits-total (suc d) b n rs1 lt
                  (Ready-after b n rs rs1 ready is (Visits-Kept v inside)) in
              (rs', enter is new v w)
        ]
  ]
