-- ===== src/Fasl/Agree.antt =====
-- `count_fasl_objects` and `deserialize` (src/olvm.c) on one image, whatever its bytes.
use ol.Common.{
  ◌^◌, ap₂, ℕ, zero, suc, ◌+◌, ◌-◌, ◌*◌, ◌≤◌, ◌≡◌, refl, ◌∙◌, ap, sym, subst, [], ◌∷◌, true,
  Bool-cases, inl, inr, ltb, arith, length,
}
use ol.Word.{wsize}
use ol.Heap.{Heap}
use ol.Fasl.{
  counted, Bytes, ok, decode_object, deserialize, count_object, count_loop, count_fasl_objects,
}
use ol.Fasl.Loads.{
  >>=-ok, Loads, Loads-bind, Loads-map, ok-injective, known_tag, count_object-decode,
}

counted-ok : (a b : ℕ) → counted a ≡ ok b → b ≡ a
counted-ok a b e = elim (Bool-cases (ltb a (2 ^ 31))) [
  | inl fits ↦ sym (ok-injective (rw fits at e))
  | inr over ↦ let stuck = rw over at e in cc
]

-- one round of the counter
count_loop-next :
    (fuel tag : ℕ) (hp : Bytes) (words n : ℕ) (r : ℕ × ℕ)
    → known_tag (suc tag) ≡ true
    → count_loop (suc fuel) (suc tag ∷ hp) words n ≡ ok r
    → (one : ℕ × Bytes) × (count_object (suc tag) hp ≡ ok one)
      × (count_loop fuel one.1 (words + one.0) (n + 1) ≡ ok r)
unfolding count_loop
count_loop-next fuel tag hp words n r known e =
    let (one, object, e1) = >>=-ok (count_object (suc tag) hp) _ r (rw known at e) in
    let (a, sum, e2) = >>=-ok (counted (words + one.0)) _ r e1 in
    let (m, next, more) = >>=-ok (counted (n + 1)) _ r e2 in
    (
      one,
      object,
      ap₂ (count_loop fuel one.1) (sym (counted-ok (words + one.0) a sum))
            (sym (counted-ok (n + 1) m next))
          ∙ more,
    )

-- the counts only grow
count_loop-grows :
    (fuel : ℕ) (hp : Bytes) (words n words' n' : ℕ)
    → count_loop fuel hp words n ≡ ok (words', n')
    → (words ≤ words') × (n ≤ n')
unfolding count_loop
count_loop-grows zero hp words n words' n' e = cc
count_loop-grows (suc fuel) [] words n words' n' e = cc
count_loop-grows (suc fuel) (zero ∷ hp) words n words' n' e =
    let both = ok-injective e in
    (omega (arith, ap (λ (p : ℕ × ℕ). p.0) both), omega (arith, ap (λ (p : ℕ × ℕ). p.1) both))
count_loop-grows (suc fuel) (suc tag ∷ hp) words n words' n' e =
    elim (Bool-cases (known_tag (suc tag))) [
      | inl known ↦
          let (one, object, more) = count_loop-next fuel tag hp words n (words', n') known e in
          let (w, m) = count_loop-grows fuel one.1 (words + one.0) (n + 1) words' n' more in
          (omega arith, omega arith)
      | inr unknown ↦ let stuck = rw unknown at e in cc
    ]

-- the loader has filled the words that were counted, and stands at the byte that ends the image
abbrev pub Filled : ℕ → Heap → Bytes → Type 0
Filled end h rest = (h.fp ≡ end) × ((after : Bytes) × (rest ≡ zero ∷ after))

count_loop-deserialize :
    (fuel k : ℕ) (h : Heap) (hp : Bytes) (ptrs me words n words' : ℕ)
    → count_loop fuel hp words n ≡ ok (words', n + k)
    → Loads (deserialize k h hp ptrs me) (Filled (h.fp + (words' - words) * wsize))
unfolding count_loop deserialize
count_loop-deserialize zero k h hp ptrs me words n words' e = cc
count_loop-deserialize (suc fuel) k h [] ptrs me words n words' e = cc
count_loop-deserialize (suc fuel) zero h (zero ∷ hp) ptrs me words n words' e =
    let w = ap (λ (p : ℕ × ℕ). p.0) (ok-injective e) in (omega arith, (hp, refl))
count_loop-deserialize (suc fuel) (suc k) h (zero ∷ hp) ptrs me words n words' e =
    let m = ap (λ (p : ℕ × ℕ). p.1) (ok-injective e) in absurd (omega arith)
count_loop-deserialize (suc fuel) k h (suc tag ∷ hp) ptrs me words n words' e =
    elim (Bool-cases (known_tag (suc tag))) [
      | inl known ↦
          let (one, object, more) = count_loop-next fuel tag hp words n (words', n + k) known e in
          let (w, m) = count_loop-grows fuel one.1 (words + one.0) (n + 1) words' (n + k) more in
          let enough : k ≡ suc (k - 1) = omega arith in
          subst
            (λ (i : ℕ).
              Loads (deserialize i h (suc tag ∷ hp) ptrs me)
                (Filled (h.fp + (words' - words) * wsize)))
            (sym enough)
            (Loads-bind _ _ (decode_object h (suc tag ∷ hp) ptrs me) _
              (count_object-decode (suc tag) h hp one.1 ptrs me one.0 known object)
              (λ h1 r1 (left, moved).
                subst
                  (λ r.
                    Loads (deserialize (k - 1) h1 r ptrs (me + 1))
                      (Filled (h.fp + (words' - words) * wsize)))
                  (sym left)
                  (Loads-map _ _ (deserialize (k - 1) h1 one.1 ptrs (me + 1))
                    (λ h2 r2 (filled, end). (omega arith, end))
                    (count_loop-deserialize fuel (k - 1) h1 one.1 ptrs (me + 1) (words + one.0)
                      (n + 1) words' (more ∙ ap (λ (i : ℕ). ok (words', i)) (omega arith))))))
      | inr unknown ↦ let stuck = rw unknown at e in cc
    ]

-- Whatever the bytes: if `count_fasl_objects` accepts them, `deserialize` of as many objects finds no bad object. Unless
-- it reads outside the image or the table, the heap has grown at its end by exactly the words that were counted, and the
-- byte 0 that ends the image is next.
pub count_fasl_objects-deserialize :
    (lang : Bytes) (words nobjs : ℕ) (h : Heap) (ptrs : ℕ)
    → count_fasl_objects lang ≡ ok (words, nobjs)
    → Loads (deserialize nobjs h lang ptrs 0) (Filled (h.fp + words * wsize))
unfolding count_fasl_objects
count_fasl_objects-deserialize lang words nobjs h ptrs e =
    Loads-map _ _ (deserialize nobjs h lang ptrs 0) (λ h' rest (filled, end). (omega arith, end))
      (count_loop-deserialize (length lang + 1) nobjs h lang ptrs 0 0 0 words
        (e ∙ ap (λ (i : ℕ). ok (words, i)) (omega arith)))
