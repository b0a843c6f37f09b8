-- ===== src/Fasl/Loads.antt =====
-- What `count_fasl_objects` and `deserialize` (src/olvm.c) take of one object, whatever its bytes.
use ol.Common.{
  Bool, ℕ, zero, suc, ◌+◌, ◌-◌, ◌*◌, ◌/◌, ◌%◌, ◌≡◌, refl, ◌∙◌, ap, sym, subst, [], ◌∷◌, ◌++◌, ◌==◌,
  ◌||◌, if◌then◌else◌, true, Bool-cases, inl, inr, ltb, arith, length, bit_and,
}
use ol.Word.{wsize}
use ol.Heap.{Heap, set_ref, words_for, new_raw_object}
use ol.Heap.Raw.{store_bytes_lem}
use ol.Op.Make.{padding}
use ol.Fasl.{
  Bytes, Loaded, ok, bad_object, overrun, ◌>>=◌, nat_loop, take_byte, as_count, decode_field,
  decode_fields, split_bytes, decode_plain, decode_raw, decode_object, skip_field, skip_fields,
  skip_bytes, count_plain, count_raw, count_object,
}

-- a chain that ends well has a first step that ends well
pub >>=-ok {ℓ κ} :
    {A : Type ℓ} {B : Type κ} (x : Loaded A) (f : A → Loaded B) (b : B)
    → (x >>= f) ≡ ok b
    → (a : A) × (x ≡ ok a) × (f a ≡ ok b)
>>=-ok (ok a) f b e = (a, refl, e)
>>=-ok bad_object f b e = cc
>>=-ok overrun f b e = cc

-- If the loader ends well, its heap and the bytes that are left satisfy `P`, and it finds no bad object.
abbrev pub Loads : Loaded (Heap × Bytes) → (Heap → Bytes → Type 0) → Type 0
Loads (ok (h, rest)) P = P h rest
Loads bad_object P = ⊥
Loads overrun P = Unit

-- the loader leaves the same bytes, and takes so many words
abbrev pub Takes : Heap → ℕ → Bytes → Heap → Bytes → Type 0
Takes h words rest h' rest' = (rest' ≡ rest) × (h'.fp ≡ h.fp + words * wsize)

-- a step that counter and loader have in common
Loads-step {ℓ κ} :
    {A : Type ℓ} {B : Type κ} (P : Heap → Bytes → Type 0) (x : Loaded A) (f : A → Loaded B)
    (g : A → Loaded (Heap × Bytes)) (b : B)
    → (x >>= f) ≡ ok b
    → ((a : A) → f a ≡ ok b → Loads (g a) P)
    → Loads (x >>= g) P
Loads-step P (ok a) f g b e k = k a e
Loads-step P bad_object f g b e k = cc
Loads-step P overrun f g b e k = cc

-- a step of the counter, and one of the loader that makes a part of the heap
pub Loads-bind :
    (P Q : Heap → Bytes → Type 0) (x : Loaded (Heap × Bytes))
    (f : Heap × Bytes → Loaded (Heap × Bytes))
    → Loads x P
    → ((h : Heap) (rest : Bytes) → P h rest → Loads (f (h, rest)) Q)
    → Loads (x >>= f) Q
Loads-bind P Q (ok (h, rest)) f p k = k h rest p
Loads-bind P Q bad_object f p k = p
Loads-bind P Q overrun f p k = tt

Loads-known {ℓ} :
    {A : Type ℓ} (P : Heap → Bytes → Type 0) (x : Loaded A) (g : A → Loaded (Heap × Bytes)) (a : A)
    → x ≡ ok a
    → Loads (g a) P
    → Loads (x >>= g) P
Loads-known P x g a e p = subst (λ y. Loads (y >>= g) P) (sym e) p

pub Loads-map :
    (P Q : Heap → Bytes → Type 0) (x : Loaded (Heap × Bytes))
    → ((h : Heap) (rest : Bytes) → P h rest → Q h rest)
    → Loads x P
    → Loads x Q
Loads-map P Q (ok (h, rest)) k p = k h rest p
Loads-map P Q bad_object k p = p
Loads-map P Q overrun k p = tt

pub ok-injective {ℓ} : {A : Type ℓ} {a b : A} → ok a ≡ ok b → a ≡ b
ok-injective e = cc

skip_field-decode :
    (h : Heap) (hp rest : Bytes) (ptrs pos : ℕ)
    → skip_field hp ≡ ok rest
    → Loads (decode_field h hp ptrs pos) (Takes h 1 rest)
unfolding skip_field decode_field
skip_field-decode h [] rest ptrs pos e = cc
skip_field-decode h (zero ∷ hp) rest ptrs pos e =
    Loads-step _ (take_byte hp) _ _ rest e λ type e1.
      Loads-step _ (nat_loop 0 type.1) _ _ rest e1 λ n end. (ok-injective end, omega arith)
skip_field-decode h (suc b ∷ hp) rest ptrs pos e =
    Loads-step _ (nat_loop 0 (suc b ∷ hp)) _ _ rest e λ diff end.
      elim (Bool-cases (ltb pos diff.0)) [
        | inl beyond ↦ rw beyond tt
        | inr within ↦ rw within (ok-injective end, omega arith)
      ]

skip_fields-decode :
    (n : ℕ) (h : Heap) (hp rest : Bytes) (ptrs pos : ℕ)
    → skip_fields n hp ≡ ok rest
    → Loads (decode_fields n h hp ptrs pos) (Takes h n rest)
unfolding skip_fields decode_fields
skip_fields-decode zero h hp rest ptrs pos e = (ok-injective e, omega arith)
skip_fields-decode (suc n) h hp rest ptrs pos e =
    let (hp1, field, e1) = >>=-ok (skip_field hp) _ rest e in
    Loads-bind _ _ (decode_field h hp ptrs pos) _ (skip_field-decode h hp hp1 ptrs pos field)
      (λ h1 r1 (left, moved).
        subst (λ r. Loads (decode_fields n h1 r ptrs pos) (Takes h (suc n) rest)) (sym left)
          (Loads-map _ _ (decode_fields n h1 hp1 ptrs pos)
            (λ h2 r2 (left, more). (left, omega arith))
            (skip_fields-decode n h1 hp1 rest ptrs pos e1)))

skip_bytes-split :
    (n : ℕ) (hp rest : Bytes)
    → skip_bytes n hp ≡ ok rest
    → (bs : Bytes) × (split_bytes n hp ≡ ok (bs, rest)) × (length bs ≡ n)
unfolding skip_bytes split_bytes
skip_bytes-split zero hp rest e = ([], ap (λ (x : Bytes). ok ([], x)) (ok-injective e), refl)
skip_bytes-split (suc n) [] rest e = cc
skip_bytes-split (suc n) (b ∷ hp) rest e =
    let (bs, split, long) = skip_bytes-split n hp rest e in (b ∷ bs, rw split, omega arith)

count_plain-decode :
    (h : Heap) (hp rest : Bytes) (ptrs me words : ℕ)
    → count_object 1 hp ≡ ok (words, rest)
    → Loads (decode_plain h hp ptrs me) (Takes h words rest)
unfolding count_object count_plain decode_plain
count_plain-decode h hp rest ptrs me words e =
    Loads-step _ (take_byte hp) _ _ (words, rest) e
      λ type e1.
        Loads-step _ (nat_loop 0 type.1) _ _ (words, rest) e1
          λ n e2.
            Loads-step _ (as_count n.0) _ _ (words, rest) e2
              λ size e3.
                let (hp1, fields, end) = >>=-ok (skip_fields size n.1) _ (words, rest) e3 in
                Loads-map _ _ (decode_fields size _ n.1 ptrs me)
                  (λ h1 r1 (left, moved).
                    (left ∙ ap (λ (p : ℕ × Bytes). p.1) (ok-injective end), ground arith))
                  (skip_fields-decode size _ n.1 hp1 ptrs me fields)

-- the two counts of words for a raw object
raw_words : (size : ℕ) → size / wsize + (if size % wsize == 0 then 1 else 2) ≡ words_for size + 1
raw_words size = ground arith

count_raw-decode :
    (h : Heap) (hp rest : Bytes) (words : ℕ)
    → count_object 2 hp ≡ ok (words, rest)
    → Loads (decode_raw h hp) (Takes h words rest)
unfolding count_object count_raw decode_raw new_raw_object
count_raw-decode h hp rest words e =
    Loads-step _ (take_byte hp) _ _ (words, rest) e
      λ type e1.
        Loads-step _ (nat_loop 0 type.1) _ _ (words, rest) e1
          λ n e2.
            Loads-step _ (as_count n.0) _ _ (words, rest) e2
              λ size e3.
                let (hp1, skipped, end) = >>=-ok (skip_bytes size n.1) _ (words, rest) e3 in
                let (bs, split, long) = skip_bytes-split size n.1 hp1 skipped in
                let pads = words_for size * wsize - size in
                let new = new_raw_object h (bit_and type.0 31) (words_for size + 1) pads in
                let kept = store_bytes_lem (bs ++ padding pads) new.1 (new.0 + wsize) in
                let both = ok-injective end in
                Loads-known _ (split_bytes size n.1) _ (bs, hp1) split
                  (
                    ap (λ (p : ℕ × Bytes). p.1) both,
                    kept.0
                        ∙ ap (λ (w : ℕ). h.fp + w * wsize)
                            (sym (raw_words size) ∙ ap (λ (p : ℕ × Bytes). p.0) both),
                  )

abbrev pub known_tag : ℕ → Bool
known_tag tag = tag == 1 || tag == 2

pub count_object-decode :
    (tag : ℕ) (h : Heap) (hp rest : Bytes) (ptrs me words : ℕ)
    → known_tag tag ≡ true
    → count_object tag hp ≡ ok (words, rest)
    → Loads (decode_object h (tag ∷ hp) ptrs me) (Takes h words rest)
unfolding decode_object
count_object-decode zero h hp rest ptrs me words known e = cc
count_object-decode (suc zero) h hp rest ptrs me words known e =
    count_plain-decode (set_ref h ptrs me h.fp) hp rest ptrs me words e
count_object-decode (suc (suc zero)) h hp rest ptrs me words known e =
    count_raw-decode (set_ref h ptrs me h.fp) hp rest words e
count_object-decode (suc (suc (suc tag))) h hp rest ptrs me words known e =
    absurd (ground (arith, known))
