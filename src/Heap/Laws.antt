-- ===== src/Heap/Laws.antt =====
-- The heap before and after an allocation (the allocators of src/olvm.c).
use ol.Common.{
  ℕ, zero, suc, ◌+◌, ◌*◌, ◌≤◌, ◌<◌, ◌≡◌, refl, ◌∙◌, List, [], ◌∷◌, length, get_or, arith,
}
use ol.Word.{make_header, wsize}
use ol.Word.Types.{ttuple}
use ol.Heap.{Heap, store, car, cdr, store_words, new_object, new_pair, new_tuple}

-- `h'` is `h` with words added behind `fp`.
pub record Extends (h h' : Heap) : Type 0 where
  pub same_begin : h'.begin ≡ h.begin
  pub same_end : h'.end ≡ h.end
  pub same_genstart : h'.genstart ≡ h.genstart
  pub grows : h.fp ≤ h'.fp
  pub keeps : (a : ℕ) → a < h.fp → h'.mem a ≡ h.mem a

pub Extends-refl : (h : Heap) → Extends h h
Extends-refl h = record {
  same_begin = refl;
  same_end = refl;
  same_genstart = refl;
  grows = omega arith;
  keeps = λ a lt. refl;
}

pub Extends-trans : {h h' h'' : Heap} → Extends h h' → Extends h' h'' → Extends h h''
Extends-trans x y = record {
  same_begin = y.same_begin ∙ x.same_begin;
  same_end = y.same_end ∙ x.same_end;
  same_genstart = y.same_genstart ∙ x.same_genstart;
  grows = omega arith;
  keeps = λ a lt. y.keeps a (omega arith) ∙ x.keeps a lt;
}

pub store_words-fields :
    (h : Heap) (a : ℕ) (xs : List ℕ)
    → ((store_words h a xs).begin ≡ h.begin)
      × ((store_words h a xs).end ≡ h.end)
      × ((store_words h a xs).genstart ≡ h.genstart)
      × ((store_words h a xs).fp ≡ h.fp)
unfolding store_words
store_words-fields h a [] = (refl, refl, refl, refl)
store_words-fields h a (x ∷ xs) = store_words-fields (store h a x) (a + wsize) xs

pub store_words-below :
    (h : Heap) (a : ℕ) (xs : List ℕ) (b : ℕ) → b < a → (store_words h a xs).mem b ≡ h.mem b
unfolding store_words
store_words-below h a [] b lt = refl
store_words-below h a (x ∷ xs) b lt =
    ground (arith, store_words-below (store h a x) (a + wsize) xs b)

pub store_words-above :
    (h : Heap) (a : ℕ) (xs : List ℕ) (b : ℕ)
    → a + length xs * wsize ≤ b
    → (store_words h a xs).mem b ≡ h.mem b
unfolding store_words
store_words-above h a [] b le = refl
store_words-above h a (x ∷ xs) b le =
    ground (arith, store_words-above (store h a x) (a + wsize) xs b)

pub store_words-get :
    (h : Heap) (a : ℕ) (xs : List ℕ) (i : ℕ)
    → i < length xs
    → (store_words h a xs).mem (a + i * wsize) ≡ get_or xs i 0
unfolding store_words
store_words-get h a [] i lt = absurd (omega arith)
store_words-get h a (x ∷ xs) zero lt =
    ground (arith, store_words-below (store h a x) (a + wsize) xs a)
store_words-get h a (x ∷ xs) (suc i) lt =
    ground (arith, store_words-get (store h a x) (a + wsize) xs i)

pub new_pair_lem :
    (h : Heap) (type a1 a2 : ℕ)
    → ((new_pair h type a1 a2).0 ≡ h.fp)
      × ((new_pair h type a1 a2).1.fp ≡ h.fp + 24)
      × ((new_pair h type a1 a2).1.mem h.fp ≡ make_header type 3)
      × (car (new_pair h type a1 a2).1 h.fp ≡ a1)
      × (cdr (new_pair h type a1 a2).1 h.fp ≡ a2)
unfolding new_pair
new_pair_lem h type a1 a2 = ground arith

pub new_pair-Extends : (h : Heap) (type a1 a2 : ℕ) → Extends h (new_pair h type a1 a2).1
unfolding new_pair
new_pair-Extends h type a1 a2 = record {
  same_begin = refl;
  same_end = refl;
  same_genstart = refl;
  grows = omega arith;
  keeps = λ a lt. ground arith;
}

-- a tuple holds its fields in order behind its header
pub new_tuple_lem :
    (h : Heap) (xs : List ℕ)
    → ((new_tuple h xs).0 ≡ h.fp)
      × ((new_tuple h xs).1.fp ≡ h.fp + (length xs + 1) * wsize)
      × ((new_tuple h xs).1.mem h.fp ≡ make_header ttuple (length xs + 1))
      × ((i : ℕ)
          → i < length xs
          → (new_tuple h xs).1.mem (h.fp + wsize + i * wsize) ≡ get_or xs i 0)
unfolding new_tuple
new_tuple_lem h xs =
    let h1 : Heap = (new_object h ttuple (length xs + 1)).1 in
    (
      refl,
      (store_words-fields h1 (h.fp + wsize) xs).3,
      ground (arith, store_words-below h1 (h.fp + wsize) xs h.fp),
      λ i lt. store_words-get h1 (h.fp + wsize) xs i lt,
    )
