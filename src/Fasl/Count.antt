-- ===== src/Fasl/Count.antt =====
-- `count_fasl_objects` (src/olvm.c) on an image.
use ol.Common.{
  true, ltb, ℕ, zero, suc, ◌+◌, ◌/◌, ◌%◌, ◌^◌, ◌≤◌, ◌<◌, ◌≡◌, refl, ◌∙◌, ap, ap₂, List, [], ◌∷◌,
  ◌++◌, ◌==◌, if◌then◌else◌, arith, append_assoc, length, length-append, All,
}
use ol.Word.{wsize}
use ol.Heap.{words_for}
use ol.Fasl.{
  counted, Bytes, ok, as_count, skip_field, skip_fields, skip_bytes, count_object, count_loop,
  count_fasl_objects,
}
use ol.Fasl.Nat.{encode_nat, get_nat-encode_nat, encode_nat-starts}
use ol.Fasl.Image.{
  Field, imm, back, Item, plain, raw, encode_field, encode_fields, encode_item, encode_items,
  item_words, total_words, FieldFits, ItemFits, ItemsFit,
}

skip_field-encode :
    (pos : ℕ) (f : Field) (rest : Bytes)
    → FieldFits pos f
    → skip_field (encode_field f ++ rest) ≡ ok rest
unfolding skip_field encode_field
skip_field-encode pos (imm type n) rest fits = rw ((get_nat-encode_nat n rest fits).1)
skip_field-encode pos (back diff) rest (lo, le, hi) =
    let (b, bs, e) = encode_nat-starts diff lo hi in
    let read = rw e at ((get_nat-encode_nat diff rest hi).1) in rw (e, read)

skip_fields-encode :
    (pos : ℕ) (fs : List Field) (rest : Bytes)
    → All (FieldFits pos) fs
    → skip_fields (length fs) (encode_fields fs ++ rest) ≡ ok rest
unfolding skip_fields encode_fields
skip_fields-encode pos [] rest fits = refl
skip_fields-encode pos (f ∷ fs) rest (fit, fits) =
    rw (append_assoc, skip_field-encode pos f (encode_fields fs ++ rest) fit)
      (skip_fields-encode pos fs rest fits)

skip_bytes-append : (bs rest : Bytes) → skip_bytes (length bs) (bs ++ rest) ≡ ok rest
unfolding skip_bytes
skip_bytes-append [] rest = refl
skip_bytes-append (b ∷ bs) rest = skip_bytes-append bs rest

pub as_count-fits : (n : ℕ) → n < 2 ^ 31 → as_count n ≡ ok n
as_count-fits n h = ground arith

pub counted-fits : (n : ℕ) → n < 2 ^ 31 → counted n ≡ ok n
counted-fits n h = let fits : ltb n (2 ^ 31) ≡ true = ground arith in rw fits refl

-- the two counts of words for a raw object: the loader's and that of `new_bytevector`
raw_words : (size : ℕ) → size / wsize + (if size % wsize == 0 then 1 else 2) ≡ words_for size + 1
raw_words size = ground arith

-- one object of the image
abbrev tag_of : Item → ℕ
tag_of (plain type fs) = 1
tag_of (raw type bs) = 2

abbrev body_of : Item → Bytes
body_of (plain type fs) = type ∷ (encode_nat (length fs) ++ encode_fields fs)
body_of (raw type bs) = type ∷ (encode_nat (length bs) ++ bs)

count_object-encode :
    (pos : ℕ) (x : Item) (rest : Bytes)
    → ItemFits pos x
    → count_object (tag_of x) (body_of x ++ rest) ≡ ok (item_words x, rest)
unfolding count_object item_words
count_object-encode pos (plain type fs) rest (small, fits) = rw (
  append_assoc,
  (get_nat-encode_nat (length fs) (encode_fields fs ++ rest) (omega arith)).1,
  as_count-fits (length fs) small,
  skip_fields-encode pos fs rest fits,
)
count_object-encode pos (raw type bs) rest small =
    rw
      (
        append_assoc,
        (get_nat-encode_nat (length bs) (bs ++ rest) (omega arith)).1,
        as_count-fits (length bs) small,
        skip_bytes-append bs rest,
      )
      (ap (λ (n : ℕ). ok (n, rest)) (raw_words (length bs)))

count_loop_item :
    (fuel pos : ℕ) (x : Item) (rest : Bytes) (allocated n : ℕ)
    → ItemFits pos x
    → allocated + item_words x < 2 ^ 31
    → n + 1 < 2 ^ 31
    → count_loop (suc fuel) (encode_item x ++ rest) allocated n
      ≡ count_loop fuel rest (allocated + item_words x) (n + 1)
unfolding count_loop encode_item
count_loop_item fuel pos (plain type fs) rest allocated n fits words objects =
    let e = count_object-encode pos (plain type fs) rest fits in
    rw
      (e, counted-fits (allocated + item_words (plain type fs)) words, counted-fits (n + 1) objects)
count_loop_item fuel pos (raw type bs) rest allocated n fits words objects =
    let e = count_object-encode pos (raw type bs) rest fits in
    rw (e, counted-fits (allocated + item_words (raw type bs)) words, counted-fits (n + 1) objects)

count_loop-encode :
    (xs : List Item) (fuel pos : ℕ) (rest : Bytes) (allocated n : ℕ)
    → ItemsFit pos xs
    → allocated + total_words xs < 2 ^ 31
    → n + length xs < 2 ^ 31
    → length xs < fuel
    → count_loop fuel (encode_items xs ++ (0 ∷ rest)) allocated n
      ≡ ok (allocated + total_words xs, n + length xs)
unfolding encode_items total_words
count_loop-encode xs zero pos rest allocated n fits words objects enough = absurd (omega arith)
count_loop-encode [] (suc fuel) pos rest allocated n fits words objects enough =
    unfold count_loop in ap₂ (λ (a b : ℕ). ok (a, b)) (omega arith) (omega arith)
count_loop-encode (x ∷ xs) (suc fuel) pos rest allocated n (fit, fits) words objects enough =
    rw
      (
        append_assoc,
        count_loop_item fuel pos x (encode_items xs ++ (0 ∷ rest)) allocated n fit (omega arith)
            (omega arith),
      )
      (count_loop-encode xs fuel (pos + 1) rest (allocated + item_words x) (n + 1) fits
          (omega arith) (omega arith) (omega arith)
        ∙ ap₂ (λ (a b : ℕ). ok (a, b)) (omega arith) (omega arith))

length-encode_items : (xs : List Item) → length xs ≤ length (encode_items xs)
unfolding encode_items encode_item
length-encode_items [] = omega arith
length-encode_items (plain type fs ∷ xs) = omega (
  arith,
  length-append (encode_nat (length fs) ++ encode_fields fs) (encode_items xs),
  length-encode_items xs,
)
length-encode_items (raw type bs ∷ xs) =
    omega (
      arith,
      length-append (encode_nat (length bs) ++ bs) (encode_items xs),
      length-encode_items xs,
    )

-- every object takes a word at least
length-total_words : (xs : List Item) → length xs ≤ total_words xs
unfolding total_words item_words
length-total_words [] = omega arith
length-total_words (plain type fs ∷ xs) = let rest = length-total_words xs in omega arith
length-total_words (raw type bs ∷ xs) = let rest = length-total_words xs in omega arith

-- On an image of objects that fit and take less than 2 ^ 31 words, followed by a zero byte, `count_fasl_objects` ends
-- and gives the number of words that the objects take and the number of the objects.
pub count_fasl_objects-encode :
    (xs : List Item) (rest : Bytes)
    → ItemsFit 0 xs
    → total_words xs < 2 ^ 31
    → count_fasl_objects (encode_items xs ++ (0 ∷ rest)) ≡ ok (total_words xs, length xs)
unfolding count_fasl_objects
count_fasl_objects-encode xs rest fits words =
    let few = length-total_words xs in
    let long = length-encode_items xs in
    let size = length-append (encode_items xs) (0 ∷ rest) in
    count_loop-encode xs (length (encode_items xs ++ (0 ∷ rest)) + 1) 0 rest 0 0 fits (omega arith)
      (omega arith) (omega arith)
    ∙ ap₂ (λ (a b : ℕ). ok (a, b)) (omega arith) (omega arith)
