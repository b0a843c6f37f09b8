-- ===== src/Fasl/Load.antt =====
-- `deserialize` (src/olvm.c) on an image, and the heap that the objects of the image make.
pub mod Fields
pub mod Placed
use ol.Common.{
  ℕ, zero, suc, ◌+◌, ◌-◌, ◌*◌, ◌/◌, ◌%◌, ◌^◌, ◌≤◌, ◌<◌, ◌≡◌, refl, ◌∙◌, ap, List, [], ◌∷◌, ◌++◌,
  ◌==◌, if◌then◌else◌, arith, append_assoc, length, length-append, All, Bool-cases, inl, inr,
  bit_and, le→ltb_false,
}
use ol.Word.{wsize, make_value, make_header}
use ol.Heap.{Heap, ref, set_ref, words_for, new_raw_object}
use ol.Heap.Bytes.{store_bytes}
use ol.Op.Make.{padding}
use ol.Fasl.{
  Bytes, Loaded, ok, ◌>>=◌, get_nat, as_count, push_word, decode_field, decode_fields, split_bytes,
  decode_plain, decode_raw, decode_object, deserialize,
}
use ol.Fasl.Nat.{encode_nat, get_nat-encode_nat, encode_nat-starts}
use ol.Fasl.Image.{
  Field, imm, back, Item, plain, raw, encode_field, encode_fields, encode_item, encode_items,
  item_words, total_words, FieldFits, ItemFits, ItemsFit,
}
use ol.Fasl.Count.{as_count-fits}

-- the word of a field, read in the table of the objects so far
unfoldable pub field_word : Heap → ℕ → ℕ → Field → ℕ
field_word h ptrs pos (imm type n) = make_value type n
field_word h ptrs pos (back diff) = ref h ptrs (pos - diff)

unfoldable pub put_fields : Heap → ℕ → ℕ → List Field → Heap
unfolding field_word
put_fields h ptrs pos [] = h
put_fields h ptrs pos (f ∷ fs) = put_fields (push_word h (field_word h ptrs pos f)) ptrs pos fs

-- an object at `fp`, behind the entry of the table that leads to it
unfoldable pub put_item : Heap → ℕ → ℕ → Item → Heap
unfolding put_fields new_raw_object
put_item h ptrs pos (plain type fs) =
    put_fields (push_word h (make_header type (length fs + 1))) ptrs pos fs
put_item h ptrs pos (raw type bs) =
    let words = words_for (length bs) in
    let pads = words * wsize - length bs in
    let new = new_raw_object h (bit_and type 31) (words + 1) pads in
    store_bytes new.1 (new.0 + wsize) (bs ++ padding pads)

unfoldable pub put_items : Heap → ℕ → ℕ → List Item → Heap
unfolding put_item
put_items h ptrs pos [] = h
put_items h ptrs pos (x ∷ xs) =
    put_items (put_item (set_ref h ptrs pos h.fp) ptrs pos x) ptrs (pos + 1) xs

decode_field-encode :
    (h : Heap) (ptrs pos : ℕ) (f : Field) (rest : Bytes)
    → FieldFits pos f
    → decode_field h (encode_field f ++ rest) ptrs pos
      ≡ ok (push_word h (field_word h ptrs pos f), rest)
unfolding decode_field encode_field field_word
decode_field-encode h ptrs pos (imm type n) rest fits = rw ((get_nat-encode_nat n rest fits).0)
decode_field-encode h ptrs pos (back diff) rest (lo, le, hi) =
    let (b, bs, e) = encode_nat-starts diff lo hi in
    let read = rw e at ((get_nat-encode_nat diff rest hi).0) in
    rw (e, read, le→ltb_false pos diff le)

decode_fields-encode :
    (fs : List Field) (h : Heap) (ptrs pos : ℕ) (rest : Bytes)
    → All (FieldFits pos) fs
    → decode_fields (length fs) h (encode_fields fs ++ rest) ptrs pos
      ≡ ok (put_fields h ptrs pos fs, rest)
unfolding decode_fields encode_fields put_fields
decode_fields-encode [] h ptrs pos rest fits = refl
decode_fields-encode (f ∷ fs) h ptrs pos rest (fit, fits) =
    rw (append_assoc, decode_field-encode h ptrs pos f (encode_fields fs ++ rest) fit)
      (decode_fields-encode fs (push_word h (field_word h ptrs pos f)) ptrs pos rest fits)

split_bytes-append : (bs rest : Bytes) → split_bytes (length bs) (bs ++ rest) ≡ ok (bs, rest)
unfolding split_bytes
split_bytes-append [] rest = refl
split_bytes-append (b ∷ bs) rest = rw (split_bytes-append bs rest)

decode_object-encode :
    (x : Item) (h : Heap) (ptrs pos : ℕ) (rest : Bytes)
    → ItemFits pos x
    → decode_object h (encode_item x ++ rest) ptrs pos
      ≡ ok (put_item (set_ref h ptrs pos h.fp) ptrs pos x, rest)
unfolding decode_object encode_item put_item
decode_object-encode (plain type fs) h ptrs pos rest (small, fits) =
    rw
      (
        append_assoc,
        (get_nat-encode_nat (length fs) (encode_fields fs ++ rest) (omega arith)).0,
        as_count-fits (length fs) small,
      )
      (decode_fields-encode fs _ ptrs pos rest fits)
decode_object-encode (raw type bs) h ptrs pos rest small = rw (
  append_assoc,
  (get_nat-encode_nat (length bs) (bs ++ rest) (omega arith)).0,
  as_count-fits (length bs) small,
  split_bytes-append bs rest,
)

-- On an image of objects that fit, `deserialize` ends, reads all objects, and leaves what follows them.
pub deserialize-encode :
    (xs : List Item) (h : Heap) (ptrs pos : ℕ) (rest : Bytes)
    → ItemsFit pos xs
    → deserialize (length xs) h (encode_items xs ++ rest) ptrs pos
      ≡ ok (put_items h ptrs pos xs, rest)
unfolding deserialize encode_items put_items
deserialize-encode [] h ptrs pos rest fits = refl
deserialize-encode (x ∷ xs) h ptrs pos rest (fit, fits) =
    rw (append_assoc, decode_object-encode x h ptrs pos (encode_items xs ++ rest) fit)
      (deserialize-encode xs (put_item (set_ref h ptrs pos h.fp) ptrs pos x) ptrs (pos + 1) rest
        fits)
