-- ===== src/Fasl/Load/Placed.antt =====
-- The places of the objects of an image in the heap (`deserialize` in src/olvm.c).
use ol.Common.{
  ℕ, ◌+◌, ◌-◌, ◌*◌, ◌%◌, ◌≤◌, ◌<◌, ◌≡◌, ◌⊎◌, refl, ◌∙◌, subst, List, [], ◌∷◌, ◌++◌, arith, length,
  length-append, get_or, ap, zero, suc, inl, inr, bit_and,
}
use ol.Word.{wsize, make_header, make_raw_header}
use ol.Heap.{Heap, load, ref, set_ref, words_for, new_raw_object}
use ol.Heap.Bytes.{load_byte}
use ol.Heap.Raw.{load_byte-store_bytes, store_bytes_lem, load_byte-same}
use ol.Op.Make.{padding}
use ol.Fasl.{Bytes, ok, push_word, deserialize}
use ol.Fasl.Image.{Item, plain, raw, encode_items, item_words, total_words, ItemFits, ItemsFit}
use ol.Fasl.Load.Fields.{FieldsAt, FieldsAt-same, put_fields_lem}
use ol.Fasl.Load.{put_item, put_items, deserialize-encode}

-- below `fp`, and outside the entries of the table from `pos` to `end`
abbrev pub Keeps : Heap → Heap → ℕ → ℕ → ℕ → Type 0
Keeps h h' ptrs pos end =
    (a : ℕ) → a < h.fp → (a < ptrs + pos * wsize) ⊎ (ptrs + end * wsize ≤ a) → h'.mem a ≡ h.mem a

-- bytes from an address on
abbrev pub BytesAt : Heap → ℕ → Bytes → Type 0
BytesAt h a bs = (i : ℕ) → i < length bs → load_byte h (a + i) ≡ get_or bs i 0 % 256

-- the header of an object at `addr`, and its fields or its bytes
abbrev pub ItemAt : Heap → ℕ → ℕ → ℕ → Item → Type 0
ItemAt h ptrs pos addr (plain type fs) =
    (load h addr ≡ make_header type (length fs + 1)) × FieldsAt h ptrs pos (addr + wsize) fs
ItemAt h ptrs pos addr (raw type bs) =
    (load h addr
      ≡ make_raw_header (bit_and type 31) (words_for (length bs) + 1)
          (words_for (length bs) * wsize - length bs))
    × BytesAt h (addr + wsize) bs

get_or-front : (bs more : Bytes) (i : ℕ) → i < length bs → get_or (bs ++ more) i 0 ≡ get_or bs i 0
get_or-front [] more i lt = absurd (omega arith)
get_or-front (b ∷ bs) more zero lt = refl
get_or-front (b ∷ bs) more (suc i) lt = get_or-front bs more i (omega arith)

ItemAt-same :
    (x : Item) (h h' : Heap) (ptrs pos addr : ℕ)
    → ItemFits pos x
    → addr % wsize ≡ 0
    → ((a : ℕ) → a < ptrs + pos * wsize → h'.mem a ≡ h.mem a)
    → ((a : ℕ) → addr ≤ a → a < addr + item_words x * wsize → h'.mem a ≡ h.mem a)
    → ItemAt h ptrs pos addr x
    → ItemAt h' ptrs pos addr x
unfolding item_words
ItemAt-same (plain type fs) h h' ptrs pos addr (small, fits) aligned same own (e, es) = (
  own addr (omega arith) (omega arith) ∙ e,
  FieldsAt-same fs h h' ptrs pos (addr + wsize) fits same
      (λ a lo hi. own a (omega arith) (omega arith)) es,
)
ItemAt-same (raw type bs) h h' ptrs pos addr small aligned same own (e, at) = (
  own addr (omega arith) (omega arith) ∙ e,
  λ i lt.
      let c = addr + wsize + i in
      load_byte-same h h' c (own (c - c % wsize) (omega arith) (omega arith)) ∙ at i lt,
)

put_item_lem :
    (x : Item) (h : Heap) (ptrs pos : ℕ)
    → ptrs + pos * wsize ≤ h.fp
    → h.fp % wsize ≡ 0
    → ItemFits pos x
    → ((put_item h ptrs pos x).fp ≡ h.fp + item_words x * wsize)
      × ((a : ℕ) → a < h.fp → (put_item h ptrs pos x).mem a ≡ h.mem a)
      × ItemAt (put_item h ptrs pos x) ptrs pos h.fp x
unfolding put_item item_words
put_item_lem (plain type fs) h ptrs pos le aligned (small, fits) =
    let h1 : Heap = push_word h (make_header type (length fs + 1)) in
    let (end, same, at) = put_fields_lem fs h1 ptrs pos (omega arith) fits in
    (
      omega arith,
      λ a lt. same a (omega arith) ∙ ground arith,
      (same h.fp (omega arith) ∙ ground arith, at),
    )
put_item_lem (raw type bs) h ptrs pos le aligned small =
    let words = words_for (length bs) in
    let pads = words * wsize - length bs in
    let h1 : Heap = (new_raw_object h (bit_and type 31) (words + 1) pads).1 in
    let (end, same) = store_bytes_lem (bs ++ padding pads) h1 (h.fp + wsize) in
    (
      omega arith,
      λ a lt. same a (omega arith) ∙ ground arith,
      (
        same h.fp (omega arith) ∙ ground arith,
        λ i lt.
            load_byte-store_bytes (bs ++ padding pads) h1 (h.fp + wsize) i
              (omega (arith, length-append bs (padding pads)))
            ∙ ap (λ (b : ℕ). b % 256) (get_or-front bs (padding pads) i lt),
      ),
    )

-- the objects from `addr` on, one behind the other, each with its entry in the table
abbrev pub ItemsAt : Heap → ℕ → ℕ → ℕ → List Item → Type 0
ItemsAt h ptrs pos addr [] = Unit
ItemsAt h ptrs pos addr (x ∷ xs) =
    (ref h ptrs pos ≡ addr)
    × ItemAt h ptrs pos addr x
    × ItemsAt h ptrs (pos + 1) (addr + item_words x * wsize) xs

pub put_items_lem :
    (xs : List Item) (h : Heap) (ptrs pos end : ℕ)
    → end ≡ pos + length xs
    → ptrs + end * wsize ≤ h.fp
    → h.fp % wsize ≡ 0
    → ItemsFit pos xs
    → ((put_items h ptrs pos xs).fp ≡ h.fp + total_words xs * wsize)
      × Keeps h (put_items h ptrs pos xs) ptrs pos end
      × ItemsAt (put_items h ptrs pos xs) ptrs pos h.fp xs
unfolding put_items total_words
put_items_lem [] h ptrs pos end last le aligned fits = (omega arith, λ a lt out. refl, tt)
put_items_lem (x ∷ xs) h ptrs pos end last le aligned (fit, fits) =
    let h0 : Heap = set_ref h ptrs pos h.fp in
    let h1 : Heap = put_item h0 ptrs pos x in
    let (fp1, same1, at1) = put_item_lem x h0 ptrs pos (omega arith) aligned fit in
    let (fp2, keeps, at2) =
      put_items_lem xs h1 ptrs (pos + 1) end (omega arith) (omega arith) (omega arith) fits in
    let h2 : Heap = put_items h1 ptrs (pos + 1) xs in
    (
      omega arith,
      λ a lt out. elim out [
        | inl under ↦ keeps a (omega arith) (inl (omega arith)) ∙ same1 a lt ∙ ground arith
        | inr over ↦ keeps a (omega arith) (inr over) ∙ same1 a lt ∙ ground arith
      ],
      (
        keeps (ptrs + pos * wsize) (omega arith) (inl (omega arith))
            ∙ same1 (ptrs + pos * wsize) (omega arith)
            ∙ ground arith,
        ItemAt-same x h1 h2 ptrs pos h.fp fit aligned
            (λ a lt. keeps a (omega arith) (inl (omega arith)))
            (λ a lo hi. keeps a (omega arith) (inr (omega arith))) at1,
        subst (λ (a : ℕ). ItemsAt h2 ptrs (pos + 1) a xs) fp1 at2,
      ),
    )

-- On an image of objects that fit, with the table of objects below `fp`, `deserialize` ends, leaves what follows the
-- objects, takes exactly the words of the objects, and puts them one behind the other: the entry of each
-- in the table leads to its header, behind which its fields stand, with every reference leading to the
-- object that it names, or its bytes.
pub deserialize-ItemsAt :
    (xs : List Item) (h : Heap) (ptrs : ℕ) (rest : Bytes)
    → ptrs + length xs * wsize ≤ h.fp
    → h.fp % wsize ≡ 0
    → ItemsFit 0 xs
    → (h' : Heap) × (deserialize (length xs) h (encode_items xs ++ rest) ptrs 0 ≡ ok (h', rest))
      × (h'.fp ≡ h.fp + total_words xs * wsize)
      × ItemsAt h' ptrs 0 h.fp xs
deserialize-ItemsAt xs h ptrs rest le aligned fits =
    let (end, keeps, at) = put_items_lem xs h ptrs 0 (length xs) (omega arith) le aligned fits in
    (put_items h ptrs 0 xs, deserialize-encode xs h ptrs 0 rest fits, end, at)
