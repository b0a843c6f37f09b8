-- ===== src/Fasl/Image.antt =====
-- What an image says: its objects, how the compiler writes them, and how many words they take.
use ol.Common.{ℕ, ◌+◌, ◌^◌, ◌≤◌, ◌<◌, List, [], ◌∷◌, ◌++◌, length, All}
use ol.Heap.{words_for}
use ol.Fasl.{Bytes}
use ol.Fasl.Nat.{encode_nat}

-- a value, or the object a number of places before
pub data Field : Type 0 where
  imm : ℕ → ℕ → Field
  back : ℕ → Field

pub data Item : Type 0 where
  plain : ℕ → List Field → Item
  raw : ℕ → Bytes → Item

unfoldable pub encode_field : Field → Bytes
encode_field (imm type n) = 0 ∷ type ∷ encode_nat n
encode_field (back diff) = encode_nat diff

unfoldable pub encode_fields : List Field → Bytes
unfolding encode_field
encode_fields [] = []
encode_fields (f ∷ fs) = encode_field f ++ encode_fields fs

unfoldable pub encode_item : Item → Bytes
unfolding encode_fields
encode_item (plain type fs) = 1 ∷ type ∷ (encode_nat (length fs) ++ encode_fields fs)
encode_item (raw type bs) = 2 ∷ type ∷ (encode_nat (length bs) ++ bs)

unfoldable pub encode_items : List Item → Bytes
unfolding encode_item
encode_items [] = []
encode_items (x ∷ xs) = encode_item x ++ encode_items xs

-- the words of an object, header included
unfoldable pub item_words : Item → ℕ
item_words (plain type fs) = length fs + 1
item_words (raw type bs) = words_for (length bs) + 1

unfoldable pub total_words : List Item → ℕ
unfolding item_words
total_words [] = 0
total_words (x ∷ xs) = item_words x + total_words xs

-- sizes and numbers that the loader can hold; a reference leads to an object before the one at `pos`
abbrev pub FieldFits : ℕ → Field → Type 0
FieldFits pos (imm type n) = n < 2 ^ 64
FieldFits pos (back diff) = (0 < diff) × (diff ≤ pos) × (diff < 2 ^ 64)

abbrev pub ItemFits : ℕ → Item → Type 0
ItemFits pos (plain type fs) = (length fs < 2 ^ 31) × All (FieldFits pos) fs
ItemFits pos (raw type bs) = length bs < 2 ^ 31

abbrev pub ItemsFit : ℕ → List Item → Type 0
ItemsFit pos [] = Unit
ItemsFit pos (x ∷ xs) = ItemFits pos x × ItemsFit (pos + 1) xs
