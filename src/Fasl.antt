-- ===== src/Fasl.antt =====
-- The loader of compiled images in src/olvm.c: `get_nat`, `decode_field`, `deserialize`, `decode_word` and
-- `count_fasl_objects`. The image is the list of its bytes, and `hp` the list that is left.
pub mod Nat
pub mod Image
pub mod Count
pub mod Load
pub mod Loads
pub mod Agree
use ol.Common.{
  ℕ, zero, suc, ◌+◌, ◌-◌, ◌*◌, ◌/◌, ◌%◌, ◌^◌, List, [], ◌∷◌, ◌++◌, ◌==◌, ltb, leb, if◌then◌else◌,
  bit_and, ◌||◌, length,
}
use ol.Word.{shl, truthy, wsize, word_mod, make_value, make_header}
use ol.Heap.{Heap, load, store, set_ref, ref, new_raw_object, words_for}
use ol.Heap.Bytes.{store_bytes}
use ol.Op.Make.{padding}

-- `bad_object` is the message of that name; `overrun` is a read outside the image or the table of objects,
-- a size that is negative as an `int`, or an addition that overflows one.
pub data Loaded {ℓ} (A : Type ℓ) : Type ℓ where
  ok : A → Loaded A
  bad_object : Loaded A
  overrun : Loaded A

infixl 5 ◌>>=◌
abbrev pub ◌>>=◌ {ℓ κ} : {A : Type ℓ} {B : Type κ} → Loaded A → (A → Loaded B) → Loaded B
ok a >>= f = f a
bad_object >>= f = bad_object
overrun >>= f = overrun

abbrev pub Bytes : Type 0
Bytes = List ℕ

-- seven bits a byte, highest first, with the top bit set on every byte but the last
unfoldable pub nat_loop : ℕ → Bytes → Loaded (ℕ × Bytes)
nat_loop nat [] = overrun
nat_loop nat (i ∷ rest) =
    let nat' = (shl nat 7 + bit_and i 127) % word_mod in
    let more = nat_loop nat' rest in if truthy (bit_and i 128) then more else ok (nat', rest)

-- An overflow is reported and changes nothing.
unfoldable pub get_nat : Bytes → Loaded (ℕ × Bytes)
unfolding nat_loop
get_nat hp = nat_loop 0 hp

unfoldable pub decode_word : Bytes → Loaded (ℕ × Bytes)
unfolding nat_loop
decode_word hp = nat_loop 0 hp

-- `*hp++`
abbrev pub take_byte : Bytes → Loaded (ℕ × Bytes)
take_byte [] = overrun
take_byte (b ∷ rest) = ok (b, rest)

-- `int size = get_nat(&hp)`, the count of a `while (size--)`
abbrev pub as_count : ℕ → Loaded ℕ
as_count n = if ltb (n % 2 ^ 32) (2 ^ 31) then ok (n % 2 ^ 32) else overrun

-- `*fp++ = val`
abbrev pub push_word : Heap → ℕ → Heap
push_word h v = record h { mem = (store h h.fp v).mem; fp = h.fp + wsize }

-- a value, or the object that stands `diff` places before the one at `pos`
unfoldable pub decode_field : Heap → Bytes → ℕ → ℕ → Loaded (Heap × Bytes)
unfolding get_nat
decode_field h [] ptrs pos = overrun
decode_field h (zero ∷ hp) ptrs pos = do
  (type, hp) ← take_byte hp
  (n, hp) ← get_nat hp
  ok (push_word h (make_value type n), hp)
decode_field h (suc b ∷ hp) ptrs pos = do
  (diff, hp) ← get_nat (suc b ∷ hp)
  if ltb pos diff then overrun else ok (push_word h (ref h ptrs (pos - diff)), hp)

unfoldable pub decode_fields : ℕ → Heap → Bytes → ℕ → ℕ → Loaded (Heap × Bytes)
unfolding decode_field
decode_fields zero h hp ptrs pos = ok (h, hp)
decode_fields (suc n) h hp ptrs pos = do
  (h, hp) ← decode_field h hp ptrs pos
  decode_fields n h hp ptrs pos

-- `while (size--) *p++ = *hp++;`
unfoldable pub split_bytes : ℕ → Bytes → Loaded (Bytes × Bytes)
split_bytes zero hp = ok ([], hp)
split_bytes (suc n) [] = overrun
split_bytes (suc n) (b ∷ hp) = do (bs, hp) ← split_bytes n hp; ok (b ∷ bs, hp)

unfoldable pub decode_plain : Heap → Bytes → ℕ → ℕ → Loaded (Heap × Bytes)
unfolding get_nat decode_fields
decode_plain h hp ptrs me = do
  (type, hp) ← take_byte hp
  (n, hp) ← get_nat hp
  size ← as_count n
  decode_fields size (push_word h (make_header type (size + 1))) hp ptrs me

unfoldable pub decode_raw : Heap → Bytes → Loaded (Heap × Bytes)
unfolding get_nat split_bytes new_raw_object store_bytes padding
decode_raw h hp = do
  (type, hp) ← take_byte hp
  (n, hp) ← get_nat hp
  size ← as_count n
  (bytes, hp) ← split_bytes size hp
  let words = words_for size
  let pads = words * wsize - size
  let new = new_raw_object h (bit_and type 31) (words + 1) pads
  ok (store_bytes new.1 (new.0 + wsize) (bytes ++ padding pads), hp)

-- one round of the loop over the objects
unfoldable pub decode_object : Heap → Bytes → ℕ → ℕ → Loaded (Heap × Bytes)
unfolding decode_plain decode_raw
decode_object h hp ptrs me = do
  (tag, hp) ← take_byte hp
  let h = set_ref h ptrs me h.fp
  if tag == 1 then decode_plain h hp ptrs me else (if tag == 2 then decode_raw h hp else bad_object)

-- the objects from `me` on, `n` of them
unfoldable pub deserialize : ℕ → Heap → Bytes → ℕ → ℕ → Loaded (Heap × Bytes)
unfolding decode_object
deserialize zero h hp ptrs me = ok (h, hp)
deserialize (suc n) h hp ptrs me = do
  (h, hp) ← decode_object h hp ptrs me
  deserialize n h hp ptrs (me + 1)

-- `hp += size`
unfoldable pub skip_bytes : ℕ → Bytes → Loaded Bytes
skip_bytes zero hp = ok hp
skip_bytes (suc n) [] = overrun
skip_bytes (suc n) (b ∷ hp) = skip_bytes n hp

-- a field, which is skipped
unfoldable pub skip_field : Bytes → Loaded Bytes
unfolding decode_word
skip_field [] = overrun
skip_field (zero ∷ hp) = do (type, hp) ← take_byte hp; (n, hp) ← decode_word hp; ok hp
skip_field (suc b ∷ hp) = do (n, hp) ← decode_word (suc b ∷ hp); ok hp

unfoldable pub skip_fields : ℕ → Bytes → Loaded Bytes
unfolding skip_field
skip_fields zero hp = ok hp
skip_fields (suc n) hp = do hp ← skip_field hp; skip_fields n hp

-- the words of the two kinds of objects, and the bytes behind them
unfoldable pub count_plain : ℕ → Bytes → Loaded (ℕ × Bytes)
unfolding skip_fields
count_plain size hp = do hp ← skip_fields size hp; ok (size + 1, hp)

unfoldable pub count_raw : ℕ → Bytes → Loaded (ℕ × Bytes)
unfolding skip_bytes
count_raw size hp = do
  hp ← skip_bytes size hp
  ok (size / wsize + (if size % wsize == 0 then 1 else 2), hp)

unfoldable pub count_object : ℕ → Bytes → Loaded (ℕ × Bytes)
unfolding decode_word count_plain count_raw
count_object tag hp = do
  (type, hp) ← take_byte hp
  (n, hp) ← decode_word hp
  size ← as_count n
  if tag == 1 then count_plain size hp else count_raw size hp

-- an `int` after an addition, which must not overflow
abbrev pub counted : ℕ → Loaded ℕ
counted n = if ltb n (2 ^ 31) then ok n else overrun

-- `while (*hp != 0)`, of at most `fuel` rounds: the words and the number of the objects
unfoldable pub count_loop : ℕ → Bytes → ℕ → ℕ → Loaded (ℕ × ℕ)
unfolding count_object
count_loop zero hp allocated n = overrun
count_loop (suc fuel) [] allocated n = overrun
count_loop (suc fuel) (zero ∷ hp) allocated n = ok (allocated, n)
count_loop (suc fuel) (suc tag ∷ hp) allocated n =
    if suc tag == 1 || suc tag == 2
    then (do
      (words, hp) ← count_object (suc tag) hp
      allocated ← counted (allocated + words)
      n ← counted (n + 1)
      count_loop fuel hp allocated n)
    else bad_object

-- Each round takes a byte at least.
unfoldable pub count_fasl_objects : Bytes → Loaded (ℕ × ℕ)
unfolding count_loop
count_fasl_objects lang = count_loop (length lang + 1) lang 0 0
