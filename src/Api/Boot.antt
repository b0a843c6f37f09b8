-- ===== src/Api/Boot.antt =====
-- `OL_new` and `OL_run` (src/olvm.c) on an image that the compiler has written.
use ol.Common.{
  ltb, true, ℕ, ◌+◌, ◌-◌, ◌*◌, ◌%◌, ◌^◌, ◌≤◌, ◌<◌, ◌≡◌, ◌≢◌, refl, ◌∙◌, List, [], ◌∷◌, ◌++◌, length,
  arith, some, inl, ne→==_false, bit_and,
}
use ol.Word.{wsize, make_header, make_raw_header}
use ol.Word.Types.{ttuple, ihalt, inull}
use ol.Heap.{Heap, set_ref, words_for, new_raw_object}
use ol.Heap.Raw.{SameBounds, store_bytes-bounds}
use ol.Op.Make.{padding}
use ol.Sys.{int_of_word}
use ol.Fasl.{Bytes, ok, push_word}
use ol.Fasl.Image.{Field, Item, plain, raw, encode_items, total_words, ItemsFit}
use ol.Fasl.Count.{count_fasl_objects-encode}
use ol.Fasl.Load.{field_word, put_fields, put_item, put_items, deserialize-encode}
use ol.Fasl.Load.Placed.{ItemsAt, put_items_lem}
use ol.Machine.{mempad}
use ol.Api.{first_regs, Host, Ol, heap_end, ol_new, required_memory_size}

bounds_trans : (h h' h'' : Heap) → SameBounds h' h'' → SameBounds h h' → SameBounds h h''
bounds_trans h h' h'' (b, e, g) (b', e', g') = (b ∙ b', e ∙ e', g ∙ g')

put_fields-bounds :
    (fs : List Field) (h : Heap) (ptrs pos : ℕ) → SameBounds h (put_fields h ptrs pos fs)
unfolding put_fields
put_fields-bounds [] h ptrs pos = (refl, refl, refl)
put_fields-bounds (f ∷ fs) h ptrs pos =
    put_fields-bounds fs (push_word h (field_word h ptrs pos f)) ptrs pos

put_item-bounds : (x : Item) (h : Heap) (ptrs pos : ℕ) → SameBounds h (put_item h ptrs pos x)
unfolding put_item
put_item-bounds (plain type fs) h ptrs pos =
    put_fields-bounds fs (push_word h (make_header type (length fs + 1))) ptrs pos
put_item-bounds (raw type bs) h ptrs pos =
    let words = words_for (length bs) in
    let pads = words * wsize - length bs in
    let h1 : Heap = (new_raw_object h (bit_and type 31) (words + 1) pads).1 in
    store_bytes-bounds (bs ++ padding pads) h1 (h.fp + wsize)

put_items-bounds :
    (xs : List Item) (h : Heap) (ptrs pos : ℕ) → SameBounds h (put_items h ptrs pos xs)
unfolding put_items
put_items-bounds [] h ptrs pos = (refl, refl, refl)
put_items-bounds (x ∷ xs) h ptrs pos =
    let h0 : Heap = set_ref h ptrs pos h.fp in
    bounds_trans h (put_item h0 ptrs pos x) (put_items (put_item h0 ptrs pos x) ptrs (pos + 1) xs)
      (put_items-bounds xs (put_item h0 ptrs pos x) ptrs (pos + 1)) (put_item-bounds x h0 ptrs pos)

-- the machine that `OL_new` makes of an image
abbrev pub Booted : Host → List Item → Bytes → Ol → Type 0
Booted host xs rest ol =
    let n = length xs in
    (ol_new host (encode_items xs ++ (0 ∷ rest)) ≡ ok (some ol))
    × (ol.heap.begin ≡ host.block)
    × (ol.heap.fp ≡ host.block + (total_words xs + n + 1) * wsize)
    × (ol.heap.fp + mempad * wsize ≤ ol.heap.end)
    × (ol.heap.mem host.block ≡ make_raw_header ttuple (n + 1) 0)
    × ItemsAt ol.heap (host.block + wsize) 0 (host.block + (n + 1) * wsize) xs
    × (ol.regs 3 ≡ ihalt)
    × (ol.regs 4 ≡ inull)

heap_end-fits : (block n : ℕ) → n < 2 ^ 31 → heap_end block (int_of_word n) ≡ block + n * wsize
heap_end-fits block n lt =
    let same : n % 2 ^ 32 ≡ n = omega arith in
    let positive : ltb n (2 ^ 31) ≡ true = ground arith in rw (same, positive) refl

-- Where memory is given at an aligned address, and the words that are asked for fit into an `int`, `OL_new` makes a
-- machine of an image of objects that fit: the memory that it asks for is enough for them with `MEMPAD` words to spare,
-- the objects stand one behind the other behind the table that leads to each of them, and the continuation is the one
-- that ends the program.
pub ol_new_lem :
    (host : Host) (xs : List Item) (rest : Bytes)
    → host.block ≢ 0
    → host.block % wsize ≡ 0
    → ItemsFit 0 xs
    → (total_words xs + (length xs + 2)) * 2 + mempad < 2 ^ 31
    → (ol : Ol) × Booted host xs rest ol
unfolding ol_new
ol_new_lem host xs rest some_memory aligned fits words =
    let n = length xs in
    let counted = count_fasl_objects-encode xs rest fits (omega arith) in
    let size = required_memory_size (total_words xs) n in
    let sized : heap_end host.block size
        ≡ host.block + ((total_words xs + (n + 2)) * 2 + mempad) * wsize =
      heap_end-fits host.block ((total_words xs + (n + 2)) * 2 + mempad) words in
    let empty : Heap = record {
      begin = host.block;
      end = heap_end host.block size;
      genstart = host.block;
      fp = host.block;
      mem = host.contents;
    } in
    let h1 : Heap = (new_raw_object empty ttuple (n + 1) 0).1 in
    let ptrs = host.block + wsize in
    let (fp, keeps, at) =
      put_items_lem xs h1 ptrs 0 n (omega arith) (omega arith) (omega arith) fits in
    let (b, e, g) = put_items-bounds xs h1 ptrs 0 in
    let h2 : Heap = put_items h1 ptrs 0 xs in
    let loaded = deserialize-encode xs h1 ptrs 0 (0 ∷ rest) fits in
    (
      record {
        heap = h2;
        max_heap_size = 65535;
        exit = host.exit;
        userdata = 0;
        read = host.read;
        write = host.write;
        std = λ i. i;
        regs = first_regs;
        this = 0;
        arity = 0;
      },
      (
        rw (counted, ne→==_false host.block 0 some_memory, loaded),
        b,
        omega arith,
        omega arith,
        keeps host.block (omega arith) (inl (omega arith)) ∙ ground arith,
        at,
        refl,
        refl,
      ),
    )
