-- ===== src/Heap.antt =====
-- The heap of src/olvm.c: `heap_t` with the words of its block, allocation by moving `fp`, and the
-- object constructors. `runtime` keeps `fp` in a local variable and writes it back before every call
-- that reads it, so one field stands for both. An address is in bytes, and words lie at
-- multiples of 8.
pub mod Bytes
pub mod Chain
pub mod Digits
pub mod Laws
pub mod Raw
use ol.Common.{
  ℕ, zero, suc, ◌+◌, ◌-◌, ◌*◌, ◌/◌, ◌%◌, ◌^◌, Bool, ◌&&◌, List, [], ◌∷◌, ◌==◌, if◌then◌else◌,
  length, upd,
}
use ol.Word.{make_header, make_raw_header, is_reference, wsize, thetype}
use ol.Word.Types.{
  tpair, ttuple, tstring, tvptr, tcallable, tintp, tintn, trational, tcomplex, inull,
}

pub record Heap : Type 0 where
  pub begin : ℕ
  pub end : ℕ
  pub genstart : ℕ
  pub fp : ℕ
  pub mem : ℕ → ℕ

-- `*(word*) a`
abbrev pub load : Heap → ℕ → ℕ
load h a = h.mem a

abbrev pub store : Heap → ℕ → ℕ → Heap
store h a v = record h { mem = upd h.mem a v }

-- `ref(ob, n)`, `car(ob)`, `cdr(ob)`
abbrev pub ref : Heap → ℕ → ℕ → ℕ
ref h ob n = load h (ob + n * wsize)

abbrev pub car : Heap → ℕ → ℕ
car h ob = ref h ob 1

abbrev pub cdr : Heap → ℕ → ℕ
cdr h ob = ref h ob 2

abbrev pub set_ref : Heap → ℕ → ℕ → ℕ → Heap
set_ref h ob n v = store h (ob + n * wsize) v

-- consecutive words from `a` on
unfoldable pub store_words : Heap → ℕ → List ℕ → Heap
store_words h a [] = h
store_words h a (x ∷ xs) = store_words (store h a x) (a + wsize) xs

-- `reftype(x)`
unfoldable pub reftype : Heap → ℕ → ℕ
reftype h x = thetype (load h x)

-- a reference to an object with exactly this header
abbrev pub has_header : Heap → ℕ → ℕ → Bool
has_header h ob hdr = is_reference ob && load h ob == hdr

unfoldable pub is_pair : Heap → ℕ → Bool
is_pair h ob = has_header h ob (make_header tpair 3)

unfoldable pub is_npair : Heap → ℕ → Bool
is_npair h ob = has_header h ob (make_header tintp 3)

unfoldable pub is_npairn : Heap → ℕ → Bool
is_npairn h ob = has_header h ob (make_header tintn 3)

unfoldable pub is_rational : Heap → ℕ → Bool
is_rational h ob = has_header h ob (make_header trational 3)

unfoldable pub is_complex : Heap → ℕ → Bool
is_complex h ob = has_header h ob (make_header tcomplex 3)

unfoldable pub is_string : Heap → ℕ → Bool
unfolding reftype
is_string h ob = is_reference ob && reftype h ob == tstring

unfoldable pub is_vptr : Heap → ℕ → Bool
is_vptr h ob = has_header h ob (make_raw_header tvptr 2 0)

-- `new(size)`: the address, and the heap with `fp` moved
unfoldable pub new : Heap → ℕ → ℕ × Heap
new h size = (h.fp, record h { fp = h.fp + size * wsize })

unfoldable pub new_object : Heap → ℕ → ℕ → ℕ × Heap
unfolding new
new_object h type size = let (p, h') = new h size in (p, store h' p (make_header type size))

unfoldable pub new_raw_object : Heap → ℕ → ℕ → ℕ → ℕ × Heap
unfolding new
new_raw_object h type size pads =
    let (p, h') = new h size in (p, store h' p (make_raw_header type size pads))

unfoldable pub new_pair : Heap → ℕ → ℕ → ℕ → ℕ × Heap
unfolding new_object
new_pair h type a1 a2 = let (p, h') = new_object h type 3 in (p, set_ref (set_ref h' p 1 a1) p 2 a2)

-- `new_list2` to `new_list6`: the inner list is allocated first
unfoldable pub new_list : Heap → ℕ → List ℕ → ℕ × Heap
unfolding new_pair
new_list h type [] = (inull, h)
new_list h type (a ∷ rest) = let (tail, h') = new_list h tpair rest in new_pair h' type a tail

-- `new_tuple1` to `new_tuple13`
unfoldable pub new_tuple : Heap → List ℕ → ℕ × Heap
unfolding new_object store_words
new_tuple h xs =
    let (p, h') = new_object h ttuple (length xs + 1) in (p, store_words h' (p + wsize) xs)

-- `int words = (size + W - 1) / W`
abbrev pub words_for : ℕ → ℕ
words_for size = (size + wsize - 1) / wsize

unfoldable pub new_bytevector : Heap → ℕ → ℕ → ℕ × Heap
unfolding new_raw_object
new_bytevector h type size =
    let words = words_for size in new_raw_object h type (words + 1) (words * wsize - size)

unfoldable pub new_vptr : Heap → ℕ → ℕ × Heap
unfolding new_raw_object
new_vptr h a = let (me, h') = new_raw_object h tvptr 2 0 in (me, set_ref h' me 1 a)

unfoldable pub new_callable : Heap → ℕ → ℕ × Heap
unfolding new_raw_object
new_callable h a = let (me, h') = new_raw_object h tcallable 2 0 in (me, set_ref h' me 1 a)
