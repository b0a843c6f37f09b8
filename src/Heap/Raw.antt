-- ===== src/Heap/Raw.antt =====
-- Reading and writing the bytes of raw objects (src/olvm.c).
use ol.Common.{
  ℕ, zero, suc, ◌+◌, ◌-◌, ◌*◌, ◌%◌, ◌/◌, ◌^◌, Bool, ==_refl, ◌≤◌, ◌<◌, ◌≡◌, ◌⊎◌, inl, inr, refl,
  ◌∙◌, ap, arith, ◌==◌, if◌then◌else◌, Bool-cases, ne→==_false, List, [], ◌∷◌, length, get_or,
}
use ol.Word.{wsize}
use ol.Heap.{Heap, words_for, new_bytevector}
use ol.Heap.Laws.{Extends}
use ol.Heap.Bytes.{load_byte, store_byte, store_bytes}
use ol.Heap.Digits.{put-digits}

pub load_byte-store_byte :
    (h : Heap) (a b c : ℕ)
    → load_byte (store_byte h a b) c ≡ (if a == c then b % 256 else load_byte h c)
unfolding store_byte load_byte
load_byte-store_byte h a b c =
    let digits = put-digits (h.mem (a - a % wsize)) b (a % wsize) (c % wsize) in
    elim (Bool-cases ((a - a % wsize) == (c - c % wsize))) [
      | inl same ↦
          let e : c - c % wsize ≡ a - a % wsize = ground arith in
          let test : (a % wsize == c % wsize) ≡ (a == c) = ground arith in
          rw (e, ==_refl (a - a % wsize))
            (digits
              ∙ ap
                  (λ (t : Bool).
                    if t then b % 256 else h.mem (a - a % wsize) / 256 ^ (c % wsize) % 256)
                  test)
      | inr other ↦ rw (other, ne→==_false a c (ground arith)) refl
    ]

pub store_bytes-beside :
    (bs : List ℕ) (h : Heap) (a c : ℕ)
    → (c < a) ⊎ (a + length bs ≤ c)
    → load_byte (store_bytes h a bs) c ≡ load_byte h c
unfolding store_bytes
store_bytes-beside [] h a c out = refl
store_bytes-beside (b ∷ bs) h a c out =
    store_bytes-beside bs (store_byte h a b) (a + 1) c (ground arith)
    ∙ load_byte-store_byte h a b c
    ∙ rw (ne→==_false a c (ground arith)) refl

pub load_byte-store_bytes :
    (bs : List ℕ) (h : Heap) (a i : ℕ)
    → i < length bs
    → load_byte (store_bytes h a bs) (a + i) ≡ get_or bs i 0 % 256
unfolding store_bytes
load_byte-store_bytes [] h a i lt = absurd (omega arith)
load_byte-store_bytes (b ∷ bs) h a zero lt =
    store_bytes-beside bs (store_byte h a b) (a + 1) (a + 0) (inl (omega arith))
    ∙ load_byte-store_byte h a b (a + 0)
    ∙ ground arith
load_byte-store_bytes (b ∷ bs) h a (suc i) lt =
    ap (load_byte (store_bytes (store_byte h a b) (a + 1) bs)) {y = a + 1 + i} (omega arith)
    ∙ load_byte-store_bytes bs (store_byte h a b) (a + 1) i (omega arith)

-- the ends of the block stay where they are
abbrev pub SameBounds : Heap → Heap → Type 0
SameBounds h h' = (h'.begin ≡ h.begin) × (h'.end ≡ h.end) × (h'.genstart ≡ h.genstart)

-- bytes written from an address on leave the words below that of the first as they are
pub store_bytes_lem :
    (bs : List ℕ) (h : Heap) (a : ℕ)
    → ((store_bytes h a bs).fp ≡ h.fp)
      × ((b : ℕ) → b < a - a % wsize → (store_bytes h a bs).mem b ≡ h.mem b)
unfolding store_bytes
store_bytes_lem [] h a = (refl, λ b lt. refl)
store_bytes_lem (x ∷ bs) h a =
    let (end, same) = store_bytes_lem bs (store_byte h a x) (a + 1) in
    (end, λ b lt. same b (omega arith) ∙ ground arith)

pub store_bytes-bounds : (bs : List ℕ) (h : Heap) (a : ℕ) → SameBounds h (store_bytes h a bs)
unfolding store_bytes
store_bytes-bounds [] h a = (refl, refl, refl)
store_bytes-bounds (b ∷ bs) h a = store_bytes-bounds bs (store_byte h a b) (a + 1)

-- bytes behind the word at `fp`
pub store_bytes-Extends :
    (bs : List ℕ) (h : Heap) → h.fp % wsize ≡ 0 → Extends h (store_bytes h (h.fp + wsize) bs)
store_bytes-Extends bs h aligned =
    let (fp, below) = store_bytes_lem bs h (h.fp + wsize) in
    let (b, e, g) = store_bytes-bounds bs h (h.fp + wsize) in
    record {
      same_begin = b;
      same_end = e;
      same_genstart = g;
      grows = omega arith;
      keeps = λ a lt. below a (omega arith);
    }

pub new_bytevector-Extends : (h : Heap) (type size : ℕ) → Extends h (new_bytevector h type size).1
unfolding new_bytevector
new_bytevector-Extends h type size = record {
  same_begin = refl;
  same_end = refl;
  same_genstart = refl;
  grows = omega arith;
  keeps = λ a lt. ground arith;
}

pub new_bytevector-fp :
    (h : Heap) (type size : ℕ)
    → (new_bytevector h type size).1.fp ≡ h.fp + (words_for size + 1) * wsize
unfolding new_bytevector
new_bytevector-fp h type size = refl

-- a byte is read in the word where it lies
pub load_byte-same :
    (h h' : Heap) (c : ℕ)
    → h'.mem (c - c % wsize) ≡ h.mem (c - c % wsize)
    → load_byte h' c ≡ load_byte h c
unfolding load_byte
load_byte-same h h' c e = ap (λ (w : ℕ). w / 256 ^ (c % wsize) % 256) e
