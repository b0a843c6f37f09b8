-- ===== src/Op/Node/Laws.antt =====
-- The nodes that `ff:black` and `ff:red` make, and their parts (src/olvm.c).
use ol.Common.{ℕ, ◌+◌, ◌*◌, ◌%◌, ◌<◌, ◌≡◌, ◌⊎◌, inl, inr, ◌==◌, arith, bit_or}
use ol.Common.Bits.{bit_and-bit}
use ol.Word.{hdrsize, make_header, wsize}
use ol.Word.Fields.{make_header-sum}
use ol.Word.Types.{tff, ffright, ffred}
use ol.Heap.{Heap, load, ref}
use ol.Heap.Laws.{Extends}
use ol.Op.Node.{make_node, left_of, right_of, right_bit}

-- the types of a node without the side of a lone branch: `TFF` and `TFF|FFRED`
abbrev pub IsColour : ℕ → Type 0
IsColour t = (t ≡ tff) ⊎ (t ≡ bit_or tff ffred)

header_right : (t size : ℕ) → t < 64 → size < 8 → right_bit (make_header t size) ≡ (t % 2 == 1)
header_right t size ht hs =
    ground (arith, make_header-sum t size, bit_and-bit 2 (make_header t size))

header_size : (t size : ℕ) → t < 64 → size < 8 → hdrsize (make_header t size) ≡ size
unfolding hdrsize
header_size t size ht hs = ground (arith, make_header-sum t size)

-- what a new node holds
pub record IsNode (h : Heap) (me l k v r : ℕ) : Type 0 where
  pub key : ref h me 1 ≡ k
  pub val : ref h me 2 ≡ v
  pub left : left_of h me ≡ l
  pub right : right_of h me ≡ r
  pub shape : (hdrsize (load h me) ≡ 3) ⊎ ((hdrsize (load h me) ≡ 4) ⊎ (hdrsize (load h me) ≡ 5))

colour_even : (t : ℕ) → IsColour t → (t < 63) × (t % 2 ≡ 0)
colour_even t (inl black) = omega arith
colour_even t (inr red) = omega arith

right_type : (t : ℕ) → IsColour t → bit_or t ffright ≡ t + 1
right_type t (inl black) = rw black
right_type t (inr red) = rw red

module _ (h : Heap) (t l k v r : ℕ) (colour : IsColour t) where
  -- the four shapes of a node
  pub make_node-IsNode : IsNode (make_node h t l k v r).1 h.fp l k v r
  unfolding make_node left_of right_of
  make_node-IsNode =
      let (small, even) = colour_even t colour in
      let right = right_type t colour in
      let s3 = header_size t 3 (omega arith) (omega arith) in
      let s4 = header_size t 4 (omega arith) (omega arith) in
      let s5 = header_size t 5 (omega arith) (omega arith) in
      let s4' = header_size (t + 1) 4 (omega arith) (omega arith) in
      let r4 = header_right t 4 (omega arith) (omega arith) in
      let r4' = header_right (t + 1) 4 (omega arith) (omega arith) in
      record {
        key = ground arith;
        val = ground arith;
        left = ground arith;
        right = ground arith;
        shape = ground arith;
      }

  pub make_node-Extends : Extends h (make_node h t l k v r).1
  unfolding make_node
  make_node-Extends = record {
    same_begin = ground arith;
    same_end = ground arith;
    same_genstart = ground arith;
    grows = ground arith;
    keeps = λ a lt. ground arith;
  }

  pub make_node-address :
      ((make_node h t l k v r).0 ≡ h.fp)
      × ((make_node h t l k v r).1.fp
          ≡ h.fp + hdrsize (load (make_node h t l k v r).1 h.fp) * wsize)
  unfolding make_node
  make_node-address =
      let (small, even) = colour_even t colour in
      let right = right_type t colour in
      let s3 = header_size t 3 (omega arith) (omega arith) in
      let s4 = header_size t 4 (omega arith) (omega arith) in
      let s5 = header_size t 5 (omega arith) (omega arith) in
      let s4' = header_size (t + 1) 4 (omega arith) (omega arith) in (ground arith, ground arith)
