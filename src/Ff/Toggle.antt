-- ===== src/Ff/Toggle.antt =====
-- `ff:toggle` (src/olvm.c) on a node that stands for a tree.
use ol.Common.{
  ℕ, ◌+◌, ◌-◌, ◌*◌, ◌≤◌, ◌<◌, ◌≡◌, ◌≢◌, inl, inr, refl, sym, ◌∙◌, ap, arith, bit_xor, subst,
}
use ol.Common.Bits.{bit_and-bit, bit_xor-bit}
use ol.Word.{wsize, hdrsize, thetype}
use ol.Word.Fields.{thetype-mod}
use ol.Word.Types.{iempty, ffred}
use ol.Heap.{Heap, load, ref, store}
use ol.Heap.Laws.{Extends}
use ol.Machine.{Vm, Continues, Continues-map, arg, operand}
use ol.Op.Access.{copy_words}
use ol.Op.Access.Update.{copy_words_lem}
use ol.Op.Node.{right_bit, left_of, right_of, fftoggle}
use ol.Ff.Tree.{Tree, node, Holds, IsNodeSize}
use ol.Ff.Build.{Below, Holds-Extends}

flipped :
    (hdr : ℕ)
    → (hdrsize (bit_xor hdr 8) ≡ hdrsize hdr)
      × (right_bit (bit_xor hdr 8) ≡ right_bit hdr)
      × (thetype (bit_xor hdr 8) ≡ bit_xor (thetype hdr) ffred)
unfolding hdrsize
flipped hdr =
    let whole = bit_xor-bit 3 hdr in
    let type = bit_xor-bit 1 (thetype hdr) in
    (
      omega (arith, whole),
      ground (arith, whole, bit_and-bit 2 hdr, bit_and-bit 2 (bit_xor hdr 8)),
      ground (arith, whole, type, thetype-mod hdr, thetype-mod (bit_xor hdr 8)),
    )

-- branches are read from the header and the words behind it
same_branches :
    (h h' : Heap) (p q : ℕ)
    → IsNodeSize (hdrsize (load h p))
    → hdrsize (load h' q) ≡ hdrsize (load h p)
    → right_bit (load h' q) ≡ right_bit (load h p)
    → ((j : ℕ) → 1 ≤ j → j < hdrsize (load h p) → ref h' q j ≡ ref h p j)
    → (left_of h' q ≡ left_of h p) × (right_of h' q ≡ right_of h p)
unfolding left_of right_of
same_branches h h' p q (inl three) size right words = (rw (size, three) refl, rw (size, three) refl)
same_branches h h' p q (inr (inl four)) size right words =
    let third = words 3 (omega arith) (omega arith) in
    (rw (size, right, four, third) refl, rw (size, right, four, third) refl)
same_branches h h' p q (inr (inr five)) size right words =
    let third = words 3 (omega arith) (omega arith) in
    let fourth = words 4 (omega arith) (omega arith) in
    (rw (size, five, third) refl, rw (size, five, fourth) refl)

-- the copy that `fftoggle` makes at `fp`
module _ (h : Heap) (ff : ℕ) where
  abbrev flip : Heap
  flip = store h h.fp (bit_xor (load h ff) 8)

  abbrev copied : Heap
  copied = record (copy_words (hdrsize (load h ff) - 1) 1 flip ff h.fp) {
    fp = h.fp + hdrsize (load h ff) * wsize;
  }

module _ (h : Heap) (ff : ℕ) (shape : IsNodeSize (hdrsize (load h ff)))
    (low : ff + hdrsize (load h ff) * wsize ≤ h.fp) where
  copied-words : (j : ℕ) → 1 ≤ j → j < hdrsize (load h ff) → ref (copied h ff) h.fp j ≡ ref h ff j
  copied-words j lo hi =
      let size = hdrsize (load h ff) in
      (copy_words_lem (size - 1) 1 (flip h ff) ff h.fp size (ground arith) low).0 j lo hi
      ∙ ground arith

  copied-header : load (copied h ff) h.fp ≡ bit_xor (load h ff) 8
  copied-header =
      let size = hdrsize (load h ff) in
      (copy_words_lem (size - 1) 1 (flip h ff) ff h.fp size (ground arith) low).1 h.fp (omega arith)
      ∙ ground arith

  copied-Extends : Extends h (copied h ff)
  copied-Extends =
      let size = hdrsize (load h ff) in
      let (words, below, fp, begin, end, gen) =
        copy_words_lem (size - 1) 1 (flip h ff) ff h.fp size (ground arith) low in
      record {
        same_begin = begin;
        same_end = end;
        same_genstart = gen;
        grows = omega arith;
        keeps = λ a lt. below a (omega arith) ∙ ground arith;
      }

fftoggle-copied :
    (s : Vm)
    → IsNodeSize (hdrsize (load s.heap (arg s 0)))
    → Continues
        (fftoggle s)
        λ t. (t.regs (operand s 1) ≡ s.heap.fp) × (t.heap ≡ copied s.heap (arg s 0))
unfolding fftoggle
fftoggle-copied s (inl three) = rw (three) (ground arith, refl)
fftoggle-copied s (inr (inl four)) = rw (four) (ground arith, refl)
fftoggle-copied s (inr (inr five)) = rw (five) (ground arith, refl)

-- `ff:toggle` of a word that stands for a tree with a node at its root, all below `fp`: the result is a new node that
-- stands for the same tree, in the other colour, the tree stands where it was, the heap in front is unchanged, and `fp`
-- is behind the new node.
pub fftoggle_lem :
    (s : Vm) (l : Tree) (k v : ℕ) (r : Tree)
    → Holds s.heap (node l k v r) (arg s 0)
    → Below s.heap (node l k v r) (arg s 0) s.heap.fp
    → s.heap.fp ≢ iempty
    → Continues (fftoggle s) λ t.
      (t.regs (operand s 1) ≡ s.heap.fp)
      × Holds t.heap (node l k v r) s.heap.fp
      × (thetype (load t.heap s.heap.fp) ≡ bit_xor (thetype (load s.heap (arg s 0))) ffred)
      × Holds t.heap (node l k v r) (arg s 0)
      × (t.heap.fp ≡ s.heap.fp + hdrsize (load s.heap (arg s 0)) * wsize)
      × Extends s.heap t.heap
fftoggle_lem s l k v r holds below ne =
    let (some_node, shape, ek, ev, hl, hr) = holds in
    let (low, bl, br) = below in
    let ff = arg s 0 in
    let h : Heap = s.heap in
    let h' : Heap = copied h ff in
    let header = copied-header h ff shape low in
    let words = copied-words h ff shape low in
    let grown = copied-Extends h ff shape low in
    let (size, right, type) = flipped (load h ff) in
    let size' = ap (λ (w : ℕ). hdrsize w) header ∙ size in
    let (el, er) =
      same_branches h h' ff h.fp shape size' (ap (λ (w : ℕ). right_bit w) header ∙ right) words in
    let again : Holds h' (node l k v r) h.fp = (
      ne,
      rw size' shape,
      words 1 (omega arith) (ground arith) ∙ ek,
      words 2 (omega arith) (ground arith) ∙ ev,
      rw el (Holds-Extends grown l (left_of h ff) hl bl).0,
      rw er (Holds-Extends grown r (right_of h ff) hr br).0,
    ) in
    Continues-map (fftoggle s)
      (λ t (result, heap). (
        result,
        subst (λ (g : Heap). Holds g (node l k v r) h.fp) (sym heap) again,
        rw heap (ap (λ (w : ℕ). thetype w) header ∙ type),
        subst (λ (g : Heap). Holds g (node l k v r) ff) (sym heap)
            (Holds-Extends grown (node l k v r) ff holds below).0,
        ap (λ (g : Heap). g.fp) heap,
        subst (λ (g : Heap). Extends h g) (sym heap) grown,
      ))
      (fftoggle-copied s shape)
