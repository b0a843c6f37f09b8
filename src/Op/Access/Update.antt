-- ===== src/Op/Access/Update.antt =====
-- `set-ref` (src/olvm.c) on objects that are not raw.
use ol.Common.{
  ℕ, zero, suc, ◌+◌, ◌*◌, ◌≤◌, ◌<◌, ◌≡◌, inl, inr, refl, ◌∙◌, ap, arith, false, ◌==◌, leb,
  if◌then◌else◌, ◌||◌, Bool-cases, le→ltb_false, ne→==_false,
}
use ol.Word.{wsize, is_value, is_rawobject, hdrsize}
use ol.Word.Sign.{uvtoi}
use ol.Heap.{Heap, load, ref, set_ref}
use ol.Heap.Laws.{Extends}
use ol.Machine.{Vm, Continues, arg, operand}
use ol.Op.Access.{copy_words, clone, setref, field_at}

-- words copied upwards from `p` to `q` behind it
pub copy_words_lem :
    (n i : ℕ) (h : Heap) (p q size : ℕ)
    → i + n ≡ size
    → p + size * wsize ≤ q
    → ((j : ℕ) → i ≤ j → j < size → ref (copy_words n i h p q) q j ≡ ref h p j)
      × ((a : ℕ) → a < q + i * wsize → (copy_words n i h p q).mem a ≡ h.mem a)
      × ((copy_words n i h p q).fp ≡ h.fp)
      × ((copy_words n i h p q).begin ≡ h.begin)
      × ((copy_words n i h p q).end ≡ h.end)
      × ((copy_words n i h p q).genstart ≡ h.genstart)
unfolding copy_words
copy_words_lem zero i h p q size last apart =
    (λ j lo hi. absurd (omega arith), λ a lt. refl, refl, refl, refl, refl)
copy_words_lem (suc n) i h p q size last apart =
    let h1 : Heap = set_ref h q i (ref h p i) in
    let (there, below, fp, begin, end, gen) =
      copy_words_lem n (i + 1) h1 p q size (omega arith) apart in
    (
      λ j lo hi. elim (Bool-cases (i == j)) [
        | inl here ↦ below (q + j * wsize) (ground arith) ∙ ground arith
        | inr later ↦ there j (ground arith) hi ∙ ground arith
      ],
      λ a lt. below a (omega arith) ∙ ground arith,
      fp,
      begin,
      end,
      gen,
    )

-- the copy of an object below `fp`
clone_lem :
    (h : Heap) (p : ℕ)
    → p + hdrsize (load h p) * wsize ≤ h.fp
    → ((clone h p).0 ≡ h.fp)
      × ((clone h p).1.fp ≡ h.fp + hdrsize (load h p) * wsize)
      × ((j : ℕ) → j < hdrsize (load h p) → ref (clone h p).1 h.fp j ≡ ref h p j)
      × Extends h (clone h p).1
unfolding clone
clone_lem h p below_fp =
    let size = hdrsize (load h p) in
    let h1 : Heap = record h { fp = h.fp + size * wsize } in
    let (there, below, fp, begin, end, gen) =
      copy_words_lem size 0 h1 p h.fp size (omega arith) below_fp in
    (
      refl,
      fp,
      λ j lt. there j (omega arith) lt,
      record {
        same_begin = begin;
        same_end = end;
        same_genstart = gen;
        grows = omega arith;
        keeps = λ a lt. below a (omega arith);
      },
    )

-- what `ref` finds in an object whose words are those of another but for one
field_at-copy :
    (h h' : Heap) (p q pos v : ℕ)
    → is_rawobject (load h p) ≡ false
    → 0 < pos
    → ((j : ℕ) → j < hdrsize (load h p) → ref h' q j ≡ (if j == pos then v else ref h p j))
    → (j : ℕ) → pos < hdrsize (load h p)
    → field_at h' q j ≡ (if j == pos then v else field_at h p j)
unfolding field_at
field_at-copy h h' p q pos v plain lo words j hi =
    let hdr : load h' q ≡ load h p =
      ap h'.mem {x = q} {y = q + 0 * wsize} (omega arith)
      ∙ words 0 (omega arith)
      ∙ rw (ne→==_false 0 pos (omega arith)) (ap h.mem (omega arith)) in
    rw (hdr, plain)
      (elim (Bool-cases (j == 0 || leb (hdrsize (load h p)) j)) [
        | inl outside ↦ rw (outside) (ground arith)
        | inr inside ↦ rw (inside) (words j (ground arith))
      ])

-- `set-ref` on an object that is not raw, below `fp`, at a position that it has: the result is a new object at the old `fp`, in
-- which `ref` finds the value at the position, and at every other position what it finds in the old object;
-- nothing in the heap has changed.
pub setref_lem :
    (s : Vm)
    → let p = arg s 0 in
      let pos = uvtoi (arg s 1) in
      is_value p ≡ false
      → is_rawobject (load s.heap p) ≡ false
      → p + hdrsize (load s.heap p) * wsize ≤ s.heap.fp
      → 0 < pos
      → pos < hdrsize (load s.heap p)
      → Continues (setref s) λ t.
        (t.regs (operand s 3) ≡ s.heap.fp)
        × ((j : ℕ)
            → field_at t.heap s.heap.fp j ≡ (if j == pos then arg s 2 else field_at s.heap p j))
        × Extends s.heap t.heap
        × (t.heap.fp ≡ s.heap.fp + hdrsize (load s.heap p) * wsize)
unfolding setref
setref_lem s reference plain below_fp lo hi =
    let p = arg s 0 in
    let pos = uvtoi (arg s 1) in
    let h1 : Heap = (clone s.heap p).1 in
    let h2 : Heap = set_ref h1 s.heap.fp pos (arg s 2) in
    let (address, end, there, grown) = clone_lem s.heap p below_fp in
    let words : (j : ℕ)
        → j < hdrsize (load s.heap p)
        → ref h2 s.heap.fp j ≡ (if j == pos then arg s 2 else ref s.heap p j) =
      λ j lt. ground (arith, there j lt) in
    rw
      (
        setref,
        reference,
        plain,
        le→ltb_false (hdrsize (load s.heap p)) pos (omega arith),
        ne→==_false pos 0 (omega arith),
        address,
      )
      (
        ground arith,
        λ j. field_at-copy s.heap h2 p s.heap.fp pos (arg s 2) plain lo words j hi,
        record {
          same_begin = grown.same_begin;
          same_end = grown.same_end;
          same_genstart = grown.same_genstart;
          grows = grown.grows;
          keeps = λ a lt. ground (arith, grown.keeps a lt);
        },
        end,
      )
