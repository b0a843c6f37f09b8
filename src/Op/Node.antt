-- ===== src/Op/Node.antt =====
-- Nodes of the red-black trees that Ol calls ff (src/olvm.c): key, value and the branches that are not
-- empty, with the colour and the side of a lone branch in the type.
pub mod Bind
pub mod Laws
use ol.Common.{
  ℕ, ◌+◌, ◌*◌, ◌/◌, ◌^◌, Bool, ◌&&◌, ◌==◌, if◌then◌else◌, bit_and, bit_or, bit_xor, [], ◌∷◌,
}
use ol.Word.{truthy, shl, wsize, is_reference, hdrsize, thetype, tpos}
use ol.Word.Types.{tff, ffright, ffred, iempty, ifalse, itrue}
use ol.Heap.{Heap, load, ref, store, new_object, store_words}
use ol.Machine.{Vm, Outcome, arg, operand, set_arg, with_heap, next}
use ol.Op.Access.{copy_words}

-- `hdr & (1 << TPOS)`: the lone branch is the right one
abbrev pub right_bit : ℕ → Bool
right_bit hdr = truthy (bit_and hdr 4)

-- a node of type `t` (black or red) with left branch, key, value and right branch
unfoldable pub make_node : Heap → ℕ → ℕ → ℕ → ℕ → ℕ → ℕ × Heap
unfolding new_object store_words
make_node h t l k v r =
    if l == iempty
    then (if r == iempty
        then (let (me, h1) = new_object h t 3 in (me, store_words h1 (me + wsize) (k ∷ v ∷ [])))
        else (let (me, h1) = new_object h (bit_or t ffright) 4 in
            (me, store_words h1 (me + wsize) (k ∷ v ∷ r ∷ []))))
    else (if r == iempty
        then (let (me, h1) = new_object h t 4 in (me, store_words h1 (me + wsize) (k ∷ v ∷ l ∷ [])))
        else (let (me, h1) = new_object h t 5 in
            (me, store_words h1 (me + wsize) (k ∷ v ∷ l ∷ r ∷ []))))

-- `ff:black l k v r t` and `ff:red l k v r t`
-- The whole byte decides the colour: 42 alone makes a black node.
unfoldable pub mknode : Vm → Outcome
unfolding make_node
mknode s =
    let t = if s.op == 42 then tff else bit_or tff ffred in
    let (me, h1) = make_node s.heap t (arg s 0) (arg s 1) (arg s 2) (arg s 3) in
    next (with_heap (set_arg s 4 me) h1) 5

-- the branches of a node
unfoldable pub left_of : Heap → ℕ → ℕ
left_of h ff =
    let hdr = load h ff in
    if hdrsize hdr == 3
    then iempty
    else (if hdrsize hdr == 4 && right_bit hdr then iempty else ref h ff 3)

unfoldable pub right_of : Heap → ℕ → ℕ
right_of h ff =
    let hdr = load h ff in
    if hdrsize hdr == 3
    then iempty
    else (if hdrsize hdr == 4 then (if right_bit hdr then ref h ff 3 else iempty) else ref h ff 4)

-- `ff:bind node l k v r`: key and value first, and the branches, whose order differs where the node is
-- a leaf
unfoldable pub ffapply : Vm → Outcome
unfolding left_of right_of
ffapply s =
    let ff = arg s 0 in
    let hdr = load s.heap ff in
    let s1 = set_arg (set_arg s 2 (ref s.heap ff 1)) 3 (ref s.heap ff 2) in
    let l = left_of s.heap ff in
    let r = right_of s.heap ff in
    if hdrsize hdr == 3
    then next (set_arg (set_arg s1 4 r) 1 l) 5
    else next (set_arg (set_arg s1 1 l) 4 r) 5

-- `ff:toggle`: a copy of the node in the other colour
unfoldable pub fftoggle : Vm → Outcome
unfolding copy_words
fftoggle s =
    let node = arg s 0 in
    let h = load s.heap node in
    let p = s.heap.fp in
    let n = if hdrsize h == 5 then 4 else (if hdrsize h == 4 then 3 else 2) in
    let h1 = copy_words n 1 (store s.heap p (bit_xor h (shl ffred tpos))) node p in
    next (with_heap (set_arg s 1 p) (record h1 { fp = p + (n + 1) * wsize })) 2

-- the type bits of a node, or of an immediate
abbrev node_type : Vm → ℕ → ℕ
node_type s node = thetype (if is_reference node then load s.heap node else node)

-- `ff:red?`
unfoldable pub ffredq : Vm → Outcome
ffredq s =
    let bits = bit_and (node_type s (arg s 0)) (bit_or 0x3C ffred) in
    next (set_arg s 1 (if bits == bit_or tff ffred then itrue else ifalse)) 2

-- `ff:right?`
unfoldable pub ffrightq : Vm → Outcome
ffrightq s =
    let bits = bit_and (node_type s (arg s 0)) (bit_or 0x3C ffright) in
    next (set_arg s 1 (if bits == bit_or tff ffright then itrue else ifalse)) 2
