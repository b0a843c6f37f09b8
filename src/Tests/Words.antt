-- ===== src/Tests/Words.antt =====
-- Words, numbers and trees at concrete inputs.
use ol.Common.{
  ◌*◌, bit_xor, ℕ, ◌+◌, ◌^◌, ◌≡◌, refl, arith, inl, negsuc, magnitude, is_negative, some,
  if◌then◌else◌, leb,
}
use ol.Word.{wsize, make_header, thetype, hdrsize, vmax}
use ol.Word.Sign.{svtoi, itosv}
use ol.Word.Types.{ffred, tff, tintn, tintp, iempty}
use ol.Heap.{Heap, load}
use ol.Heap.Laws.{Extends}
use ol.Number.{untoi, itoun, itosn, from_uint}
use ol.Number.RoundTrip.{untoi-itoun, itosn_lem}
use ol.Machine.{Vm, Continues, operand, arg}
use ol.Op.Node.{fftoggle}
use ol.Ff.Toggle.{fftoggle_lem}
use ol.Ff.{get}
use ol.Ff.Tree.{Tree, leaf, node, Holds}
use ol.Ff.Order.{Ordered, lookup_or, entries, get-lookup_or}
use ol.Ff.Build.{Below, make_node-Holds}
use ol.Op.Node.{make_node}

-- a heap with nothing in it
abbrev empty : Heap
empty = record { begin = 1024; end = 65536; genstart = 1024; fp = 1024; mem = λ a. 0 }

-- a number of two digits
untoi_example :
    (untoi (itoun empty (2 ^ 56 + 9)).1 (itoun empty (2 ^ 56 + 9)).0 ≡ 2 ^ 56 + 9)
    × Extends empty (itoun empty (2 ^ 56 + 9)).1
untoi_example = untoi-itoun empty (2 ^ 56 + 9) refl (omega arith)

itosn_example :
    if leb (magnitude (negsuc (2 ^ 60))) vmax
    then ((itosn empty (negsuc (2 ^ 60))).0 ≡ itosv (negsuc (2 ^ 60)))
      × (svtoi (itosn empty (negsuc (2 ^ 60))).0 ≡ negsuc (2 ^ 60))
    else (from_uint (itosn empty (negsuc (2 ^ 60))).1 (itosn empty (negsuc (2 ^ 60))).0
        ≡ magnitude (negsuc (2 ^ 60)))
      × (load (itosn empty (negsuc (2 ^ 60))).1 (itosn empty (negsuc (2 ^ 60))).0
          ≡ make_header (if is_negative (negsuc (2 ^ 60)) then tintn else tintp) 3)
itosn_example = itosn_lem empty (negsuc (2 ^ 60)) (omega arith)

-- a tree with the keys 3 and 5
abbrev small_tree : Tree
small_tree = node leaf 3 30 leaf

abbrev first : ℕ × Heap
first = make_node empty tff iempty 3 30 iempty

first-Holds : Holds first.1 small_tree first.0 × Below first.1 small_tree first.0 first.1.fp
first-Holds =
    (make_node-Holds empty tff 3 30 leaf leaf iempty iempty (inl refl) (omega arith) (refl, tt)
      (refl, tt)).0

abbrev tree : Tree
tree = node small_tree 5 50 leaf

abbrev second : ℕ × Heap
second = make_node first.1 tff first.0 5 50 iempty

first-fp : first.1.fp ≡ 1048
unfolding make_node
first-fp = refl

make_node_example :
    (Holds second.1 tree second.0 × Below second.1 tree second.0 second.1.fp)
    × Holds second.1 small_tree first.0
    × Holds second.1 leaf iempty
make_node_example =
    make_node-Holds first.1 tff 5 50 small_tree leaf first.0 iempty (inl refl)
      (omega (arith, first-fp)) first-Holds (refl, tt)

second-Holds : Holds second.1 tree second.0
second-Holds =
    (make_node-Holds first.1 tff 5 50 small_tree leaf first.0 iempty (inl refl)
      (omega (arith, first-fp)) first-Holds (refl, tt)).0.0

get_example : get 4 second.1 second.0 3 0 ≡ some (lookup_or (entries tree) 3 0)
get_example = get-lookup_or 4 second.1 tree second.0 3 0 second-Holds tree-Ordered (omega arith)
  where
    tree-Ordered : Ordered tree
    tree-Ordered = ((omega arith, tt), tt, (tt, tt, tt, tt), tt)

-- a state with the tree in register 0
abbrev toggle_state : Vm
toggle_state = record {
  heap = second.1;
  max_heap_size = 65535;
  std = λ i. i;
  regs = λ r. second.0;
  this = 512;
  acc = 2;
  ip = 0;
  op = 0;
  ticker = 0;
  bank = 0;
  breaked = 0;
  sandboxp = 0;
}

second-Below : Below second.1 tree second.0 second.1.fp
second-Below =
    (make_node-Holds first.1 tff 5 50 small_tree leaf first.0 iempty (inl refl)
      (omega (arith, first-fp)) first-Holds (refl, tt)).0.1

second-fp : second.1.fp ≡ 1080
unfolding make_node hdrsize make_header
second-fp = refl

toggle_example : Continues (fftoggle toggle_state) λ t.
    (t.regs (operand toggle_state 1) ≡ toggle_state.heap.fp)
    × Holds t.heap tree toggle_state.heap.fp
    × (thetype (load t.heap toggle_state.heap.fp)
        ≡ bit_xor (thetype (load toggle_state.heap (arg toggle_state 0))) ffred)
    × Holds t.heap tree (arg toggle_state 0)
    × (t.heap.fp
        ≡ toggle_state.heap.fp + hdrsize (load toggle_state.heap (arg toggle_state 0)) * wsize)
    × Extends toggle_state.heap t.heap
toggle_example =
    fftoggle_lem toggle_state small_tree 5 50 leaf second-Holds second-Below
      (omega (arith, second-fp))
