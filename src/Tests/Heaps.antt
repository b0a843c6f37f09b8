-- ===== src/Tests/Heaps.antt =====
-- Lists, objects, nodes and a move of the heap at concrete states.
use ol.Common.{
  false, ℕ, ◌+◌, ◌*◌, ◌-◌, ◌%◌, ◌≤◌, ◌<◌, ◌≡◌, refl, arith, List, [], ◌∷◌, true, ◌==◌,
  if◌then◌else◌, some, length, get_or, ap, inl,
}
use ol.Word.{
  wsize, word_mod, is_value, is_reference, is_rawobject, make_header, make_raw_header, hdrsize,
}
use ol.Word.Sign.{uvtoi}
use ol.Word.Types.{iempty, tpair, tff, tstring}
use ol.Heap.{load, Heap, is_pair, new_list}
use ol.Heap.Bytes.{load_byte}
use ol.Heap.Chain.{IsList}
use ol.Machine.{operand, Vm, Continues, Applies, nr, arg}
use ol.Op.Control.{apply_op}
use ol.Op.Control.Spread.{apply_op_lem}
use ol.Op.Make.{vmnew_object}
use ol.Op.Make.Objects.{MadeObject, vmnew_object_lem}
use ol.Op.Node.{ffapply, make_node}
use ol.Op.Node.Bind.{FourResults, Bound, ffapply-make_node}
use ol.Op.Access.{setref, field_at}
use ol.Op.Access.Update.{setref_lem}
use ol.Heap.Laws.{Extends}
use ol.Gc.Resize.{Realloc, resize_heap, fix_field}
use ol.Gc.Objects.{Obj, ObjsAt, fix_objs, extent}
use ol.Gc.Relocate.{resize_heap_lem}

-- the bytes of the code name the registers 0, 1, 2, ...
abbrev code : Heap
code = record { begin = 0; end = 65536; genstart = 0; fp = 1024; mem = λ a. 0x050403020100 }

abbrev elements : List ℕ
elements = 7 ∷ 9 ∷ []

-- a list of them
abbrev listed : ℕ × Heap
listed = new_list code tpair elements

listed-IsList : IsList listed.1 elements listed.0
unfolding is_pair new_list is_reference make_header
listed-IsList = (refl, refl, (refl, refl, refl))

-- a state with the list in all registers but 4
abbrev state : Vm
state = record {
  heap = listed.1;
  max_heap_size = 65535;
  std = λ i. i;
  regs = λ r. if r == 4 then 512 else listed.0;
  this = 512;
  acc = 4;
  ip = 0;
  op = 20;
  ticker = 0;
  bank = 0;
  breaked = 0;
  sandboxp = 0;
}

apply_example : Applies (apply_op state) λ t.
    (t.this ≡ state.regs 4)
    × (t.acc ≡ 1 + 1 + length elements)
    × (t.regs 3 ≡ state.regs 3)
    × ((i : ℕ) → i < 1 → t.regs (4 + i) ≡ state.regs (5 + i))
    × ((i : ℕ) → i < length elements → t.regs (4 + 1 + i) ≡ get_or elements i 0)
    × (t.heap ≡ state.heap)
apply_example = apply_op_lem state 1 elements refl refl listed-IsList (omega arith)

in_register : IsList state.heap elements (arg state 1)
unfolding is_pair new_list load_byte is_reference make_header
in_register = (refl, refl, (refl, refl, refl))

listed-fp : state.heap.fp ≡ 1072
unfolding new_list
listed-fp = refl

listed-end : state.heap.end ≡ 65536
unfolding new_list
listed-end = refl

new_object_example :
    Continues (vmnew_object (λ s n. s) state) (MadeObject state (uvtoi (arg state 0)) elements)
new_object_example =
    vmnew_object_lem (λ s n. s) state elements in_register (omega (arith, listed-fp))
      (omega (arith, listed-fp, listed-end))

-- a state with a node in register 0
abbrev bind_state : Vm
bind_state = record state { heap = (make_node code tff iempty 3 30 iempty).1; regs = λ r. 1024 }

four : FourResults bind_state
unfolding load_byte make_node
four = (omega arith, omega arith, omega arith, omega arith, omega arith, omega arith)

bind_example : Continues (ffapply bind_state) (Bound bind_state iempty 3 30 iempty)
bind_example = ffapply-make_node code tff iempty 3 30 iempty bind_state (inl refl) four refl refl

-- a pair of 7 and itself, and a string
abbrev pair_header : ℕ
pair_header = make_header tpair 3

abbrev string_header : ℕ
string_header = make_raw_header tstring 2 3

abbrev objects : List Obj
objects = (pair_header, 7 ∷ 4096 ∷ []) ∷ (string_header, 4096 ∷ []) ∷ []

abbrev full : Heap
full = record {
  begin = 4096;
  end = 8192;
  genstart = 4096;
  fp = 4136;
  mem = λ a.
      if a == 4096
      then pair_header
      else (if a == 4104
          then 7
          else (if a == 4112 then 4096 else (if a == 4120 then string_header else 4096)));
}

-- 4096 bytes further
abbrev slide : Realloc
slide h words = (h.begin + 4096, λ a. h.mem (a - 4096))

full-ObjsAt : ObjsAt full full.begin objects
unfolding hdrsize make_header make_raw_header
full-ObjsAt = (refl, refl, (refl, (refl, tt)), (refl, refl, (refl, tt), tt))

full-extent : extent objects ≡ 5
unfolding extent
full-extent = refl

resize_example :
    let begin = (slide full (700 + (nr + 3))).0 in
    let delta = (begin + word_mod - full.begin) % word_mod in
    (h' : Heap) × (resize_heap slide 0 full 700 ≡ some (delta, h'))
    × (h'.begin ≡ begin)
    × (h'.end ≡ begin + 700 * wsize)
    × (h'.fp ≡ begin + extent objects * wsize)
    × ObjsAt h' begin (fix_objs delta objects)
    × ((val : ℕ)
        → is_reference val ≡ true
        → full.begin ≤ val
        → val ≤ full.fp
        → fix_field delta val ≡ begin + (val - full.begin))
resize_example =
    resize_heap_lem slide full 700 objects (omega arith) (omega (arith, full-extent)) full-ObjsAt
      (omega arith) (omega arith) (omega (arith, full-extent))
      (λ i lt. ap full.mem {x = 8192 + i - 4096} {y = 4096 + i} (omega arith))

-- an update of the second field of the list's first pair
abbrev update_state : Vm
update_state = record state { regs = λ r. if r == 1 then 2 * 256 + 2 else listed.0 }

update_reads :
    (is_value (arg update_state 0) ≡ false)
    × (is_rawobject (load update_state.heap (arg update_state 0)) ≡ false)
    × (hdrsize (load update_state.heap (arg update_state 0)) ≡ 3)
    × (arg update_state 0 ≡ 1048)
    × (uvtoi (arg update_state 1) ≡ 2)
    × (update_state.heap.fp ≡ 1072)
unfolding is_value is_rawobject hdrsize make_header new_list load_byte uvtoi
update_reads = (refl, refl, refl, refl, refl, refl)

setref_example : Continues (setref update_state) λ t.
    (t.regs (operand update_state 3) ≡ update_state.heap.fp)
    × ((j : ℕ)
        → field_at t.heap update_state.heap.fp j ≡ (
            if j == uvtoi (arg update_state 1)
            then arg update_state 2
            else field_at update_state.heap (arg update_state 0) j))
    × Extends update_state.heap t.heap
    × (t.heap.fp
        ≡ update_state.heap.fp + hdrsize (load update_state.heap (arg update_state 0)) * wsize)
setref_example =
    setref_lem update_state update_reads.0 update_reads.1
      (omega (arith, update_reads.2, update_reads.3, update_reads.5))
      (omega (arith, update_reads.4)) (omega (arith, update_reads.2, update_reads.4))
