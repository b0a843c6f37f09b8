-- ===== src/Tests/Errors.antt =====
-- The main loop at concrete states: errors, the call of a tree, the quantum of a thread, and what it leaves alone.
use ol.Common.{
  none, some, upd, ◌+◌, ℕ, zero, suc, ◌&&◌, ◌≡◌, inl, refl, arith, true, ◌==◌, if◌then◌else◌,
  bit_and,
}
use ol.Word.{small, thetype, is_reference, make_header}
use ol.Word.Types.{tpair, tff, itrue, iempty}
use ol.Heap.{is_pair, is_npair, is_npairn, is_rational, is_complex, Heap, new_pair, reftype}
use ol.Heap.Bytes.{load_byte}
use ol.Machine.{Vm, loop, apply, raise, set_reg}
use ol.Op.Access.{has_two_parts}
use ol.Op.Node.{make_node}
use ol.Op.Make.{cons}
use ol.Ff.{get}
use ol.Ff.Persistence.{get-execute}
use ol.Ff.Tree.{Tree, leaf, node, Holds}
use ol.Ff.Order.{lookup_or, entries}
use ol.Ff.Descent.{Descends, Descends-Below, make_node-Descends}
use ol.Runtime.{Environment, step, instructions, select, super_dispatch, execute}
use ol.Runtime.Growth.{Grows}
use ol.Runtime.Immutable.{Spared, execute-Grows}
use ol.Runtime.Apply.{apply_step}
use ol.Runtime.Lookup.{answered, default_of, apply_step-lookup}
use ol.Runtime.Errors.{told, fetched, Failure, no_parts, execute-Failure}
use ol.Gc.Resize.{ol_gc}
use ol.Tests.Systems.{system}
use ol.Tests.Floats.{doubles}

abbrev pub environment : Environment
environment = record { gc = λ s n. s; os = system; doubles = doubles }

-- the collector of the machine, with as many rounds as are enough here
abbrev collector : Vm → ℕ → Vm
collector s n = elim (ol_gc (λ h cells. (0, h.mem)) 1000 s n) [ none ↦ s | some t ↦ t ]

abbrev collecting : Environment
collecting = record { gc = collector; os = system; doubles = doubles }

abbrev empty : Heap
empty = record { begin = 0; end = 65536; genstart = 0; fp = 1024; mem = λ a. 0 }

abbrev tree : Tree
tree = node leaf 3 30 leaf

abbrev made : ℕ × Heap
made = make_node empty tff iempty 3 30 iempty

made-Descends : Holds made.1 tree made.0 × Descends made.1 tree made.0 made.1.fp
made-Descends =
    make_node-Descends empty tff 3 30 leaf leaf iempty iempty (inl refl) (omega arith) (refl, tt)
      (refl, tt)

-- a tree called with the key 3, and an mcp
abbrev pub caller : Vm
caller = record {
  heap = made.1;
  max_heap_size = 65535;
  std = λ i. i;
  regs = λ r. if r == 0 then 512 else 3;
  this = made.0;
  acc = 2;
  ip = 0;
  op = 0;
  ticker = 0;
  bank = 0;
  breaked = 0;
  sandboxp = 0;
}

caller-tree :
    (is_reference caller.this ≡ true)
    × (bit_and (reftype caller.heap caller.this) 0x3C ≡ tff)
    × (caller.heap.fp ≡ 1048)
unfolding make_node reftype thetype make_header is_reference
caller-tree = (refl, refl, refl)

abbrev found : ℕ
found = lookup_or (entries tree) (caller.regs 4) (default_of caller)

lookup_example : apply_step environment.gc caller ≡ (
    if caller.acc == 2 && found == 0
    then raise (set_reg caller 3 0) 260 caller.this (small 260)
    else answered caller found)
lookup_example =
    apply_step-lookup environment.gc caller tree caller-tree.0 caller-tree.1 made-Descends.0
      (tt, tt, tt, tt) made-Descends.1 (omega (arith, caller-tree.2)) (inl refl)

-- the opcode 52 with operands that name register 0, which holds no pair
abbrev failing : Vm
failing = record caller { heap = record empty { mem = λ a. 52 } }

failing-Failure : Failure failing (loop failing) (told (fetched failing) 52 512 itrue)
unfolding load_byte has_two_parts is_pair is_npair is_npairn is_rational is_complex is_reference
    make_header
failing-Failure = no_parts 52 (inl refl) refl refl

mcp_there : is_reference (failing.regs 0) ≡ true
unfolding is_reference
mcp_there = refl

errors_example :
    execute environment (suc (suc 1)) (loop failing)
    ≡ execute environment 1 (apply (told (fetched failing) 52 512 itrue))
errors_example =
    execute-Failure environment 1 failing (told (fetched failing) 52 512 itrue) (loop failing)
      mcp_there failing-Failure

-- a thread with one tick left, in its first call and its second
abbrev running : Vm
running = record failing { ticker = 1 }

abbrev called_once : Vm
called_once = record failing { ticker = 0; ip = failing.this + 8 }

-- a pair is made behind `fp`
abbrev pairing : Vm
pairing = record caller { heap = record empty { mem = λ a. 51 } }

pairing-Spared : Spared collecting (suc (suc zero)) (loop pairing)
unfolding load_byte step instructions select cons new_pair super_dispatch
pairing-Spared = (refl, refl, (refl, refl, tt))

immutable_example : Grows pairing.heap (execute collecting (suc (suc zero)) (loop pairing))
immutable_example = execute-Grows collecting (suc (suc zero)) pairing pairing-Spared

-- the tree where the code makes a pair
abbrev tilled : ℕ × Heap
tilled = make_node (record empty { mem = λ a. 51 }) tff iempty 3 30 iempty

tilled-Descends : Holds tilled.1 tree tilled.0 × Descends tilled.1 tree tilled.0 tilled.1.fp
tilled-Descends =
    make_node-Descends (record empty { mem = λ a. 51 }) tff 3 30 leaf leaf iempty iempty (inl refl)
      (omega arith) (refl, tt) (refl, tt)

abbrev making : Vm
making = record caller { heap = tilled.1 }

making-Spared : Spared collecting (suc zero) (loop making)
unfolding load_byte make_node step instructions select cons new_pair super_dispatch
making-Spared = (refl, refl, tt)

abbrev paired : Vm
paired = record making {
  heap = (new_pair tilled.1 tpair 512 512).1;
  regs = upd making.regs 0 1048;
  ip = 4;
  op = 51;
}

made_pair : execute collecting (suc zero) (loop making) ≡ loop paired
unfolding execute step instructions select cons new_pair load_byte make_node
made_pair = refl

persistent_example : get 3 paired.heap tilled.0 3 0 ≡ get 3 tilled.1 tilled.0 3 0
persistent_example =
    get-execute collecting (suc zero) making paired tree tilled.0 making-Spared made_pair
      tilled-Descends.0
      (Descends-Below tilled.1 tree tilled.0 tilled.1.fp tilled.1.fp tilled-Descends.1
        (omega arith))
      (tt, tt, tt, tt) 3 3 0 (omega arith)
