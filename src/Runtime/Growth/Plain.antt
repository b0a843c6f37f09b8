-- ===== src/Runtime/Growth/Plain.antt =====
-- The instructions of src/olvm.c that allocate nothing.
use ol.Common.{◌==◌, ltb, ℕ, zero, suc, ◌+◌, ◌-◌, ◌≡◌, refl, sym, subst}
use ol.Heap.Laws.{Extends, Extends-refl}
use ol.Machine.{Vm, Outcome, apply, exits, fault, nr, raise, arg, operand}
use ol.Runtime.Growth.{Grows, looped, applied, failed, exited, faulted, if-Grows, Pure}
use ol.Op.Alu.{
  addition, subtraction, multiplication, division, binary_and, binary_or, binary_xor, shift_right,
  shift_left,
}
use ol.Op.Move.{ldi, ld, refi, move, mov2, jeq, jp, jaf}
use ol.Op.Query.{vmrawq, type_of, size, eqq, lessq, endianness, wordsize, maxvalue, valuewidth}
use ol.Op.Access.{car_op, cdr_op, ref_op, bind_fields, tupleapply}
use ol.Op.Node.{ffapply, ffredq, ffrightq}
use ol.Op.Control.{
  goto_op, nop, spread, apply_op, ret, sys, run, arity_error, Unwound, unwound, too_large, endless,
  unwind, shift_down,
}
use ol.Runtime.{super_dispatch}

raise-Grows : (s : Vm) (opcode a b : ℕ) → Grows s.heap (raise s opcode a b)
unfolding raise
raise-Grows s opcode a b = failed (Extends-refl s.heap)

pub alu-Pure :
    Pure addition
    × Pure subtraction
    × Pure multiplication
    × Pure division
    × Pure binary_and
    × Pure binary_or
    × Pure binary_xor
    × Pure shift_right
    × Pure shift_left
unfolding addition subtraction multiplication division binary_and binary_or binary_xor shift_right
    shift_left
alu-Pure = (
  λ s. looped (Extends-refl s.heap),
  λ s. looped (Extends-refl s.heap),
  λ s. looped (Extends-refl s.heap),
  λ s. if-Grows _ faulted (looped (Extends-refl s.heap)),
  λ s. looped (Extends-refl s.heap),
  λ s. looped (Extends-refl s.heap),
  λ s. looped (Extends-refl s.heap),
  λ s. if-Grows _ faulted (looped (Extends-refl s.heap)),
  λ s. if-Grows _ faulted (looped (Extends-refl s.heap)),
)

pub move-Pure :
    Pure ldi × Pure ld × Pure refi × Pure move × Pure mov2 × Pure jeq × Pure jp × Pure jaf
unfolding ldi ld refi move mov2 jeq jp jaf
move-Pure = (
  λ s. looped (Extends-refl s.heap),
  λ s. looped (Extends-refl s.heap),
  λ s. looped (Extends-refl s.heap),
  λ s. looped (Extends-refl s.heap),
  λ s. looped (Extends-refl s.heap),
  λ s. looped (Extends-refl s.heap),
  λ s. looped (Extends-refl s.heap),
  λ s. looped (Extends-refl s.heap),
)

pub query-Pure :
    Pure vmrawq
    × Pure type_of
    × Pure size
    × Pure eqq
    × Pure lessq
    × Pure endianness
    × Pure wordsize
    × Pure maxvalue
    × Pure valuewidth
unfolding vmrawq type_of size eqq lessq endianness wordsize maxvalue valuewidth
query-Pure = (
  λ s. looped (Extends-refl s.heap),
  λ s. looped (Extends-refl s.heap),
  λ s. looped (Extends-refl s.heap),
  λ s. looped (Extends-refl s.heap),
  λ s. looped (Extends-refl s.heap),
  λ s. looped (Extends-refl s.heap),
  λ s. looped (Extends-refl s.heap),
  λ s. looped (Extends-refl s.heap),
  λ s. looped (Extends-refl s.heap),
)

bind_fields-heap : (n : ℕ) (s : Vm) (tuple pos k : ℕ) → (bind_fields n s tuple pos k).heap ≡ s.heap
unfolding bind_fields
bind_fields-heap zero s tuple pos k = refl
bind_fields-heap (suc n) s tuple pos k = bind_fields-heap n _ tuple (pos + 1) (k + 1)

pub access-Pure : Pure car_op × Pure cdr_op × Pure ref_op × Pure tupleapply
unfolding car_op cdr_op ref_op tupleapply
access-Pure = (
  λ s. if-Grows _ (looped (Extends-refl s.heap)) (raise-Grows s _ _ _),
  λ s. if-Grows _ (looped (Extends-refl s.heap)) (raise-Grows s _ _ _),
  λ s. looped (Extends-refl s.heap),
  λ s.
      looped
        {t = record (bind_fields (operand s 1) s (arg s 0) 1 2) {
          ip = (bind_fields (operand s 1) s (arg s 0) 1 2).ip + (2 + operand s 1);
        }}
        (subst (λ h. Extends s.heap h) (sym (bind_fields-heap (operand s 1) s (arg s 0) 1 2))
          (Extends-refl s.heap)),
)

pub node-Pure : Pure ffapply × Pure ffredq × Pure ffrightq
unfolding ffapply ffredq ffrightq
node-Pure = (
  λ s. if-Grows _ (looped (Extends-refl s.heap)) (looped (Extends-refl s.heap)),
  λ s. looped (Extends-refl s.heap),
  λ s. looped (Extends-refl s.heap),
)

spread-Grows : (s : Vm) (reg arity k : ℕ) → Grows s.heap (spread s reg arity k)
unfolding spread
spread-Grows s reg arity k =
    let moved = shift_down k s.regs reg in
    let goes_on : Unwound → Outcome = λ u. elim u as (λ v. Outcome) [
      | unwound regs end ↦
          apply (record s { regs = regs; this = s.regs reg; acc = arity + k + (end - (reg + k)) })
      | too_large ↦ exits 3
      | endless ↦ fault
    ] in
    elim (unwind (nr + 2) s.heap moved (reg + k) (moved (reg + k + 1)))
      as (λ u. Grows s.heap (goes_on u)) [
        | unwound regs end ↦ applied (Extends-refl s.heap)
        | too_large ↦ exited
        | endless ↦ faulted
      ]

pub control-Pure :
    Pure goto_op
    × Pure nop
    × Pure apply_op
    × Pure ret
    × Pure sys
    × Pure run
    × Pure arity_error
    × Pure super_dispatch
unfolding goto_op nop apply_op ret sys run arity_error super_dispatch
control-Pure = (
  λ s. applied (Extends-refl s.heap),
  λ s. looped (Extends-refl s.heap),
  λ s.
      if-Grows (s.op == 20) (if-Grows (ltb s.acc 3) faulted (spread-Grows s 4 1 (s.acc - 3)))
        (if-Grows (ltb s.acc 2) faulted (spread-Grows s 3 0 (s.acc - 2))),
  λ s. applied (Extends-refl s.heap),
  λ s. applied (Extends-refl s.heap),
  λ s.
      if-Grows _ (if-Grows _ (looped (Extends-refl s.heap)) (applied (Extends-refl s.heap)))
        (raise-Grows _ _ _ _),
  λ s. raise-Grows s _ _ _,
  λ s. raise-Grows _ _ _ _,
)
