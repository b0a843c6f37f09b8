-- ===== src/Runtime.antt =====
-- The main loop of `runtime` in src/olvm.c: the fetch of an instruction, the choice by its opcode, and
-- the labels that the instructions jump to.
pub mod Apply
pub mod Thread
pub mod Growth
pub mod Immutable
pub mod Lookup
pub mod Errors
pub mod Quantum
use ol.Common.{ℕ, zero, suc, ◌+◌, List, [], ◌∷◌, ◌==◌, if◌then◌else◌, bit_and, bit_or}
use ol.Word.{small, shl, is_reference}
use ol.Word.Types.{ifalse, itrue, tclos, tproc, tff, ffred}
use ol.Heap.{Heap}
use ol.Heap.Bytes.{load_byte, new_string}
use ol.Machine.{
  Vm, Outcome, loop, apply, error, done, exits, fault, operand, set_reg, with_heap, raise,
}
use ol.Op.Alu.{
  addition, subtraction, multiplication, division, binary_and, binary_or, binary_xor, shift_right,
  shift_left,
}
use ol.Op.Move.{ldi, ld, refi, move, mov2, jeq, jp, jaf}
use ol.Op.Make.{oclose, close1, vmnew, cons, jafx, vmnew_object, vmnew_rawobject}
use ol.Op.Query.{vmrawq, type_of, size, eqq, lessq, endianness, wordsize, maxvalue, valuewidth}
use ol.Op.Access.{car_op, cdr_op, ref_op, setref, setrefe, tupleapply}
use ol.Op.Cast.{vmcast}
use ol.Op.Float.{Doubles, fp1, fp2}
use ol.Op.Node.{mknode, ffapply, fftoggle, ffredq, ffrightq}
use ol.Op.Ambient.{clock, version}
use ol.Op.Control.{goto_op, nop, apply_op, ret, sys, run, arity_error}
use ol.Sys.Calls.{System, syscall}
use ol.Runtime.Apply.{apply_step}

-- What the machine takes from elsewhere: the collector `ol->gc`, the operating system, and the arithmetic of
-- floating-point numbers.
pub record Environment : Type 0 where
  pub gc : Vm → ℕ → Vm
  pub os : System
  pub doubles : Doubles

abbrev pub Table : Type 0
Table = List (ℕ × (Vm → Outcome))

-- "Invalid opcode"
abbrev pub invalid_opcode : List ℕ
invalid_opcode = 73 ∷ 110 ∷ 118 ∷ 97 ∷ 108 ∷ 105 ∷ 100 ∷ 32 ∷ 111 ∷ 112 ∷ 99 ∷ 111 ∷ 100 ∷ 101 ∷ []

-- `default:`
unfoldable pub invalid : Vm → Outcome
unfolding new_string raise
invalid s = let (p, h1) = new_string s.heap invalid_opcode in raise (with_heap s h1) s.op p itrue

-- `case 0:`, where no instructions have been generated
unfoldable pub super_dispatch : Vm → Outcome
unfolding raise
super_dispatch s =
    let op = bit_or (shl (operand s 0) 8) (operand s 1) in
    raise (record s { op = op }) 258 (small op) itrue

module _ (env : Environment) where
  -- the cases of the `switch`
  unfoldable pub instructions : Table
  instructions =
      (0, super_dispatch)
      ∷ (2, goto_op)
      ∷ (21, nop)
      ∷ (20, apply_op)
      ∷ (24, ret)
      ∷ (27, sys)
      ∷ (50, run)
      ∷ (17, arity_error)
      ∷ (13, ldi)
      ∷ (14, ld)
      ∷ (1, refi)
      ∷ (9, move)
      ∷ (5, mov2)
      ∷ (8, jeq)
      ∷ (16, jp)
      ∷ (11, jaf)
      ∷ (12, jafx)
      ∷ (3, oclose tclos)
      ∷ (4, oclose tproc)
      ∷ (6, close1 tclos)
      ∷ (7, close1 tproc)
      ∷ (23, vmnew)
      ∷ (35, vmnew_object env.gc)
      ∷ (60, vmnew_rawobject env.gc)
      ∷ (48, vmrawq)
      ∷ (51, cons)
      ∷ (15, type_of)
      ∷ (36, size)
      ∷ (22, vmcast env.doubles)
      ∷ (52, car_op)
      ∷ (53, cdr_op)
      ∷ (47, ref_op)
      ∷ (45, setref)
      ∷ (10, setrefe)
      ∷ (54, eqq)
      ∷ (44, lessq)
      ∷ (38, addition)
      ∷ (40, subtraction)
      ∷ (39, multiplication)
      ∷ (26, division)
      ∷ (55, binary_and)
      ∷ (56, binary_or)
      ∷ (57, binary_xor)
      ∷ (58, shift_right)
      ∷ (59, shift_left)
      ∷ (28, endianness)
      ∷ (29, wordsize)
      ∷ (30, maxvalue)
      ∷ (31, valuewidth)
      ∷ (32, tupleapply)
      ∷ (49, ffapply)
      ∷ (42, mknode)
      ∷ (43, mknode)
      ∷ (46, fftoggle)
      ∷ (41, ffredq)
      ∷ (37, ffrightq)
      ∷ (33, fp1 env.doubles)
      ∷ (34, fp2 env.doubles)
      ∷ (61, clock env.os.processes.timeofday)
      ∷ (62, version)
      ∷ (63, syscall env.os env.gc)
      ∷ []

  unfoldable pub select : Table → ℕ → Vm → Outcome
  unfolding invalid
  select [] code s = invalid s
  select ((c, f) ∷ rest) code s = if c == code then f s else select rest code s

  -- `switch ((op = *ip++) & 0x3F)`
  unfoldable pub step : Vm → Outcome
  unfolding select instructions super_dispatch
  step s =
      let op = load_byte s.heap s.ip in
      select instructions (bit_and op 0x3F) (record s { ip = s.ip + 1; op = op })

  -- `error:`: mcp is told of the error, or the machine stops
  unfoldable pub fail : Vm → Outcome
  fail s =
      let s1 = record (set_reg (set_reg s 0 ifalse) 3 (small 3)) { this = s.regs 0 } in
      if is_reference (s.regs 0) then apply (record s1 { acc = 4 }) else done s1

  -- The labels of `runtime`, for a number of steps; an outcome that is no jump stays.
  unfoldable pub execute : ℕ → Outcome → Outcome
  unfolding step fail apply_step
  execute zero o = o
  execute (suc n) (loop s) = execute n (step s)
  execute (suc n) (apply s) = execute n (apply_step env.gc s)
  execute (suc n) (error s) = execute n (fail s)
  execute (suc n) (done s) = done s
  execute (suc n) (exits k) = exits k
  execute (suc n) fault = fault
