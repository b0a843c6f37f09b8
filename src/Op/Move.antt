-- ===== src/Op/Move.antt =====
-- Moves between registers, constants and jumps of src/olvm.c.
use ol.Common.{ℕ, ◌+◌, ◌/◌, ◌^◌, [], ◌∷◌, ◌==◌, if◌then◌else◌, get_or, bit_or}
use ol.Word.{small, shl}
use ol.Word.Types.{iempty, inull, itrue, ifalse}
use ol.Heap.{ref}
use ol.Machine.{Vm, Outcome, operand, arg, set_arg, next}

-- lde, ldn, ldt, ldf: the upper two bits of the opcode choose the constant
unfoldable pub ldi : Vm → Outcome
ldi s = next (set_arg s 0 (get_or (iempty ∷ inull ∷ itrue ∷ ifalse ∷ []) (s.op / 2 ^ 6) 0)) 1

unfoldable pub ld : Vm → Outcome
ld s = next (set_arg s 1 (small (operand s 0))) 2

unfoldable pub refi : Vm → Outcome
refi s = next (set_arg s 2 (ref s.heap (arg s 0) (operand s 1))) 3

unfoldable pub move : Vm → Outcome
move s = next (set_arg s 1 (arg s 0)) 2

-- The second move reads its source after the first has been made.
unfoldable pub mov2 : Vm → Outcome
mov2 s = let s1 = set_arg s 1 (arg s 0) in next (set_arg s1 3 (arg s1 2)) 4

-- Offsets of `jeq` and `jp` are little-endian.
unfoldable pub jeq : Vm → Outcome
jeq s =
    let far = shl (operand s 3) 8 + operand s 2 in
    next s (if arg s 0 == arg s 1 then far + 4 else 4)

-- jz, jn, jt, jf: the upper two bits of the opcode choose the constant to compare with
unfoldable pub jp : Vm → Outcome
jp s =
    let what = get_or (small 0 ∷ inull ∷ iempty ∷ ifalse ∷ []) (s.op / 2 ^ 6) 0 in
    let far = shl (operand s 2) 8 + operand s 1 in next s (if arg s 0 == what then far + 3 else 3)

-- Offsets of `jaf` and `jafx` are big-endian.
abbrev pub arity_offset : Vm → ℕ
arity_offset s = bit_or (shl (operand s 1) 8) (operand s 2)

unfoldable pub jaf : Vm → Outcome
jaf s = next s (if s.acc == operand s 0 then 3 else arity_offset s + 3)
