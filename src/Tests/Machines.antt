-- ===== src/Tests/Machines.antt =====
-- Instructions and threads at concrete states.
use ol.Common.{
  ℕ, ◌+◌, ◌*◌, ◌^◌, ◌≤◌, ◌<◌, ◌≡◌, ◌≢◌, refl, arith, [], ◌∷◌, true, ◌==◌, if◌then◌else◌,
}
use ol.Word.{wsize, value, highbit, vbits, is_reference}
use ol.Word.Types.{itrue}
use ol.Heap.Bytes.{load_byte}
use ol.Machine.{Vm, Outcome, loop, apply, error, done, exits, fault, Continues, Wrote, arg, operand}
use ol.Op.Alu.{addition, subtraction, multiplication, division, shift_left}
use ol.Op.Alu.Digits.{
  IsWord, addition_lem, subtraction_lem, multiplication_lem, division_lem, shift_left_lem,
}
use ol.Op.Control.{run}
use ol.Runtime.Apply.{switch_thread}
use ol.Runtime.Thread.{run-switch_thread}

-- The operands of the instruction name the registers 0 to 5; register 0 holds the digit 9, the others hold 5.
abbrev state : Vm
state = record {
  heap = record { begin = 0; end = 65536; genstart = 0; fp = 1024; mem = λ a. 0x050403020100 };
  max_heap_size = 65535;
  std = λ i. i;
  regs = λ r. if r == 0 then 9 * 256 + 2 else 5 * 256 + 2;
  this = 512;
  acc = 2;
  ip = 0;
  op = 0;
  ticker = 0;
  bank = 0;
  breaked = 0;
  sandboxp = 0;
}

abbrev Distinct : ℕ → ℕ → Type 0
Distinct i j = operand state i ≢ operand state j

distinct : Distinct 2 3 × Distinct 3 4 × Distinct 3 5 × Distinct 4 5
unfolding load_byte
distinct = (omega arith, omega arith, omega arith, omega arith)

words :
    IsWord (arg state 0)
    × IsWord (arg state 1)
    × IsWord (arg state 2)
    × (value (arg state 1) ≤ vbits)
    × (0 < value (arg state 2))
unfolding load_byte
words = (omega arith, omega arith, omega arith, omega arith, omega arith)

addition_example : Continues (addition state) λ t.
    (value (t.regs (operand state 2)) + (if t.regs (operand state 3) == itrue then highbit else 0)
      ≡ value (arg state 0) + value (arg state 1))
    × (value (t.regs (operand state 2)) < highbit)
    × Wrote state 4 (2 ∷ 3 ∷ []) t
addition_example = addition_lem state words.0 words.1 distinct.0

subtraction_example : Continues (subtraction state) λ t.
    (value (t.regs (operand state 2)) + value (arg state 1)
      ≡ value (arg state 0) + (if t.regs (operand state 3) == itrue then highbit else 0))
    × (value (t.regs (operand state 2)) < highbit)
    × Wrote state 4 (2 ∷ 3 ∷ []) t
subtraction_example = subtraction_lem state words.0 words.1 distinct.0

multiplication_example : Continues (multiplication state) λ t.
    (value (t.regs (operand state 3)) * highbit + value (t.regs (operand state 2))
      ≡ value (arg state 0) * value (arg state 1))
    × (value (t.regs (operand state 2)) < highbit)
    × (value (t.regs (operand state 3)) < highbit)
    × Wrote state 4 (2 ∷ 3 ∷ []) t
multiplication_example = multiplication_lem state words.0 words.1 distinct.0

division_example : Continues (division state) λ t.
    ((value (t.regs (operand state 3)) * highbit + value (t.regs (operand state 4)))
          * value (arg state 2)
        + value (t.regs (operand state 5))
      ≡ value (arg state 0) * highbit + value (arg state 1))
    × (value (t.regs (operand state 5)) < value (arg state 2))
    × Wrote state 6 (3 ∷ 4 ∷ 5 ∷ []) t
division_example =
    division_lem state words.0 words.1 words.2 words.4 distinct.1 distinct.2 distinct.3

shift_left_example : Continues (shift_left state) λ t.
    (value (t.regs (operand state 2)) * highbit + value (t.regs (operand state 3))
      ≡ value (arg state 0) * 2 ^ value (arg state 1))
    × (value (t.regs (operand state 3)) < highbit)
    × Wrote state 4 (2 ∷ 3 ∷ []) t
shift_left_example = shift_left_lem state words.0 words.3 distinct.0

-- the state behind a jump to `apply:`
abbrev applied : Outcome → Vm
applied (apply t) = t
applied (loop t) = state
applied (error t) = state
applied (done t) = state
applied (exits n) = state
applied fault = state

abbrev switched : Vm
switched = applied (switch_thread state)

-- mcp at the instruction `run` with the thread in its first operand
abbrev mcp : Vm
mcp = record switched { ip = 4 }

switched-eq : switch_thread state ≡ apply switched
unfolding switch_thread
switched-eq = refl

aligned : is_reference state.heap.fp ≡ true
unfolding is_reference
aligned = refl

hands : arg mcp 0 ≡ switched.regs 4
unfolding load_byte switch_thread
hands = refl

run_example : Continues (run mcp) λ v.
    (v.ip ≡ state.this + wsize)
    × (v.acc ≡ state.acc)
    × ((i : ℕ) → 1 ≤ i → i ≤ state.acc + 2 → v.regs i ≡ state.regs i)
run_example =
    run-switch_thread state switched mcp (omega arith) aligned switched-eq hands (λ i lt. refl)
