-- ===== src/Op/Control.antt =====
-- Instructions of src/olvm.c that leave the code they stand in: jumps to `apply`, the call of the master
-- control program (mcp), and the return into a thread.
pub mod Spread
use ol.Common.{ℕ, zero, suc, ◌+◌, ◌-◌, ◌%◌, ◌^◌, ◌==◌, ltb, if◌then◌else◌, Bool, ◌&&◌}
use ol.Word.{small, wsize, is_reference, hdrsize, thetype}
use ol.Word.Sign.{uvtoi}
use ol.Word.Types.{ifalse, itrue, ihalt, tthread}
use ol.Heap.{Heap, load, ref, car, cdr, is_pair}
use ol.Machine.{Vm, Outcome, loop, apply, exits, fault, nr, ticks, operand, arg, set_reg, raise}

unfoldable pub goto_op : Vm → Outcome
goto_op s = apply (record s { this = arg s 0; acc = operand s 1 })

unfoldable pub nop : Vm → Outcome
nop s = loop s

-- `while (acc--) { R[reg] = R[reg+1]; reg++; }`, of `n` rounds
unfoldable pub shift_down : ℕ → (ℕ → ℕ) → ℕ → ℕ → ℕ
shift_down zero regs reg = regs
shift_down (suc n) regs reg =
    shift_down n (λ i. if reg == i then regs (reg + 1) else regs i) (reg + 1)

-- what the loop over the argument list makes: the registers and how many were given
pub data Unwound : Type 0 where
  unwound : (ℕ → ℕ) → ℕ → Unwound
  too_large : Unwound
  endless : Unwound

-- `while (is_pair(lst)) …`, with a bound for a list that ends
unfoldable pub unwind : ℕ → Heap → (ℕ → ℕ) → ℕ → ℕ → Unwound
unfolding is_pair
unwind zero h regs reg lst = endless
unwind (suc n) h regs reg lst =
    let rest = unwind n h (λ i. if reg == i then car h lst else regs i) (reg + 1) (cdr h lst) in
    if is_pair h lst then (if ltb nr reg then too_large else rest) else unwound regs reg

-- The arguments before the list move down one register from `reg` on, over the function, and the list
-- is unwound behind them. `given` registers stand below `reg` and the count of them in front.
unfoldable pub spread : Vm → ℕ → ℕ → ℕ → Outcome
unfolding shift_down unwind
spread s reg arity explicit =
    let moved = shift_down explicit s.regs reg in
    let from = reg + explicit in
    elim (unwind (nr + 2) s.heap moved from (moved (from + 1))) [
      | unwound regs end ↦
          apply (record s { regs = regs; this = s.regs reg; acc = arity + explicit + (end - from) })
      | too_large ↦ exits 3
      | endless ↦ fault
    ]

-- apply (20) and apply-cont (84). With fewer arguments than the list itself the count would turn
-- negative.
unfoldable pub apply_op : Vm → Outcome
unfolding spread
apply_op s =
    if s.op == 20
    then (if ltb s.acc 3 then fault else spread s 4 1 (s.acc - 3))
    else (if ltb s.acc 2 then fault else spread s 3 0 (s.acc - 2))

-- return value
unfoldable pub ret : Vm → Outcome
ret s = apply (record (set_reg s 3 (arg s 0)) { this = s.regs 3; acc = 1 })

-- a signed comparison of an `int`
abbrev pub positive_over : ℕ → ℕ → Bool
positive_over n t = ltb n t && ltb t (2 ^ 31)

-- sys continuation op arg1 arg2: calls mcp, and leaves it the ticks that remain. The registers are
-- written one by one, and each operand is read after the writes before it.
unfoldable pub sys : Vm → Outcome
sys s =
    let s1 = set_reg s 0 ifalse in
    let s2 = set_reg s1 3 (arg s1 1) in
    let s3 = set_reg s2 4 (arg s2 0) in
    let s4 = set_reg s3 5 (arg s3 2) in
    let s5 = set_reg s4 6 (arg s4 3) in
    apply (record s5 {
      this = s.regs 0;
      acc = 4;
      bank = if positive_over 10 s.ticker then s.ticker else s.bank;
      ticker = ticks;
    })

-- `while (--pos) R[pos] = this[pos];`: the fields `n` down to 1
unfoldable pub restore : ℕ → Heap → ℕ → (ℕ → ℕ) → ℕ → ℕ
restore zero h this regs = regs
restore (suc n) h this regs =
    restore n h this (λ i. if suc n == i then ref h this (suc n) else regs i)

-- run thunk quantum: back into a thread, or a call of a thunk whose continuation is the end
unfoldable pub run : Vm → Outcome
unfolding restore raise uvtoi
run s =
    let this = arg s 0 in
    let s1 = set_reg s 0 (s.regs 3) in
    let quantum = if s.bank == 0 then uvtoi (arg s1 1) % 2 ^ 32 else s.bank in
    let s2 = record s1 { this = this; ticker = quantum; bank = 0 } in
    let hdr = load s.heap this in
    let pos = hdrsize hdr - 1 in
    if is_reference this
    then (if thetype hdr == tthread
        then loop (record s2 {
          acc = pos - 3;
          regs = restore (pos - 1) s.heap this s2.regs;
          ip = ref s.heap this pos + wsize;
        })
        else apply (record (set_reg s2 3 ihalt) { acc = 1 }))
    else raise s2 50 this itrue

unfoldable pub arity_error : Vm → Outcome
unfolding raise
arity_error s = raise s 17 s.this (small s.acc)
