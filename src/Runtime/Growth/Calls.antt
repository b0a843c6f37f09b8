-- ===== src/Runtime/Growth/Calls.antt =====
-- Calls and errors in the main loop of src/olvm.c: what they add to the heap is the object of a saved thread.
use ol.Common.{
  ℕ, ◌+◌, ◌-◌, ◌*◌, ◌==◌, ◌&&◌, Bool-cases, inl, inr, Option, none, some, if◌then◌else◌, leb, ltb,
  bit_and, arith,
}
use ol.Word.{wsize, is_reference}
use ol.Word.Types.{ifalse, iempty, ihalt, ireturn, inull, tproc, tclos, tff, tbytecode, tthread}
use ol.Heap.{reftype, ref}
use ol.Heap.Laws.{Extends, Extends-refl}
use ol.Ff.{get}
use ol.Machine.{Vm, Outcome, apply, fault, mempad, raise, set_reg}
use ol.Runtime.{small, Environment, fail}
use ol.Runtime.Apply.{
  registers, save_thread, switch_thread, halt, apply_ff, apply_empty, enter_code, enter,
  apply_object, apply_step, tick, negative,
}
use ol.Runtime.Growth.{
  Grows, looped, applied, failed, finished, faulted, if-Grows, Pure, store-Extends,
}
use ol.Runtime.Growth.Allocating.{filled-Extends}

switch_thread-Pure : Pure switch_thread
unfolding switch_thread save_thread
switch_thread-Pure s =
    let size = s.acc + 4 in
    applied (
      store-Extends (filled-Extends s.heap tthread size (registers s.regs 1 (size - 2)))
        (s.heap.fp + (size - 1) * wsize) s.this (omega arith))

halt-Pure : Pure halt
unfolding halt
halt-Pure s =
    if-Grows (is_reference (s.regs 0)) (applied (Extends-refl s.heap))
      (finished (Extends-refl s.heap))

raised : (s : Vm) (opcode a b : ℕ) → Grows s.heap (raise s opcode a b)
unfolding raise
raised s opcode a b = failed (Extends-refl s.heap)

apply_ff-Pure : Pure apply_ff
unfolding apply_ff
apply_ff-Pure s =
    let answer : ℕ → Outcome = λ v. apply (record (set_reg s 3 v) { this = s.regs 3; acc = 1 }) in
    let found : Option ℕ → Outcome = λ o. elim o as (λ v. Outcome) [
      | none ↦ fault
      | some v ↦ if v == 0 then raise (set_reg s 3 0) 260 s.this (small 260) else answer v
    ] in
    let found_or : Option ℕ → Outcome =
      λ o. elim o as (λ v. Outcome) [ none ↦ fault | some v ↦ answer v ] in
    if-Grows (s.acc == 2)
      (elim (get s.heap.fp s.heap s.this (s.regs 4) 0) as (λ o. Grows s.heap (found o)) [
        | none ↦ faulted
        | some v ↦
            if-Grows (v == 0) (raised (set_reg s 3 0) 260 s.this (small 260))
              (applied (Extends-refl s.heap))
      ])
      (if-Grows (s.acc == 3)
        (elim (get s.heap.fp s.heap s.this (s.regs 4) (s.regs 5))
          as (λ o. Grows s.heap (found_or o)) [
            | none ↦ faulted
            | some v ↦ applied (Extends-refl s.heap)
          ])
        (raised s 259 s.this inull))

apply_empty-Pure : Pure apply_empty
unfolding apply_empty
apply_empty-Pure s = applied (Extends-refl s.heap)

module _ (gc : Vm → ℕ → Vm) (stays : (s : Vm) (n : ℕ) → Extends s.heap (gc s n).heap) where
  enter_code-Pure : Pure (enter_code gc)
  unfolding enter_code
  enter_code-Pure s = elim (Bool-cases (leb (s.heap.end - mempad * wsize) s.heap.fp)) [
    | inl full ↦ rw full (looped (stays s 1))
    | inr room ↦ rw room (looped (Extends-refl s.heap))
  ]

  enter-Pure : Pure (enter gc)
  unfolding enter
  enter-Pure s =
      if-Grows (negative (tick s.ticker))
        (if-Grows (s.regs 0 == ifalse) (enter_code-Pure (record s { ticker = 10000 }))
          (switch_thread-Pure s))
        (enter_code-Pure (record s { ticker = tick s.ticker }))

  apply_object-Pure : Pure (apply_object gc)
  unfolding apply_object
  apply_object-Pure s =
      let type = reftype s.heap s.this in
      let env = ref s.heap s.this 1 in
      if-Grows (type == tproc) (enter-Pure (record (set_reg s 1 s.this) { this = env })) (
        if-Grows (type == tclos)
          (enter-Pure (record (set_reg (set_reg s 1 s.this) 2 env) { this = ref s.heap env 1 }))
          (if-Grows (bit_and type 0x3C == tff) (apply_ff-Pure s)
            (if-Grows (bit_and type 63 == tbytecode) (enter-Pure s) (raised s 259 s.this inull))))

  pub apply_step-Pure : Pure (apply_step gc)
  unfolding apply_step
  apply_step-Pure s = if-Grows (s.this == iempty && ltb 1 s.acc) (apply_empty-Pure s) (
      if-Grows (s.this == ihalt) (halt-Pure s) (
        if-Grows (s.this == ireturn) (finished (Extends-refl s.heap))
          (if-Grows (is_reference s.this) (apply_object-Pure s) (raised s 257 s.this inull))))

pub fail-Pure : (env : Environment) → Pure (fail env)
unfolding fail
fail-Pure env s =
    if-Grows (is_reference (s.regs 0)) (applied (Extends-refl s.heap))
      (finished (Extends-refl s.heap))
