-- ===== src/Runtime/Apply.antt =====
-- The label `apply:` of `runtime` in src/olvm.c: what is called, the switch to another thread when the
-- quantum is used up, and the room for allocation before the code runs.
use ol.Common.{
  ℕ, zero, suc, ◌+◌, ◌-◌, ◌*◌, ◌/◌, ◌%◌, ◌^◌, Bool, ◌&&◌, none, some, List, [], ◌∷◌, ◌==◌, ltb, leb,
  if◌then◌else◌, bit_and, bit_or,
}
use ol.Word.{small, truthy, wsize, is_reference}
use ol.Word.Types.{ifalse, iempty, ihalt, ireturn, inull, tproc, tclos, tff, tbytecode, tthread}
use ol.Heap.{Heap, ref, reftype, new_object, store_words, set_ref}
use ol.Ff.{get}
use ol.Machine.{Vm, Outcome, loop, apply, done, fault, ticks, mempad, set_reg, raise}

-- the registers from `i` on, `n` of them
unfoldable pub registers : (ℕ → ℕ) → ℕ → ℕ → List ℕ
registers regs i zero = []
registers regs i (suc n) = regs i ∷ registers regs (i + 1) n

-- the thread object: the registers from 1 on, and the code last
unfoldable pub save_thread : Vm → ℕ × Heap
unfolding registers new_object store_words
save_thread s =
    let size = s.acc + 4 in
    let (thread, h1) = new_object s.heap tthread size in
    let h2 = store_words h1 (thread + wsize) (registers s.regs 1 (size - 2)) in
    (thread, set_ref h2 thread (size - 1) s.this)

-- why mcp is called: a signal, the memory limit, or a used-up quantum
unfoldable pub reason : ℕ → ℕ
reason breaked =
    if truthy breaked then (if truthy (bit_and breaked 8) then small 14 else small 10) else small 1

-- saves the thread and calls mcp with it
unfoldable pub switch_thread : Vm → Outcome
unfolding save_thread reason
switch_thread s =
    let (thread, h1) = save_thread s in
    let s1 = set_reg (set_reg s (s.acc + 4) s.this) 0 ifalse in
    let s2 = set_reg (set_reg (set_reg s1 3 (reason s.breaked)) 4 thread) 5 (small s.breaked) in
    apply (record (set_reg s2 6 ifalse) {
      heap = h1;
      this = s.regs 0;
      acc = 4;
      bank = 0;
      breaked = 0;
      ticker = ticks;
    })

-- `--ticker`, and `ticker < 0`
abbrev pub tick : ℕ → ℕ
tick t = (t + 2 ^ 32 - 1) % 2 ^ 32

abbrev pub negative : ℕ → Bool
negative t = leb (2 ^ 31) t

-- the final continuation: the end, or a call of mcp that tells it
unfoldable pub halt : Vm → Outcome
halt s =
    let s1 = set_reg (set_reg (set_reg s 0 ifalse) 4 (s.regs 3)) 3 (small 2) in
    if is_reference (s.regs 0)
    then apply (record (set_reg (set_reg s1 5 ifalse) 6 ifalse) {
      this = s.regs 0;
      breaked = 0;
      ticker = ticks;
      bank = 0;
      acc = 4;
    })
    else done (record s { this = s.regs 0 })

-- A tree called with a key, and perhaps a default. The last argument of `ERROR(260, this, R[4])` is read when R[4] holds
-- the code.
unfoldable pub apply_ff : Vm → Outcome
unfolding get raise
apply_ff s =
    if s.acc == 2
    then elim (get s.heap.fp s.heap s.this (s.regs 4) 0) [
      | none ↦ fault
      | some v ↦
          if v == 0
          then raise (set_reg s 3 0) 260 s.this (small 260)
          else apply (record (set_reg s 3 v) { this = s.regs 3; acc = 1 })
    ]
    else (if s.acc == 3
        then elim (get s.heap.fp s.heap s.this (s.regs 4) (s.regs 5)) [
          | none ↦ fault
          | some v ↦ apply (record (set_reg s 3 v) { this = s.regs 3; acc = 1 })
        ]
        else raise s 259 s.this inull)

-- an empty tree called with a key: the default, or #false, to the continuation
unfoldable pub apply_empty : Vm → Outcome
apply_empty s =
    apply
      (record (set_reg s 3 (if ltb 2 s.acc then s.regs 5 else ifalse)) { this = s.regs 3; acc = 1 })

module _ (gc : Vm → ℕ → Vm) where
  -- room for what the function allocates, and the first instruction
  unfoldable pub enter_code : Vm → Outcome
  enter_code s =
      let s1 = gc s 1 in
      let over = leb s1.max_heap_size ((s1.heap.end - s1.heap.begin) / (1024 * 1024)) in
      let s2 = record s1 { breaked = if over then bit_or s1.breaked 8 else s1.breaked } in
      let s3 = if leb (s.heap.end - mempad * wsize) s.heap.fp then s2 else s in
      loop (record s3 { ip = s3.this + wsize })

  -- one tick, and the next thread when none is left and there is an mcp
  unfoldable pub enter : Vm → Outcome
  unfolding enter_code switch_thread
  enter s =
      if negative (tick s.ticker)
      then (if s.regs 0 == ifalse
          then enter_code (record s { ticker = ticks })
          else switch_thread s)
      else enter_code (record s { ticker = tick s.ticker })

  -- an allocated object in the place of the function
  unfoldable pub apply_object : Vm → Outcome
  unfolding enter apply_ff raise reftype
  apply_object s =
      let type = reftype s.heap s.this in
      let env = ref s.heap s.this 1 in
      if type == tproc
      then enter (record (set_reg s 1 s.this) { this = env })
      else (if type == tclos
          then enter (record (set_reg (set_reg s 1 s.this) 2 env) { this = ref s.heap env 1 })
          else (if bit_and type 0x3C == tff
              then apply_ff s
              else (if bit_and type 63 == tbytecode then enter s else raise s 259 s.this inull)))

  unfoldable pub apply_step : Vm → Outcome
  unfolding apply_object apply_empty halt raise
  apply_step s =
      if s.this == iempty && ltb 1 s.acc
      then apply_empty s
      else (if s.this == ihalt
          then halt s
          else (if s.this == ireturn
              then done s
              else (if is_reference s.this then apply_object s else raise s 257 s.this inull)))
