-- ===== src/Runtime/Immutable.antt =====
-- The instructions of src/olvm.c that write no object made before them: all of the `switch` but for `set-ref!` and
-- the system calls.
use ol.Common.{
  sym, subst, ℕ, zero, suc, ◌+◌, ◌≡◌, ◌⊎◌, arith, inl, inr, refl, Bool, true, false, ◌==◌, ◌||◌, [],
  ◌∷◌, take, drop, All, All-drop, Bool-cases, bit_and,
}
use ol.Word.Types.{tclos, tproc}
use ol.Heap.{Heap}
use ol.Heap.Laws.{Extends, Extends-refl}
use ol.Heap.Bytes.{load_byte}
use ol.Machine.{Vm, Outcome, loop, apply, error, done, exits, fault}
use ol.Runtime.{Environment, Table, instructions, select, step, fail, execute}
use ol.Runtime.Apply.{apply_step}
use ol.Runtime.Growth.Calls.{apply_step-Pure, fail-Pure}
use ol.Runtime.Growth.{Grows, Pure, looped, applied, failed, finished, exited, faulted, Grows-trans}
use ol.Runtime.Growth.Plain.{alu-Pure, move-Pure, query-Pure, access-Pure, node-Pure, control-Pure}
use ol.Runtime.Growth.Allocating.{
  invalid-Grows, close-Pure, vmnew-Pure, cons-Pure, jafx-Pure, mknode-Pure, clock-Pure,
  version-Pure, fftoggle-Pure, setref-Pure,
}
use ol.Runtime.Growth.Floats.{fp1-Pure, fp2-Pure}
use ol.Runtime.Growth.Objects.{vmnew_object-Pure, vmnew_rawobject-Pure, vmcast-Pure}

-- the opcodes of the instructions that may write elsewhere
abbrev pub mutates : ℕ → Bool
mutates c = c == 10 || c == 63

-- the environment without a collector
abbrev pub without_gc : Environment → Environment
without_gc env = record env { gc = λ s n. s }

-- The instructions of `n` rounds of the main loop are no such, and no collection changes a state: each round is as it
-- would be without the collector.
abbrev pub Spared : Environment → ℕ → Outcome → Type 0
Spared env zero o = Unit
Spared env (suc n) (loop s) =
    (mutates (bit_and (load_byte s.heap s.ip) 0x3F) ≡ false)
    × (step env s ≡ step (without_gc env) s)
    × Spared env n (step env s)
Spared env (suc n) (apply s) =
    (apply_step env.gc s ≡ apply_step (λ s n. s) s) × Spared env n (apply_step env.gc s)
Spared env (suc n) (error s) = Spared env n (fail env s)
Spared env (suc n) (done s) = Unit
Spared env (suc n) (exits k) = Unit
Spared env (suc n) fault = Unit

abbrev Entry : ℕ × (Vm → Outcome) → Type 0
Entry (c, f) = (mutates c ≡ true) ⊎ Pure f

infixr 4 ◌▹◌
◌▹◌ : {A B : Type 0} → A → B → A × B
a ▹ b = (a, b)

select-Grows :
    (env : Environment) (t : Table) (code : ℕ) (s : Vm)
    → All Entry t
    → mutates code ≡ false
    → Grows s.heap (select env t code s)
unfolding select
select-Grows env [] code s entries spared = invalid-Grows s
select-Grows env ((c, f) ∷ rest) code s (entry, entries) spared = elim (Bool-cases (c == code)) [
  | inl same ↦ elim entry [ inl writes ↦ absurd (ground arith) | inr keeps ↦ rw same (keeps s) ]
  | inr other ↦ rw other (select-Grows env rest code s entries spared)
]

module _ (env : Environment) (stays : (s : Vm) (n : ℕ) → Extends s.heap (env.gc s n).heap) where
  control-Entries : All Entry (take 22 (instructions env))
  unfolding instructions
  control-Entries =
      let (ldi_pure, ld_pure, refi_pure, move_pure, mov2_pure, jeq_pure, jp_pure, jaf_pure) =
        move-Pure in
      let (goto, nop, call, ret, sys, run, arity, super) = control-Pure in
      let (oclos, clos1) = close-Pure tclos in
      let (oproc, proc1) = close-Pure tproc in
      inr super
      ▹ inr goto
      ▹ inr nop
      ▹ inr call
      ▹ inr ret
      ▹ inr sys
      ▹ inr run
      ▹ inr arity
      ▹ inr ldi_pure
      ▹ inr ld_pure
      ▹ inr refi_pure
      ▹ inr move_pure
      ▹ inr mov2_pure
      ▹ inr jeq_pure
      ▹ inr jp_pure
      ▹ inr jaf_pure
      ▹ inr jafx-Pure
      ▹ inr oclos
      ▹ inr oproc
      ▹ inr clos1
      ▹ inr proc1
      ▹ inr vmnew-Pure
      ▹ tt

  object-Entries : All Entry (take 14 (drop 22 (instructions env)))
  unfolding instructions
  object-Entries =
      let (raw, type, size, eq, less, endian, word, max, width) = query-Pure in
      let (car, cdr, ref, bind) = access-Pure in
      inr (vmnew_object-Pure env.gc stays)
      ▹ inr (vmnew_rawobject-Pure env.gc stays)
      ▹ inr raw
      ▹ inr cons-Pure
      ▹ inr type
      ▹ inr size
      ▹ inr (vmcast-Pure env.doubles)
      ▹ inr car
      ▹ inr cdr
      ▹ inr ref
      ▹ inr setref-Pure
      ▹ inl refl
      ▹ inr eq
      ▹ inr less
      ▹ tt

  number-Entries : All Entry (drop 36 (instructions env))
  unfolding instructions
  number-Entries =
      let (add, sub, mul, div, and, or, xor, right, left) = alu-Pure in
      let (raw, type, size, eq, less, endian, word, max, width) = query-Pure in
      let (car, cdr, ref, bind) = access-Pure in
      let (ffbind, red, lone) = node-Pure in
      inr add
      ▹ inr sub
      ▹ inr mul
      ▹ inr div
      ▹ inr and
      ▹ inr or
      ▹ inr xor
      ▹ inr right
      ▹ inr left
      ▹ inr endian
      ▹ inr word
      ▹ inr max
      ▹ inr width
      ▹ inr bind
      ▹ inr ffbind
      ▹ inr mknode-Pure
      ▹ inr mknode-Pure
      ▹ inr fftoggle-Pure
      ▹ inr red
      ▹ inr lone
      ▹ inr (fp1-Pure env.doubles)
      ▹ inr (fp2-Pure env.doubles)
      ▹ inr (clock-Pure env.os.processes.timeofday)
      ▹ inr version-Pure
      ▹ inl refl
      ▹ tt

  instructions-Pure : All Entry (instructions env)
  unfolding instructions
  instructions-Pure =
      All-drop Entry 22 (instructions env) control-Entries
        (All-drop Entry 14 (drop 22 (instructions env)) object-Entries number-Entries)

  step-Grows :
      (s : Vm) → mutates (bit_and (load_byte s.heap s.ip) 0x3F) ≡ false → Grows s.heap (step env s)
  unfolding step
  step-Grows s spared =
      let op = load_byte s.heap s.ip in
      select-Grows env (instructions env) (bit_and op 0x3F) (record s { ip = s.ip + 1; op = op })
        instructions-Pure spared

module _ (env : Environment) where
  -- the collector of the environment without one
  idle : (s : Vm) (n : ℕ) → Extends s.heap s.heap
  idle s n = Extends-refl s.heap

  execute-trans :
      (n : ℕ) {h : Heap} {o : Outcome} → Grows h o → Spared env n o → Grows h (execute env n o)
  unfolding execute
  execute-trans zero grown spared = grown
  execute-trans (suc n) {h} (looped {t} x) (now, same, later) =
      execute-trans n
        (Grows-trans x (
          subst (λ (o : Outcome). Grows t.heap o) (sym same)
            (step-Grows (without_gc env) idle t now)))
        later
  execute-trans (suc n) (applied {t} x) (same, later) =
      execute-trans n
        (Grows-trans x
          (subst (λ (o : Outcome). Grows t.heap o) (sym same) (apply_step-Pure (λ s n. s) idle t)))
        later
  execute-trans (suc n) (failed {t} x) spared =
      execute-trans n (Grows-trans x (fail-Pure env t)) spared
  execute-trans (suc n) (finished x) spared = finished x
  execute-trans (suc n) exited spared = exited
  execute-trans (suc n) faulted spared = faulted

  -- The main loop, for any number of rounds in which it runs no `set-ref!` (10) and no system call (63), and in which no
  -- collection changes a state, leaves every word below `fp` as it was, and `fp` where it was or further on, through
  -- calls, switches of threads and errors.
  pub execute-Grows :
      (n : ℕ) (s : Vm) → Spared env n (loop s) → Grows s.heap (execute env n (loop s))
  execute-Grows n s spared = execute-trans n (looped (Extends-refl s.heap)) spared
