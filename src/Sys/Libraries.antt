-- ===== src/Sys/Libraries.antt =====
-- The system calls on dynamic libraries and on callables of the instruction `syscall` (src/olvm.c). What the system
-- answers, and the machine code of a callable, are parameters.
use ol.Common.{
  ◌-◌, ltb, ℕ, zero, suc, ◌+◌, ◌%◌, ◌^◌, Bool, ◌&&◌, ◌||◌, List, Option, none, some, ◌==◌,
  if◌then◌else◌,
}
use ol.Word.{value, is_value, is_reference}
use ol.Word.Sign.{uvtoi}
use ol.Word.Types.{ifalse, tstring}
use ol.Heap.{Heap, is_vptr, car, reftype, new_vptr, new_callable}
use ol.Heap.Bytes.{new_string}
use ol.Machine.{Vm, Outcome, nr, cr, arg, set_reg, raise, with_heap}
use ol.Sys.{answer, answer_new, answer_if, checked}
use ol.Sys.Files.{text_of}

-- `dlopen` of the memory, a file name in it, or none, and a mode; `dlsym` of a module, the memory and the address of a
-- name: 0 for none. `trampoline` is the address of the machine code that is made for the callable of a number.
pub record Linker : Type 0 where
  pub dlopen : Heap → Option ℕ → ℕ → ℕ
  pub dlclose : ℕ → Bool
  pub dlsym : ℕ → Heap → ℕ → ℕ
  pub dlerror : Option (List ℕ)
  pub trampoline : ℕ → ℕ

-- an address in a new object, or #false for 0
unfoldable pub answer_pointer : Vm → ℕ → Outcome
unfolding new_vptr
answer_pointer s a = if a == 0 then answer s ifalse s else answer_new s (new_vptr s.heap a)

-- the first register for callables from `c` on that is free, of `n`, or the number behind the last
unfoldable pub free_callable : ℕ → (ℕ → ℕ) → ℕ → ℕ
free_callable zero regs c = c
free_callable (suc n) regs c =
    let later = free_callable n regs (c + 1) in if regs (nr + c) == ifalse then c else later

module _ (dl : Linker) where
  -- (dlopen file mode)
  unfoldable pub sys_dlopen : Vm → Outcome
  unfolding answer_pointer is_reference reftype uvtoi
  sys_dlopen s =
      let file = arg s 1 in
      let mode = uvtoi (arg s 2) % 2 ^ 32 in
      if file == ifalse
      then answer_pointer s (dl.dlopen s.heap none mode)
      else (if is_reference file && reftype s.heap file == tstring
          then answer_pointer s (dl.dlopen s.heap (some (text_of file)) mode)
          else answer s ifalse s)

  -- (dlclose module)
  unfoldable pub sys_dlclose : Vm → Outcome
  unfolding is_vptr raise
  sys_dlclose s =
      checked s (is_vptr s.heap (arg s 1)) (answer_if s (dl.dlclose (car s.heap (arg s 1))))

  -- (dlsym module name): a value holds the address of the name
  unfoldable pub sys_dlsym : Vm → Outcome
  unfolding is_vptr is_value reftype answer_pointer raise
  sys_dlsym s =
      let symbol = arg s 2 in
      let name = if is_value symbol then value symbol else text_of symbol in
      checked s (is_vptr s.heap (arg s 1)) (
        if is_value symbol || reftype s.heap symbol == tstring
        then answer_pointer s (dl.dlsym (car s.heap (arg s 1)) s.heap name)
        else answer s ifalse s)

  -- (dlerror)
  unfoldable pub sys_dlerror : Vm → Outcome
  unfolding new_string
  sys_dlerror s = elim dl.dlerror [
    | none ↦ answer s ifalse s
    | some text ↦ answer_new s (new_string s.heap text)
  ]

  -- (make-callable function): the function goes to a free register for callables
  unfoldable pub sys_mkcb : Vm → Outcome
  unfolding free_callable new_callable
  sys_mkcb s =
      let c = free_callable (cr - 4) s.regs 4 in
      let s1 = if ltb c cr then set_reg s (nr + c) (arg s 1) else s in
      let (me, h1) = new_callable s.heap (dl.trampoline c) in answer s me (with_heap s1 h1)
