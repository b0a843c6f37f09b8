-- ===== src/Sys/Internal.antt =====
-- The system calls of the instruction `syscall` (src/olvm.c) that are about the machine itself, and those that give the
-- environment of the process.
use ol.Common.{
  ℕ, ◌+◌, ◌-◌, ◌/◌, ◌%◌, ◌^◌, ◌&&◌, List, [], ◌∷◌, Option, none, some, ℤ, pos, negsuc,
  if◌then◌else◌, take,
}
use ol.Word.{small, wsize, vmax, is_reference, is_rawobject}
use ol.Word.Sign.{uvtoi}
use ol.Word.Types.{ifalse}
use ol.Heap.{Heap, load, is_string, new_vptr, new_tuple}
use ol.Heap.Bytes.{new_string}
use ol.Number.{itoun}
use ol.Machine.{Vm, Outcome, arg}
use ol.Op.Make.{collect}
use ol.Runtime.Apply.{negative}
use ol.Sys.{answer, answer_new, answer_if}
use ol.Sys.Files.{lenn, text_of}

-- `userdata` of the machine; `getenv` of the memory and a name in it; `system` of a command.
pub record Surroundings : Type 0 where
  pub userdata : ℕ
  pub getenv : Heap → ℕ → Option (List ℕ)
  pub system : Heap → ℕ → ℤ

-- 1000: a full collection
unfoldable pub sys_gc : (Vm → ℕ → Vm) → Vm → Outcome
unfolding collect
sys_gc gc s = answer s ifalse (collect gc s 0)

-- 1001: whether an object is raw
unfoldable pub sys_rawq : Vm → Outcome
unfolding is_reference is_rawobject
sys_rawq s = answer_if s (is_reference (arg s 1) && is_rawobject (load s.heap (arg s 1)))

-- 1007: the old limit for the heap in megabytes, and a new one
unfoldable pub sys_set_limit : Vm → Outcome
unfolding itoun uvtoi
sys_set_limit s =
    let (old, h1) = itoun s.heap s.max_heap_size in
    answer s old (record s { heap = h1; max_heap_size = uvtoi (arg s 1) })

-- 1008: the bytes of a word
unfoldable pub sys_wordsize : Vm → Outcome
unfolding itoun
sys_wordsize s = answer_new s (itoun s.heap wsize)

-- 1009: the limit for the heap
unfoldable pub sys_get_limit : Vm → Outcome
unfolding itoun
sys_get_limit s = answer_new s (itoun s.heap s.max_heap_size)

-- an `int` as a word
abbrev pub extended : ℕ → ℕ
extended t = if negative t then t + (2 ^ 64 - 2 ^ 32) else t

-- 1022: the old ticker, and a new one
unfoldable pub sys_set_ticker : Vm → Outcome
unfolding itoun uvtoi
sys_set_ticker s =
    let (old, h1) = itoun s.heap (extended s.ticker) in
    answer s old (record s { heap = h1; ticker = uvtoi (arg s 1) % 2 ^ 32 })

-- 1117: the sizes in words of the old generation, of what is used, and of all
unfoldable pub sys_memory_stats : Vm → Outcome
unfolding small new_tuple
sys_memory_stats s =
    let h = s.heap in
    let old = small ((h.genstart - h.begin) / wsize) in
    let used = small ((h.fp - h.begin) / wsize) in
    answer_new s (new_tuple h (old ∷ used ∷ small ((h.end - h.begin) / wsize) ∷ []))

module _ (around : Surroundings) where
  -- 1002: the pointer of the program that the machine is part of
  unfoldable pub sys_userdata : Vm → Outcome
  unfolding new_vptr
  sys_userdata s = answer_new s (new_vptr s.heap around.userdata)

  -- 1016: (getenv name)
  unfoldable pub sys_getenv : Vm → Outcome
  unfolding is_string lenn new_string
  sys_getenv s =
      if is_string s.heap (arg s 1)
      then elim (around.getenv s.heap (text_of (arg s 1))) [
        | none ↦ answer s ifalse s
        | some env ↦ answer_new s (new_string s.heap (take (lenn env vmax % 2 ^ 32) env))
      ]
      else answer s ifalse s

  -- 1017: (system command)
  unfoldable pub sys_system : Vm → Outcome
  unfolding itoun
  sys_system s = elim (around.system s.heap (text_of (arg s 1))) [
    | negsuc e ↦ answer s ifalse s
    | pos r ↦ answer_new s (itoun s.heap r)
  ]
