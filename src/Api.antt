-- ===== src/Api.antt =====
-- The interface of the machine (src/olvm.c, `OL_new` to `OL_run`): its creation from an image, its callbacks, and the
-- start of a program.
pub mod Arguments
pub mod Boot
use ol.Common.{
  ℕ, zero, suc, ◌+◌, ◌-◌, ◌*◌, ◌%◌, ◌==◌, ltb, if◌then◌else◌, List, [], ◌∷◌, ◌++◌, reverse, length,
  Option, none, some, ℤ, pos, negsuc, upd,
}
use ol.Word.{wsize, word_mod, hdrsize}
use ol.Word.Types.{ttuple, tpair, tstring, ifalse, ihalt, inull}
use ol.Heap.{Heap, load, ref, new_raw_object, new_pair, new_bytevector}
use ol.Heap.Bytes.{store_bytes}
use ol.Machine.{Vm, Outcome, apply, mempad, ticks}
use ol.Sys.{int_of_word}
use ol.Fasl.{Bytes, Loaded, ok, bad_object, overrun, ◌>>=◌, count_fasl_objects, deserialize}

-- `struct ol_t` without `gc`, whose model is a parameter of the main loop. A callback or a pointer of the host is the
-- number of its address.
pub record Ol : Type 0 where
  pub heap : Heap
  pub max_heap_size : ℕ
  pub exit : ℕ
  pub userdata : ℕ
  pub read : ℕ
  pub write : ℕ
  pub std : ℕ → ℕ
  pub regs : ℕ → ℕ
  pub this : ℕ
  pub arity : ℕ

-- `int required_memory_size = words*2 + MEMPAD`, in words
abbrev pub required_memory_size : ℕ → ℕ → ℤ
required_memory_size words nobjs = int_of_word ((words + (nobjs + 2)) * 2 + mempad)

-- `heap->begin + required_memory_size`
abbrev pub heap_end : ℕ → ℤ → ℕ
heap_end block (pos n) = block + n * wsize
heap_end block (negsuc n) = (block + word_mod - (n + 1) * wsize % word_mod) % word_mod

-- registers of a new machine: the continuation ends the program, and there is no mcp
abbrev pub first_regs : ℕ → ℕ
first_regs = upd (upd (upd (λ _. ifalse) 0 ifalse) 3 ihalt) 4 inull

-- What `OL_new` is given by the C library: the block of memory (0 if there is none), what stands
-- in memory, and the addresses of `exit`, `os_read`
-- and `os_write`.
pub record Host : Type 0 where
  pub block : ℕ
  pub contents : ℕ → ℕ
  pub exit : ℕ
  pub read : ℕ
  pub write : ℕ

-- The machine, or `none` where there is no memory.
unfoldable pub ol_new : Host → Bytes → Loaded (Option Ol)
unfolding count_fasl_objects deserialize new_raw_object
ol_new host bootstrap = do
  (words, nobjs) ← count_fasl_objects bootstrap
  let size = required_memory_size words nobjs
  let empty : Heap = record {
    begin = host.block;
    end = heap_end host.block size;
    genstart = host.block;
    fp = host.block;
    mem = host.contents;
  }
  let (ptrs, h1) = new_raw_object empty ttuple (nobjs + 1) 0
  if host.block == 0 then ok none else do
    (h2, rest) ← deserialize nobjs h1 bootstrap (ptrs + wsize) 0
    ok (
        some (record {
          heap = h2;
          max_heap_size = 65535;
          exit = host.exit;
          userdata = 0;
          read = host.read;
          write = host.write;
          std = λ i. i;
          regs = first_regs;
          this = 0;
          arity = 0;
        }))

-- One argument of the command line: its bytes are copied behind `fp` with a final zero, and become a string in front of the
-- list unless there are none.
unfoldable pub push_argument : Heap × ℕ → Bytes → Heap × ℕ
unfolding store_bytes new_bytevector new_pair
push_argument (h, userdata) v =
    let h1 = store_bytes h (h.fp + wsize) (v ++ (0 ∷ [])) in
    let (s, h2) = new_bytevector h1 tstring (length v) in
    let (p, h3) = new_pair h2 tpair s userdata in if length v == 0 then (h1, userdata) else (h3, p)

unfoldable pub push_arguments : Heap × ℕ → List Bytes → Heap × ℕ
unfolding push_argument
push_arguments acc [] = acc
push_arguments acc (v ∷ vs) = push_arguments (push_argument acc v) vs

-- The state in which `runtime` comes to `apply:`, from the arguments behind the program's name.
unfoldable pub ol_run : Ol → List Bytes → Vm
unfolding push_arguments
ol_run ol argv =
    let (h, userdata) = push_arguments (ol.heap, ol.regs 4) (reverse argv) in
    let ptrs = h.begin in
    let nobjs = hdrsize (load h ptrs) - 1 in
    record {
      heap = h;
      max_heap_size = ol.max_heap_size;
      std = ol.std;
      regs = upd ol.regs 4 userdata;
      this = ref h ptrs nobjs;
      acc = 2;
      ip = 0;
      op = 0;
      ticker = ticks;
      bank = 0;
      breaked = 0;
      sandboxp = 0;
    }

-- The callbacks: each setter gives back what stood there.
unfoldable pub set_userdata : Ol → ℕ → ℕ × Ol
set_userdata ol userdata = (ol.userdata, record ol { userdata = userdata })

unfoldable pub set_atexit : Ol → ℕ → ℕ × Ol
set_atexit ol exit = (ol.exit, record ol { exit = exit })

-- The assignment of the new callback is commented out, and the old one is read from `exit`.
unfoldable pub set_atpostgc : Ol → ℕ → ℕ × Ol
set_atpostgc ol postgc = (ol.exit, ol)

unfoldable pub set_read : Ol → ℕ → ℕ × Ol
set_read ol read = (ol.read, record ol { read = read })

unfoldable pub set_write : Ol → ℕ → ℕ × Ol
set_write ol write = (ol.write, record ol { write = write })

-- `none` is an index in front of the array, `negsuc 0` the result -1.
unfoldable pub setstd : Ol → ℤ → ℕ → Option (ℤ × Ol)
setstd ol (negsuc n) fd = none
setstd ol (pos id) fd =
    if ltb 2 id
    then some (negsuc 0, ol)
    else some (pos (ol.std id), record ol { std = upd ol.std id fd })
