-- ===== src/Sys.antt =====
-- The system calls `read`, `write`, `brk` and `prctl` of the instruction `syscall` (src/olvm.c), and what all system
-- calls share. The operating system is a parameter: the results of its functions, with `errno`, and the bytes that it
-- puts into a buffer. The room in the heap that `read` may fill is below 2 GiB, so that `int` holds it.
pub mod Buffer
pub mod Calls
pub mod Files
pub mod Network
pub mod Processes
pub mod Internal
pub mod Libraries
pub mod Numbers
pub mod Sandbox
pub mod Sending
pub mod Callables
use ol.Common.{
  ℕ, zero, suc, ◌+◌, ◌-◌, ◌*◌, ◌/◌, ◌%◌, ◌^◌, Bool, ◌||◌, List, [], ◌∷◌, Option, none, some, ℤ, pos,
  negsuc, ◌==◌, ltb, if◌then◌else◌,
}
use ol.Word.{wsize, value, is_value, is_port, is_fix, hdrsize}
use ol.Word.Sign.{uvtoi, svtoi, itouv}
use ol.Word.Types.{ifalse, itrue, ieof, tbvec, tpair}
use ol.Heap.{Heap, load, is_npair, words_for, new_bytevector, new_pair, new_tuple}
use ol.Number.{itoun}
use ol.Heap.Bytes.{load_byte, store_bytes}
use ol.Machine.{Vm, Outcome, loop, fault, operand, arg, set_reg, with_heap, raise}
use ol.Op.Make.{collect}

-- What the callbacks and the system give: `read` of a descriptor and a size, its result, `errno`, and the bytes in the buffer;
-- `write` of a descriptor and bytes, its result, and `errno`; and whether `prctl` succeeds.
pub record Os : Type 0 where
  pub read : ℕ → ℕ → ℤ × ℕ × List ℕ
  pub write : ℕ → List ℕ → ℤ × ℕ
  pub prctl : Bool
  pub eagain : ℕ
  pub ewouldblock : ℕ

-- a number as an `int`
abbrev pub int_of_word : ℕ → ℤ
int_of_word n = let m = n % 2 ^ 32 in if ltb m (2 ^ 31) then pos m else negsuc (2 ^ 32 - m - 1)

abbrev pub int_of : ℤ → ℤ
int_of (pos n) = int_of_word n
int_of (negsuc n) = int_of_word (2 ^ 32 - 1 - n % 2 ^ 32)

-- the redirection of the three standard ports; a negative index lies in front of the array
unfoldable pub redirect : Vm → ℤ → Option ℕ
redirect s (pos fd) = some (if ltb fd 3 then s.std fd else fd)
redirect s (negsuc n) = none

-- `*r = (word) result; ip += 5; break;`, where `r` is the register that the last operand named at first
abbrev pub answer : Vm → ℕ → Vm → Outcome
answer s result t = loop (record (set_reg t (operand s 4) result) { ip = t.ip + 5 })

-- the same with an object, or with the words of an object, that was allocated
abbrev pub answer_new : Vm → ℕ × Heap → Outcome
answer_new s (p, h) = answer s p (with_heap s h)

abbrev pub answer_if : Vm → Bool → Outcome
answer_if s b = answer s (if b then itrue else ifalse) s

-- `CHECK(ok, a, SYSCALL)`
abbrev pub checked : Vm → Bool → Outcome → Outcome
checked s ok o = if ok then o else raise s 63 (arg s 1) itrue

-- `itoun` of one number after the other
unfoldable pub numbers : Heap → List ℕ → List ℕ × Heap
unfolding itoun
numbers h [] = ([], h)
numbers h (n ∷ ns) =
    let (word, h1) = itoun h n in let (words, h2) = numbers h1 ns in (word ∷ words, h2)

-- `new_tuple(itoun(n1), ...)`
unfoldable pub new_numbers : Heap → List ℕ → ℕ × Heap
unfolding numbers new_tuple
new_numbers h ns = let (words, h1) = numbers h ns in new_tuple h1 words

-- `new_pair(itoun(n), itoun(m))`
unfoldable pub new_number_pair : Heap → ℕ → ℕ → ℕ × Heap
unfolding itoun new_pair
new_number_pair h n m = let (a, h1) = itoun h n in let (b, h2) = itoun h1 m in new_pair h2 tpair a b

-- `is_number(a)`
abbrev pub is_number : Heap → ℕ → Bool
is_number h a = is_fix a || is_npair h a

-- a size below 0 asks for all that fits
abbrev pub asked_size : Heap → ℤ → ℕ
asked_size h (pos n) = n
asked_size h (negsuc n) = h.end - h.fp

-- a size below 0, or above the length, stands for the length, which is an `int` too
abbrev pub sent_size : ℤ → ℤ → ℤ
sent_size (pos length) (pos n) = pos (if ltb length n then length else n)
sent_size (pos length) (negsuc n) = pos length
sent_size (negsuc length) n = negsuc length

unfoldable pub read_bytes : ℕ → Heap → ℕ → List ℕ
unfolding load_byte
read_bytes zero h a = []
read_bytes (suc n) h a = load_byte h a ∷ read_bytes n h (a + 1)

module _ (os : Os) (gc : Vm → ℕ → Vm) where
  -- room for the bytes and the header
  unfoldable pub read_room : Vm → ℕ → Vm
  unfolding collect
  read_room s size =
      let words = words_for size + 1 in
      if ltb ((s.heap.end - s.heap.fp) / wsize) words then collect gc s words else s

  -- the answer to what `read` gave: the bytes are in the buffer behind the header to be
  unfoldable pub read_result : Vm → Vm → ℤ × ℕ × List ℕ → Outcome
  unfolding store_bytes new_bytevector
  read_result s t (pos zero, err, bytes) =
      answer s ieof (with_heap t (store_bytes t.heap (t.heap.fp + wsize) bytes))
  read_result s t (pos (suc n), err, bytes) =
      let h1 = store_bytes t.heap (t.heap.fp + wsize) bytes in
      let (p, h2) = new_bytevector h1 tbvec (suc n) in answer s p (with_heap t h2)
  read_result s t (negsuc n, err, bytes) =
      answer s (if err == os.eagain then itrue else ifalse)
        (with_heap t (store_bytes t.heap (t.heap.fp + wsize) bytes))

  -- (read port count)
  unfoldable pub sys_read : Vm → Outcome
  unfolding redirect read_room read_result svtoi raise
  sys_read s =
      let size = asked_size s.heap (int_of (svtoi (arg s 2))) in
      if is_port (arg s 1)
      then elim (redirect s (int_of_word (value (arg s 1)))) [
        | none ↦ fault
        | some fd ↦ read_result s (read_room s size) (os.read fd size)
      ]
      else raise s 63 (arg s 1) itrue

  -- the answer to what `write` gave
  unfoldable pub write_result : Vm → ℤ × ℕ → Outcome
  unfolding itouv
  write_result s (pos (suc n), err) = answer s (itouv (suc n)) s
  write_result s (pos zero, err) =
      answer s (if err == os.eagain || err == os.ewouldblock then itouv 0 else ifalse) s
  write_result s (negsuc n, err) =
      answer s (if err == os.eagain || err == os.ewouldblock then itouv 0 else ifalse) s

  -- the bytes of the object; with a size below 0 they have no end
  unfoldable pub write_sized : Vm → ℕ → ℕ → ℤ → Outcome
  unfolding read_bytes write_result
  write_sized s fd buff (pos size) =
      write_result s (os.write fd (read_bytes size s.heap (buff + wsize)))
  write_sized s fd buff (negsuc n) = fault

  -- (write port buffer size)
  unfoldable pub sys_write : Vm → Outcome
  unfolding redirect write_sized svtoi raise
  sys_write s =
      let buff = arg s 2 in
      let length = int_of_word ((hdrsize (load s.heap buff) - 1) * wsize) in
      let size = sent_size length (int_of (svtoi (arg s 3))) in
      if is_port (arg s 1)
      then elim (redirect s (int_of_word (value (arg s 1)))) [
        | none ↦ fault
        | some fd ↦
            if is_value buff
            then answer s ifalse s
            else (if hdrsize (load s.heap buff) == 0 then fault else write_sized s fd buff size)
      ]
      else raise s 63 (arg s 1) itrue

  -- (brk limit): the old limit; `uvtoi` also of a number of two digits
  unfoldable pub sys_brk : Vm → Outcome
  unfolding itouv uvtoi
  sys_brk s =
      let a = arg s 1 in
      let limit = if is_number s.heap a then uvtoi a else s.max_heap_size in
      answer s (itouv s.max_heap_size) (record s { max_heap_size = limit })

  -- seccomp: from here on only the calls that are numbered for it are answered
  unfoldable pub sys_prctl : Vm → Outcome
  sys_prctl s =
      if os.prctl then answer s itrue (record s { sandboxp = 10000 }) else answer s ifalse s
