-- ===== src/Sys/Buffer.antt =====
-- The buffers of the system calls `read` and `write` (src/olvm.c).
use ol.Common.{
  refl, ◌^◌, inr, inl, ltb, Bool-cases, ℕ, suc, ◌+◌, ◌-◌, ◌*◌, ◌/◌, ◌%◌, ◌≤◌, ◌<◌, ◌≡◌, ◌∙◌, ap,
  sym, subst, true, false, List, length, get_or, some, ℤ, pos, negsuc, arith, le→ltb_false,
  ne→==_false,
}
use ol.Word.{wsize, value, is_value, is_port, hdrsize, make_raw_header}
use ol.Word.Sign.{svtoi}
use ol.Word.Types.{tbvec}
use ol.Heap.{Heap, load, words_for, new_bytevector}
use ol.Heap.Bytes.{load_byte, store_bytes}
use ol.Heap.Laws.{Extends, Extends-trans}
use ol.Heap.Raw.{
  load_byte-same, load_byte-store_bytes, store_bytes_lem, store_bytes-Extends,
  new_bytevector-Extends,
}
use ol.Machine.{Vm, Outcome, Continues, Continues-map, arg, operand}
use ol.Sys.{
  write_sized, Os, int_of, int_of_word, redirect, asked_size, sent_size, read_room, read_result,
  read_bytes, sys_read, write_result, sys_write,
}

-- a new bytevector behind `fp` with bytes that stood there before
abbrev pub Received : Vm → List ℕ → ℕ → Vm → Type 0
Received s bytes got t =
    (t.regs (operand s 4) ≡ s.heap.fp)
    × (load t.heap s.heap.fp
        ≡ make_raw_header tbvec (words_for got + 1) (words_for got * wsize - got))
    × ((i : ℕ) → i < got → load_byte t.heap (s.heap.fp + wsize + i) ≡ get_or bytes i 0 % 256)
    × (t.heap.fp ≡ s.heap.fp + (words_for got + 1) * wsize)
    × Extends s.heap t.heap

read_result_lem :
    (os : Os) (gc : Vm → ℕ → Vm) (s : Vm) (n err : ℕ) (bytes : List ℕ)
    → s.heap.fp % wsize ≡ 0
    → length bytes ≡ suc n
    → Continues (read_result os gc s s (pos (suc n), err, bytes)) (Received s bytes (suc n))
unfolding read_result new_bytevector
read_result_lem os gc s n err bytes aligned long =
    let a = s.heap.fp + wsize in
    let h1 : Heap = store_bytes s.heap a bytes in
    let h2 : Heap = (new_bytevector h1 tbvec (suc n)).1 in
    let (fp, below) = store_bytes_lem bytes s.heap a in
    let behind : (b : ℕ) → h1.fp + wsize ≤ b → h2.mem b ≡ h1.mem b = λ b le. ground arith in
    (
      ground arith,
      ground arith,
      λ i lt.
          load_byte-same h1 h2 (a + i) (behind (a + i - (a + i) % wsize) (omega arith))
          ∙ load_byte-store_bytes bytes s.heap a i (omega arith),
      ap (λ (x : ℕ). x + (words_for (suc n) + 1) * wsize) fp,
      Extends-trans (store_bytes-Extends bytes s.heap aligned)
          (new_bytevector-Extends h1 tbvec (suc n)),
    )

read_room-enough :
    (os : Os) (gc : Vm → ℕ → Vm) (s : Vm) (size : ℕ)
    → words_for size + 1 ≤ (s.heap.end - s.heap.fp) / wsize
    → read_room os gc s size ≡ s
unfolding read_room
read_room-enough os gc s size room =
    rw (le→ltb_false ((s.heap.end - s.heap.fp) / wsize) (words_for size + 1) room)

sys_read-open :
    (os : Os) (gc : Vm → ℕ → Vm) (s : Vm) (fd : ℕ)
    → let size = asked_size s.heap (int_of (svtoi (arg s 2))) in
      is_port (arg s 1) ≡ true
      → redirect s (int_of_word (value (arg s 1))) ≡ some fd
      → sys_read os gc s ≡ read_result os gc s (read_room os gc s size) (os.read fd size)
unfolding sys_read
sys_read-open os gc s fd port opened = rw (sys_read, port, opened)

-- (read port count), with room in the heap for what is asked for, where the system's `read` gives a number above 0 of
-- bytes: the answer is a new bytevector of just these bytes behind a heap that is otherwise as it was, within its end.
pub sys_read_lem :
    (os : Os) (gc : Vm → ℕ → Vm) (s : Vm) (fd n err : ℕ) (bytes : List ℕ)
    → let size = asked_size s.heap (int_of (svtoi (arg s 2))) in
      is_port (arg s 1) ≡ true
      → redirect s (int_of_word (value (arg s 1))) ≡ some fd
      → s.heap.fp % wsize ≡ 0
      → words_for size + 1 ≤ (s.heap.end - s.heap.fp) / wsize
      → os.read fd size ≡ (pos (suc n), err, bytes)
      → length bytes ≡ suc n
      → suc n ≤ size
      → Continues (sys_read os gc s) λ t. Received s bytes (suc n) t × (t.heap.fp ≤ s.heap.end)
sys_read_lem os gc s fd n err bytes port opened aligned room got long fits =
    let size = asked_size s.heap (int_of (svtoi (arg s 2))) in
    let e =
      sys_read-open os gc s fd port opened
      ∙ ap (λ (t : Vm). read_result os gc s t (os.read fd size))
          (read_room-enough os gc s size room)
      ∙ ap (λ (g : ℤ × ℕ × List ℕ). read_result os gc s s g) got in
    subst (λ (o : Outcome). Continues o λ t. Received s bytes (suc n) t × (t.heap.fp ≤ s.heap.end))
      (sym e)
      (Continues-map (read_result os gc s s (pos (suc n), err, bytes))
        (λ t received. (received, omega (arith, received.3)))
        (read_result_lem os gc s n err bytes aligned long))

-- the length of an object below 2 GiB
length_int : (n : ℕ) → n ≤ 2 ^ 28 → int_of_word ((n - 1) * wsize) ≡ pos ((n - 1) * wsize)
length_int n le =
    let m = (n - 1) * wsize in
    let same : m % 2 ^ 32 ≡ m = omega arith in
    let positive : ltb m (2 ^ 31) ≡ true = ground arith in rw (same, positive) refl

-- the size that is sent
sent_size_lem :
    (size : ℕ) (z : ℤ)
    → (n : ℕ) × (sent_size (pos size) z ≡ pos n)
      × (n ≤ size)
      × ((asked : ℕ) → z ≡ pos asked → asked ≤ size → n ≡ asked)
sent_size_lem size (pos n) = elim (Bool-cases (ltb size n)) [
  | inl long ↦
      (size, rw long refl, omega arith, λ asked e fits. let same : n ≡ asked = cc in ground arith)
  | inr short ↦ (n, rw short refl, ground arith, λ asked e fits. cc)
]
sent_size_lem size (negsuc n) = (size, refl, omega arith, λ asked e fits. cc)

-- (write port buffer size) of an object below 2 GiB: the system is given bytes of the object from its first on, at most
-- as many as it has, and as many as are asked for if it has so many; what it answers decides the result.
pub sys_write_lem :
    (os : Os) (gc : Vm → ℕ → Vm) (s : Vm) (fd : ℕ)
    → let buff = arg s 2 in
      is_port (arg s 1) ≡ true
      → redirect s (int_of_word (value (arg s 1))) ≡ some fd
      → is_value buff ≡ false
      → 0 < hdrsize (load s.heap buff)
      → hdrsize (load s.heap buff) ≤ 2 ^ 28
      → (n : ℕ) × (sys_write os gc s
          ≡ write_result os gc s (os.write fd (read_bytes n s.heap (buff + wsize))))
        × (buff + wsize + n ≤ buff + hdrsize (load s.heap buff) * wsize)
        × ((asked : ℕ)
            → int_of (svtoi (arg s 3)) ≡ pos asked
            → buff + wsize + asked ≤ buff + hdrsize (load s.heap buff) * wsize
            → n ≡ asked)
unfolding sys_write write_sized
sys_write_lem os gc s fd port opened reference some_words small =
    let buff = arg s 2 in
    let size = hdrsize (load s.heap buff) in
    let (n, sized, le, whole) = sent_size_lem ((size - 1) * wsize) (int_of (svtoi (arg s 3))) in
    let sent : sent_size (int_of_word ((size - 1) * wsize)) (int_of (svtoi (arg s 3))) ≡ pos n =
      ap (λ (l : ℤ). sent_size l (int_of (svtoi (arg s 3)))) (length_int size small) ∙ sized in
    (
      n,
      rw (sys_write, port, opened, reference, ne→==_false size 0 (omega arith), sent) refl,
      omega arith,
      λ asked e fits. whole asked e (omega arith),
    )
