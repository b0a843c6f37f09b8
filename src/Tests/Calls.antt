-- ===== src/Tests/Calls.antt =====
-- Reading, writing, and a call with extra arguments at concrete states.
use ol.Common.{
  ◌-◌, ◌≢◌, ℕ, ◌+◌, ◌*◌, ◌≤◌, ◌≡◌, refl, arith, [], ◌∷◌, true, false, some, length, pos,
  if◌then◌else◌, ◌==◌,
}
use ol.Word.{wsize, value, is_value, is_port, make_header, hdrsize}
use ol.Word.Sign.{svtoi}
use ol.Heap.{load}
use ol.Heap.Bytes.{load_byte}
use ol.Machine.{operand, Vm, Continues, arg}
use ol.Heap.Chain.{IsList}
use ol.Heap.Laws.{Extends}
use ol.Op.Make.{jafx}
use ol.Op.Make.Extra.{jafx_lem}
use ol.Runtime.Apply.{registers}
use ol.Sys.{
  Os, int_of, int_of_word, redirect, asked_size, sys_read, sys_write, write_result, read_bytes,
}
use ol.Sys.Buffer.{Received, sys_read_lem, sys_write_lem}

-- a system that reads "hi" and writes all bytes
abbrev pub reading : Os
reading = record {
  read = λ fd size. (pos 2, 0, 104 ∷ 105 ∷ []);
  write = λ fd bytes. (pos (length bytes), 0);
  prctl = false;
  eagain = 11;
  ewouldblock = 11;
}

-- The operands name the registers 0 to 5: port 0 in register 1, the size 2 in registers 2 and 3.
abbrev pub reader : Vm
reader = record {
  heap = record { begin = 0; end = 65536; genstart = 0; fp = 1024; mem = λ a. 0x050403020100 };
  max_heap_size = 65535;
  std = λ i. i;
  regs = λ r. if r == 1 then 12 * 4 + 2 else 2 * 256 + 2;
  this = 512;
  acc = 2;
  ip = 0;
  op = 63;
  ticker = 0;
  bank = 0;
  breaked = 0;
  sandboxp = 0;
}

reader-port :
    (is_port (arg reader 1) ≡ true)
    × (redirect reader (int_of_word (value (arg reader 1))) ≡ some 0)
    × (asked_size reader.heap (int_of (svtoi (arg reader 2))) ≡ 2)
unfolding is_port redirect load_byte svtoi
reader-port = (refl, refl, refl)

read_example :
    Continues
      (sys_read reading (λ s n. s) reader)
      λ t. Received reader (104 ∷ 105 ∷ []) 2 t × (t.heap.fp ≤ reader.heap.end)
read_example =
    sys_read_lem reading (λ s n. s) reader 0 1 0 (104 ∷ 105 ∷ []) reader-port.0 reader-port.1 refl
      (omega (arith, reader-port.2)) refl refl (omega (arith, reader-port.2))

-- an object of two words in register 2
abbrev writer : Vm
writer = record reader {
  regs = λ r. if r == 1 then 12 * 4 + 2 else (if r == 2 then 2048 else 2 * 256 + 2);
  heap = record reader.heap { mem = λ a. if a == 2048 then make_header 3 2 else 0x050403020100 };
}

writer-port :
    (is_port (arg writer 1) ≡ true)
    × (redirect writer (int_of_word (value (arg writer 1))) ≡ some 0)
    × (is_value (arg writer 2) ≡ false)
    × (hdrsize (load writer.heap (arg writer 2)) ≡ 2)
unfolding is_port redirect load_byte is_value hdrsize make_header
writer-port = (refl, refl, refl, refl)

write_example :
    (n : ℕ) × (sys_write reading (λ s n. s) writer
      ≡ write_result reading
          (λ s n. s)
          writer
          (reading.write 0 (read_bytes n writer.heap (arg writer 2 + wsize))))
    × (arg writer 2 + wsize + n ≤ arg writer 2 + hdrsize (load writer.heap (arg writer 2)) * wsize)
    × ((asked : ℕ)
        → int_of (svtoi (arg writer 3)) ≡ pos asked
        → arg writer 2 + wsize + asked
          ≤ arg writer 2 + hdrsize (load writer.heap (arg writer 2)) * wsize
        → n ≡ asked)
write_example =
    sys_write_lem reading (λ s n. s) writer 0 writer-port.0 writer-port.1 writer-port.2
      (omega (arith, writer-port.3)) (omega (arith, writer-port.3))

-- a function of one argument that is called with three
abbrev called : Vm
called = record reader { acc = 3; heap = record reader.heap { mem = λ a. 1 } }

called-named : operand called 0 ≡ 1
unfolding load_byte
called-named = refl

jafx_example : Continues (jafx called) λ t.
    IsList t.heap
      (registers called.regs (operand called 0 + 3) (called.acc - operand called 0))
      (t.regs (operand called 0 + 3))
    × (t.acc ≡ operand called 0)
    × ((i : ℕ) → i ≢ operand called 0 + 3 → t.regs i ≡ called.regs i)
    × Extends called.heap t.heap
    × (t.ip ≡ called.ip + 3)
jafx_example = jafx_lem called (omega (arith, called-named)) refl
