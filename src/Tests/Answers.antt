-- ===== src/Tests/Answers.antt =====
-- System calls on files, in the sandbox, and for callables at concrete states.
use ol.Common.{ℕ, ◌*◌, ◌+◌, ◌≡◌, ◌≢◌, ◌^◌, refl, arith, true, Bool, some, pos, if◌then◌else◌, ◌==◌}
use ol.Word.{is_port, make_raw_header}
use ol.Word.Sign.{svtoi, uvtoi}
use ol.Word.Types.{itrue, ifalse, tcallable}
use ol.Heap.{load, ref}
use ol.Heap.Bytes.{load_byte}
use ol.Heap.Laws.{Extends}
use ol.Machine.{Vm, Continues, arg, operand, nr, cr}
use ol.Sys.{int_of, answer}
use ol.Sys.Files.{descriptor, FileSystem, Stat, stat_of, sys_stat, sys_sendfile}
use ol.Sys.Libraries.{sys_mkcb}
use ol.Sys.Calls.{syscall, never}
use ol.Sys.Numbers.{NumbersAt, stat_numbers, sys_stat_lem}
use ol.Sys.Sandbox.{syscall-sandboxed}
use ol.Sys.Sending.{Sends, sys_sendfile_lem}
use ol.Sys.Callables.{FirstFree, sys_mkcb_lem}
use ol.Tests.Calls.{reader}
use ol.Tests.Systems.{system, files, linker}

abbrev a_file : Stat
a_file = record {
  dev = 1;
  ino = 2 ^ 60;
  mode = 420;
  nlink = 1;
  uid = 0;
  gid = 0;
  rdev = 0;
  size = 100;
  atime = 5;
  mtime = 6;
  ctime = 7;
}

abbrev with_file : FileSystem
with_file = record files { fstat = λ fd. some a_file }

reader-file : stat_of with_file reader ≡ some a_file
unfolding stat_of is_port load_byte
reader-file = refl

stat_example : Continues (sys_stat with_file reader) λ t.
    NumbersAt reader.heap (stat_numbers a_file) (t.regs (operand reader 4)) t.heap
    × (t.ip ≡ reader.ip + 5)
stat_example = sys_stat_lem with_file reader a_file refl reader-file (
  omega arith,
  (
    omega arith,
    (
      omega arith,
      (
        omega arith,
        (
          omega arith,
          (
            omega arith,
            (
              omega arith,
              (
                omega arith,
                (omega arith, (omega arith, (omega arith, (omega arith, (omega arith, tt))))),
              ),
            ),
          ),
        ),
      ),
    ),
  ),
)

-- the system call 2 in the sandbox
abbrev boxed : Vm
boxed = record reader { sandboxp = 10000 }

boxed-call : uvtoi (arg boxed 0) ≡ 2
unfolding uvtoi load_byte
boxed-call = refl

sandbox_example : syscall system (λ s n. s) boxed ≡ never boxed
sandbox_example =
    syscall-sandboxed system (λ s n. s) boxed refl (λ e. absurd (omega (arith, e, boxed-call)))
      (λ e. absurd (omega (arith, e, boxed-call))) (λ e. absurd (omega (arith, e, boxed-call)))
      (λ e. absurd (omega (arith, e, boxed-call)))

-- 6 bytes from the port in register 1 to the same port
abbrev sender : Vm
sender = record reader { regs = λ r. if r == 3 then 6 * 256 + 2 else 12 * 4 + 2 }

sender-port :
    (is_port (arg sender 1) ≡ true)
    × (is_port (arg sender 2) ≡ true)
    × (int_of (svtoi (arg sender 3)) ≡ pos 6)
unfolding is_port svtoi load_byte
sender-port = (refl, refl, refl)

sendfile_example :
    (sent : Bool) × Sends
      (files.sendfile (descriptor (arg sender 1)) (descriptor (arg sender 2)))
      0
      6
      sent
    × (sys_sendfile files sender ≡ answer sender (if sent then itrue else ifalse) sender)
sendfile_example =
    sys_sendfile_lem files sender 6 sender-port.0 sender-port.1 sender-port.2 (λ k m le. refl)

-- the fifth callable is the first that is free
abbrev calling : Vm
calling = record reader { regs = λ r. if r == 260 then 2048 else ifalse }

mkcb_example :
    (c : ℕ) × FirstFree calling.regs 4 cr c
    × Continues (sys_mkcb linker calling) λ t.
      (t.regs (nr + c) ≡ arg calling 1)
      × (t.regs (operand calling 4) ≡ calling.heap.fp)
      × (load t.heap calling.heap.fp ≡ make_raw_header tcallable 2 0)
      × (ref t.heap calling.heap.fp 1 ≡ linker.trampoline c)
      × ((r : ℕ) → r ≢ nr + c → r ≢ operand calling 4 → t.regs r ≡ calling.regs r)
      × Extends calling.heap t.heap
mkcb_example = sys_mkcb_lem linker calling 7 (omega arith) (omega arith) refl
