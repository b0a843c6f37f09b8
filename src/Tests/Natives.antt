-- ===== src/Tests/Natives.antt =====
-- Native functions and callbacks at concrete states.
use ol.Common.{ℕ, ◌+◌, ◌*◌, ◌-◌, ◌^◌, ◌≡◌, refl, arith, [], some, none, pos, ◌==◌, if◌then◌else◌}
use ol.Word.{small, make_header, make_raw_header}
use ol.Word.Types.{tpair, tintp, tbytecode, inull, ifalse}
use ol.Heap.{Heap}
use ol.Machine.{Vm, Outcome, loop, apply, error, done, exits, fault}
use ol.Runtime.{execute}
use ol.Ffi.{Floats, integer_argument, tint64}
use ol.Ffi.Results.{Memory, ffi_result}
use ol.Ffi.RoundTrip.{integer_argument-ffi_result}
use ol.Ffi.Callback.{Native, callback_start}
use ol.Tests.Errors.{environment, caller}

abbrev floats : Floats
floats = record {
  to_integer = λ h a. pos 0;
  to_double = λ h a. 0;
  to_float = λ h a. 0;
  narrowed = λ h a. 0;
  from_double = λ h d. (2, h);
  scaled = λ f. pos 0;
}

abbrev memory : Memory
memory = record { bytes_at = λ a. []; wide_at = λ a. [] }

abbrev empty : Heap
empty = record { begin = 0; end = 65536; genstart = 0; fp = 1024; mem = λ a. 0 }

-- -2 ^ 60 as 64 bits
abbrev low : ℕ
low = 2 ^ 64 - 2 ^ 60

ffi_result_example :
    integer_argument floats
      (ffi_result floats memory empty tint64 low).1
      (ffi_result floats memory empty tint64 low).0
    ≡ low
ffi_result_example =
    integer_argument-ffi_result floats memory empty low refl (omega arith)
      (λ e. absurd (omega (arith, e)))

abbrev native : Native
native = record {
  argi = λ i. 7 + i;
  argf = λ j. 0;
  rest = λ i. 0;
  words_at = λ a k. 0;
  from_float = λ h f. (2, h);
}

-- a callable of one integer, whose function is the instruction `ret` on register 4
abbrev words : ℕ → ℕ
words a =
    if a == 512
    then make_header tpair 3
    else (if a == 520
        then 544
        else (if a == 528
            then 640
            else (if a == 544
                then make_header tpair 3
                else (if a == 552
                    then small tintp
                    else (if a == 560
                        then inull
                        else (if a == 640 then make_raw_header tbytecode 2 0 else 24 + 4 * 256))))))

abbrev machine : Vm
machine = record caller {
  heap = record empty { mem = words };
  regs = λ r. if r == 260 then 512 else (if r == 0 then ifalse else 1000 + r);
  ticker = 100;
}

-- the machine of a callback, and the one behind it
abbrev ready : Vm
ready = elim (callback_start floats memory native machine 4) [ none ↦ machine | some t ↦ t ]

abbrev ended : Outcome → Vm
ended (done t) = t
ended (loop t) = machine
ended (apply t) = machine
ended (error t) = machine
ended (exits n) = machine
ended fault = machine

abbrev returned : Vm
returned = ended (execute environment 4 (apply ready))
