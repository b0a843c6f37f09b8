-- ===== src/Tests/Floats.antt =====
-- Floating-point numbers that are whole: the highest bit is the sign, the others are the magnitude.
use ol.Common.{
  Bool, true, false, ℕ, suc, ◌+◌, ◌-◌, ◌*◌, ◌/◌, ◌%◌, ◌^◌, ◌≡◌, refl, ◌<◌, arith, ◌==◌, ltb,
  if◌then◌else◌, ℤ, pos, negsuc, neg, magnitude,
}
use ol.Word.{small, highbit}
use ol.Word.Sign.{itosv}
use ol.Word.Types.{tinexact, trational}
use ol.Heap.Bytes.{load_byte}
use ol.Machine.{Vm, loop, arg, operand, set_arg, next}
use ol.Op.Cast.{vmcast}
use ol.Op.Float.{Doubles}
use ol.Op.Float.RoundTrip.{KeepsWhole, vmcast-itosv}

abbrev sign : ℕ
sign = 2 ^ 63

abbrev of_integer : ℤ → ℕ
of_integer (pos n) = n % sign
of_integer (negsuc n) = sign + suc n % sign

abbrev to_integer : ℕ → ℤ
to_integer w = if ltb w sign then pos w else neg (w - sign)

-- the numbers of a sign and of the other are ordered by their magnitudes
abbrev greater : ℕ → ℕ → Bool
greater a b =
    if ltb a sign
    then (if ltb b sign then ltb b a else true)
    else (if ltb b sign then false else ltb a b)

abbrev pub doubles : Doubles
doubles = record {
  add = λ a b. (a + b) % sign;
  mul = λ a b. a * b % sign;
  sub = λ a b. a - b;
  div = λ a b. a / b;
  negate = λ a. if ltb a sign then a + sign else a - sign;
  greater = greater;
  is_zero = λ a. a == 0;
  absolute = λ a. a % sign;
  square_root = λ a. a;
  sine = λ a. 0;
  cosine = λ a. 1;
  floor = λ a. a;
  ceiling = λ a. a;
  whole = λ a. a;
  fraction = λ a. 0;
  of_integer = of_integer;
  to_integer = to_integer;
}

below_highbit :
    (i : ℤ) → magnitude i < 2 ^ 53 → greater (of_integer (pos highbit)) (of_integer i % sign) ≡ true
below_highbit (pos n) lt = ground arith
below_highbit (negsuc n) lt = ground arith

integer_kept : (i : ℤ) → magnitude i < 2 ^ 53 → to_integer (of_integer i) ≡ i
integer_kept (pos n) lt =
    let same : n % sign ≡ n = omega arith in
    let low : ltb n sign ≡ true = ground arith in rw (same, low) refl
integer_kept (negsuc n) lt =
    let high : ltb (sign + suc n % sign) sign ≡ false = ground arith in
    let rest : sign + suc n % sign - sign ≡ suc n = omega arith in rw (high, rest) refl

doubles-KeepsWhole : KeepsWhole doubles
doubles-KeepsWhole = record {
  no_fraction = λ i lt. refl;
  below = below_highbit;
  kept = integer_kept;
}

-- the operands name the registers 0, 1 and 2, which hold -7, the type of inexact numbers, and nothing
abbrev casting : Vm
casting = record {
  heap = record { begin = 0; end = 65536; genstart = 0; fp = 1024; mem = λ a. 0x020100 };
  max_heap_size = 0;
  std = λ i. 0;
  regs = λ r. if r == 0 then itosv (negsuc 6) else small tinexact;
  this = 0;
  acc = 1;
  ip = 0;
  op = 22;
  ticker = 0;
  bank = 0;
  breaked = 0;
  sandboxp = 0;
}

casting_reads : (arg casting 0 ≡ itosv (negsuc 6)) × (arg casting 1 ≡ small tinexact)
unfolding load_byte
casting_reads = (refl, refl)

cast_example :
    (t : Vm) × (vmcast doubles casting ≡ loop t)
    × ((u : Vm)
        → u.heap ≡ t.heap
        → arg u 0 ≡ t.regs (operand casting 2)
        → arg u 1 ≡ small trational
        → vmcast doubles u ≡ next (set_arg u 2 (itosv (negsuc 6))) 3)
cast_example =
    vmcast-itosv doubles doubles-KeepsWhole (negsuc 6) (omega arith) casting refl (omega arith)
      casting_reads.0 casting_reads.1
