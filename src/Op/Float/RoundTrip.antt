-- ===== src/Op/Float/RoundTrip.antt =====
-- Small integers as floating-point numbers and back, by two casts (src/olvm.c, `vm:cast`).
use ol.Common.{
  ℕ, suc, ◌+◌, ◌-◌, ◌%◌, ◌^◌, ◌≤◌, ◌<◌, ◌≡◌, refl, ◌∙◌, ap, true, arith, some, ℤ, pos, magnitude,
}
use ol.Word.{small, is_value, is_reference, highbit}
use ol.Word.Fields.{make_raw_header_fields}
use ol.Word.Sign.{uvtoi, itosv, svtoi-itosv}
use ol.Word.Types.{tinexact, trational}
use ol.Heap.{Heap, car, reftype, new_bytevector}
use ol.Gc.Flags.{is_reference-bit}
use ol.Machine.{Vm, loop, operand, arg, set_arg, with_heap, next}
use ol.Op.Float.{Doubles, ol2d, new_inexact}
use ol.Op.Float.Exact.{
  d2ol_lower, d2ol_upper, d2ol, to_inexact, from_inexact, cast_exact, digit_rounds,
}
use ol.Op.Cast.{vmcast}

-- Whole numbers below 2 ^ 53 in magnitude are doubles: they have no fraction, and the conversions keep them.
pub record KeepsWhole (d : Doubles) : Type 0 where
  pub no_fraction : (i : ℤ) → magnitude i < 2 ^ 53 → d.is_zero (d.fraction (d.of_integer i)) ≡ true
  pub below :
      (i : ℤ)
      → magnitude i < 2 ^ 53
      → d.greater (d.of_integer (pos highbit)) (d.absolute (d.of_integer i)) ≡ true
  pub kept : (i : ℤ) → magnitude i < 2 ^ 53 → d.to_integer (d.of_integer i) ≡ i

new_inexact_lem :
    (h : Heap) (x : ℕ)
    → (reftype (new_inexact h x).1 h.fp ≡ tinexact) × (car (new_inexact h x).1 h.fp ≡ x)
unfolding new_inexact new_bytevector reftype
new_inexact_lem h x =
    let (raw, type, size, pads) =
      make_raw_header_fields tinexact 2 0 (omega arith) (omega arith) (omega arith) in
    (ground (arith, type), ground arith)

module _ (d : Doubles) (keeps : KeepsWhole d) (i : ℤ) (small_i : magnitude i < 2 ^ 53) where
  ol2d-itosv : (n : ℕ) (h : Heap) → ol2d d (suc n) h (itosv i) ≡ some (d.of_integer i)
  unfolding ol2d
  ol2d-itosv n h = let (same, is, type) = svtoi-itosv i (omega arith) in rw (is, same) refl

  d2ol-whole : (rounds : ℕ) (h : Heap) → d2ol d rounds h (d.of_integer i) ≡ some (itosv i, h)
  unfolding d2ol d2ol_lower d2ol_upper
  d2ol-whole rounds h =
      rw (keeps.no_fraction i small_i, keeps.below i small_i, keeps.kept i small_i) refl

  vmcast-inexact :
      (s : Vm)
      → arg s 0 ≡ itosv i
      → arg s 1 ≡ small tinexact
      → 1 ≤ s.heap.fp
      → vmcast d s
        ≡ next (with_heap (set_arg s 2 s.heap.fp) (new_inexact s.heap (d.of_integer i)).1) 3
  unfolding vmcast to_inexact new_inexact new_bytevector small uvtoi is_value
  vmcast-inexact s number type full =
      let made : ol2d d s.heap.fp s.heap (itosv i) ≡ some (d.of_integer i) =
        ap (λ n. ol2d d n s.heap (itosv i)) {y = suc (s.heap.fp - 1)} (omega arith)
        ∙ ol2d-itosv (s.heap.fp - 1) s.heap in
      rw (number, type, made) refl

  exact-whole :
      (u : Vm) (t : ℕ)
      → car u.heap t ≡ d.of_integer i
      → from_inexact d u t ≡ next (set_arg u 2 (itosv i)) 3
  unfolding from_inexact
  exact-whole u t word =
      ap (cast_exact u) (ap (d2ol d digit_rounds u.heap) word ∙ d2ol-whole digit_rounds u.heap)

  vmcast-exact :
      (u : Vm) (h : Heap)
      → u.heap ≡ (new_inexact h (d.of_integer i)).1
      → h.fp % 8 ≡ 0
      → arg u 0 ≡ h.fp
      → arg u 1 ≡ small trational
      → vmcast d u ≡ next (set_arg u 2 (itosv i)) 3
  unfolding vmcast small uvtoi is_value
  vmcast-exact u h same even number type =
      let (inexact, word) = new_inexact_lem h (d.of_integer i) in
      let points : is_reference h.fp ≡ true = ground (arith, is_reference-bit h.fp) in
      let inexact' : reftype u.heap h.fp ≡ tinexact = rw same inexact in
      let back = exact-whole u h.fp (rw same word) in rw (number, type, points, inexact') back

  -- Where doubles keep whole numbers below 2 ^ 53 in magnitude, and `fp` is above 0 and aligned: the cast of such a small
  -- integer to an inexact number goes on with the next instruction, and the cast of the register that it wrote to an
  -- exact number, by any machine with the heap that it left, gives the small integer back and changes nothing else.
  pub vmcast-itosv :
      (s : Vm)
      → s.heap.fp % 8 ≡ 0
      → 1 ≤ s.heap.fp
      → arg s 0 ≡ itosv i
      → arg s 1 ≡ small tinexact
      → (t : Vm) × (vmcast d s ≡ loop t)
        × ((u : Vm)
            → u.heap ≡ t.heap
            → arg u 0 ≡ t.regs (operand s 2)
            → arg u 1 ≡ small trational
            → vmcast d u ≡ next (set_arg u 2 (itosv i)) 3)
  vmcast-itosv s even full number type =
      let t : Vm = with_heap (set_arg s 2 s.heap.fp) (new_inexact s.heap (d.of_integer i)).1 in
      (
        record t { ip = s.ip + 3 },
        vmcast-inexact s number type full,
        λ u same register type'.
            let at : arg u 0 ≡ s.heap.fp = register ∙ ground arith in
            vmcast-exact u s.heap same even at type',
      )
