-- ===== src/Runtime/Growth/Floats.antt =====
-- The floating-point instructions of src/olvm.c and the conversions of `cast`: they write behind `fp` only.
use ol.Common.{
  ℕ, ◌+◌, ◌*◌, List, [], ◌∷◌, length, Option, none, some, ◌==◌, ◌&&◌, arith, Bool-cases, inl, inr,
  pos,
}
use ol.Word.{wsize, value, is_reference, highbit}
use ol.Word.Types.{ttuple, tbvec, tintp, trational, tinexact, inull}
use ol.Heap.{Heap, car, new_bytevector, store_words}
use ol.Heap.Laws.{Extends, Extends-refl, Extends-trans, new_pair-Extends}
use ol.Heap.Raw.{new_bytevector-Extends}
use ol.Machine.{Vm, arg}
use ol.Op.Float.{Doubles, answer_float, new_inexact, fp1, fp1_function, fp2, fp2_function, ol2d}
use ol.Op.Float.Exact.{
  digit_list, lower_parts, denominator, d2ol_lower, whole_digits, upper_parts, d2ol_upper,
  fraction_of, d2ol, cast_inexact, cast_exact, digit_rounds, to_inexact, from_inexact,
}
use ol.Runtime.Growth.{Grows, looped, faulted, Pure, if-Grows, store-Extends, store_words-Extends}
use ol.Runtime.Growth.Allocating.{filled-Extends}

new_inexact-Extends : (h : Heap) (x : ℕ) → Extends h (new_inexact h x).1
unfolding new_inexact new_bytevector
new_inexact-Extends h x =
    store-Extends (new_bytevector-Extends h tinexact 8) (h.fp + 1 * wsize) x (omega arith)

answer_float-Grows : (s : Vm) (k : ℕ) (o : Option ℕ) → Grows s.heap (answer_float s k o)
unfolding answer_float
answer_float-Grows s k none = looped (new_bytevector-Extends s.heap tinexact 8)
answer_float-Grows s k (some x) = looped (new_inexact-Extends s.heap x)

pub fp1-Pure : (d : Doubles) → Pure (fp1 d)
unfolding fp1
fp1-Pure d s =
    if-Grows (is_reference (arg s 1))
      (answer_float-Grows s 2 (fp1_function d (value (arg s 0)) (car s.heap (arg s 1)))) faulted

pub fp2-Pure : (d : Doubles) → Pure (fp2 d)
unfolding fp2
fp2-Pure d s =
    if-Grows (is_reference (arg s 1) && is_reference (arg s 2))
      (answer_float-Grows s 3
        (fp2_function d (value (arg s 0)) (car s.heap (arg s 1)) (car s.heap (arg s 2))))
      faulted

digit_list-Extends : (h : Heap) (xs : List ℕ) → Extends h (digit_list h xs).1
unfolding digit_list
digit_list-Extends h [] = Extends-refl h
digit_list-Extends h (x ∷ xs) =
    Extends-trans (digit_list-Extends h xs)
      (new_pair-Extends (digit_list h xs).1 tintp x (digit_list h xs).0)

-- where it gives a heap, that heap has all words of `h`
abbrev Made : Heap → Option (ℕ × Heap) → Type 0
Made h none = Unit
Made h (some (a, h')) = Extends h h'

lower_parts-Extends :
    (d : Doubles) (h : Heap) (xs : List ℕ) (w : ℕ) → Extends h (lower_parts d h xs w).1
unfolding lower_parts
lower_parts-Extends d h [] w = Extends-refl h
lower_parts-Extends d h (x ∷ []) w = filled-Extends h ttuple 2 (x ∷ [])
lower_parts-Extends d h (x ∷ y ∷ ys) w =
    Extends-trans (filled-Extends h ttuple (length (y ∷ ys) + 2) (x ∷ y ∷ ys))
      (digit_list-Extends _ (x ∷ y ∷ ys))

d2ol_lower-Extends : (d : Doubles) (h : Heap) (v : ℕ) → Extends h (d2ol_lower d h v).1
unfolding d2ol_lower
d2ol_lower-Extends d h v = elim (Bool-cases (d.is_zero (d.fraction v))) [
  | inl zeroth ↦ rw zeroth (Extends-refl h)
  | inr other ↦
      rw other (lower_parts-Extends d h (denominator d 1024 v 1).0 (denominator d 1024 v 1).1)
]

upper_parts-Made :
    (d : Doubles) (h : Heap) (type : ℕ) (o : Option (List ℕ)) → Made h (upper_parts d h type o)
unfolding upper_parts
upper_parts-Made d h type none = tt
upper_parts-Made d h type (some []) = tt
upper_parts-Made d h type (some (x ∷ xs)) =
    let bytes = new_bytevector-Extends h tbvec (wsize * (length xs + 1)) in
    let filled = store_words-Extends bytes (h.fp + wsize) (x ∷ xs) (omega arith) in
    let h2 =
      store_words (new_bytevector h tbvec (wsize * (length xs + 1))).1 (h.fp + wsize) (x ∷ xs) in
    Extends-trans filled (
      Extends-trans (digit_list-Extends h2 xs)
        (new_pair-Extends (digit_list h2 xs).1 type x (digit_list h2 xs).0))

d2ol_upper-Made : (d : Doubles) (rounds : ℕ) (h : Heap) (v : ℕ) → Made h (d2ol_upper d rounds h v)
unfolding d2ol_upper
d2ol_upper-Made d rounds h v =
    elim (Bool-cases (d.greater (d.of_integer (pos highbit)) (d.absolute v))) [
      | inl below ↦ rw below (Extends-refl h)
      | inr above ↦ rw above (upper_parts-Made d h _ (whole_digits d rounds (d.absolute v)))
    ]

fraction_of-Made :
    {h h1 : Heap} (b w : ℕ) (o : Option (ℕ × Heap))
    → Extends h h1
    → Made h1 o
    → Made h (fraction_of (b, w) o)
fraction_of-Made b w none x made = tt
fraction_of-Made b w (some (a, h2)) x made = elim (Bool-cases (b == inull)) [
  | inl whole ↦ rw whole (Extends-trans x made)
  | inr parts ↦ rw parts (Extends-trans x (Extends-trans made (new_pair-Extends h2 trational a b)))
]

d2ol-Made : (d : Doubles) (rounds : ℕ) (h : Heap) (v : ℕ) → Made h (d2ol d rounds h v)
unfolding d2ol
d2ol-Made d rounds h v =
    fraction_of-Made (d2ol_lower d h v).0.0 (d2ol_lower d h v).0.1 _ (d2ol_lower-Extends d h v)
      (d2ol_upper-Made d rounds (d2ol_lower d h v).1 (d2ol_lower d h v).0.1)

pub to_inexact-Grows : (d : Doubles) (s : Vm) (t : ℕ) → Grows s.heap (to_inexact d s t)
unfolding to_inexact
to_inexact-Grows d s t =
    elim (ol2d d s.heap.fp s.heap t) as (λ o. Grows s.heap (cast_inexact s o)) [
      | none ↦ faulted
      | some x ↦ looped (new_inexact-Extends s.heap x)
    ]

cast_exact-Grows : (s : Vm) (o : Option (ℕ × Heap)) → Made s.heap o → Grows s.heap (cast_exact s o)
cast_exact-Grows s none made = faulted
cast_exact-Grows s (some (a, h)) made = looped made

pub from_inexact-Grows : (d : Doubles) (s : Vm) (t : ℕ) → Grows s.heap (from_inexact d s t)
unfolding from_inexact
from_inexact-Grows d s t = cast_exact-Grows s _ (d2ol-Made d digit_rounds s.heap (car s.heap t))
