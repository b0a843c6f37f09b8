-- ===== src/Op/Float/Exact.antt =====
-- The conversions of numbers to doubles and back by `cast` of src/olvm.c: `d2ol`, and the two branches of the instruction.
use ol.Common.{
  ℕ, zero, suc, ◌+◌, ◌-◌, ◌*◌, ◌/◌, ◌%◌, ◌^◌, List, [], ◌∷◌, length, Option, none, some, ◌==◌,
  if◌then◌else◌, bit_and, ℤ, pos, negsuc,
}
use ol.Word.{wsize, word_mod, vbits, vmax, highbit, truthy, small}
use ol.Word.Sign.{itosv}
use ol.Word.Types.{ttuple, tbvec, tintp, tintn, trational, inull}
use ol.Heap.{Heap, car, new_object, new_bytevector, new_pair, store_words}
use ol.Machine.{Vm, Outcome, fault, set_arg, with_heap, next}
use ol.Op.Float.{Doubles, ol2d, new_inexact}

-- pairs are made of the digits, the last one first
unfoldable pub digit_list : Heap → List ℕ → ℕ × Heap
unfolding new_pair
digit_list h [] = (inull, h)
digit_list h (x ∷ xs) = let (tail, h1) = digit_list h xs in new_pair h1 tintp x tail

-- every double but an infinity ends after 19 digits, since it is below 2 ^ 1024
abbrev pub digit_rounds : ℕ
digit_rounds = 19

abbrev pub cast_inexact : Vm → Option ℕ → Outcome
cast_inexact s none = fault
cast_inexact s (some x) =
    let (p, h1) = new_inexact s.heap x in next (with_heap (set_arg s 2 p) h1) 3

abbrev pub cast_exact : Vm → Option (ℕ × Heap) → Outcome
cast_exact s none = fault
cast_exact s (some (a, h1)) = next (with_heap (set_arg s 2 a) h1) 3

abbrev pub fraction_of : (ℕ × ℕ) → Option (ℕ × Heap) → Option (ℕ × Heap)
fraction_of (b, w) none = none
fraction_of (b, w) (some (a, h)) =
    if b == inull then some (a, h) else some (new_pair h trational a b)

module _ (d : Doubles) where
  abbrev of_word : ℕ → ℕ
  of_word n = d.of_integer (pos n)

  -- the digits of the denominator, and the number without its binary places: `t` rounds
  unfoldable pub denominator : ℕ → ℕ → ℕ → List ℕ × ℕ
  denominator zero v m = ([], v)
  denominator (suc t) v m =
      let over = truthy (bit_and m (word_mod - 1 - vmax)) in
      let (digits, w) =
        denominator t (d.mul v (of_word 2)) ((if over then m / 2 ^ vbits else m) * 2 % word_mod) in
      if d.is_zero (d.fraction v)
      then (small m ∷ [], v)
      else (if over then small 0 ∷ digits else digits, w)

  -- the denominator as a number, and what is left of the number; the digits were put behind `fp`
  unfoldable pub lower_parts : Heap → List ℕ → ℕ → (ℕ × ℕ) × Heap
  unfolding digit_list new_object store_words
  lower_parts h [] w = ((inull, w), h)
  lower_parts h (x ∷ xs) w =
      let (p, h1) = new_object h ttuple (length xs + 2) in
      let h2 = store_words h1 (p + wsize) (x ∷ xs) in
      let (b, h3) = digit_list h2 (x ∷ xs) in
      elim xs [ [] ↦ ((x, d.whole w), h2) | y ∷ ys ↦ ((b, d.whole w), h3) ]

  -- `if (modf(v, &i) != 0)`
  unfoldable pub d2ol_lower : Heap → ℕ → (ℕ × ℕ) × Heap
  unfolding lower_parts
  d2ol_lower h v =
      let (digits, w) = denominator 1024 v 1 in
      if d.is_zero (d.fraction v) then ((inull, v), h) else lower_parts h digits w

  -- the low 56 bits of a number that is not negative, as a word
  abbrev low_digit : ℤ → ℕ
  low_digit (pos n) = bit_and n vmax
  low_digit (negsuc n) = bit_and (word_mod - 1 - n % word_mod) vmax

  -- `do ... while (v > 0)`
  unfoldable pub whole_digits : ℕ → ℕ → Option (List ℕ)
  whole_digits zero v = none
  whole_digits (suc n) v =
      let w = d.whole (d.div v (of_word highbit)) in
      let rest = whole_digits n w in
      let x = small (low_digit (d.to_integer v)) in
      let more : Option (List ℕ) = elim rest [ none ↦ none | some xs ↦ some (x ∷ xs) ] in
      if d.greater w (of_word 0) then more else some (x ∷ [])

  -- a number of more than one digit; the digits were put behind `fp`
  unfoldable pub upper_parts : Heap → ℕ → Option (List ℕ) → Option (ℕ × Heap)
  unfolding digit_list new_bytevector new_pair store_words
  upper_parts h type none = none
  upper_parts h type (some []) = none
  upper_parts h type (some (x ∷ xs)) =
      let (p, h1) = new_bytevector h tbvec (wsize * (length xs + 1)) in
      let h2 = store_words h1 (p + wsize) (x ∷ xs) in
      let (tail, h3) = digit_list h2 xs in some (new_pair h3 type x tail)

  -- the whole number `v`
  unfoldable pub d2ol_upper : ℕ → Heap → ℕ → Option (ℕ × Heap)
  unfolding whole_digits upper_parts itosv
  d2ol_upper rounds h v =
      let large = whole_digits rounds (d.absolute v) in
      if d.greater (of_word highbit) (d.absolute v)
      then some (itosv (d.to_integer v), h)
      else upper_parts h (if d.greater (of_word 0) v then tintn else tintp) large

  -- `d2ol(ol, v)`. `none`: the loop over the digits of a whole number does not end in so many rounds.
  unfoldable pub d2ol : ℕ → Heap → ℕ → Option (ℕ × Heap)
  unfolding d2ol_lower d2ol_upper new_pair
  d2ol rounds h v =
      let (parts, h1) = d2ol_lower h v in fraction_of parts (d2ol_upper rounds h1 parts.1)

  -- cast to TINEXACT
  unfoldable pub to_inexact : Vm → ℕ → Outcome
  to_inexact s t = cast_inexact s (ol2d d s.heap.fp s.heap t)

  -- cast of a TINEXACT to TRATIONAL
  unfoldable pub from_inexact : Vm → ℕ → Outcome
  from_inexact s t = cast_exact s (d2ol digit_rounds s.heap (car s.heap t))
