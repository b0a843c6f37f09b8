-- ===== src/Op/Float.antt =====
-- Floating-point numbers of src/olvm.c: the instructions fp1 and fp2, `ol2d`, which makes a double of a number, and `d2ol`,
-- which makes a number of a double. A double is given by its 64 bits; what is computed with doubles is a parameter. The
-- assertions of these functions do nothing, since the Makefile defines NDEBUG.
pub mod Exact
pub mod RoundTrip
use ol.Common.{
  ℕ, zero, suc, ◌+◌, ◌-◌, ◌*◌, ◌/◌, ◌%◌, ◌^◌, Bool, true, false, ◌&&◌, not, List, [], ◌∷◌, length,
  Option, none, some, ◌==◌, if◌then◌else◌, bit_and, ℤ, pos,
}
use ol.Word.{wsize, word_mod, highbit, small, value, is_value, is_reference, make_header}
use ol.Word.Sign.{uvtoi, svtoi, itosv}
use ol.Word.Types.{ttuple, tbvec, tintp, tintn, trational, tcomplex, tinexact, inull, ifalse}
use ol.Heap.{
  Heap, car, cdr, set_ref, reftype, store, new, new_object, new_bytevector, new_pair, store_words,
}
use ol.Machine.{Vm, Outcome, fault, arg, set_arg, with_heap, next}

-- The operators of C on doubles and the functions of its mathematical library. `whole` and `fraction` are the two parts that
-- `modf` gives, `of_integer` and `to_integer` the conversions.
pub record Doubles : Type 0 where
  pub add : ℕ → ℕ → ℕ
  pub mul : ℕ → ℕ → ℕ
  pub sub : ℕ → ℕ → ℕ
  pub div : ℕ → ℕ → ℕ
  pub negate : ℕ → ℕ
  pub greater : ℕ → ℕ → Bool
  pub is_zero : ℕ → Bool
  pub absolute : ℕ → ℕ
  pub square_root : ℕ → ℕ
  pub sine : ℕ → ℕ
  pub cosine : ℕ → ℕ
  pub floor : ℕ → ℕ
  pub ceiling : ℕ → ℕ
  pub whole : ℕ → ℕ
  pub fraction : ℕ → ℕ
  pub of_integer : ℤ → ℕ
  pub to_integer : ℕ → ℤ

-- `new_bytevector(TINEXACT, sizeof(double))` and the double in it
unfoldable pub new_inexact : Heap → ℕ → ℕ × Heap
unfolding new_bytevector
new_inexact h x = let (p, h1) = new_bytevector h tinexact 8 in (p, set_ref h1 p 1 x)

-- the object of the result in register `k`, or #false, where there is no such function
unfoldable pub answer_float : Vm → ℕ → Option ℕ → Outcome
unfolding new_inexact new_bytevector
answer_float s k none =
    next (with_heap (set_arg s k ifalse) (new_bytevector s.heap tinexact 8).1) (k + 1)
answer_float s k (some x) =
    let (p, h1) = new_inexact s.heap x in next (with_heap (set_arg s k p) h1) (k + 1)

module _ (d : Doubles) where
  abbrev max_of : ℕ → ℕ → ℕ
  max_of a b = if d.greater a b then a else b

  unfoldable pub fp1_function : ℕ → ℕ → Option ℕ
  fp1_function fnc a =
      if fnc == 0
      then some (d.square_root a)
      else (if fnc == 1
          then some (d.sine a)
          else (if fnc == 2
              then some (d.cosine a)
              else (if fnc == 3
                  then some (d.floor a)
                  else (if fnc == 4
                      then some (d.ceiling a)
                      else (if fnc == 5 then some (d.fraction a) else none)))))

  -- fp1 function a -> r
  unfoldable pub fp1 : Vm → Outcome
  unfolding answer_float fp1_function
  fp1 s =
      if is_reference (arg s 1)
      then answer_float s 2 (fp1_function (value (arg s 0)) (car s.heap (arg s 1)))
      else fault

  unfoldable pub fp2_function : ℕ → ℕ → ℕ → Option ℕ
  fp2_function fnc a b =
      if fnc == 0
      then some (d.add a b)
      else (if fnc == 1
          then some (d.mul a b)
          else (if fnc == 2
              then some (d.sub a b)
              else (if fnc == 3
                  then some (d.div a b)
                  else (if fnc == 4
                      then some (max_of a b)
                      else (if fnc == 5 then some (max_of a b) else none)))))

  -- fp2 function a b -> r
  unfoldable pub fp2 : Vm → Outcome
  unfolding answer_float fp2_function
  fp2 s =
      if is_reference (arg s 1) && is_reference (arg s 2)
      then answer_float s 3
          (fp2_function (value (arg s 0)) (car s.heap (arg s 1)) (car s.heap (arg s 2)))
      else fault

  abbrev of_word : ℕ → ℕ
  of_word n = d.of_integer (pos n)

  -- `while (p != INULL)`
  unfoldable pub ol2d_loop : ℕ → Heap → ℕ → ℕ → ℕ → Option ℕ
  unfolding uvtoi
  ol2d_loop zero h p v m = none
  ol2d_loop (suc n) h p v m =
      let rest =
        ol2d_loop n h (cdr h p) (d.add v (d.mul (of_word (uvtoi (car h p))) m))
          (d.mul m (of_word highbit)) in
      if p == inull then some v else rest

  unfoldable pub ol2d_convert : Heap → ℕ → Option ℕ
  unfolding ol2d_loop
  ol2d_convert h p = ol2d_loop h.fp h p (of_word 0) (of_word 1)

  abbrev negated : Option ℕ → Option ℕ
  negated none = none
  negated (some x) = some (d.negate x)

  abbrev divided : Option ℕ → Option ℕ → Option ℕ
  divided (some x) (some y) = some (d.div x y)
  divided none y = none
  divided (some x) none = none

  -- `ol2d(arg)`. `none`: the parts of the number do not end.
  unfoldable pub ol2d : ℕ → Heap → ℕ → Option ℕ
  unfolding reftype svtoi ol2d_convert
  ol2d zero h arg = none
  ol2d (suc n) h arg =
      let upper = ol2d n h (car h arg) in
      let lower = ol2d n h (cdr h arg) in
      let type = reftype h arg in
      if is_value arg
      then some (d.of_integer (svtoi arg))
      else (if type == tintp
          then ol2d_convert h arg
          else (if type == tintn
              then negated (ol2d_convert h arg)
              else (if type == trational
                  then divided upper lower
                  else (if type == tcomplex
                      then upper
                      else (if type == tinexact then some (car h arg) else some (of_word 0))))))
