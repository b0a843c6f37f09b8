-- ===== src/Op/Cast.antt =====
-- `cast obj type` of src/olvm.c. Op/Float/Exact has the conversions to and from floating-point numbers.
use ol.Common.{ℕ, ◌-◌, ◌&&◌, ◌==◌, leb, if◌then◌else◌, bit_and, bit_or}
use ol.Word.{
  small, shl, value, is_value, is_reference, hdrsize, make_value, make_port, word_mod, tpos,
}
use ol.Word.Sign.{uvtoi}
use ol.Word.Types.{ifalse, tport, tvptr, tinexact, trational}
use ol.Heap.{load, reftype, new, new_vptr, store}
use ol.Machine.{set_reg, Vm, Outcome, arg, set_arg, with_heap, next, raise}
use ol.Op.Access.{copy_words}
use ol.Op.Float.{Doubles}
use ol.Op.Float.Exact.{to_inexact, from_inexact}

-- `hdr & ~252 | type << TPOS`: the header under another type
unfoldable pub retype : ℕ → ℕ → ℕ
retype hdr type = bit_or (bit_and hdr (word_mod - 1 - 252)) (shl type tpos)

-- the branch `default:`: a value under another type, or a clone of an object
unfoldable pub recast : Vm → ℕ → ℕ → Outcome
unfolding retype copy_words new make_value
recast s t type =
    let hdr = load s.heap t in
    let size = hdrsize hdr in
    let (res, h1) = new s.heap size in
    let h2 = copy_words (size - 1) 1 (store h1 res (retype hdr type)) t res in
    if is_value t
    then next (set_arg s 2 (make_value type (value t))) 3
    else next (with_heap (set_arg s 2 res) h2) 3

-- ports 0, 1 and 2 alone can be made of numbers
unfoldable pub cast_port : Vm → ℕ → Outcome
unfolding raise make_port
cast_port s t =
    if is_value t
    then next (set_arg s 2 (if leb (value t) 2 then make_port (value t) else ifalse)) 3
    else raise (set_arg s 2 ifalse) 22 s.this t

-- only the null pointer can be made of a number
unfoldable pub cast_vptr : Vm → ℕ → Outcome
unfolding new_vptr
cast_vptr s t =
    let (me, h1) = new_vptr s.heap 0 in
    if is_value t && value t == 0
    then next (with_heap (set_arg s 2 me) h1) 3
    else next (set_arg s 2 ifalse) 3

module _ (d : Doubles) where
  -- `ERROR` writes the registers 4 and 5 before it reads the type again.
  unfoldable pub vmcast : Vm → Outcome
  unfolding recast cast_port cast_vptr raise uvtoi reftype
  vmcast s =
      let t = arg s 0 in
      let type = bit_and (uvtoi (arg s 1)) 63 in
      if is_value (arg s 1)
      then (if type == tport
          then cast_port s t
          else (if type == tvptr
              then cast_vptr s t
              else (if type == tinexact
                  then to_inexact d s t
                  else (if type == trational && is_reference t && reftype s.heap t == tinexact
                      then from_inexact d s t
                      else recast s t type))))
      else raise s 22 s.this (arg (set_reg (set_reg s 4 (small 22)) 5 s.this) 1)
