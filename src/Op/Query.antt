-- ===== src/Op/Query.antt =====
-- Tests and measures of objects in src/olvm.c.
pub mod Order
use ol.Common.{ℕ, ◌-◌, ◌*◌, ◌&&◌, ◌==◌, ltb, if◌then◌else◌}
use ol.Word.{
  small, wsize, is_value, is_reference, is_rawobject, hdrsize, padsize, thetype, vmax, vbits,
}
use ol.Word.Types.{ifalse, itrue}
use ol.Heap.{load}
use ol.Machine.{Vm, Outcome, arg, set_arg, next}

-- `vm:raw?`
unfoldable pub vmrawq : Vm → Outcome
vmrawq s =
    let t = arg s 0 in
    let raw = is_reference t && is_rawobject (load s.heap t) in
    next (set_arg s 1 (if raw then itrue else ifalse)) 2

-- `type o`
unfoldable pub type_of : Vm → Outcome
type_of s =
    let t = arg s 0 in
    let w = if is_reference t then load s.heap t else t in next (set_arg s 1 (small (thetype w))) 2

-- the bytes of a raw object, the fields of any other
abbrev pub raw_length : ℕ → ℕ
raw_length hdr = (hdrsize hdr - 1) * wsize - padsize hdr

-- `size o`
unfoldable pub size : Vm → Outcome
size s =
    let t = arg s 0 in
    let hdr = load s.heap t in
    let n = if is_rawobject hdr then raw_length hdr else hdrsize hdr - 1 in
    next (set_arg s 1 (if is_value t then ifalse else small n)) 2

-- `eq? a b`
unfoldable pub eqq : Vm → Outcome
eqq s = next (set_arg s 2 (if arg s 0 == arg s 1 then itrue else ifalse)) 3

-- the order of words: values before references, and each kind by its number
unfoldable pub less : ℕ → ℕ → ℕ
less a b =
    if is_value a
    then (if is_value b then (if ltb a b then itrue else ifalse) else itrue)
    else (if is_value b then ifalse else (if ltb a b then itrue else ifalse))

-- `less? a b`
unfoldable pub lessq : Vm → Outcome
unfolding less
lessq s = next (set_arg s 2 (less (arg s 0) (arg s 1))) 3

-- `vm:endianness` on a little-endian machine, `vm:wordsize`, `vm:maxvalue`, `vm:valuewidth`
unfoldable pub endianness : Vm → Outcome
endianness s = next (set_arg s 0 (small 1)) 1

unfoldable pub wordsize : Vm → Outcome
wordsize s = next (set_arg s 0 (small wsize)) 1

unfoldable pub maxvalue : Vm → Outcome
maxvalue s = next (set_arg s 0 (small vmax)) 1

unfoldable pub valuewidth : Vm → Outcome
valuewidth s = next (set_arg s 0 (small vbits)) 1
