-- ===== src/Runtime/Growth/Allocating.antt =====
-- The instructions of src/olvm.c that allocate: they write behind `fp` only.
use ol.Common.{
  ◌/◌, Option, none, some, Bool-cases, leb, Bool, true, false, bit_or, inl, inr, refl, ℕ, zero, suc,
  ◌+◌, ◌-◌, ◌*◌, List, length, arith, ◌==◌, ◌||◌, bit_xor, if◌then◌else◌, ltb,
}
use ol.Word.{vmax, wsize, shl, tpos, hdrsize, is_value, is_rawobject}
use ol.Word.Types.{tintp, tff, ffred, tpair, inull, tstring}
use ol.Heap.{Heap, load, ref, new_object, new_pair, new, store_words}
use ol.Heap.Laws.{Extends, Extends-refl, Extends-trans, new_pair-Extends}
use ol.Heap.Raw.{new_bytevector-Extends}
use ol.Heap.Bytes.{new_string, char_of}
use ol.Word.Sign.{uvtoi, svtoi}
use ol.Machine.{Vm, raise, operand, arg}
use ol.Op.Access.{clone, setref, byte_fits}
use ol.Op.Node.Laws.{IsColour, make_node-Extends}
use ol.Number.{itoun}
use ol.Number.RoundTrip.{two_digits-Extends}
use ol.Op.Ambient.{clock, version, olvm_name, olvm_version}
use ol.Op.Node.{mknode, fftoggle}
use ol.Op.Make.{gather, closure, oclose, close1, vmnew, cons, pack, jafx}
use ol.Runtime.{invalid, invalid_opcode}
use ol.Runtime.Growth.{
  Grows, looped, failed, faulted, if-Grows, if-Extends, Pure, store-Extends, move_fp-Extends,
  store_byte-Extends, store_words-Extends, write_bytes-Extends, copy_words-Extends,
}

pub new_object-Extends : (h : Heap) (type size : ℕ) → Extends h (new_object h type size).1
unfolding new_object
new_object-Extends h type size =
    store-Extends (move_fp-Extends (Extends-refl h) (h.fp + size * wsize) (omega arith)) h.fp _
      (omega arith)

-- an object with the words behind its header
pub filled-Extends :
    (h : Heap) (type size : ℕ) (xs : List ℕ)
    → Extends h (store_words (new_object h type size).1 (h.fp + wsize) xs)
filled-Extends h type size xs =
    store_words-Extends (new_object-Extends h type size) (h.fp + wsize) xs (omega arith)

new_string-grown : (h : Heap) (bytes : List ℕ) → Extends h (new_string h bytes).1
unfolding new_string
new_string-grown h bytes =
    write_bytes-Extends (new_bytevector-Extends h tstring (length bytes)) (h.fp + wsize) bytes
      (omega arith)

pub invalid-Grows : Pure invalid
unfolding invalid raise
invalid-Grows s = failed (new_string-grown s.heap invalid_opcode)

closure-Grows : (s : Vm) (type size code k : ℕ) → Grows s.heap (closure s type size code k)
unfolding closure new_object
closure-Grows s type size code k = if-Grows (ltb size 2) faulted (
    looped (
      store_words-Extends
        (store-Extends (new_object-Extends s.heap type size) (s.heap.fp + 1 * wsize) code
          (omega arith))
        (s.heap.fp + 2 * wsize) (gather s k (size - 2)) (omega arith)))

pub close-Pure : (type : ℕ) → Pure (oclose type) × Pure (close1 type)
unfolding oclose close1
close-Pure type = (
  λ s. closure-Grows s type (operand s 0) (ref s.heap (arg s 1) (operand s 2)) 3,
  λ s. closure-Grows s type (operand s 0) (ref s.heap (s.regs 1) (operand s 1)) 2,
)

pub vmnew-Pure : Pure vmnew
unfolding vmnew new_object
vmnew-Pure s =
    looped
      (filled-Extends s.heap (operand s 0) (operand s 1 + 1 + 1) (gather s 2 (operand s 1 + 1)))

pub cons-Pure : Pure cons
unfolding cons
cons-Pure s = looped (new_pair-Extends s.heap tpair (arg s 0) (arg s 1))

pack-Extends : (n : ℕ) (s : Vm) (tail : ℕ) → Extends s.heap (pack n s tail).0.heap
unfolding pack new_pair
pack-Extends zero s tail = Extends-refl s.heap
pack-Extends (suc n) s tail =
    let x = s.regs (s.acc + 2) in
    Extends-trans (new_pair-Extends s.heap tpair x tail) (
      pack-Extends n (record s { heap = (new_pair s.heap tpair x tail).1; acc = s.acc - 1 })
        s.heap.fp)

pub jafx-Pure : Pure jafx
unfolding jafx
jafx-Pure s =
    if-Grows _ (looped (pack-Extends (s.acc - operand s 0) s inull)) (looped (Extends-refl s.heap))

either-IsColour : (b : Bool) → IsColour (if b then tff else bit_or tff ffred)
either-IsColour true = inl refl
either-IsColour false = inr refl

pub mknode-Pure : Pure mknode
unfolding mknode
mknode-Pure s = looped (
    make_node-Extends s.heap (if s.op == 42 then tff else bit_or tff ffred) (arg s 0) (arg s 1)
      (arg s 2) (arg s 3) (either-IsColour (s.op == 42)))

pub fftoggle-Pure : Pure fftoggle
unfolding fftoggle
fftoggle-Pure s =
    let node = arg s 0 in
    let h = load s.heap node in
    let n : ℕ = if hdrsize h == 5 then 4 else (if hdrsize h == 4 then 3 else 2) in
    let header =
      store-Extends (Extends-refl s.heap) s.heap.fp (bit_xor h (shl ffred tpos)) (omega arith) in
    looped (
      move_fp-Extends (copy_words-Extends header n 1 node s.heap.fp (omega arith))
        (s.heap.fp + (n + 1) * wsize) (omega arith))

clone-grown : (h : Heap) (p : ℕ) → Extends h (clone h p).1
unfolding clone new
clone-grown h p =
    copy_words-Extends
      (move_fp-Extends (Extends-refl h) (h.fp + hdrsize (load h p) * wsize) (omega arith))
      (hdrsize (load h p)) 0 p h.fp (omega arith)

pub setref-Pure : Pure setref
unfolding setref clone
setref-Pure s =
    let p = arg s 0 in
    let pos = uvtoi (arg s 1) in
    let hdr = load s.heap p in
    let copied = clone-grown s.heap p in
    let byte =
      store_byte-Extends copied (s.heap.fp + wsize + pos) (char_of (svtoi (arg s 2)))
        (omega arith) in
    let field = store-Extends copied (s.heap.fp + pos * wsize) (arg s 2) (omega arith) in
    if-Grows (is_value p) (looped (Extends-refl s.heap)) (
      if-Grows (is_rawobject hdr)
        (if-Grows (is_value (arg s 2)) (looped (if-Extends (byte_fits hdr pos) byte copied))
          (failed (Extends-refl s.heap)))
        (if-Grows (ltb (hdrsize hdr) pos || pos == 0) (looped (Extends-refl s.heap))
          (looped field)))

itoun-Extends : (h : Heap) (x : ℕ) → Extends h (itoun h x).1
unfolding itoun
itoun-Extends h x = elim (Bool-cases (leb x vmax)) [
  | inl short ↦ rw short (Extends-refl h)
  | inr long ↦ rw long (two_digits-Extends h tintp x)
]

pub clock-Pure : (time : Option (ℕ × ℕ)) → Pure (clock time)
unfolding clock
clock-Pure none s = faulted
clock-Pure (some (sec, usec)) s =
    looped
      (Extends-trans (itoun-Extends s.heap sec) (itoun-Extends (itoun s.heap sec).1 (usec / 1000)))

pub version-Pure : Pure version
unfolding version
version-Pure s =
    let (name, h1) = new_string s.heap olvm_name in
    let (number, h2) = new_string h1 olvm_version in
    looped (
      Extends-trans
        (Extends-trans (new_string-grown s.heap olvm_name) (new_string-grown h1 olvm_version))
        (new_pair-Extends h2 tpair name number))
