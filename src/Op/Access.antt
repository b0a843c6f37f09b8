-- ===== src/Op/Access.antt =====
-- Reads and writes of object fields in src/olvm.c: `car`, `cdr`, `ref`, `set-ref`, `set-ref!` and the
-- binding of a tuple to registers.
pub mod Update
use ol.Common.{ℕ, zero, suc, ◌+◌, Bool, ◌&&◌, ◌||◌, ◌==◌, ltb, leb, if◌then◌else◌}
use ol.Word.{small, wsize, is_value, is_reference, is_rawobject, hdrsize}
use ol.Word.Sign.{uvtoi, svtoi}
use ol.Word.Types.{ifalse, itrue}
use ol.Heap.{
  Heap, load, ref, car, cdr, set_ref, is_pair, is_npair, is_npairn, is_rational, is_complex, new,
}
use ol.Heap.Bytes.{load_byte, store_byte, char_of}
use ol.Machine.{set_reg, Vm, Outcome, arg, operand, set_arg, with_heap, next, raise}
use ol.Op.Query.{raw_length}

-- CAR_CHECK, CDR_CHECK
unfoldable pub has_two_parts : Heap → ℕ → Bool
has_two_parts h t =
    is_pair h t || is_npair h t || is_npairn h t || is_rational h t || is_complex h t

unfoldable pub car_op : Vm → Outcome
unfolding has_two_parts raise
car_op s =
    let t = arg s 0 in
    if has_two_parts s.heap t then next (set_arg s 1 (car s.heap t)) 2 else raise s 52 t itrue

unfoldable pub cdr_op : Vm → Outcome
unfolding has_two_parts raise
cdr_op s =
    let t = arg s 0 in
    if has_two_parts s.heap t then next (set_arg s 1 (cdr s.heap t)) 2 else raise s 53 t itrue

-- what `ref` finds at a position: a byte from 0 on, or a field from 1 on
unfoldable pub field_at : Heap → ℕ → ℕ → ℕ
unfolding load_byte
field_at h p pos =
    let hdr = load h p in
    if is_rawobject hdr
    then (if leb (raw_length hdr) pos then ifalse else small (load_byte h (p + pos + wsize)))
    else (if pos == 0 || leb (hdrsize hdr) pos then ifalse else ref h p pos)

unfoldable pub ref_op : Vm → Outcome
unfolding field_at uvtoi
ref_op s =
    let p = arg s 0 in
    let found = field_at s.heap p (uvtoi (arg s 1)) in
    next (set_arg s 2 (if is_reference p then found else ifalse)) 3

-- `for (i = 0; i < n; i++) q[i] = p[i];`, the words from `i` on
unfoldable pub copy_words : ℕ → ℕ → Heap → ℕ → ℕ → Heap
copy_words zero i h p q = h
copy_words (suc n) i h p q = copy_words n (i + 1) (set_ref h q i (ref h p i)) p q

-- a new object with the words of `p`
unfoldable pub clone : Heap → ℕ → ℕ × Heap
unfolding new copy_words
clone h p =
    let size = hdrsize (load h p) in let (q, h1) = new h size in (q, copy_words size 0 h1 p q)

-- `pos < (size - 1) * sizeof(word) - padsize + 1`
abbrev pub byte_fits : ℕ → ℕ → Bool
byte_fits hdr pos = ltb pos (raw_length hdr + 1)

-- `(set-ref object position value)` copies. `CHECK` writes register 4 before it reads the value again.
unfoldable pub setref : Vm → Outcome
unfolding clone store_byte char_of uvtoi svtoi raise
setref s =
    let p = arg s 0 in
    let pos = uvtoi (arg s 1) in
    let hdr = load s.heap p in
    let (q, h1) = clone s.heap p in
    let byte = char_of (svtoi (arg s 2)) in
    let h2 = if byte_fits hdr pos then store_byte h1 (q + wsize + pos) byte else h1 in
    if is_value p
    then next (set_arg s 3 ifalse) 4
    else (if is_rawobject hdr
        then (if is_value (arg s 2)
            then next (with_heap (set_arg s 3 q) h2) 4
            else raise s 10001 (arg (set_reg s 4 (small 10001)) 2) itrue)
        else (if ltb (hdrsize hdr) pos || pos == 0
            then next (set_arg s 3 ifalse) 4
            else next (with_heap (set_arg s 3 q) (set_ref h1 q pos (arg s 2))) 4))

-- `(set-ref! object position value)` writes in place; references are refused as values. The result register gets
-- #false before the value is read again.
unfoldable pub setrefe : Vm → Outcome
unfolding store_byte char_of uvtoi svtoi raise
setrefe s =
    let p = arg s 0 in
    let pos = uvtoi (arg s 1) in
    let hdr = load s.heap p in
    let s1 = set_arg s 3 ifalse in
    let byte = char_of (svtoi (arg s1 2)) in
    let h1 = if byte_fits hdr pos then store_byte s.heap (p + wsize + pos) byte else s.heap in
    if is_value (arg s 2)
    then (if is_value p
        then next s1 4
        else (if is_rawobject hdr
            then next (with_heap (set_arg s1 3 p) h1) 4
            else (if leb 1 pos && leb pos (hdrsize hdr)
                then next (with_heap (set_arg s1 3 p) (set_ref s.heap p pos (arg s1 2))) 4
                else next s1 4)))
    else raise s 10001 (arg (set_reg s 4 (small 10001)) 2) itrue

-- `while (n--) R[*ip++] = tuple[pos++];` from operand `k` on
unfoldable pub bind_fields : ℕ → Vm → ℕ → ℕ → ℕ → Vm
bind_fields zero s tuple pos k = s
bind_fields (suc n) s tuple pos k =
    bind_fields n (set_arg s k (ref s.heap tuple pos)) tuple (pos + 1) (k + 1)

-- `bind <tuple> <n> <r0> .. <rn>`
unfoldable pub tupleapply : Vm → Outcome
unfolding bind_fields
tupleapply s = next (bind_fields (operand s 1) s (arg s 0) 1 2) (2 + operand s 1)
