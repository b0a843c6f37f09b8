-- ===== src/Runtime/Errors.antt =====
-- The label `error:` (src/olvm.c), and some of the ways to it.
use ol.Common.{ℕ, suc, ◌+◌, ◌≡◌, ◌≢◌, ◌⊎◌, inl, inr, ◌∙◌, ap, true, false, bit_and, ne→==_false}
use ol.Word.{small, is_reference}
use ol.Word.Types.{ifalse, itrue, inull, iempty, ihalt, ireturn, tproc, tclos, tff, tbytecode}
use ol.Heap.{reftype}
use ol.Heap.Bytes.{load_byte, new_string}
use ol.Machine.{Vm, Outcome, loop, apply, arg, set_reg, with_heap, raise}
use ol.Op.Access.{has_two_parts, car_op, cdr_op}
use ol.Runtime.{Environment, select, instructions, invalid, invalid_opcode, step, fail, execute}
use ol.Runtime.Apply.{apply_step, apply_object}
use ol.Runtime.Lookup.{apply_step-reference}

-- mcp is called with the kind of the event, the code of the error and its two operands; the other registers are as they were
abbrev pub told : Vm → ℕ → ℕ → ℕ → Vm
told s code a b =
    record (set_reg (set_reg (set_reg (set_reg (set_reg s 4 (small code)) 5 a) 6 b) 0 ifalse) 3
      (small 3)) { this = s.regs 0; acc = 4 }

-- the state in which an instruction finds its operands
abbrev pub fetched : Vm → Vm
fetched s = record s { ip = s.ip + 1; op = load_byte s.heap s.ip }

-- `ERROR`, where there is an mcp
execute-raise :
    (env : Environment) (n : ℕ) (s : Vm) (code a b : ℕ)
    → is_reference (s.regs 0) ≡ true
    → execute env (suc n) (raise s code a b) ≡ execute env n (apply (told s code a b))
unfolding execute raise fail
execute-raise env n s code a b mcp = rw mcp

step-code :
    (env : Environment) (s : Vm) (c : ℕ)
    → bit_and (load_byte s.heap s.ip) 0x3F ≡ c
    → step env s ≡ select env (instructions env) c (fetched s)
unfolding step
step-code env s c e = rw e

execute-loop :
    (env : Environment) (n : ℕ) (s : Vm) (code a b : ℕ) (t : Vm)
    → step env s ≡ raise t code a b
    → is_reference (t.regs 0) ≡ true
    → execute env (suc (suc n)) (loop s) ≡ execute env n (apply (told t code a b))
unfolding execute
execute-loop env n s code a b t e mcp =
    ap (execute env (suc n)) e ∙ execute-raise env n t code a b mcp

step-car :
    (env : Environment) (s : Vm)
    → bit_and (load_byte s.heap s.ip) 0x3F ≡ 52
    → has_two_parts s.heap (arg (fetched s) 0) ≡ false
    → step env s ≡ raise (fetched s) 52 (arg (fetched s) 0) itrue
unfolding select instructions car_op
step-car env s e other = step-code env s 52 e ∙ rw other

step-cdr :
    (env : Environment) (s : Vm)
    → bit_and (load_byte s.heap s.ip) 0x3F ≡ 53
    → has_two_parts s.heap (arg (fetched s) 0) ≡ false
    → step env s ≡ raise (fetched s) 53 (arg (fetched s) 0) itrue
unfolding select instructions cdr_op
step-cdr env s e other = step-code env s 53 e ∙ rw other

step-invalid :
    (env : Environment) (s : Vm) (c : ℕ)
    → bit_and (load_byte s.heap s.ip) 0x3F ≡ c
    → (c ≡ 18) ⊎ ((c ≡ 19) ⊎ (c ≡ 25))
    → step env s ≡ invalid (fetched s)
unfolding select instructions
step-invalid env s c e (inl x) = step-code env s 18 (e ∙ x)
step-invalid env s c e (inr (inl x)) = step-code env s 19 (e ∙ x)
step-invalid env s c e (inr (inr x)) = step-code env s 25 (e ∙ x)

apply_step-value :
    (env : Environment) (s : Vm)
    → is_reference s.this ≡ false
    → s.this ≢ iempty
    → s.this ≢ ihalt
    → s.this ≢ ireturn
    → apply_step env.gc s ≡ raise s 257 s.this inull
unfolding apply_step
apply_step-value env s value e h r = rw (
  apply_step,
  ne→==_false s.this iempty e,
  ne→==_false s.this ihalt h,
  ne→==_false s.this ireturn r,
  value,
)

apply_step-uncallable :
    (env : Environment) (s : Vm)
    → is_reference s.this ≡ true
    → let type = reftype s.heap s.this in
      type ≢ tproc
      → type ≢ tclos
      → bit_and type 0x3C ≢ tff
      → bit_and type 63 ≢ tbytecode
      → apply_step env.gc s ≡ raise s 259 s.this inull
unfolding apply_object
apply_step-uncallable env s reference p c f b =
    let type = reftype s.heap s.this in
    apply_step-reference env.gc s reference
    ∙ rw (
      apply_object,
      ne→==_false type tproc p,
      ne→==_false type tclos c,
      ne→==_false (bit_and type 0x3C) tff f,
      ne→==_false (bit_and type 63) tbytecode b,
    )

-- a call that fails
execute-apply :
    (env : Environment) (n : ℕ) (s : Vm) (code a b : ℕ)
    → apply_step env.gc s ≡ raise s code a b
    → is_reference (s.regs 0) ≡ true
    → execute env (suc (suc n)) (apply s) ≡ execute env n (apply (told s code a b))
unfolding execute
execute-apply env n s code a b e mcp =
    ap (execute env (suc n)) e ∙ execute-raise env n s code a b mcp

-- the message of an unknown opcode is a new string
abbrev pub told_invalid : Vm → Vm
told_invalid s =
    let (p, h1) = new_string s.heap invalid_opcode in
    told (with_heap (fetched s) h1) (load_byte s.heap s.ip) p itrue

-- A state before an error, and the call of mcp that tells of it: `car` and `cdr` of what is no pair, number of two
-- digits, rational or complex number; an opcode that no instruction has; the call of a value that `apply:` does not
-- know; and the call of an object that is no code, closure or tree.
pub data Failure (s : Vm) : Outcome → Vm → Type 0 where
  no_parts :
      (code : ℕ)
      → (code ≡ 52) ⊎ (code ≡ 53)
      → bit_and (load_byte s.heap s.ip) 0x3F ≡ code
      → has_two_parts s.heap (arg (fetched s) 0) ≡ false
      → Failure s (loop s) (told (fetched s) code (arg (fetched s) 0) itrue)
  unknown_opcode :
      (code : ℕ)
      → (code ≡ 18) ⊎ ((code ≡ 19) ⊎ (code ≡ 25))
      → bit_and (load_byte s.heap s.ip) 0x3F ≡ code
      → Failure s (loop s) (told_invalid s)
  called_value :
      is_reference s.this ≡ false
      → s.this ≢ iempty
      → s.this ≢ ihalt
      → s.this ≢ ireturn
      → Failure s (apply s) (told s 257 s.this inull)
  called_object :
      is_reference s.this ≡ true
      → reftype s.heap s.this ≢ tproc
      → reftype s.heap s.this ≢ tclos
      → bit_and (reftype s.heap s.this) 0x3C ≢ tff
      → bit_and (reftype s.heap s.this) 63 ≢ tbytecode
      → Failure s (apply s) (told s 259 s.this inull)

-- Where register 0 has an mcp, a failure reaches it in two rounds of the main loop, as a call with the code of the error
-- and its two operands in the registers 4 to 6. The other registers but 0 and 3 and, but for the message about an
-- opcode, the heap are as they were.
pub execute-Failure :
    (env : Environment) (n : ℕ) (s t : Vm) (o : Outcome)
    → is_reference (s.regs 0) ≡ true
    → Failure s o t
    → execute env (suc (suc n)) o ≡ execute env n (apply t)
unfolding invalid
execute-Failure env n s _ _ mcp (no_parts code (inl e) is other) = rw e (
    execute-loop env n s 52 (arg (fetched s) 0) itrue (fetched s) (step-car env s (is ∙ e) other)
      mcp)
execute-Failure env n s _ _ mcp (no_parts code (inr e) is other) = rw e (
    execute-loop env n s 53 (arg (fetched s) 0) itrue (fetched s) (step-cdr env s (is ∙ e) other)
      mcp)
execute-Failure env n s _ _ mcp (unknown_opcode code which is) =
    let (p, h1) = new_string s.heap invalid_opcode in
    execute-loop env n s (load_byte s.heap s.ip) p itrue (with_heap (fetched s) h1)
      (step-invalid env s code is which) mcp
execute-Failure env n s _ _ mcp (called_value value e h r) =
    execute-apply env n s 257 s.this inull (apply_step-value env s value e h r) mcp
execute-Failure env n s _ _ mcp (called_object reference p c f b) =
    execute-apply env n s 259 s.this inull (apply_step-uncallable env s reference p c f b) mcp
