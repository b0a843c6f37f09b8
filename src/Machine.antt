-- ===== src/Machine.antt =====
-- The state of `runtime` in src/olvm.c: the registers, the heap and the local variables of the main
-- loop, and how an instruction leaves the loop's body.
use ol.Common.{ℕ, ◌+◌, ◌≡◌, ◌≢◌, upd, List, All}
use ol.Word.{small}
use ol.Heap.{Heap}
use ol.Heap.Bytes.{load_byte}

-- `struct ol_t` and the locals of `runtime`. `ticker`, `bank` and `breaked` are bit patterns of `int`.
pub record Vm : Type 0 where
  pub heap : Heap
  pub max_heap_size : ℕ
  pub std : ℕ → ℕ
  pub regs : ℕ → ℕ
  pub this : ℕ
  pub acc : ℕ
  pub ip : ℕ
  pub op : ℕ
  pub ticker : ℕ
  pub bank : ℕ
  pub breaked : ℕ
  pub sandboxp : ℕ

-- `loop`: on with the next instruction. `apply`, `error` and `done`: the labels that are jumped to.
-- `exits`: `ol->exit` with a status. `fault`: the code has no defined behaviour here.
pub data Outcome : Type 0 where
  loop : Vm → Outcome
  apply : Vm → Outcome
  error : Vm → Outcome
  done : Vm → Outcome
  exits : ℕ → Outcome
  fault : Outcome

-- NR, CR, TICKS, MEMPAD
abbrev pub nr : ℕ
nr = 256

abbrev pub cr : ℕ
cr = 16

abbrev pub ticks : ℕ
ticks = 10000

abbrev pub mempad : ℕ
mempad = 1024

-- `ip[k]`, the register that it names (`A0` to `A5`), and a write to it
abbrev pub operand : Vm → ℕ → ℕ
operand s k = load_byte s.heap (s.ip + k)

abbrev pub arg : Vm → ℕ → ℕ
arg s k = s.regs (operand s k)

abbrev pub set_reg : Vm → ℕ → ℕ → Vm
set_reg s i v = record s { regs = upd s.regs i v }

abbrev pub set_arg : Vm → ℕ → ℕ → Vm
set_arg s k v = set_reg s (operand s k) v

abbrev pub with_heap : Vm → Heap → Vm
with_heap s h = record s { heap = h }

-- `ip += n; break;`
abbrev pub next : Vm → ℕ → Outcome
next s n = loop (record s { ip = s.ip + n })

-- `ERROR(opcode, a, b)`
unfoldable pub raise : Vm → ℕ → ℕ → ℕ → Outcome
raise s opcode a b = error (set_reg (set_reg (set_reg s 4 (small opcode)) 5 a) 6 b)

-- The instruction goes on with the next one, in a state with `P`.
abbrev pub Continues : Outcome → (Vm → Type 0) → Type 0
Continues (loop t) P = P t
Continues (apply t) P = ⊥
Continues (error t) P = ⊥
Continues (done t) P = ⊥
Continues (exits n) P = ⊥
Continues fault P = ⊥

-- The jump to `apply:`, in a state with `P`.
abbrev pub Applies : Outcome → (Vm → Type 0) → Type 0
Applies (apply t) P = P t
Applies (loop t) P = ⊥
Applies (error t) P = ⊥
Applies (done t) P = ⊥
Applies (exits n) P = ⊥
Applies fault P = ⊥

pub Applies-map :
    {P Q : Vm → Type 0} → (o : Outcome) → ((t : Vm) → P t → Q t) → Applies o P → Applies o Q
Applies-map (apply t) f p = f t p
Applies-map (loop t) f p = absurd p
Applies-map (error t) f p = absurd p
Applies-map (done t) f p = absurd p
Applies-map (exits n) f p = absurd p
Applies-map fault f p = absurd p

pub Continues-map :
    {P Q : Vm → Type 0} → (o : Outcome) → ((t : Vm) → P t → Q t) → Continues o P → Continues o Q
Continues-map (loop t) f p = f t p
Continues-map (apply t) f p = absurd p
Continues-map (error t) f p = absurd p
Continues-map (done t) f p = absurd p
Continues-map (exits n) f p = absurd p
Continues-map fault f p = absurd p

-- `t` is `s` after an instruction of `n` operand bytes that wrote at most the registers of its
-- operands `ks`.
pub record Wrote (s : Vm) (n : ℕ) (ks : List ℕ) (t : Vm) : Type 0 where
  pub moved : t.ip ≡ s.ip + n
  pub same_heap : t.heap ≡ s.heap
  pub others : (r : ℕ) → All (λ k. r ≢ operand s k) ks → t.regs r ≡ s.regs r
