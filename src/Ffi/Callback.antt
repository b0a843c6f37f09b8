-- ===== src/Ffi/Callback.antt =====
-- The call of a function of Ol from native code (extensions/ffi.c, `callback`), on x86-64 with Linux.
use ol.Common.{ℕ, ◌+◌, ◌-◌, ◌||◌, List, [], ◌∷◌, Option, none, some, ◌==◌, leb, if◌then◌else◌}
use ol.Word.{small}
use ol.Word.Types.{ifalse, inull, ireturn, tintp, tintn, tvptr, tstring, tpair}
use ol.Heap.{Heap, car, cdr, is_pair, new_pair, new_vptr}
use ol.Heap.Bytes.{new_string}
use ol.Machine.{ticks, Vm, apply, loop, error, done, exits, fault, nr, set_reg}
use ol.Runtime.{Environment, execute}
use ol.Ffi.{Floats, tfloat, tdouble, cells, cars}
use ol.Ffi.Results.{Memory}

-- The arguments in registers and on the stack, as bits; the words of an array in the memory of the process; and a number
-- made of a float.
pub record Native : Type 0 where
  pub argi : ℕ → ℕ
  pub argf : ℕ → ℕ
  pub rest : ℕ → ℕ
  pub words_at : ℕ → ℕ → ℕ
  pub from_float : Heap → ℕ → ℕ × Heap

-- the place in the registers `R`, the counts of arguments that are integers and that are not, and the machine
pub record Incoming : Type 0 where
  pub vm : Vm
  pub a : ℕ
  pub i : ℕ
  pub j : ℕ

module _ (fl : Floats) (memory : Memory) (native : Native) where
  -- the next argument of an integer type
  abbrev pub next_integer : ℕ → ℕ
  next_integer i = if leb i 6 then native.argi i else native.rest (i - 6)

  -- an object for each type of a list, from the words at an address, the last one first
  unfoldable pub incoming_list : Heap → List ℕ → ℕ → ℕ → ℕ → ℕ × Heap
  unfolding new_string new_vptr new_pair
  incoming_list h [] values k tail = (tail, h)
  incoming_list h (type ∷ types) values k tail =
      let v = native.words_at values k in
      let (p, h1) = new_string h (memory.bytes_at v) in
      let (q, h2) = new_pair h1 tpair p tail in
      let (r, h3) = new_vptr h v in
      let (t, h4) = new_pair h3 tpair r tail in
      let text = incoming_list h2 types values (k + 1) q in
      let pointer = incoming_list h4 types values (k + 1) t in
      let other = incoming_list h types values k tail in
      if type == small tstring then text else (if type == small tvptr then pointer else other)

  abbrev pub put : Incoming → ℕ × Heap → ℕ → ℕ → Incoming
  put inc (w, h) i j = record inc {
    vm = record (set_reg inc.vm inc.a w) { heap = h };
    i = inc.i + i;
    j = inc.j + j;
  }

  -- the `switch` on one type
  unfoldable pub incoming_argument : Incoming → ℕ → Option Incoming
  unfolding new_vptr new_string incoming_list cells cars is_pair
  incoming_argument inc type =
      let h = inc.vm.heap in
      let value = next_integer inc.i in
      let single = if leb inc.j 8 then native.argf inc.j else native.rest (inc.j - 8) in
      let double = if leb inc.i 8 then native.argf inc.j else native.rest (inc.j - 8) in
      if type == small tvptr
      then some (put inc (new_vptr h value) 1 0)
      else (if type == small tintn || type == small tintp
          then some (put inc (small value, h) 1 0)
          else (if type == small tfloat
              then some (put inc (native.from_float h single) 0 1)
              else (if type == small tdouble
                  then some (put inc (fl.from_double h double) 0 1)
                  else (if type == small tstring
                      then some (
                          put inc
                            (if value == 0
                              then (ifalse, h)
                              else new_string h (memory.bytes_at value))
                            1 0)
                      else (if is_pair h type
                          then elim (cells h.fp h type) [
                            | none ↦ none
                            | some ls ↦
                                some (put inc (incoming_list h (cars h ls) value 0 inull) 1 0)
                          ]
                          else some (record inc { i = inc.i + 1 }))))))

  -- `while (types != INULL)`
  unfoldable pub incoming_arguments : Incoming → List ℕ → Option Incoming
  unfolding incoming_argument
  incoming_arguments inc [] = some inc
  incoming_arguments inc (type ∷ types) = elim (incoming_argument inc type) [
    | none ↦ none
    | some next ↦
        incoming_arguments
          (record next { vm = record next.vm { acc = next.vm.acc + 1 }; a = next.a + 1 }) types
  ]

  -- The state in which the function of the callable with a number is called: `runtime` starts with a ticker of its own.
  unfoldable pub callback_start : Vm → ℕ → Option Vm
  unfolding incoming_arguments cells cars
  callback_start s id =
      let kept = set_reg (set_reg s nr (s.regs 0)) (nr + 3) (s.regs 3) in
      let ready = record (set_reg (set_reg kept 0 ifalse) 3 ireturn) {
        this = cdr s.heap (s.regs (nr + id));
        acc = 1;
        ip = 0;
        ticker = ticks;
        bank = 0;
        breaked = 0;
      } in
      let types = car s.heap (kept.regs (nr + id)) in
      elim (cells s.heap.fp s.heap types) [
        | none ↦ none
        | some ls ↦
            elim (incoming_arguments (record { vm = ready; a = 4; i = 0; j = 0 })
              (cars s.heap ls)) [ none ↦ none | some inc ↦ some inc.vm ]
      ]

  -- mcp and the continuation are taken back, and the local variables are those of the `runtime` that was left
  unfoldable pub callback_end : Vm → Vm → Vm
  callback_end s t = record (set_reg (set_reg t 3 (t.regs (nr + 3))) 0 (t.regs nr)) {
    this = s.this;
    acc = s.acc;
    ip = s.ip;
    op = s.op;
    ticker = s.ticker;
    bank = s.bank;
    breaked = s.breaked;
  }

  -- the whole call, if the function returns within the steps given
  unfoldable pub callback : Environment → ℕ → Vm → ℕ → Option Vm
  unfolding callback_start callback_end execute
  callback env n s id = elim (callback_start s id) [
    | none ↦ none
    | some ready ↦ elim (execute env n (apply ready)) [
      | done t ↦ some (callback_end s t)
      | loop t ↦ none
      | apply t ↦ none
      | error t ↦ none
      | exits k ↦ none
      | fault ↦ none
    ]
  ]
