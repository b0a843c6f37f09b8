-- ===== src/Ffi/Incoming.antt =====
-- A callback with arguments that are integers (extensions/ffi.c, `callback`).
use ol.Common.{◌⊎◌, ℕ, ◌+◌, ◌≤◌, ◌<◌, ◌≡◌}
use ol.Word.{small}
use ol.Word.Types.{ifalse, ireturn}
use ol.Heap.{cdr}
use ol.Machine.{Vm, nr}
use ol.Ffi.{Floats}
use ol.Ffi.Results.{Memory}
use ol.Ffi.Callback.{Native, Incoming}

module _ (fl : Floats) (memory : Memory) (native : Native) where
  -- what the loop leaves, and the registers from `a` on that it fills
  record Filled (inc : Incoming) (k : ℕ) (out : Incoming) : Type 0 where
    same_heap : out.vm.heap ≡ inc.vm.heap
    same_this : out.vm.this ≡ inc.vm.this
    arity : out.vm.acc ≡ inc.vm.acc + k
    others : (r : ℕ) → (r < inc.a) ⊎ (inc.a + k ≤ r) → out.vm.regs r ≡ inc.vm.regs r
    values : (m : ℕ) → m < k → out.vm.regs (inc.a + m) ≡ small (native.argi (inc.i + m))

  -- the call of the function: mcp is off, the continuation ends the callback, and the arguments are in the registers from 4 on
  pub record Started (s : Vm) (id k : ℕ) (t : Vm) : Type 0 where
    pub same_heap : t.heap ≡ s.heap
    pub function : t.this ≡ cdr s.heap (s.regs (nr + id))
    pub arity : t.acc ≡ k + 1
    pub no_mcp : t.regs 0 ≡ ifalse
    pub continuation : t.regs 3 ≡ ireturn
    pub arguments : (m : ℕ) → m < k → t.regs (4 + m) ≡ small (native.argi m)
    pub kept_mcp : t.regs nr ≡ s.regs 0
    pub kept_continuation : t.regs (nr + 3) ≡ s.regs 3
