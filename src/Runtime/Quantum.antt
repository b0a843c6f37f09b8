-- ===== src/Runtime/Quantum.antt =====
-- The ticker of `apply:` (src/olvm.c), from one call of a thread to the next.
use ol.Common.{ℕ, suc, ◌≡◌, ◌≢◌}
use ol.Word.Types.{ifalse}
use ol.Machine.{Vm, Outcome, loop, Applies}
use ol.Runtime.Apply.{save_thread, enter}

-- a collector that leaves the ticker alone and keeps mcp, which it may move
pub record KeepsMcp (gc : Vm → ℕ → Vm) : Type 0 where
  pub same_ticker : (s : Vm) (n : ℕ) → (gc s n).ticker ≡ s.ticker
  pub still_there : (s : Vm) (n : ℕ) → s.regs 0 ≢ ifalse → (gc s n).regs 0 ≢ ifalse

-- The thread calls a function in the state `s`, and `n` more functions after that, the last in the state `z`; that call
-- leaves `apply:` by `o`. Between two calls the ticker is left alone and mcp is kept.
pub data Run (gc : Vm → ℕ → Vm) : ℕ → Vm → Vm → Outcome → Type 0 where
  last : (s : Vm) → Run gc 0 s s (enter gc s)
  call :
      (n : ℕ) (s t u z : Vm) (o : Outcome)
      → enter gc s ≡ loop t
      → u.ticker ≡ t.ticker
      → (t.regs 0 ≢ ifalse → u.regs 0 ≢ ifalse)
      → Run gc n u z o
      → Run gc (suc n) s z o

-- mcp is called with the thread of the state `z`
abbrev pub Switches : Vm → Outcome → Type 0
Switches z o = Applies o λ t.
    (t.this ≡ z.regs 0)
    × (t.acc ≡ 4)
    × (t.regs 4 ≡ z.heap.fp)
    × (t.heap ≡ (save_thread z).1)
    × (t.ticker ≡ 10000)

abbrev Kept : Vm → Vm → Type 0
Kept s t = (t.ticker ≡ s.ticker) × (s.regs 0 ≢ ifalse → t.regs 0 ≢ ifalse)
