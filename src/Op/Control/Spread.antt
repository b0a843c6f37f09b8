-- ===== src/Op/Control/Spread.antt =====
-- `apply` (src/olvm.c) with a proper list of arguments.
use ol.Common.{
  ℕ, zero, suc, ◌+◌, ◌-◌, ◌≤◌, ◌<◌, ◌≡◌, refl, ◌∙◌, List, length, get_or, arith, ◌==◌, ltb, leb,
  if◌then◌else◌, ap, subst, le→ltb_false, ◌&&◌,
}
use ol.Heap.Chain.{IsList, unwind-IsList, filled, filled-below, filled-get}
use ol.Machine.{Vm, Applies-map, Outcome, apply, exits, fault, Applies, nr}
use ol.Op.Control.{apply_op, spread, shift_down, Unwound, unwound, too_large, endless, unwind}

shift_down_lem :
    (n : ℕ) (regs : ℕ → ℕ) (reg i : ℕ)
    → shift_down n regs reg i ≡ (if leb reg i && ltb i (reg + n) then regs (i + 1) else regs i)
unfolding shift_down
shift_down_lem zero regs reg i = ground arith
shift_down_lem (suc n) regs reg i =
    shift_down_lem n (λ j. if reg == j then regs (reg + 1) else regs j) (reg + 1) i ∙ ground arith

module _ (s : Vm) (reg arity k : ℕ) (xs : List ℕ) where
  abbrev moved : ℕ → ℕ
  moved = shift_down k s.regs reg

  spread-unwound :
      (regs : ℕ → ℕ) (end : ℕ)
      → unwind (nr + 2) s.heap moved (reg + k) (moved (reg + k + 1)) ≡ unwound regs end
      → spread s reg arity k
        ≡ apply (record s { regs = regs; this = s.regs reg; acc = arity + k + (end - (reg + k)) })
  unfolding spread
  spread-unwound regs end e =
      ap
        (λ (u : Unwound). elim u as (λ v. Outcome) [
          | unwound regs end ↦
              apply
                (record s { regs = regs; this = s.regs reg; acc = arity + k + (end - (reg + k)) })
          | too_large ↦ exits 3
          | endless ↦ fault
        ])
        e

  -- The arguments in front of the list move down over the function, and those of the list follow.
  spread_lem :
      IsList s.heap xs (s.regs (reg + k + 1))
      → reg + k + length xs ≤ nr + 1
      → Applies (spread s reg arity k) λ t.
        (t.this ≡ s.regs reg)
        × (t.acc ≡ arity + k + length xs)
        × ((i : ℕ) → i < reg → t.regs i ≡ s.regs i)
        × ((i : ℕ) → i < k → t.regs (reg + i) ≡ s.regs (reg + i + 1))
        × ((i : ℕ) → i < length xs → t.regs (reg + k + i) ≡ get_or xs i 0)
        × (t.heap ≡ s.heap)
  unfolding spread
  spread_lem is fits =
      let list : moved (reg + k + 1) ≡ s.regs (reg + k + 1) =
        shift_down_lem k s.regs reg (reg + k + 1) ∙ ground arith in
      let spread_out =
        unwind-IsList (nr + 2) s.heap xs moved (reg + k) (s.regs (reg + k + 1)) is (omega arith)
          fits in
      let e =
        spread-unwound (filled moved (reg + k) xs) (reg + k + length xs)
          (ap (λ (w : ℕ). unwind (nr + 2) s.heap moved (reg + k) w) list ∙ spread_out) in
      rw e (
        refl,
        omega arith,
        λ i lo.
            filled-below moved (reg + k) xs i (omega arith)
            ∙ shift_down_lem k s.regs reg i
            ∙ ground arith,
        λ i lo.
            filled-below moved (reg + k) xs (reg + i) (omega arith)
            ∙ shift_down_lem k s.regs reg (reg + i)
            ∙ ground arith,
        λ i lo. filled-get moved (reg + k) xs i lo,
        refl,
      )

apply_op-normal : (s : Vm) (k : ℕ) → s.op ≡ 20 → s.acc ≡ k + 3 → apply_op s ≡ spread s 4 1 k
unfolding apply_op
apply_op-normal s k op acc =
    let rest : s.acc - 3 ≡ k = omega arith in rw (le→ltb_false s.acc 3 (omega arith), rest, op)

-- `apply`, with continuation and function in the registers 3 and 4, `k` arguments in the registers behind them and a proper
-- list in the next, jumps to the function with continuation, the `k` arguments and the elements of the list in
-- consecutive registers, if they all fit; the heap stays as it is.
pub apply_op_lem :
    (s : Vm) (k : ℕ) (xs : List ℕ)
    → s.op ≡ 20
    → s.acc ≡ k + 3
    → IsList s.heap xs (s.regs (k + 5))
    → k + 4 + length xs ≤ nr + 1
    → Applies (apply_op s) λ t.
      (t.this ≡ s.regs 4)
      × (t.acc ≡ 1 + k + length xs)
      × (t.regs 3 ≡ s.regs 3)
      × ((i : ℕ) → i < k → t.regs (4 + i) ≡ s.regs (5 + i))
      × ((i : ℕ) → i < length xs → t.regs (4 + k + i) ≡ get_or xs i 0)
      × (t.heap ≡ s.heap)
apply_op_lem s k xs op acc is fits =
    let list = subst (λ (i : ℕ). IsList s.heap xs (s.regs i)) {y = 4 + k + 1} (omega arith) is in
    rw (apply_op-normal s k op acc) (
      Applies-map (spread s 4 1 k)
        (λ t (at, acc, low, moved, rest, heap).
          (at, acc, low 3 (omega arith), λ i lo. moved i lo ∙ ap s.regs (omega arith), rest, heap))
        (spread_lem s 4 1 k xs list (omega arith)))
