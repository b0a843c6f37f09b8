-- ===== src/Op/Node/Bind.antt =====
-- `ff:bind` on a node of `ff:black` or `ff:red` (src/olvm.c).
use ol.Common.{ℕ, ◌≡◌, ◌≢◌, refl, arith, [], ◌∷◌, ◌==◌, Bool-cases, inl, inr}
use ol.Word.{hdrsize}
use ol.Heap.{Heap, load}
use ol.Machine.{Vm, Continues, Wrote, arg, operand}
use ol.Op.Node.{ffapply, make_node}
use ol.Op.Node.Laws.{IsColour, IsNode, make_node-IsNode}

-- the registers of the four results
abbrev pub FourResults : Vm → Type 0
FourResults s =
    (operand s 1 ≢ operand s 2)
    × (operand s 1 ≢ operand s 3)
    × (operand s 1 ≢ operand s 4)
    × (operand s 2 ≢ operand s 3)
    × (operand s 2 ≢ operand s 4)
    × (operand s 3 ≢ operand s 4)

abbrev pub Bound : Vm → ℕ → ℕ → ℕ → ℕ → Vm → Type 0
Bound s l k v r t =
    (t.regs (operand s 1) ≡ l)
    × (t.regs (operand s 2) ≡ k)
    × (t.regs (operand s 3) ≡ v)
    × (t.regs (operand s 4) ≡ r)
    × Wrote s 5 (1 ∷ 2 ∷ 3 ∷ 4 ∷ []) t

ffapply_lem :
    (s : Vm) (l k v r : ℕ)
    → FourResults s
    → IsNode s.heap (arg s 0) l k v r
    → Continues (ffapply s) (Bound s l k v r)
unfolding ffapply
ffapply_lem s l k v r (n12, n13, n14, n23, n24, n34) node =
    elim (Bool-cases (hdrsize (load s.heap (arg s 0)) == 3)) [
      | inl leaf ↦
          rw (ffapply, leaf)
            (
              ground arith,
              ground arith,
              ground arith,
              ground arith,
              record { moved = refl; same_heap = refl; others = λ q out. ground arith },
            )
      | inr branches ↦
          rw (ffapply, branches)
            (
              ground arith,
              ground arith,
              ground arith,
              ground arith,
              record { moved = refl; same_heap = refl; others = λ q out. ground arith },
            )
    ]

-- In a heap where a node constructor has just made a node, `ff:bind` on it gives back branches, key and value, each in its
-- register, and changes no other register.
pub ffapply-make_node :
    (h : Heap) (type l k v r : ℕ) (s : Vm)
    → IsColour type
    → FourResults s
    → s.heap ≡ (make_node h type l k v r).1
    → arg s 0 ≡ h.fp
    → Continues (ffapply s) (Bound s l k v r)
ffapply-make_node h type l k v r s colour four heap at =
    ffapply_lem s l k v r four (rw (at, heap) (make_node-IsNode h type l k v r colour))
