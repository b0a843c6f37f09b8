-- ===== src/Op/Make/Extra.antt =====
-- `jafx` (src/olvm.c) and the arguments beyond those that a function names.
use ol.Common.{
  ℕ, zero, suc, ◌+◌, ◌-◌, ◌*◌, ◌%◌, ◌≤◌, ◌≡◌, ◌≢◌, refl, sym, ◌∙◌, ap, subst, true, List, [], ◌∷◌,
  ◌++◌, append-nil, arith, leb, ne→==_false, ==_refl,
}
use ol.Word.{wsize, is_reference}
use ol.Word.Fields.{is_value-digit}
use ol.Word.Types.{tpair, inull}
use ol.Heap.{Heap, cdr, is_pair, new_pair}
use ol.Heap.Chain.{IsList}
use ol.Heap.Laws.{Extends, Extends-refl, Extends-trans, new_pair_lem, new_pair-Extends}
use ol.Machine.{Vm, Continues, operand}
use ol.Op.Make.{pack, jafx}
use ol.Runtime.Apply.{registers}

-- the pairs of a list lie below an address
abbrev pub ListBelow : Heap → List ℕ → ℕ → ℕ → Type 0
ListBelow h [] w limit = Unit
ListBelow h (x ∷ xs) w limit = (w + 3 * wsize ≤ limit) × ListBelow h xs (cdr h w) limit

-- a list stays where the heap grows
IsList-Extends :
    {h h' : Heap}
    → Extends h h'
    → (xs : List ℕ) (w : ℕ) → IsList h xs w
    → ListBelow h xs w h.fp
    → IsList h' xs w × ListBelow h' xs w h'.fp
unfolding is_pair
IsList-Extends e [] w is below = (is, tt)
IsList-Extends {h} {h'} e (x ∷ xs) w (pair, head, tail) (low, lows) =
    let first = e.keeps w (omega arith) in
    let second = e.keeps (w + 1 * wsize) (omega arith) in
    let third : cdr h' w ≡ cdr h w = e.keeps (w + 2 * wsize) (omega arith) in
    let (is, below) = IsList-Extends e xs (cdr h w) tail lows in
    ((rw first pair, second ∙ head, rw third is), (omega (arith, e.grows), rw third below))

registers-snoc :
    (regs : ℕ → ℕ) (i n : ℕ) (xs : List ℕ)
    → registers regs i n ++ (regs (i + n) ∷ xs) ≡ registers regs i (suc n) ++ xs
unfolding registers
registers-snoc regs i zero xs = ap (λ (j : ℕ). regs j ∷ xs) (omega arith)
registers-snoc regs i (suc n) xs =
    ap (λ (ys : List ℕ). regs i ∷ ys)
      (ap (λ (j : ℕ). registers regs (i + 1) n ++ (regs j ∷ xs)) {y = i + 1 + n} (omega arith)
        ∙ registers-snoc regs (i + 1) n xs)

rows_top :
    (regs : ℕ → ℕ) (acc n : ℕ) (xs : List ℕ)
    → suc n ≤ acc
    → registers regs (acc - 1 + 3 - n) n ++ (regs (acc + 2) ∷ xs)
      ≡ registers regs (acc + 3 - suc n) (suc n) ++ xs
rows_top regs acc n xs le =
    let base = acc + 2 - n in
    ap (λ (i : ℕ). registers regs i n ++ (regs (acc + 2) ∷ xs)) {y = base} (omega arith)
    ∙ ap (λ (j : ℕ). registers regs base n ++ (regs j ∷ xs)) {y = base + n} (omega arith)
    ∙ registers-snoc regs base n xs
    ∙ ap (λ (i : ℕ). registers regs i (suc n) ++ xs) (omega arith)

-- a pair at an aligned address is one
new_pair-is_pair :
    (h : Heap) (a b : ℕ) → h.fp % wsize ≡ 0 → is_pair (new_pair h tpair a b).1 h.fp ≡ true
unfolding is_pair is_reference
new_pair-is_pair h a b aligned =
    let header = (new_pair_lem h tpair a b).2 in ground (arith, is_value-digit h.fp, header)

pack_lem :
    (n : ℕ) (s : Vm) (tail : ℕ) (xs : List ℕ)
    → n ≤ s.acc
    → s.heap.fp % wsize ≡ 0
    → IsList s.heap xs tail
    → ListBelow s.heap xs tail s.heap.fp
    → IsList (pack n s tail).0.heap (registers s.regs (s.acc + 3 - n) n ++ xs) (pack n s tail).1
      × ((pack n s tail).0.acc ≡ s.acc - n)
      × ((pack n s tail).0.regs ≡ s.regs)
      × Extends s.heap (pack n s tail).0.heap
unfolding pack registers
pack_lem zero s tail xs le aligned is below = (is, omega arith, refl, Extends-refl s.heap)
pack_lem (suc n) s tail xs le aligned is below =
    let x = s.regs (s.acc + 2) in
    let h1 : Heap = (new_pair s.heap tpair x tail).1 in
    let p = (new_pair s.heap tpair x tail).0 in
    let (address, fp, header, head, rest) = new_pair_lem s.heap tpair x tail in
    let grown = new_pair-Extends s.heap tpair x tail in
    let (is', below') = IsList-Extends grown xs tail is below in
    let s1 : Vm = record s { heap = h1; acc = s.acc - 1 } in
    let at_fp : IsList h1 (x ∷ xs) s.heap.fp =
      (new_pair-is_pair s.heap x tail aligned, head, rw rest is') in
    let low : ListBelow h1 (x ∷ xs) s.heap.fp h1.fp = (omega arith, rw rest below') in
    let here : IsList h1 (x ∷ xs) p = rw address at_fp in
    let there : ListBelow h1 (x ∷ xs) p h1.fp = rw address low in
    let (all, acc, regs, more) = pack_lem n s1 p (x ∷ xs) (omega arith) (omega arith) here there in
    let rows : registers s.regs (s.acc - 1 + 3 - n) n ++ (x ∷ xs)
        ≡ registers s.regs (s.acc + 3 - suc n) (suc n) ++ xs =
      rows_top s.regs s.acc n xs le in
    (
      subst (λ (ys : List ℕ). IsList (pack n s1 p).0.heap ys (pack n s1 p).1) rows all,
      acc ∙ omega arith,
      regs,
      Extends-trans grown more,
    )

-- `jafx`, called with at least as many arguments as the function names: the arguments beyond those become a proper list
-- in their order, in the register behind the named ones, in a heap that is otherwise as it was; the other
-- registers stay, and the function goes on behind the instruction.
pub jafx_lem :
    (s : Vm)
    → operand s 0 ≤ s.acc
    → s.heap.fp % wsize ≡ 0
    → Continues (jafx s) λ t.
      IsList t.heap
        (registers s.regs (operand s 0 + 3) (s.acc - operand s 0))
        (t.regs (operand s 0 + 3))
      × (t.acc ≡ operand s 0)
      × ((i : ℕ) → i ≢ operand s 0 + 3 → t.regs i ≡ s.regs i)
      × Extends s.heap t.heap
      × (t.ip ≡ s.ip + 3)
unfolding jafx
jafx_lem s enough aligned =
    let n = s.acc - operand s 0 in
    let (is, acc, regs, grown) = pack_lem n s inull [] (omega arith) aligned refl tt in
    let named : (pack n s inull).0.acc ≡ operand s 0 = acc ∙ omega arith in
    let test : leb (operand s 0) s.acc ≡ true = ground arith in
    let row : registers s.regs (s.acc + 3 - n) n ++ [] ≡ registers s.regs (operand s 0 + 3) n =
      append-nil (registers s.regs (s.acc + 3 - n) n)
      ∙ ap (λ (i : ℕ). registers s.regs i n) (omega arith) in
    let list : IsList (pack n s inull).0.heap (registers s.regs (operand s 0 + 3) n)
        (pack n s inull).1 =
      subst (λ (ys : List ℕ). IsList (pack n s inull).0.heap ys (pack n s inull).1) row is in
    rw (jafx, test, named, ==_refl (operand s 0 + 3))
      (
        list,
        refl,
        λ i ne.
            rw (ne→==_false (operand s 0 + 3) i (λ e. ne (sym e))) (ap (λ (r : ℕ → ℕ). r i) regs),
        grown,
        refl,
      )
