-- ===== src/Heap/Chain.antt =====
-- Proper lists in the heap, and the loops of src/olvm.c that run along them.
use ol.Common.{
  ℕ, zero, suc, ◌+◌, ◌≤◌, ◌<◌, ◌≡◌, refl, ◌∙◌, true, false, List, [], ◌∷◌, length, get_or, arith,
  some, ◌==◌, if◌then◌else◌, le→ltb_false, ap,
}
use ol.Word.Types.{inull}
use ol.Word.{is_reference}
use ol.Heap.{Heap, car, cdr, is_pair}
use ol.Op.Make.{walk}
use ol.Op.Control.{unwound, unwind}
use ol.Machine.{nr}

-- `w` is a proper list of the words `xs`.
abbrev pub IsList : Heap → List ℕ → ℕ → Type 0
IsList h [] w = w ≡ inull
IsList h (x ∷ xs) w = (is_pair h w ≡ true) × (car h w ≡ x) × IsList h xs (cdr h w)

is_pair-inull : (h : Heap) → is_pair h inull ≡ false
unfolding is_pair is_reference
is_pair-inull h = refl

-- Along a proper list the walk ends, with all its elements, at its end.
pub walk-IsList :
    (n : ℕ) (h : Heap) (xs : List ℕ) (w : ℕ)
    → IsList h xs w
    → length xs < n
    → walk n h w ≡ some (xs, inull)
unfolding walk
walk-IsList zero h xs w is lt = absurd (omega arith)
walk-IsList (suc n) h [] w is lt = rw (is, is_pair-inull h) refl
walk-IsList (suc n) h (x ∷ xs) w (pair, head, tail) lt =
    rw (pair, walk-IsList n h xs (cdr h w) tail (omega arith), head) refl

-- consecutive registers from `reg` on, filled with words
unfoldable pub filled : (ℕ → ℕ) → ℕ → List ℕ → ℕ → ℕ
filled regs reg [] = regs
filled regs reg (x ∷ xs) = filled (λ i. if reg == i then x else regs i) (reg + 1) xs

pub filled-below :
    (regs : ℕ → ℕ) (reg : ℕ) (xs : List ℕ) (i : ℕ) → i < reg → filled regs reg xs i ≡ regs i
unfolding filled
filled-below regs reg [] i lt = refl
filled-below regs reg (x ∷ xs) i lt =
    filled-below (λ j. if reg == j then x else regs j) (reg + 1) xs i (omega arith) ∙ ground arith

pub filled-get :
    (regs : ℕ → ℕ) (reg : ℕ) (xs : List ℕ) (i : ℕ)
    → i < length xs
    → filled regs reg xs (reg + i) ≡ get_or xs i 0
unfolding filled
filled-get regs reg [] i lt = absurd (omega arith)
filled-get regs reg (x ∷ xs) zero lt =
    filled-below (λ j. if reg == j then x else regs j) (reg + 1) xs (reg + 0) (omega arith)
    ∙ ground arith
filled-get regs reg (x ∷ xs) (suc i) lt =
    let regs1 : ℕ → ℕ = λ j. if reg == j then x else regs j in
    ap (λ (j : ℕ). filled regs1 (reg + 1) xs j) {y = reg + 1 + i} (omega arith)
    ∙ filled-get regs1 (reg + 1) xs i (omega arith)

-- The loop of `apply` over a proper list that fits the registers ends, and puts its elements into
-- consecutive registers.
pub unwind-IsList :
    (n : ℕ) (h : Heap) (xs : List ℕ) (regs : ℕ → ℕ) (reg w : ℕ)
    → IsList h xs w
    → length xs < n
    → reg + length xs ≤ nr + 1
    → unwind n h regs reg w ≡ unwound (filled regs reg xs) (reg + length xs)
unfolding unwind filled
unwind-IsList zero h xs regs reg w is lt fits = absurd (omega arith)
unwind-IsList (suc n) h [] regs reg w is lt fits =
    rw (is, is_pair-inull h) (ap (λ (e : ℕ). unwound regs e) (omega arith))
unwind-IsList (suc n) h (x ∷ xs) regs reg w (pair, head, tail) lt fits =
    let regs1 : ℕ → ℕ = λ i. if reg == i then x else regs i in
    rw (pair, le→ltb_false nr reg (omega arith), head)
      (unwind-IsList n h xs regs1 (reg + 1) (cdr h w) tail (omega arith) (omega arith)
        ∙ ap (λ (e : ℕ). unwound (filled regs1 (reg + 1) xs) e) (omega arith))
