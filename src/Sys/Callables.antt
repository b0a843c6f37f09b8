-- ===== src/Sys/Callables.antt =====
-- `make-callable` (src/olvm.c): the registers for callables.
use ol.Common.{
  subst, ltb, true, ℕ, zero, suc, ◌+◌, ◌-◌, ◌≤◌, ◌<◌, ◌≡◌, ◌≢◌, refl, ◌∙◌, sym, ap, arith,
  Bool-cases, inl, inr, ◌==◌, lt→ltb, ==_iff,
}
use ol.Word.{make_raw_header}
use ol.Word.Types.{ifalse, tcallable}
use ol.Heap.{load, ref}
use ol.Heap.Bytes.{load_byte}
use ol.Heap.Laws.{Extends}
use ol.Machine.{Vm, Continues, nr, cr, arg, operand}
use ol.Sys.Libraries.{Linker, free_callable, sys_mkcb}

-- `f` is the first of the callables from `c` on whose register is free.
pub record FirstFree (regs : ℕ → ℕ) (c end f : ℕ) : Type 0 where
  pub from : c ≤ f
  pub before : f < end
  pub free : regs (nr + f) ≡ ifalse
  pub first : (j : ℕ) → c ≤ j → j < f → regs (nr + j) ≢ ifalse

free_callable-FirstFree :
    (n : ℕ) (regs : ℕ → ℕ) (c i : ℕ)
    → c ≤ i
    → i < c + n
    → regs (nr + i) ≡ ifalse
    → FirstFree regs c (c + n) (free_callable n regs c)
unfolding free_callable
free_callable-FirstFree zero regs c i lo hi is = absurd (omega arith)
free_callable-FirstFree (suc n) regs c i lo hi is = elim (Bool-cases (regs (nr + c) == ifalse)) [
  | inl free ↦ rw free (record {
    from = omega arith;
    before = omega arith;
    free = (==_iff (regs (nr + c)) ifalse).0 free;
    first = λ j ge lt. absurd (omega arith);
  })
  | inr taken ↦
      let used : regs (nr + c) ≢ ifalse =
        λ e. (let yes = (==_iff (regs (nr + c)) ifalse).1 e in let both = sym yes ∙ taken in cc) in
      let other : i ≢ c = λ e. used (ap (λ j. regs (nr + j)) (sym e) ∙ is) in
      let rest = free_callable-FirstFree n regs (c + 1) i (omega (arith, other)) (omega arith) is in
      rw taken (record {
        from = omega (arith, rest.from);
        before = omega (arith, rest.before);
        free = rest.free;
        first = λ j ge lt. elim (Bool-cases (j == c)) [
          | inl here ↦ subst (λ k. regs (nr + k) ≢ ifalse) (sym ((==_iff j c).0 here)) used
          | inr later ↦ rest.first j (ground arith) lt
        ];
      })
]

-- Where a register for callables is free, `make-callable` puts the function into the first of them, and answers with a
-- new object that leads to the machine code for its number; other registers and the heap in front are as they were.
pub sys_mkcb_lem :
    (dl : Linker) (s : Vm) (i : ℕ)
    → 4 ≤ i
    → i < cr
    → s.regs (nr + i) ≡ ifalse
    → (c : ℕ) × FirstFree s.regs 4 cr c
      × Continues (sys_mkcb dl s) λ t.
        (t.regs (nr + c) ≡ arg s 1)
        × (t.regs (operand s 4) ≡ s.heap.fp)
        × (load t.heap s.heap.fp ≡ make_raw_header tcallable 2 0)
        × (ref t.heap s.heap.fp 1 ≡ dl.trampoline c)
        × ((r : ℕ) → r ≢ nr + c → r ≢ operand s 4 → t.regs r ≡ s.regs r)
        × Extends s.heap t.heap
unfolding sys_mkcb load_byte
sys_mkcb_lem dl s i lo hi is =
    let c = free_callable (cr - 4) s.regs 4 in
    let first = free_callable-FirstFree (cr - 4) s.regs 4 i lo (omega arith) is in
    let fits : ltb c cr ≡ true = lt→ltb c cr (omega (arith, first.before)) in
    let byte : operand s 4 < 256 = omega arith in
    (
      c,
      first,
      rw fits (
        ground arith,
        ground arith,
        ground arith,
        ground arith,
        λ r other result. ground arith,
        record {
          same_begin = refl;
          same_end = refl;
          same_genstart = refl;
          grows = omega arith;
          keeps = λ a lt. ground arith;
        },
      ),
    )
