-- ===== src/Runtime/Lookup.antt =====
-- The call of a tree (`apply:` in src/olvm.c), from the word in the place of the function to the continuation.
use ol.Common.{
  ◌&&◌, ◌⊎◌, inl, inr, ℕ, ne→==_false, false, sym, some, ◌<◌, ◌≡◌, ◌≢◌, refl, ◌∙◌, ap, ◌==◌,
  if◌then◌else◌, true, bit_and, arith,
}
use ol.Word.{is_reference, small}
use ol.Word.Types.{tproc, tclos, tff, iempty, ihalt, ireturn}
use ol.Heap.{reftype}
use ol.Machine.{Vm, Outcome, apply, raise, set_reg}
use ol.Ff.{get}
use ol.Ff.Tree.{Tree, Holds}
use ol.Ff.Order.{Ordered, entries, lookup_or}
use ol.Ff.Descent.{Descends, get-Descends}
use ol.Runtime.Apply.{apply_ff, apply_object, apply_step}

-- the value goes to the continuation
abbrev pub answered : Vm → ℕ → Outcome
answered s v = apply (record (set_reg s 3 v) { this = s.regs 3; acc = 1 })

reference-ne : (x c : ℕ) → is_reference x ≡ true → is_reference c ≡ false → (x == c) ≡ false
reference-ne x c reference value =
    ne→==_false x c λ e. let both = rw e at reference in let no = sym both ∙ value in cc

type-ne : (t c : ℕ) → bit_and t 0x3C ≡ tff → bit_and c 0x3C ≢ tff → (t == c) ≡ false
type-ne t c tree other = ne→==_false t c λ e. other (rw e at tree)

-- a reference is none of the constants that `apply:` asks for first
pub apply_step-reference :
    (gc : Vm → ℕ → Vm) (s : Vm) → is_reference s.this ≡ true → apply_step gc s ≡ apply_object gc s
unfolding apply_step is_reference
apply_step-reference gc s reference = rw (
  apply_step,
  reference-ne s.this iempty reference refl,
  reference-ne s.this ihalt reference refl,
  reference-ne s.this ireturn reference refl,
  reference,
)

pub apply_object-tree :
    (gc : Vm → ℕ → Vm) (s : Vm)
    → bit_and (reftype s.heap s.this) 0x3C ≡ tff
    → apply_object gc s ≡ apply_ff s
unfolding apply_object
apply_object-tree gc s tree = rw (
  apply_object,
  type-ne (reftype s.heap s.this) tproc tree (λ e. absurd (omega (arith, e))),
  type-ne (reftype s.heap s.this) tclos tree (λ e. absurd (omega (arith, e))),
  tree,
)

-- the default of the call: that of a call with a key only is the word 0, which is no value
abbrev pub default_of : Vm → ℕ
default_of s = if s.acc == 2 then 0 else s.regs 5

-- A tree in the place of the function, with the branches of each node below it and the root below `fp`, called with a
-- key and perhaps a default: the continuation is called with the value of the entry with the key, or the default. Where
-- a call with a key only finds 0, error 260 is raised with the tree and, where the key should be, the code 260.
pub apply_step-lookup :
    (gc : Vm → ℕ → Vm) (s : Vm) (t : Tree)
    → is_reference s.this ≡ true
    → bit_and (reftype s.heap s.this) 0x3C ≡ tff
    → Holds s.heap t s.this
    → Ordered t
    → Descends s.heap t s.this s.heap.fp
    → 0 < s.heap.fp
    → (s.acc ≡ 2) ⊎ (s.acc ≡ 3)
    → let v = lookup_or (entries t) (s.regs 4) (default_of s) in
      apply_step gc s ≡ (
        if s.acc == 2 && v == 0 then raise (set_reg s 3 0) 260 s.this (small 260) else answered s v)
unfolding apply_ff
apply_step-lookup gc s t reference tree holds ordered descends pos args =
    let found : (default : ℕ)
        → get s.heap.fp s.heap s.this (s.regs 4) default
          ≡ some (lookup_or (entries t) (s.regs 4) default) =
      λ default. get-Descends s.heap t s.this (s.regs 4) default holds ordered descends pos in
    let start = apply_step-reference gc s reference ∙ apply_object-tree gc s tree in
    elim args [
      | inl two ↦
          let is_two : (s.acc == 2) ≡ true = ap (λ n. n == 2) two in
          start ∙ rw (apply_ff, is_two, found 0)
      | inr three ↦
          let is_two : (s.acc == 2) ≡ false = ap (λ n. n == 2) three in
          let is_three : (s.acc == 3) ≡ true = ap (λ n. n == 3) three in
          start ∙ rw (apply_ff, is_two, is_three, found (s.regs 5))
    ]
