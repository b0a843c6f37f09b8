-- ===== src/Tests/Collections.antt =====
-- Collections of the garbage collector at a concrete heap.
use ol.Common.{
  ℕ, ◌+◌, ◌*◌, ◌%◌, ◌≤◌, ◌<◌, ◌≡◌, ◌⊎◌, inl, inr, refl, arith, Bool-cases, Bool, true, false, ◌==◌,
  ◌||◌, List, if◌then◌else◌, some,
}
use ol.Word.{is_reference, is_value, hdrsize, make_header}
use ol.Word.Types.{tpair, inull}
use ol.Heap.{Heap}
use ol.Machine.{Vm, nr, cr}
use ol.Gc.Resize.{Realloc, compact, ol_gc}
use ol.Gc.Threads.{young}
use ol.Gc.Rows.{Row, done, object}
use ol.Gc.Compact.Collected.{Collected, forward}
use ol.Gc.Tidy.{Tidy}
use ol.Gc.Tidy.Root.{Row-root}
use ol.Gc.Tidy.Again.{compact-Tidy}
use ol.Gc.Observe.{follow, forwarded}
use ol.Gc.Observe.Kept.{compact-follow}
use ol.Gc.Registers.{Leading}
use ol.Gc.Registers.Roots.{ol_gc_lem}

abbrev pair : ℕ
pair = make_header tpair 3

-- a pair at 16, another that nothing leads to at 40, and a pair at 64 that holds the first
abbrev heap : Heap
heap = record {
  begin = 16;
  end = 4096;
  genstart = 16;
  fp = 88;
  mem = λ a. if a == 16 || (a == 40 || a == 64) then pair else (if a == 72 then 16 else inull);
}

abbrev Start : ℕ → Type 0
Start b = (b ≡ 16) ⊎ ((b ≡ 40) ⊎ (b ≡ 64))

-- what is so at the three addresses is so at every start
at_starts : (P : ℕ → Type 0) → P 16 → P 40 → P 64 → (b : ℕ) → Start b → P b
at_starts P p q r b (inl e) = rw e p
at_starts P p q r b (inr (inl e)) = rw e q
at_starts P p q r b (inr (inr e)) = rw e r

sizes : (b : ℕ) → Start b → hdrsize (heap.mem b) ≡ 3
unfolding hdrsize make_header
sizes = at_starts (λ b. hdrsize (heap.mem b) ≡ 3) refl refl refl

at_fields : (P : ℕ → Type 0) → P 1 → P 2 → (i : ℕ) → 1 ≤ i → i < 3 → P i
at_fields P p q i lo hi =
    let two : (i ≡ 1) ⊎ (i ≡ 2) = omega arith in elim two [ inl e ↦ rw e p | inr e ↦ rw e q ]

-- a field that leads into the young generation
abbrev Leads : ℕ → ℕ → Type 0
Leads b i =
    young 16 (heap.mem (b + i * 8)) ≡ true
    → Start (heap.mem (b + i * 8)) × (heap.mem (b + i * 8) < b)

never : false ≡ true → ⊥
never e = ground arith

fields : (b : ℕ) → Start b → (i : ℕ) → 1 ≤ i → i < 3 → Leads b i
unfolding hdrsize make_header is_reference is_value
fields =
    at_starts (λ b. (i : ℕ) → 1 ≤ i → i < 3 → Leads b i)
      (at_fields (Leads 16) (λ is. absurd (never is)) (λ is. absurd (never is)))
      (at_fields (Leads 40) (λ is. absurd (never is)) (λ is. absurd (never is)))
      (at_fields (Leads 64) (λ is. (inl refl, omega arith)) (λ is. absurd (never is)))

heap-Row : Row heap.mem Start 88 16
unfolding hdrsize make_header
heap-Row =
    object 16 (inl refl) (omega arith)
      (object 40 (inr (inl refl)) (omega arith) (object 64 (inr (inr refl)) (omega arith) done))

heap-Tidy : Tidy heap.mem 16 88 Start
unfolding hdrsize make_header is_reference is_value
heap-Tidy = record {
  nonempty = λ b start. let three = sizes b start in omega arith;
  plain = at_starts (λ b. is_reference (heap.mem b) ≡ false) refl refl refl;
  unmarked = at_starts (λ b. heap.mem b % 2 ≡ 0) refl refl refl;
  aligned = at_starts (λ b. b % 8 ≡ 0) refl refl refl;
  low = at_starts (λ b. 16 ≤ b) (omega arith) (omega arith) (omega arith);
  inside =
      at_starts (λ b. b + hdrsize (heap.mem b) * 8 ≤ 88) (omega arith) (omega arith) (omega arith);
  apart = λ b c sb sc lt. let three = sizes b sb in ground arith;
  target = λ b i start plain lo hi is. fields b start i lo (rw⁻¹ (sizes b start) hi) is;
  even = refl;
  row = heap-Row;
}

-- the root leads to the third
leads : young 16 64 ≡ true → Start 64
leads is = inr (inr refl)

-- `realloc` is not called
abbrev no_realloc : Realloc
no_realloc h cells = (0, h.mem)

compact-Tidy_example :
    (enough : ℕ) × (live : ℕ → Bool) × (place : ℕ → ℕ) × ((rounds : ℕ)
      → enough ≤ rounds
      → (h' : Heap) × (compact no_realloc rounds heap 64 ≡ some (forward 16 place 64, h'))
        × (h'.begin ≡ 16)
        × (h'.end ≡ 4096)
        × (h'.genstart ≡ 16)
        × Collected (Row-root heap-Tidy 64 leads heap-Tidy.row) live place h'
        × Tidy h'.mem h'.genstart h'.fp (λ x. (c : ℕ) × (live c ≡ true) × (place c ≡ x))
        × (young 16 64 ≡ true → live 64 ≡ true))
compact-Tidy_example = compact-Tidy no_realloc heap 64 Start heap-Tidy leads

compact-follow_example :
    (enough : ℕ) × (place : ℕ → ℕ) × ((rounds : ℕ)
      → enough ≤ rounds
      → (h' : Heap) × (regs' : ℕ) × (compact no_realloc rounds heap 64 ≡ some (regs', h'))
        × ((path : List ℕ)
            → follow h'.mem 16 path regs'
              ≡ forwarded (forward 16 place) (follow heap.mem 16 path 64))
        × ((path path' : List ℕ) (x y : ℕ)
            → follow heap.mem 16 path 64 ≡ some x
            → follow heap.mem 16 path' 64 ≡ some y
            → (forward 16 place x == forward 16 place y) ≡ (x == y)))
compact-follow_example = compact-follow no_realloc heap 64 Start heap-Tidy leads

-- a machine in the sandbox, with the third pair in register 0
abbrev machine : Vm
machine = record {
  heap = heap;
  max_heap_size = 0;
  std = λ i. 0;
  regs = λ i. if i == 0 then 64 else inull;
  this = inull;
  acc = 1;
  ip = 0;
  op = 0;
  ticker = 0;
  bank = 0;
  breaked = 0;
  sandboxp = 1;
}

machine-Leading : Leading machine Start
unfolding is_reference is_value
machine-Leading = (
  λ i lt is. elim (Bool-cases (i == 0)) [
    | inl zeroth ↦ rw zeroth (inr (inr refl))
    | inr other ↦
        let empty : machine.regs i ≡ inull = rw other refl in absurd (never (rw empty at is))
  ],
  λ is. absurd (never is),
)

ol_gc_example :
    (enough : ℕ) × (live : ℕ → Bool) × (place : ℕ → ℕ) × ((rounds : ℕ)
      → enough ≤ rounds
      → (s' : Vm) × (ol_gc no_realloc rounds machine 0 ≡ some s')
        × ((i : ℕ) → i < nr + cr → s'.regs i ≡ forward 16 place (machine.regs i))
        × (s'.this ≡ forward 16 place inull)
        × ((i : ℕ) (path : List ℕ)
            → i < nr + cr
            → follow s'.heap.mem 16 path (s'.regs i)
              ≡ forwarded (forward 16 place) (follow heap.mem 16 path (machine.regs i)))
        × ((path : List ℕ)
            → follow s'.heap.mem 16 path s'.this
              ≡ forwarded (forward 16 place) (follow heap.mem 16 path inull))
        × Tidy s'.heap.mem 16 s'.heap.fp
            (λ x. ((c : ℕ) × (live c ≡ true) × (place c ≡ x)) × (x < s'.heap.fp)))
ol_gc_example =
    ol_gc_lem no_realloc machine 0 Start refl refl refl (omega arith) heap-Tidy machine-Leading
