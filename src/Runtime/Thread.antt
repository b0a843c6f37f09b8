-- ===== src/Runtime/Thread.antt =====
-- The thread object between `apply:`, which saves it, and `run` (src/olvm.c).
use ol.Common.{
  ℕ, zero, suc, ◌+◌, ◌-◌, ◌^◌, ◌≤◌, ◌<◌, ◌≡◌, refl, ◌∙◌, ap, true, ltb, arith, List, length, get_or,
  Bool-cases, inl, inr, ne→==_false,
}
use ol.Word.{wsize, is_reference, make_header, small}
use ol.Word.Fields.{make_header_fields}
use ol.Word.Types.{tthread}
use ol.Heap.{Heap, load, ref, new_object}
use ol.Heap.Laws.{store_words-get, store_words-below}
use ol.Machine.{Vm, apply, Continues, arg}
use ol.Op.Control.{run, restore}
use ol.Runtime.Apply.{registers, save_thread, switch_thread}

pub length-registers : (regs : ℕ → ℕ) (i n : ℕ) → length (registers regs i n) ≡ n
unfolding registers
length-registers regs i zero = refl
length-registers regs i (suc n) = ap suc (length-registers regs (i + 1) n)

pub get_or-registers :
    (regs : ℕ → ℕ) (i n j : ℕ) → j < n → get_or (registers regs i n) j 0 ≡ regs (i + j)
unfolding registers
get_or-registers regs i zero j lt = absurd (omega arith)
get_or-registers regs i (suc n) zero lt = ap regs (omega arith)
get_or-registers regs i (suc n) (suc j) lt =
    get_or-registers regs (i + 1) n j (omega arith) ∙ ap regs (omega arith)

-- `restore` writes the registers 1 to n, from the fields of the same numbers, and no other.
restore-above :
    (n : ℕ) (h : Heap) (this : ℕ) (regs : ℕ → ℕ) (i : ℕ) → n < i → restore n h this regs i ≡ regs i
unfolding restore
restore-above zero h this regs i lt = refl
restore-above (suc n) h this regs i lt =
    restore-above n h this _ i (omega arith) ∙ rw (ne→==_false (suc n) i (omega arith))

restore-get :
    (n : ℕ) (h : Heap) (this : ℕ) (regs : ℕ → ℕ) (i : ℕ)
    → 1 ≤ i
    → i ≤ n
    → restore n h this regs i ≡ ref h this i
unfolding restore
restore-get zero h this regs i lo hi = absurd (omega arith)
restore-get (suc n) h this regs i lo hi = elim (Bool-cases (ltb n i)) [
  | inl last ↦ restore-above n h this _ i (ground arith) ∙ ground arith
  | inr inner ↦ restore-get n h this _ i lo (ground arith)
]

-- the words of the thread object: its header, the registers, and the code
module _ (s : Vm) where
  abbrev base : Heap
  base = (new_object s.heap tthread (s.acc + 4)).1

  abbrev rows : List ℕ
  rows = registers s.regs 1 (s.acc + 4 - 2)

  thread_header : (save_thread s).1.mem s.heap.fp ≡ make_header tthread (s.acc + 4)
  unfolding save_thread
  thread_header = ground (arith, store_words-below base (s.heap.fp + wsize) rows s.heap.fp)

  thread_code : ref (save_thread s).1 s.heap.fp (s.acc + 3) ≡ s.this
  unfolding save_thread
  thread_code = ground arith

  thread_register : (i : ℕ) → 1 ≤ i → i ≤ s.acc + 2 → ref (save_thread s).1 s.heap.fp i ≡ s.regs i
  unfolding save_thread
  thread_register i lo hi =
      let size = length-registers s.regs 1 (s.acc + 4 - 2) in
      let there = store_words-get base (s.heap.fp + wsize) rows (i - 1) (omega arith) in
      let row = get_or-registers s.regs 1 (s.acc + 4 - 2) (i - 1) (omega arith) in ground arith

-- the switch hands the thread object over in register 4
switch_thread-hands :
    (s t : Vm) → switch_thread s ≡ apply t → (t.regs 4 ≡ s.heap.fp) × (t.heap ≡ (save_thread s).1)
unfolding switch_thread save_thread
switch_thread-hands s t e = ground arith

-- `run` on a thread object whose words are those that `save_thread` wrote
run-saved :
    (s u : Vm)
    → s.acc + 4 < 2 ^ 48
    → is_reference s.heap.fp ≡ true
    → arg u 0 ≡ s.heap.fp
    → ((i : ℕ) → i < s.acc + 4 → ref u.heap s.heap.fp i ≡ ref (save_thread s).1 s.heap.fp i)
    → Continues (run u) λ v.
      (v.ip ≡ s.this + wsize)
      × (v.acc ≡ s.acc)
      × ((i : ℕ) → 1 ≤ i → i ≤ s.acc + 2 → v.regs i ≡ s.regs i)
unfolding run
run-saved s u small aligned at same =
    let hdr : load u.heap s.heap.fp ≡ make_header tthread (s.acc + 4) =
      ground (arith, same 0, thread_header s) in
    let (val, raw, type, size) = make_header_fields tthread (s.acc + 4) (omega arith) small in
    rw (at, aligned, hdr, type, size)
      (
        ground (arith, same (s.acc + 3), thread_code s),
        omega arith,
        λ i lo hi.
            restore-get (s.acc + 4 - 1 - 1) u.heap s.heap.fp _ i lo (omega arith)
            ∙ same i (omega arith)
            ∙ thread_register s i lo hi,
      )

-- Where `apply:` saved a thread at the end of its quantum and handed it over in register 4, and a later
-- state still has the words of that object, `run` on it goes on in the code of the thread, at its
-- first instruction, with the arity and the registers that the thread had.
pub run-switch_thread :
    (s t u : Vm)
    → s.acc + 4 < 2 ^ 48
    → is_reference s.heap.fp ≡ true
    → switch_thread s ≡ apply t
    → arg u 0 ≡ t.regs 4
    → ((i : ℕ) → i < s.acc + 4 → ref u.heap (t.regs 4) i ≡ ref t.heap (t.regs 4) i)
    → Continues (run u) λ v.
      (v.ip ≡ s.this + wsize)
      × (v.acc ≡ s.acc)
      × ((i : ℕ) → 1 ≤ i → i ≤ s.acc + 2 → v.regs i ≡ s.regs i)
run-switch_thread s t u small aligned e at same =
    let (object, heap) = switch_thread-hands s t e in
    run-saved s u small aligned (at ∙ object) (λ i lt. rw (object, heap) at (same i lt))
