-- ===== src/Runtime/Growth.antt =====
-- Outcomes of src/olvm.c's instructions whose heap holds every word of the heap before.
pub mod Plain
pub mod Allocating
pub mod Floats
pub mod Objects
pub mod Calls
use ol.Common.{
  ℕ, zero, suc, ◌+◌, ◌-◌, ◌*◌, ◌%◌, ◌≤◌, ◌<◌, ◌≡◌, refl, List, [], ◌∷◌, Bool, true, false,
  if◌then◌else◌, arith,
}
use ol.Word.{wsize}
use ol.Heap.{Heap, store, ref, set_ref, store_words}
use ol.Heap.Laws.{Extends, Extends-trans}
use ol.Heap.Bytes.{store_byte, store_bytes}
use ol.Machine.{Vm, Outcome, loop, apply, error, done, exits, fault}
use ol.Op.Access.{copy_words}

-- where the machine goes on, its heap is `h` with words added
pub data Grows (h : Heap) : Outcome → Type 0 where
  looped : {t : Vm} → Extends h t.heap → Grows h (loop t)
  applied : {t : Vm} → Extends h t.heap → Grows h (apply t)
  failed : {t : Vm} → Extends h t.heap → Grows h (error t)
  finished : {t : Vm} → Extends h t.heap → Grows h (done t)
  exited : {n : ℕ} → Grows h (exits n)
  faulted : Grows h fault

pub if-Grows :
    {h : Heap} (b : Bool) {x y : Outcome} → Grows h x → Grows h y → Grows h (if b then x else y)
if-Grows true p q = p
if-Grows false p q = q

pub if-Extends :
    {h : Heap} (b : Bool) {x y : Heap} → Extends h x → Extends h y → Extends h (if b then x else y)
if-Extends true p q = p
if-Extends false p q = q

module _ {h h1 : Heap} (x : Extends h h1) where
  pub store-Extends : (a v : ℕ) → h.fp ≤ a → Extends h (store h1 a v)
  store-Extends a v le = record {
    same_begin = x.same_begin;
    same_end = x.same_end;
    same_genstart = x.same_genstart;
    grows = x.grows;
    keeps = λ b lt. let old = x.keeps b lt in ground arith;
  }

  pub move_fp-Extends : (n : ℕ) → h.fp ≤ n → Extends h (record h1 { fp = n })
  move_fp-Extends n le = record {
    same_begin = x.same_begin;
    same_end = x.same_end;
    same_genstart = x.same_genstart;
    grows = le;
    keeps = x.keeps;
  }

  pub store_byte-Extends : (a b : ℕ) → h.fp + 7 ≤ a → Extends h (store_byte h1 a b)
  unfolding store_byte
  store_byte-Extends a b le = store-Extends (a - a % wsize) _ (omega arith)

pub store_words-Extends :
    {h h1 : Heap}
    → Extends h h1
    → (a : ℕ) (xs : List ℕ) → h.fp ≤ a
    → Extends h (store_words h1 a xs)
unfolding store_words
store_words-Extends x a [] le = x
store_words-Extends {h} {h1} x a (w ∷ ws) le =
    store_words-Extends {h1 = store h1 a w} (store-Extends x a w le) (a + wsize) ws (omega arith)

pub write_bytes-Extends :
    {h h1 : Heap}
    → Extends h h1
    → (a : ℕ) (bs : List ℕ) → h.fp + 7 ≤ a
    → Extends h (store_bytes h1 a bs)
unfolding store_bytes
write_bytes-Extends x a [] le = x
write_bytes-Extends {h} {h1} x a (b ∷ bs) le =
    write_bytes-Extends {h1 = store_byte h1 a b} (store_byte-Extends x a b le) (a + 1) bs
      (omega arith)

pub copy_words-Extends :
    {h h1 : Heap} → Extends h h1 → (n i p q : ℕ) → h.fp ≤ q → Extends h (copy_words n i h1 p q)
unfolding copy_words
copy_words-Extends x zero i p q le = x
copy_words-Extends {h} {h1} x (suc n) i p q le =
    copy_words-Extends {h1 = set_ref h1 q i (ref h1 p i)}
      (store-Extends x (q + i * wsize) (ref h1 p i) (omega arith)) n (i + 1) p q le

-- an instruction that writes no word of the heap it finds
abbrev pub Pure : (Vm → Outcome) → Type 0
Pure f = (s : Vm) → Grows s.heap (f s)

pub Grows-trans : {h h' : Heap} {o : Outcome} → Extends h h' → Grows h' o → Grows h o
Grows-trans x (looped y) = looped (Extends-trans x y)
Grows-trans x (applied y) = applied (Extends-trans x y)
Grows-trans x (failed y) = failed (Extends-trans x y)
Grows-trans x (finished y) = finished (Extends-trans x y)
Grows-trans x exited = exited
Grows-trans x faulted = faulted
