-- ===== src/Ff/Persistence.antt =====
-- Trees (ff) under the main loop of src/olvm.c: instructions that make new nodes leave the old ones as they are.
use ol.Common.{ℕ, ◌<◌, ◌≡◌, ◌∙◌, sym, subst}
use ol.Heap.Laws.{Extends}
use ol.Heap.{Heap}
use ol.Machine.{Vm, loop}
use ol.Ff.{get}
use ol.Ff.Tree.{Tree, Holds, depth}
use ol.Ff.Order.{Ordered, get-lookup_or}
use ol.Ff.Build.{Below, Holds-Extends}
use ol.Runtime.{Environment, execute}
use ol.Runtime.Growth.{Grows, looped}
use ol.Runtime.Immutable.{Spared, execute-Grows}

loop-grown : (h : Heap) (t : Vm) → Grows h (loop t) → Extends h t.heap
loop-grown h t (looped x) = x

module _ (env : Environment) where
  -- After any number of rounds of the main loop without `set-ref!`, a system call and a collection, where it goes on to a next
  -- instruction, `get` finds in a tree that was there before the same value for every key and default as before, with
  -- any bound above the depth of the tree. It holds for an ordered tree whose nodes lie below `fp`.
  pub get-execute :
      (n : ℕ) (s t : Vm) (tree : Tree) (ff : ℕ)
      → Spared env n (loop s)
      → execute env n (loop s) ≡ loop t
      → Holds s.heap tree ff
      → Below s.heap tree ff s.heap.fp
      → Ordered tree
      → (rounds key default : ℕ) → depth tree < rounds
      → get rounds t.heap ff key default ≡ get rounds s.heap ff key default
  get-execute n s t tree ff spared ends holds below ordered rounds key default enough =
      let grown = execute-Grows env n s spared in
      let x = loop-grown s.heap t (subst (λ o. Grows s.heap o) ends grown) in
      let still = (Holds-Extends x tree ff holds below).0 in
      get-lookup_or rounds t.heap tree ff key default still ordered enough
      ∙ sym (get-lookup_or rounds s.heap tree ff key default holds ordered enough)
