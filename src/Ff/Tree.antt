-- ===== src/Ff/Tree.antt =====
-- `get` (src/olvm.c) and the tree that the nodes of the heap stand for.
use ol.Common.{
  ℕ, zero, suc, ◌<◌, ◌≡◌, ◌≢◌, ◌⊎◌, inl, inr, refl, none, some, ◌==◌, ltb, if◌then◌else◌, arith,
  ne→==_false,
}
use Prim.Native.Nat.{max}
use ol.Word.{hdrsize}
use ol.Word.Types.{iempty}
use ol.Heap.{Heap, load, ref}
use ol.Ff.{branch, get}
use ol.Op.Node.{left_of, right_of}

pub data Tree : Type 0 where
  leaf : Tree
  node : Tree → ℕ → ℕ → Tree → Tree

-- a header that a node constructor makes
abbrev pub IsNodeSize : ℕ → Type 0
IsNodeSize n = (n ≡ 3) ⊎ ((n ≡ 4) ⊎ (n ≡ 5))

-- the word `ff` stands for the tree
abbrev pub Holds : Heap → Tree → ℕ → Type 0
Holds h leaf ff = ff ≡ iempty
Holds h (node l k v r) ff =
    (ff ≢ iempty)
    × IsNodeSize (hdrsize (load h ff))
    × (ref h ff 1 ≡ k)
    × (ref h ff 2 ≡ v)
    × Holds h l (left_of h ff)
    × Holds h r (right_of h ff)

abbrev pub depth : Tree → ℕ
depth leaf = 0
depth (node l k v r) = suc (max (depth l) (depth r))

-- the search in the tree
unfoldable pub find_or : Tree → ℕ → ℕ → ℕ
find_or leaf key default = default
find_or (node l k v r) key default =
    if k == key then v else (if ltb key k then find_or l key default else find_or r key default)

-- At a node the search goes the way of its branches; where it gives up the branch is empty.
branch-cases :
    (h : Heap) (ff key this : ℕ)
    → IsNodeSize (hdrsize (load h ff))
    → let way = if ltb key this then left_of h ff else right_of h ff in
      (branch h ff key this ≡ some (some way))
      ⊎ ((branch h ff key this ≡ some none) × (way ≡ iempty))
unfolding branch left_of right_of
branch-cases h ff key this (inl three) = inr (ground arith, ground arith)
branch-cases h ff key this (inr (inl four)) = inl (ground arith)
branch-cases h ff key this (inr (inr five)) = inl (ground arith)

-- one round of `get` on a node
get_node :
    (n : ℕ) (h : Heap) (ff key default : ℕ)
    → ff ≢ iempty
    → IsNodeSize (hdrsize (load h ff))
    → (m : ℕ) (below : n ≡ suc m)
    → get (suc n) h ff key default ≡ (
        if ref h ff 1 == key
        then some (ref h ff 2)
        else (get n h (if ltb key (ref h ff 1) then left_of h ff else right_of h ff) key default))
unfolding get
get_node n h ff key default ne shape m below = elim (branch-cases h ff key (ref h ff 1) shape) [
  | inl e ↦ rw (ne→==_false ff iempty ne, e)
  | inr (e, empty) ↦ rw (ne→==_false ff iempty ne, e, empty, below)
]

get_empty : (n : ℕ) (h : Heap) (key default : ℕ) → get (suc n) h iempty key default ≡ some default
unfolding get
get_empty n h key default = refl

-- In a heap where `ff` stands for a tree, `get` ends and finds what the search in the tree finds.
pub get_lem :
    (n : ℕ) (h : Heap) (t : Tree) (ff key default : ℕ)
    → Holds h t ff
    → depth t < n
    → get n h ff key default ≡ some (find_or t key default)
unfolding find_or
get_lem zero h t ff key default holds fuel = absurd (omega arith)
get_lem (suc n) h leaf ff key default holds fuel = rw holds (get_empty n h key default)
get_lem (suc zero) h (node l k v r) ff key default holds fuel = absurd (omega arith)
get_lem (suc (suc n)) h (node l k v r) ff key default (ne, shape, ek, ev, hl, hr) fuel =
    let at_left = get_lem (suc n) h l (left_of h ff) key default hl (omega arith) in
    let at_right = get_lem (suc n) h r (right_of h ff) key default hr (omega arith) in
    rw (get_node (suc n) h ff key default ne shape n refl, ek, ev) (ground arith)
