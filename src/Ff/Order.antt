-- ===== src/Ff/Order.antt =====
-- `get` (src/olvm.c) in an ordered tree, and the entries of the tree.
use ol.Common.{
  ℕ, ◌<◌, ◌≡◌, ◌≢◌, refl, List, [], ◌∷◌, ◌++◌, ◌==◌, ltb, if◌then◌else◌, arith, All, some,
  Bool-cases, inl, inr,
}
use ol.Heap.{Heap}
use ol.Ff.{get}
use ol.Ff.Tree.{Tree, leaf, node, Holds, depth, find_or, get_lem}

abbrev pub Entries : Type 0
Entries = List (ℕ × ℕ)

abbrev pub entries : Tree → Entries
entries leaf = []
entries (node l k v r) = entries l ++ ((k, v) ∷ entries r)

abbrev pub Ordered : Tree → Type 0
Ordered leaf = Unit
Ordered (node l k v r) =
    All (λ e. e.0 < k) (entries l) × All (λ e. k < e.0) (entries r) × Ordered l × Ordered r

-- the value of the first entry with the key
unfoldable pub lookup_or : Entries → ℕ → ℕ → ℕ
lookup_or [] key default = default
lookup_or ((k, v) ∷ rest) key default = if k == key then v else lookup_or rest key default

abbrev Without : ℕ → Entries → Type 0
Without key = All (λ e. e.0 ≢ key)

below-Without : (key k : ℕ) (es : Entries) → All (λ e. e.0 < k) es → k ≡ key → Without key es
below-Without key k [] h e = tt
below-Without key k (x ∷ xs) (h, hs) e = (omega arith, below-Without key k xs hs e)

below-Without_lt : (key k : ℕ) (es : Entries) → All (λ e. e.0 < k) es → k < key → Without key es
below-Without_lt key k [] h e = tt
below-Without_lt key k (x ∷ xs) (h, hs) e = (omega arith, below-Without_lt key k xs hs e)

above-Without : (key k : ℕ) (es : Entries) → All (λ e. k < e.0) es → key < k → Without key es
above-Without key k [] h e = tt
above-Without key k (x ∷ xs) (h, hs) e = (omega arith, above-Without key k xs hs e)

lookup_or-skip :
    (xs ys : Entries) (key default : ℕ)
    → Without key xs
    → lookup_or (xs ++ ys) key default ≡ lookup_or ys key default
unfolding lookup_or
lookup_or-skip [] ys key default w = refl
lookup_or-skip ((k, v) ∷ xs) ys key default (w, ws) =
    ground (arith, lookup_or-skip xs ys key default ws)

lookup_or-missing :
    (ys : Entries) (key default : ℕ) → Without key ys → lookup_or ys key default ≡ default
unfolding lookup_or
lookup_or-missing [] key default w = refl
lookup_or-missing ((k, v) ∷ ys) key default (w, ws) =
    ground (arith, lookup_or-missing ys key default ws)

lookup_or-front :
    (xs ys : Entries) (key default : ℕ)
    → Without key ys
    → lookup_or (xs ++ ys) key default ≡ lookup_or xs key default
unfolding lookup_or
lookup_or-front [] ys key default w = lookup_or-missing ys key default w
lookup_or-front ((k, v) ∷ xs) ys key default w = ground (arith, lookup_or-front xs ys key default w)

find_or-lookup_or :
    (t : Tree) (key default : ℕ)
    → Ordered t
    → find_or t key default ≡ lookup_or (entries t) key default
unfolding find_or lookup_or
find_or-lookup_or leaf key default o = refl
find_or-lookup_or (node l k v r) key default (below, above, ol, or) =
    let at_left = find_or-lookup_or l key default ol in
    let at_right = find_or-lookup_or r key default or in
    elim (Bool-cases (ltb key k)) [
      | inl lt ↦
          let out : Without key ((k, v) ∷ entries r) =
            (ground arith, above-Without key k (entries r) above (ground arith)) in
          rw (lookup_or-front (entries l) ((k, v) ∷ entries r) key default out) (ground arith)
      | inr ge ↦ elim (Bool-cases (k == key)) [
        | inl same ↦
            rw
              (lookup_or-skip (entries l) ((k, v) ∷ entries r) key default
                (below-Without key k (entries l) below (ground arith)))
              (ground arith)
        | inr other ↦
            rw
              (lookup_or-skip (entries l) ((k, v) ∷ entries r) key default
                (below-Without_lt key k (entries l) below (ground arith)))
              (ground arith)
      ]
    ]

-- In a heap where `ff` stands for an ordered tree, `get` ends, and gives the value of the entry with
-- the key, or the default where there is none.
pub get-lookup_or :
    (n : ℕ) (h : Heap) (t : Tree) (ff key default : ℕ)
    → Holds h t ff
    → Ordered t
    → depth t < n
    → get n h ff key default ≡ some (lookup_or (entries t) key default)
get-lookup_or n h t ff key default holds ordered fuel =
    rw (get_lem n h t ff key default holds fuel, find_or-lookup_or t key default ordered)
