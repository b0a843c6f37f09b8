-- ===== src/Ff/Descent.antt =====
-- The bound for the rounds of `get` (src/olvm.c): a node is allocated behind its branches.
use ol.Common.{ℕ, ◌+◌, ◌*◌, ◌≤◌, ◌<◌, ◌≡◌, ◌≢◌, arith, some}
use ol.Word.{hdrsize, wsize}
use ol.Word.Types.{iempty}
use ol.Heap.{Heap, load}
use ol.Heap.Laws.{Extends}
use ol.Ff.{get}
use ol.Op.Node.{make_node, left_of, right_of}
use ol.Op.Node.Laws.{IsColour, make_node-IsNode, make_node-Extends, make_node-address}
use ol.Ff.Tree.{Tree, leaf, node, Holds, depth}
use ol.Ff.Order.{Ordered, entries, lookup_or, get-lookup_or}
use ol.Ff.Build.{Below, same_header, same_branches, Holds-Extends}

-- every node of the tree lies below an address, and those of its branches below the node itself
abbrev pub Descends : Heap → Tree → ℕ → ℕ → Type 0
Descends h leaf ff limit = Unit
Descends h (node l k v r) ff limit =
    (ff + hdrsize (load h ff) * wsize ≤ limit)
    × Descends h l (left_of h ff) ff
    × Descends h r (right_of h ff) ff

-- so that each level of the tree takes three words at least
Descends-depth :
    (h : Heap) (t : Tree) (ff limit : ℕ)
    → Holds h t ff
    → Descends h t ff limit
    → depth t * 24 ≤ limit
Descends-depth h leaf ff limit holds d = omega arith
Descends-depth h (node l k v r) ff limit (ne, shape, ek, ev, hl, hr) (le, dl, dr) =
    let at_left = Descends-depth h l (left_of h ff) ff hl dl in
    let at_right = Descends-depth h r (right_of h ff) ff hr dr in ground arith

pub Descends-Below :
    (h : Heap) (t : Tree) (ff limit end : ℕ)
    → Descends h t ff limit
    → limit ≤ end
    → Below h t ff end
Descends-Below h leaf ff limit end d le = tt
Descends-Below h (node l k v r) ff limit end (at, dl, dr) le = (
  omega arith,
  Descends-Below h l (left_of h ff) ff end dl (omega arith),
  Descends-Below h r (right_of h ff) ff end dr (omega arith),
)

Descends-Extends :
    {h h' : Heap} (x : Extends h h') (t : Tree) (ff limit : ℕ)
    → Holds h t ff
    → Descends h t ff limit
    → limit ≤ h.fp
    → Descends h' t ff limit
Descends-Extends x leaf ff limit holds d le = tt
Descends-Extends {h} x (node l k v r) ff limit (ne, shape, ek, ev, hl, hr) (at, dl, dr) le =
    let hdr = same_header x ff (ground arith) (omega arith) in
    let (el, er) = same_branches x ff shape (omega arith) in
    (
      rw hdr at,
      rw el (Descends-Extends x l (left_of h ff) ff hl dl (omega arith)),
      rw er (Descends-Extends x r (right_of h ff) ff hr dr (omega arith)),
    )

-- Where the branches of every node lie below it and the root ends below `fp`, as the node constructors make it, `get` with
-- `fp` as the bound for its rounds ends, and gives the value of the entry with the key, or the default.
pub get-Descends :
    (h : Heap) (t : Tree) (ff key default : ℕ)
    → Holds h t ff
    → Ordered t
    → Descends h t ff h.fp
    → 0 < h.fp
    → get h.fp h ff key default ≡ some (lookup_or (entries t) key default)
get-Descends h t ff key default holds ordered d pos =
    let small = Descends-depth h t ff h.fp holds d in
    get-lookup_or h.fp h t ff key default holds ordered (omega arith)

-- A node made of two trees whose branches lie below their nodes is again such a tree, with the two as its branches.
pub make_node-Descends :
    (h : Heap) (type k v : ℕ) (tl tr : Tree) (l r : ℕ)
    → IsColour type
    → h.fp ≢ iempty
    → Holds h tl l × Descends h tl l h.fp
    → Holds h tr r × Descends h tr r h.fp
    → let (me, h') = make_node h type l k v r in
      Holds h' (node tl k v tr) me × Descends h' (node tl k v tr) me h'.fp
make_node-Descends h type k v tl tr l r colour ne (hl, dl) (hr, dr) =
    let is = make_node-IsNode h type l k v r colour in
    let (address, end) = make_node-address h type l k v r colour in
    let grown = make_node-Extends h type l k v r colour in
    let hl' = (Holds-Extends grown tl l hl (Descends-Below h tl l h.fp h.fp dl (omega arith))).0 in
    let hr' = (Holds-Extends grown tr r hr (Descends-Below h tr r h.fp h.fp dr (omega arith))).0 in
    rw address (
      (ne, is.shape, is.key, is.val, rw is.left hl', rw is.right hr'),
      (
        omega arith,
        rw is.left (Descends-Extends grown tl l h.fp hl dl (omega arith)),
        rw is.right (Descends-Extends grown tr r h.fp hr dr (omega arith)),
      ),
    )
