-- ===== src/Ff/Build.antt =====
-- The node constructors `ff:black` and `ff:red` (src/olvm.c) and the trees that their nodes stand for.
use ol.Common.{ℕ, ◌+◌, ◌*◌, ◌≤◌, ◌<◌, ◌≡◌, ◌≢◌, ◌∙◌, arith}
use ol.Word.{hdrsize, wsize}
use ol.Word.Types.{iempty}
use ol.Heap.{Heap, load, ref}
use ol.Heap.Laws.{Extends}
use ol.Op.Node.{make_node, left_of, right_of}
use ol.Op.Node.Laws.{IsColour, make_node-IsNode, make_node-Extends, make_node-address}
use ol.Ff.Tree.{Tree, leaf, node, Holds, IsNodeSize}

-- all nodes of the tree lie below an address
abbrev pub Below : Heap → Tree → ℕ → ℕ → Type 0
Below h leaf ff limit = Unit
Below h (node l k v r) ff limit =
    (ff + hdrsize (load h ff) * wsize ≤ limit)
    × Below h l (left_of h ff) limit
    × Below h r (right_of h ff) limit

module _ {h h' : Heap} (x : Extends h h') where
  same_word :
      (ff i : ℕ)
      → i < hdrsize (load h ff)
      → ff + hdrsize (load h ff) * wsize ≤ h.fp
      → ref h' ff i ≡ ref h ff i
  same_word ff i lt le = x.keeps (ff + i * wsize) (omega arith)

  pub same_header :
      (ff : ℕ)
      → 0 < hdrsize (load h ff)
      → ff + hdrsize (load h ff) * wsize ≤ h.fp
      → load h' ff ≡ load h ff
  same_header ff pos le = x.keeps ff (omega arith)

  pub same_branches :
      (ff : ℕ)
      → IsNodeSize (hdrsize (load h ff))
      → ff + hdrsize (load h ff) * wsize ≤ h.fp
      → (left_of h' ff ≡ left_of h ff) × (right_of h' ff ≡ right_of h ff)
  unfolding left_of right_of
  same_branches ff shape le =
      let hdr = same_header ff (ground arith) le in
      let f3 = same_word ff 3 in let f4 = same_word ff 4 in (ground arith, ground arith)

  pub Holds-Extends :
      (t : Tree) (ff : ℕ) → Holds h t ff → Below h t ff h.fp → Holds h' t ff × Below h' t ff h'.fp
  Holds-Extends leaf ff holds below = (holds, tt)
  Holds-Extends (node l k v r) ff (ne, shape, ek, ev, hl, hr) (le, bl, br) =
      let hdr = same_header ff (ground arith) le in
      let (el, er) = same_branches ff shape le in
      let (hl', bl') = Holds-Extends l (left_of h ff) hl bl in
      let (hr', br') = Holds-Extends r (right_of h ff) hr br in
      let grows = x.grows in
      (
        (
          ne,
          rw hdr shape,
          same_word ff 1 (ground arith) le ∙ ek,
          same_word ff 2 (ground arith) le ∙ ev,
          rw el hl',
          rw er hr',
        ),
        (rw hdr (omega arith), rw el bl', rw er br'),
      )

-- A node made of two trees stands for the tree with both as branches, and the two stand where they were.
pub make_node-Holds :
    (h : Heap) (type k v : ℕ) (tl tr : Tree) (l r : ℕ)
    → IsColour type
    → h.fp ≢ iempty
    → Holds h tl l × Below h tl l h.fp
    → Holds h tr r × Below h tr r h.fp
    → let (me, h') = make_node h type l k v r in
      (Holds h' (node tl k v tr) me × Below h' (node tl k v tr) me h'.fp)
      × Holds h' tl l
      × Holds h' tr r
make_node-Holds h type k v tl tr l r colour ne (hl, bl) (hr, br) =
    let is = make_node-IsNode h type l k v r colour in
    let (address, end) = make_node-address h type l k v r colour in
    let grown = make_node-Extends h type l k v r colour in
    let (hl', bl') = Holds-Extends grown tl l hl bl in
    let (hr', br') = Holds-Extends grown tr r hr br in
    rw address (
      (
        (ne, is.shape, is.key, is.val, rw is.left hl', rw is.right hr'),
        (omega arith, rw is.left bl', rw is.right br'),
      ),
      hl',
      hr',
    )
