-- ===== src/Gc/Observe/Kept.antt =====
-- A collection (src/olvm.c, `gc`) keeps what can be seen from the root.
use ol.Common.{
  ℕ, ◌+◌, ◌*◌, ◌≤◌, ◌<◌, ◌≡◌, inl, inr, refl, ◌∙◌, sym, ap, true, false, List, [], ◌∷◌, some, ◌==◌,
  arith, Bool-cases,
}
use ol.Word.{is_rawobject, hdrsize}
use ol.Heap.{Heap}
use ol.Gc.Threads.{young}
use ol.Gc.Compact.Collected.{forward}
use ol.Gc.Resize.{Realloc, compact}
use ol.Gc.Tidy.{Tidy}
use ol.Gc.Tidy.Extend.{below}
use ol.Gc.Tidy.Root.{Layout-root, with_root, below_root}
use ol.Gc.Tidy.Again.{compact-Tidy}
use ol.Gc.Observe.{
  has_field, follow, forwarded, follow-in, follow-out, Seen, follow-forward, follow-Seen,
  forward-eq,
}

-- a path of fields leads to the same word in a memory that is the same below the end of the objects
module _ {m : ℕ → ℕ} {g end : ℕ} {Start : ℕ → Type 0} (tidy : Tidy m g end Start) (m' : ℕ → ℕ)
    (same : (x : ℕ) → x < end → m' x ≡ m x) where
  has-same : (w i : ℕ) → (young g w ≡ true → Start w) → has_field m' g w i ≡ has_field m g w i
  has-same w i start = elim (Bool-cases (young g w)) [
    | inr old ↦ rw old refl
    | inl is ↦ rw (is, same w (below tidy w (start is))) refl
  ]

  pub follow-same :
      (path : List ℕ) (w : ℕ)
      → (young g w ≡ true → Start w)
      → follow m' g path w ≡ follow m g path w
  unfolding follow
  follow-same [] w start = refl
  follow-same (i ∷ path) w start = elim (Bool-cases (has_field m g w i)) [
    | inr gone ↦
        follow-out m' g i path w (has-same w i start ∙ gone) ∙ sym (follow-out m g i path w gone)
    | inl has ↦
        let is : young g w ≡ true = ground arith in
        let plain : is_rawobject (m w) ≡ false = ground arith in
        let lo : 1 ≤ i = ground arith in
        let hi : i < hdrsize (m w) = ground arith in
        let fits = tidy.inside w (start is) in
        follow-in m' g i path w (has-same w i start ∙ has)
        ∙ ap (follow m' g path) (same (w + i * 8) (omega arith))
        ∙ follow-same path (m (w + i * 8)) (λ led. (tidy.target w i (start is) plain lo hi led).0)
        ∙ sym (follow-in m g i path w has)
  ]

-- Where the young generation is a row of objects whose references into it lead down, and the word given as root leads to
-- an object if it leads into it, what can be seen from the root is the same after a collection, which ends with any bound for
-- its rounds from some number on: a path of fields that leads to a word leads to that word, set to the new place, and a path
-- that leads nowhere leads nowhere; and two of the words that are found so are the same exactly if they were the same before.
pub compact-follow :
    (realloc : Realloc) (h : Heap) (regs : ℕ) (Start : ℕ → Type 0)
    → Tidy h.mem h.genstart h.fp Start
    → (young h.genstart regs ≡ true → Start regs)
    → (enough : ℕ) × (place : ℕ → ℕ) × ((rounds : ℕ)
        → enough ≤ rounds
        → (h' : Heap) × (regs' : ℕ) × (compact realloc rounds h regs ≡ some (regs', h'))
          × ((path : List ℕ)
              → follow h'.mem h.genstart path regs'
                ≡ forwarded (forward h.genstart place) (follow h.mem h.genstart path regs))
          × ((path path' : List ℕ) (x y : ℕ)
              → follow h.mem h.genstart path regs ≡ some x
              → follow h.mem h.genstart path' regs ≡ some y
              → (forward h.genstart place x == forward h.genstart place y) ≡ (x == y)))
compact-follow realloc h regs Start tidy leads =
    let layout = Layout-root tidy regs leads in
    let (enough, live, place, run) = compact-Tidy realloc h regs Start tidy leads in
    (
      enough,
      place,
      λ rounds le.
          let (h', ran, begin, end, start, collected, again, root) = run rounds le in
          let same = follow-same tidy (with_root tidy regs leads) (below_root tidy regs leads) in
          let seen : Seen layout collected regs = elim (Bool-cases (young h.genstart regs)) [
            | inl is ↦ inr (is, root is)
            | inr old ↦ inl old
          ] in
          (
            h',
            forward h.genstart place regs,
            ran,
            λ path.
                follow-forward layout collected path regs seen
                ∙ ap (forwarded (forward h.genstart place)) (same path regs leads),
            λ path path' x y found found'.
                forward-eq layout collected x y
                  (follow-Seen layout collected path regs x seen (same path regs leads ∙ found))
                  (follow-Seen layout collected path' regs y seen (same path' regs leads ∙ found')),
          ),
    )
