-- ===== src/Gc/Rows.antt =====
-- The whole run of `sweep` (src/olvm.c) over the objects of the young generation.
use ol.Common.{
  ℕ, zero, suc, ◌+◌, ◌*◌, ◌≤◌, ◌<◌, ◌≡◌, inl, inr, refl, ◌∙◌, List, length, some, ◌==◌,
  if◌then◌else◌, arith, Bool-cases, ==_refl, ne→==_false, lt→ltb, le→ltb_false,
}
use ol.Word.{hdrsize}
use ol.Heap.{Heap}
use ol.Gc.{sweep_step, sweep}
use ol.Gc.Threads.{Layout, has, Threaded}
use ol.Gc.Slide.{sweep_step-skip}
use ol.Gc.Sweeping.{Swept, Swept-skip}
use ol.Gc.Sweeping.Live.{Swept-live}

-- objects one behind the other, up to an address
pub data Row (m : ℕ → ℕ) (Start : ℕ → Type 0) (end : ℕ) : ℕ → Type 0 where
  done : Row m Start end end
  object : (a : ℕ) → Start a → a < end → Row m Start end (a + hdrsize (m a) * 8) → Row m Start end a

-- the number of the objects
abbrev pub count : {m : ℕ → ℕ} {Start : ℕ → Type 0} {end a : ℕ} → Row m Start end a → ℕ
count done = 0
count (object a start lt row) = suc (count row)

module _ (m : ℕ → ℕ) (Start : ℕ → Type 0) (end : ℕ) (rs : List ℕ) where
  -- where the object `c` goes, if the next free place is `new`
  abbrev pub destination : {a : ℕ} → Row m Start end a → ℕ → ℕ → ℕ
  destination done new c = 0
  destination (object a start lt row) new c =
      let next = destination row (if has m a rs then new + hdrsize (m a) * 8 else new) c in
      if c == a then new else next

  -- the end of the objects that stay
  abbrev pub extent : {a : ℕ} → Row m Start end a → ℕ → ℕ
  extent done new = new
  extent (object a start lt row) new =
      extent row (if has m a rs then new + hdrsize (m a) * 8 else new)

  -- every object of the row goes where the row says
  abbrev pub Places : (ℕ → ℕ) → {a : ℕ} → Row m Start end a → ℕ → Type 0
  Places place done new = Unit
  Places place (object a start lt row) new =
      (place a ≡ new) × Places place row (if has m a rs then new + hdrsize (m a) * 8 else new)

  Places-same :
      (f f' : ℕ → ℕ) {a : ℕ} (row : Row m Start end a) (new : ℕ)
      → ((x : ℕ) → a ≤ x → f' x ≡ f x)
      → Places f row new
      → Places f' row new
  Places-same f f' done new same places = tt
  Places-same f f' (object a start lt row) new same (here, places) = (
    same a (omega arith) ∙ here,
    Places-same f f' row (if has m a rs then new + hdrsize (m a) * 8 else new)
        (λ x le. same x (omega arith)) places,
  )

sweep-done : (n : ℕ) (h : Heap) (end new : ℕ) → sweep (suc n) h end new end ≡ some (new, h)
unfolding sweep
sweep-done n h end new = rw (sweep, le→ltb_false end end (omega arith)) refl

sweep-next :
    (n : ℕ) (h h' : Heap) (old old' new new' end : ℕ)
    → old < end
    → sweep_step n h old new ≡ some (old', new', h')
    → sweep (suc n) h old new end ≡ sweep n h' old' new' end
unfolding sweep
sweep-next n h h' old old' new new' end lt e = rw (sweep, lt→ltb old end lt, e) refl

module _ {m : ℕ → ℕ} {g root : ℕ} {Start : ℕ → Type 0} (layout : Layout m g root Start)
    (rs : List ℕ) (ok : Threaded m g Start rs) where
  pub Places-destination :
      {a : ℕ} (row : Row m Start root a) (new : ℕ)
      → Places m Start root rs (destination m Start root rs row new) row new
  Places-destination done new = tt
  Places-destination (object a start lt row) new =
      let next = if has m a rs then new + hdrsize (m a) * 8 else new in
      let some_words = layout.nonempty a start in
      (
        rw (==_refl a) refl,
        Places-same m Start root rs (destination m Start root rs row next)
            (destination m Start root rs (object a start lt row) new) row next
            (λ x le. rw (ne→==_false x a (omega arith)) refl) (Places-destination row next),
      )

  pub sweep-Swept :
      (place : ℕ → ℕ) {a : ℕ} (row : Row m Start root a) (new : ℕ) (h : Heap)
      → Places m Start root rs place row new
      → Swept m g Start place rs a new h.mem
      → (k : ℕ) → count row + length rs < k
      → (mem : ℕ → ℕ) × (sweep k h a new root
          ≡ some (extent m Start root rs row new, record h { mem = mem }))
        × Swept m g Start place rs root (extent m Start root rs row new) mem
  sweep-Swept place row new h places swept zero fuel = absurd (omega arith)
  sweep-Swept place done new h places swept (suc k) fuel = (h.mem, sweep-done k h root new, swept)
  sweep-Swept place (object a start lt row) new h both swept (suc k) fuel =
      let (here, places) = both in
      elim (Bool-cases (has m a rs)) [
        | inl pointed ↦
            let places' : Places m Start root rs place row (new + hdrsize (m a) * 8) =
              rw pointed at places in
            let (mem1, run1, swept1) =
              Swept-live layout rs ok place a new h start swept here k pointed (omega arith) in
            let (mem, run, swept') =
              sweep-Swept place {a = a + hdrsize (m a) * 8} row (new + hdrsize (m a) * 8)
                (record h { mem = mem1 }) places' swept1 k (omega arith) in
            (
              mem,
              sweep-next k h (record h { mem = mem1 }) a (a + hdrsize (m a) * 8) new
                    (new + hdrsize (m a) * 8) root lt run1
                  ∙ rw pointed run,
              rw pointed swept',
            )
        | inr unseen ↦
            let places' : Places m Start root rs place row new = rw unseen at places in
            let step =
              sweep_step-skip layout rs k h a new start (swept.heads a start (omega arith))
                unseen in
            let (mem, run, swept') =
              sweep-Swept place {a = a + hdrsize (m a) * 8} row new h places'
                (Swept-skip layout rs ok place a new h start swept unseen) k (omega arith) in
            (
              mem,
              sweep-next k h h a (a + hdrsize (m a) * 8) new new root lt step ∙ rw unseen run,
              rw unseen swept',
            )
      ]
