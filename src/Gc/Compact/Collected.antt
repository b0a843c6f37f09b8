-- ===== src/Gc/Compact/Collected.antt =====
-- What a collection of src/olvm.c (`gc`) keeps, and where it puts it.
use ol.Common.{ℕ, ◌+◌, ◌*◌, ◌%◌, ◌≤◌, ◌<◌, ◌≡◌, ◌⊎◌, Bool, true, if◌then◌else◌}
use ol.Word.{wsize, make_header, is_rawobject, hdrsize}
use ol.Word.Types.{ttuple}
use ol.Heap.{Heap, store}
use ol.Gc.Threads.{young}
use ol.Gc.Visits.Reached.{Reach}
use ol.Gc.Rows.{Row, done, object}

-- the heap that is marked: the header of the root and the root stand behind the objects
abbrev pub rooted : Heap → ℕ → Heap
rooted h regs = store (store h h.fp (make_header ttuple 2)) (h.fp + wsize) regs

-- the size of the objects of the row that stay, in words
abbrev pub total : {m : ℕ → ℕ} {Start : ℕ → Type 0} {end a : ℕ} → (ℕ → Bool) → Row m Start end a → ℕ
total live done = 0
total {m} live (object a start lt row) = (if live a then hdrsize (m a) else 0) + total live row

-- each object of the row stands where those that stay before it end
abbrev pub Packed :
    {m : ℕ → ℕ} {Start : ℕ → Type 0} {end a : ℕ}
    → (ℕ → Bool)
    → (ℕ → ℕ)
    → Row m Start end a
    → ℕ
    → Type 0
Packed live place done new = Unit
Packed {m} live place (object a start lt row) new =
    (place a ≡ new) × Packed live place row (if live a then new + hdrsize (m a) * 8 else new)

-- a word of the new heap
abbrev pub forward : ℕ → (ℕ → ℕ) → ℕ → ℕ
forward g place w = if young g w then place w else w

-- The objects that stay are those that can be reached. Each has its header and its words at its new place, the
-- references set to the new places; they stand in their old order one behind the other, and take the heap up to `fp`.
pub record Collected {m : ℕ → ℕ} {g root : ℕ} {Start : ℕ → Type 0} (row : Row m Start root g)
    (live : ℕ → Bool) (place : ℕ → ℕ) (h : Heap) : Type 0 where
  pub only_reached : (c : ℕ) → live c ≡ true → Reach m g root c
  pub all_reached : (c : ℕ) → Reach m g root c → (c ≡ root) ⊎ (live c ≡ true)
  pub below_root : (c : ℕ) → live c ≡ true → c < root
  pub packed : Packed live place row g
  pub header : (c : ℕ) → live c ≡ true → h.mem (place c) ≡ m c
  pub words :
      (c i : ℕ)
      → live c ≡ true
      → 1 ≤ i
      → i < hdrsize (m c)
      → h.mem (place c + i * 8)
        ≡ (if is_rawobject (m c) then m (c + i * 8) else forward g place (m (c + i * 8)))
  pub inside :
      (c : ℕ)
      → live c ≡ true
      → (g ≤ place c) × (place c ≤ c) × (place c % 8 ≡ 0) × (place c + hdrsize (m c) * 8 ≤ h.fp)
  pub ordered :
      (c d : ℕ) → live c ≡ true → live d ≡ true → c < d → place c + hdrsize (m c) * 8 ≤ place d
  pub frame : (x : ℕ) → x < g → h.mem x ≡ m x
  pub taken : h.fp ≡ g + total live row * 8
