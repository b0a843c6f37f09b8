-- ===== src/Gc/Tidy.antt =====
-- The young generation of the heap as the collector of src/olvm.c relies on it, and that a collection leaves it so.
pub mod Extend
pub mod Root
pub mod Again
use ol.Common.{
  ℕ, zero, suc, ◌+◌, ◌-◌, ◌*◌, ◌%◌, ◌≤◌, ◌<◌, ◌≡◌, ◌≢◌, ◌⊎◌, inl, inr, refl, ◌∙◌, sym, ap, subst,
  Bool, true, false, ◌&&◌, List, some, ◌==◌, leb, if◌then◌else◌, arith, Bool-cases, upd,
}
use ol.Word.{wsize, make_header, is_reference, is_value, is_rawobject, hdrsize}
use ol.Word.Types.{ttuple}
use ol.Heap.{Heap}
use ol.Gc.Resize.{Realloc, compact}
use ol.Gc.Flags.{is_reference-bit}
use ol.Gc.Threads.{young, Layout}
use ol.Gc.Visits.Reached.{Reach, top, field}
use ol.Gc.Rows.{Row, done, object}
use ol.Gc.Compact.Collected.{rooted, total, Packed, forward, Collected}
use ol.Gc.Compact.Collect.{row_aligned, compact_lem}

-- Objects start at the addresses `Start` between `g` and `end`; the references among them lead down.
pub record Tidy (m : ℕ → ℕ) (g end : ℕ) (Start : ℕ → Type 0) : Type 0 where
  pub nonempty : (b : ℕ) → Start b → 1 ≤ hdrsize (m b)
  pub plain : (b : ℕ) → Start b → is_reference (m b) ≡ false
  pub unmarked : (b : ℕ) → Start b → m b % 2 ≡ 0
  pub aligned : (b : ℕ) → Start b → b % 8 ≡ 0
  pub low : (b : ℕ) → Start b → g ≤ b
  pub inside : (b : ℕ) → Start b → b + hdrsize (m b) * 8 ≤ end
  pub apart : (b c : ℕ) → Start b → Start c → b < c → b + hdrsize (m b) * 8 ≤ c
  pub target :
      (b i : ℕ)
      → Start b
      → is_rawobject (m b) ≡ false
      → 1 ≤ i
      → i < hdrsize (m b)
      → young g (m (b + i * 8)) ≡ true
      → Start (m (b + i * 8)) × (m (b + i * 8) < b)
  pub even : end % 8 ≡ 0
  pub row : Row m Start end g
