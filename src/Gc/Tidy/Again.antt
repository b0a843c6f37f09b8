-- ===== src/Gc/Tidy/Again.antt =====
-- After a collection (src/olvm.c, `gc`) the young generation is again as the next collection relies on it.
use ol.Common.{
  ℕ, ◌+◌, ◌*◌, ◌%◌, ◌≤◌, ◌<◌, ◌≡◌, inl, inr, refl, ◌∙◌, sym, ap, subst, Bool, true, false, some,
  ◌==◌, arith, Bool-cases,
}
use ol.Word.{is_reference, is_rawobject, hdrsize}
use ol.Heap.{Heap}
use ol.Gc.Resize.{Realloc, compact}
use ol.Gc.Threads.{young, Layout}
use ol.Gc.Visits.Reached.{Reach, top, field}
use ol.Gc.Rows.{Row, done, object}
use ol.Gc.Compact.Collected.{total, Packed, forward, Collected}
use ol.Gc.Compact.Collect.{row_aligned, compact_lem}
use ol.Gc.Tidy.{Tidy}
use ol.Gc.Tidy.Extend.{below}
use ol.Gc.Tidy.Root.{StartOrRoot, with_root, Row-root, Layout-root}

module _ {m : ℕ → ℕ} {g root : ℕ} {Start : ℕ → Type 0} (layout : Layout m g root Start) where
  pub Reach-Start : (c : ℕ) → Reach m g root c → Start c
  Reach-Start c top = layout.last
  Reach-Start c (field b i reached plain lo hi is) =
      (layout.target b i (Reach-Start b reached) plain lo hi is).0

  module _ {row : Row m Start root g} {live : ℕ → Bool} {place : ℕ → ℕ} {h : Heap}
      (collected : Collected row live place h) where
    -- the new starts
    abbrev pub NewStart : ℕ → Type 0
    NewStart x = (c : ℕ) × (live c ≡ true) × (place c ≡ x)

    start_of : (c : ℕ) → live c ≡ true → Start c
    start_of c is = Reach-Start c (collected.only_reached c is)

    at_new :
        (P : ℕ → ℕ → Type 0)
        → ((c : ℕ) → live c ≡ true → P (place c) (m c))
        → (x : ℕ) → NewStart x
        → P x (h.mem x)
    at_new P each x (c, is, at) = rw⁻¹ at (rw (collected.header c is) (each c is))

    -- what an object that is kept points to is kept
    pub target_live :
        (c i : ℕ)
        → live c ≡ true
        → is_rawobject (m c) ≡ false
        → 1 ≤ i
        → i < hdrsize (m c)
        → young g (m (c + i * 8)) ≡ true
        → (live (m (c + i * 8)) ≡ true) × (m (c + i * 8) < c)
    target_live c i is plain lo hi points =
        let (there, less) = layout.target c i (start_of c is) plain lo hi points in
        let below = collected.below_root c is in
        elim (collected.all_reached (m (c + i * 8))
          (field c i (collected.only_reached c is) plain lo hi points)) [
            | inl at_root ↦ absurd (omega arith)
            | inr kept ↦ (kept, less)
          ]

    target_new :
        (c i : ℕ)
        → live c ≡ true
        → is_rawobject (m c) ≡ false
        → 1 ≤ i
        → i < hdrsize (m c)
        → young g (h.mem (place c + i * 8)) ≡ true
        → NewStart (h.mem (place c + i * 8)) × (h.mem (place c + i * 8) < place c)
    target_new c i is plain lo hi points = elim (Bool-cases (young g (m (c + i * 8)))) [
      | inl led ↦
          let word : h.mem (place c + i * 8) ≡ place (m (c + i * 8)) =
            collected.words c i is lo hi ∙ rw (plain, led) refl in
          let (kept, less) = target_live c i is plain lo hi led in
          let before = collected.ordered (m (c + i * 8)) c kept is less in
          let some_words = layout.nonempty (m (c + i * 8)) (start_of (m (c + i * 8)) kept) in
          rw word ((m (c + i * 8), kept, refl), omega arith)
      | inr old ↦
          let word : h.mem (place c + i * 8) ≡ m (c + i * 8) =
            collected.words c i is lo hi ∙ rw (plain, old) refl in
          let old' : young g (h.mem (place c + i * 8)) ≡ false = rw word old in
          absurd (ground arith)
    ]

    apart_new : (x y : ℕ) → NewStart x → NewStart y → x < y → x + hdrsize (h.mem x) * 8 ≤ y
    apart_new x y (c, is_c, at_c) (d, is_d, at_d) lt =
        let size : hdrsize (h.mem x) ≡ hdrsize (m c) =
          rw⁻¹ at_c (ap hdrsize (collected.header c is_c)) in
        let some_c = layout.nonempty c (start_of c is_c) in
        let some_d = layout.nonempty d (start_of d is_d) in
        elim (Bool-cases (c == d)) [
          | inl same ↦
              let e : c ≡ d = ground arith in
              let both : place c ≡ place d = ap place e in absurd (omega arith)
          | inr other ↦
              let up = collected.ordered c d is_c is_d in
              let down = collected.ordered d c is_d is_c in ground arith
        ]

    row_new :
        {a : ℕ} (rest : Row m Start root a) (new : ℕ)
        → Packed live place rest new
        → new + total live rest * 8 ≡ h.fp
        → Row h.mem NewStart h.fp new
    row_new done new packed size =
        subst (λ (x : ℕ). Row h.mem NewStart h.fp x) (sym size ∙ omega arith) done
    row_new (object a start lt rest) new both size =
        let (here, packed) = both in
        let some_words = layout.nonempty a start in
        elim (Bool-cases (live a)) [
          | inl is ↦
              let packed' : Packed live place rest (new + hdrsize (m a) * 8) = rw is at packed in
              let size0 : new + (hdrsize (m a) + total live rest) * 8 ≡ h.fp = rw is at size in
              let size' : new + hdrsize (m a) * 8 + total live rest * 8 ≡ h.fp = omega arith in
              let header : h.mem new ≡ m a = rw⁻¹ here (collected.header a is) in
              object new (a, is, here) (omega arith)
                (rw header (row_new rest (new + hdrsize (m a) * 8) packed' size'))
          | inr gone ↦
              let packed' : Packed live place rest new = rw gone at packed in
              let size0 : new + (0 + total live rest) * 8 ≡ h.fp = rw gone at size in
              let size' : new + total live rest * 8 ≡ h.fp = omega arith in
              row_new rest new packed' size'
        ]

    target_at :
        (x i : ℕ)
        → NewStart x
        → is_rawobject (h.mem x) ≡ false
        → 1 ≤ i
        → i < hdrsize (h.mem x)
        → young g (h.mem (x + i * 8)) ≡ true
        → NewStart (h.mem (x + i * 8)) × (h.mem (x + i * 8) < x)
    target_at x i (c, is, at) =
        let header : h.mem x ≡ m c = rw⁻¹ at (collected.header c is) in
        rw header (
          subst
            (λ (y : ℕ).
              is_rawobject (m c) ≡ false
              → 1 ≤ i
              → i < hdrsize (m c)
              → young g (h.mem (y + i * 8)) ≡ true
              → NewStart (h.mem (y + i * 8)) × (h.mem (y + i * 8) < y))
            at (target_new c i is))

    pub Tidy-Collected : Tidy h.mem g h.fp NewStart
    Tidy-Collected =
        let aligned = row_aligned layout row in
        let taken = collected.taken in
        record {
          nonempty = at_new (λ x w. 1 ≤ hdrsize w) (λ c is. layout.nonempty c (start_of c is));
          plain = at_new (λ x w. is_reference w ≡ false) (λ c is. layout.plain c (start_of c is));
          unmarked = at_new (λ x w. w % 2 ≡ 0) (λ c is. layout.unmarked c (start_of c is));
          aligned = at_new (λ x w. x % 8 ≡ 0) (λ c is. (collected.inside c is).2);
          low = at_new (λ x w. g ≤ x) (λ c is. (collected.inside c is).0);
          inside = at_new (λ x w. x + hdrsize w * 8 ≤ h.fp) (λ c is. (collected.inside c is).3);
          apart = apart_new;
          target = target_at;
          even = omega arith;
          row = row_new row g collected.packed (sym collected.taken);
        }

-- the root leads to an object that is kept
pub root_live :
    {m : ℕ → ℕ} {g end : ℕ} {Start : ℕ → Type 0} (tidy : Tidy m g end Start) (regs : ℕ)
    (leads : young g regs ≡ true → Start regs)
    {row : Row (with_root tidy regs leads) (StartOrRoot tidy regs leads) end g} {live : ℕ → Bool}
    {place : ℕ → ℕ} {h : Heap}
    → Collected row live place h
    → young g regs ≡ true
    → live regs ≡ true
root_live {m} {g} {end} tidy regs leads collected is =
    let layout = Layout-root tidy regs leads in
    let size = layout.last_size in
    let word : with_root tidy regs leads (end + 1 * 8) ≡ regs = ground arith in
    let reached : Reach (with_root tidy regs leads) g end
        (with_root tidy regs leads (end + 1 * 8)) =
      field end 1 top layout.last_plain (omega arith) (omega arith) (rw word is) in
    let less = below tidy regs (leads is) in
    elim (collected.all_reached regs (rw word at reached)) [
      | inl at_end ↦ absurd (omega arith)
      | inr kept ↦ kept
    ]

-- Where the young generation is a row of objects, every reference in it into it leads to an object further down, and the
-- word given as root leads to an object if it leads into it, a collection ends, with any bound for its rounds from some
-- number on, and gives back that word, set to the new place if it leads into it. The objects that are kept are exactly
-- those that can be reached; each has its header and its words, the references among them set to the new places; they
-- keep their order, stand one behind the other, none above its old place, and take the heap up to `fp`; the older
-- generation is as it was. The young generation is again such a row, of the objects that are kept, and the word given
-- back leads to one of them if it leads into it.
pub compact-Tidy :
    (realloc : Realloc) (h : Heap) (regs : ℕ) (Start : ℕ → Type 0)
    (tidy : Tidy h.mem h.genstart h.fp Start) (leads : young h.genstart regs ≡ true → Start regs)
    → (enough : ℕ) × (live : ℕ → Bool) × (place : ℕ → ℕ) × ((rounds : ℕ)
        → enough ≤ rounds
        → (h' : Heap) × (compact realloc rounds h regs ≡ some (forward h.genstart place regs, h'))
          × (h'.begin ≡ h.begin)
          × (h'.end ≡ h.end)
          × (h'.genstart ≡ h.genstart)
          × Collected (Row-root tidy regs leads tidy.row) live place h'
          × Tidy h'.mem h'.genstart h'.fp (λ x. (c : ℕ) × (live c ≡ true) × (place c ≡ x))
          × (young h.genstart regs ≡ true → live regs ≡ true))
compact-Tidy realloc h regs Start tidy leads =
    let layout = Layout-root tidy regs leads in
    let row = Row-root tidy regs leads tidy.row in
    let (enough, live, place, run) =
      compact_lem realloc h regs (StartOrRoot tidy regs leads) layout row in
    (
      enough,
      live,
      place,
      λ rounds le.
          let (h', ran, begin, end, start, collected) = run rounds le in
          let again = Tidy-Collected layout collected in
          (
            h',
            ran,
            begin,
            end,
            start,
            collected,
            rw start again,
            λ is. root_live tidy regs leads collected is,
          ),
    )
