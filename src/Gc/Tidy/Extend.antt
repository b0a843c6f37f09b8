-- ===== src/Gc/Tidy/Extend.antt =====
-- An object behind the others in the young generation, as `OL__gc` of src/olvm.c makes it of the registers, and the heap
-- without its last object, as `OL__gc` leaves it.
use ol.Common.{
  ℕ, ◌+◌, ◌*◌, ◌%◌, ◌≤◌, ◌<◌, ◌≡◌, ◌⊎◌, inl, inr, refl, sym, subst, true, false, ◌==◌, arith,
  Bool-cases,
}
use ol.Word.{is_reference, is_rawobject, hdrsize}
use ol.Gc.Threads.{young}
use ol.Gc.Rows.{Row, done, object}
use ol.Gc.Tidy.{Tidy}

module _ {m : ℕ → ℕ} {g end : ℕ} {Start : ℕ → Type 0} (tidy : Tidy m g end Start) where
  pub below : (b : ℕ) → Start b → b < end
  below b start =
      let le = tidy.inside b start in let some_words = tidy.nonempty b start in omega arith

  pub low_row : {a : ℕ} → Row m Start end a → a ≤ end
  low_row done = omega arith
  low_row (object a start lt row) = omega arith

  module _ (m' : ℕ → ℕ) (size : ℕ) (same : (x : ℕ) → x < end → m' x ≡ m x) where
    same_field : (b i : ℕ) → Start b → i < hdrsize (m b) → m' (b + i * 8) ≡ m (b + i * 8)
    same_field b i start lt = let le = tidy.inside b start in same (b + i * 8) (omega arith)

    abbrev pub Longer : ℕ → Type 0
    Longer b = Start b ⊎ (b ≡ end)

    module _ (positive : 1 ≤ size) (sized : hdrsize (m' end) ≡ size) where
      Row-Longer : {a : ℕ} → Row m Start end a → Row m' Longer (end + size * 8) a
      Row-Longer done =
          object end (inr refl) (omega arith)
            (subst (λ (w : ℕ). Row m' Longer (end + size * 8) (end + w * 8)) (sym sized) done)
      Row-Longer (object a start lt row) = object a (inl start) (omega arith) (
          subst (λ (w : ℕ). Row m' Longer (end + size * 8) (a + hdrsize w * 8))
            (sym (same a (below a start))) (Row-Longer row))

      apart-Longer : (b c : ℕ) → Longer b → Longer c → b < c → b + hdrsize (m' b) * 8 ≤ c
      apart-Longer b c (inl sb) (inl sc) lt = rw (same b (below b sb)) (tidy.apart b c sb sc lt)
      apart-Longer b c (inl sb) (inr at) lt = rw (same b (below b sb), at) (tidy.inside b sb)
      apart-Longer b c (inr at) (inl sc) lt = let less = below c sc in absurd (omega arith)
      apart-Longer b c (inr at) (inr at') lt = absurd (omega arith)

      inside-Longer : (b : ℕ) → Longer b → b + hdrsize (m' b) * 8 ≤ end + size * 8
      inside-Longer b (inl start) =
          rw (same b (below b start)) (let le = tidy.inside b start in omega arith)
      inside-Longer b (inr at) = rw (at, sized) (omega arith)

      both :
          (P : ℕ → ℕ → Type 0)
          → ((b : ℕ) → Start b → P b (m b))
          → P end (m' end)
          → (b : ℕ) → Longer b
          → P b (m' b)
      both P old new b (inl start) = rw (same b (below b start)) (old b start)
      both P old new b (inr at) = rw at new

      module _ (plain : is_reference (m' end) ≡ false) (unmarked : m' end % 2 ≡ 0)
          (leads : (i : ℕ)
            → 1 ≤ i
            → i < size
            → young g (m' (end + i * 8)) ≡ true
            → Start (m' (end + i * 8))) where
        target-Longer :
            (b i : ℕ)
            → Longer b
            → is_rawobject (m' b) ≡ false
            → 1 ≤ i
            → i < hdrsize (m' b)
            → young g (m' (b + i * 8)) ≡ true
            → Longer (m' (b + i * 8)) × (m' (b + i * 8) < b)
        target-Longer b i (inl start) rawless lo hi is =
            let header = same b (below b start) in
            let rawless' : is_rawobject (m b) ≡ false = rw header at rawless in
            let hi' : i < hdrsize (m b) = rw header at hi in
            let word = same_field b i start hi' in
            let is' : young g (m (b + i * 8)) ≡ true = rw word at is in
            let (there, less) = tidy.target b i start rawless' lo hi' is' in
            rw word (inl there, less)
        target-Longer b i (inr at) rawless lo hi is =
            let hi' : i < size = rw (at, sized) at hi in
            let is' : young g (m' (end + i * 8)) ≡ true = rw at at is in
            let there = leads i lo hi' is' in
            let less = below (m' (end + i * 8)) there in rw at (inl there, less)

        pub Tidy-Longer : Tidy m' g (end + size * 8) Longer
        Tidy-Longer =
            let even = tidy.even in
            let base = low_row tidy.row in
            record {
              nonempty = both (λ b w. 1 ≤ hdrsize w) tidy.nonempty (omega arith);
              plain = both (λ b w. is_reference w ≡ false) tidy.plain plain;
              unmarked = both (λ b w. w % 2 ≡ 0) tidy.unmarked unmarked;
              aligned = both (λ b w. b % 8 ≡ 0) tidy.aligned even;
              low = both (λ b w. g ≤ b) tidy.low base;
              inside = inside-Longer;
              apart = apart-Longer;
              target = target-Longer;
              even = omega arith;
              row = Row-Longer tidy.row;
            }

  module _ (last : ℕ) (is : Start last) where
    -- the starts below the last object
    abbrev pub Shorter : ℕ → Type 0
    Shorter b = Start b × (b < last)

    Row-Shorter : {a : ℕ} → Row m Start end a → a ≤ last → Row m Shorter last a
    Row-Shorter done le = let less = below last is in absurd (omega arith)
    Row-Shorter (object a start lt row) le = elim (Bool-cases (a == last)) [
      | inl here ↦
          let e : last ≡ a = ground arith in subst (λ (x : ℕ). Row m Shorter x a) (sym e) done
      | inr other ↦
          let less : a < last = ground arith in
          object a (start, less) less (Row-Shorter row (tidy.apart a last start is less))
    ]

    pub Tidy-Shorter : Tidy m g last Shorter
    Tidy-Shorter = record {
      nonempty = λ b (start, lt). tidy.nonempty b start;
      plain = λ b (start, lt). tidy.plain b start;
      unmarked = λ b (start, lt). tidy.unmarked b start;
      aligned = λ b (start, lt). tidy.aligned b start;
      low = λ b (start, lt). tidy.low b start;
      inside = λ b (start, lt). tidy.apart b last start is lt;
      apart = λ b c (sb, lb) (sc, lc) lt. tidy.apart b c sb sc lt;
      target = λ b i (start, lt) rawless lo hi led.
          let (there, less) = tidy.target b i start rawless lo hi led in
          ((there, omega arith), less);
      even = tidy.aligned last is;
      row = Row-Shorter tidy.row (tidy.low last is);
    }
