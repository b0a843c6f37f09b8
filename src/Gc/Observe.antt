-- ===== src/Gc/Observe.antt =====
-- What a program can see of the heap is the same after a collection (src/olvm.c, `gc`): where its paths of fields lead, which
-- of its references are one, and which is less.
pub mod Kept
use ol.Common.{
  ℕ, ◌+◌, ◌*◌, ◌≤◌, ◌<◌, ◌≡◌, ◌⊎◌, inl, inr, refl, ◌∙◌, sym, ap, subst, Bool, true, false, ◌&&◌,
  not, List, [], ◌∷◌, Option, none, some, ◌==◌, ltb, leb, if◌then◌else◌, arith, Bool-cases,
}
use ol.Gc.Flags.{is_reference-bit}
use ol.Word.{is_rawobject, hdrsize}
use ol.Heap.{Heap}
use ol.Gc.Threads.{young, Layout}
use ol.Gc.Rows.{Row}
use ol.Gc.Compact.Collected.{Collected, forward}
use ol.Gc.Resize.{Realloc, compact}
use ol.Gc.Tidy.{Tidy}
use ol.Gc.Tidy.Extend.{below}
use ol.Gc.Tidy.Root.{Layout-root, with_root, below_root}
use ol.Gc.Tidy.Again.{Reach-Start, target_live, compact-Tidy}

-- a field that the object at `w` has
abbrev pub has_field : (ℕ → ℕ) → ℕ → ℕ → ℕ → Bool
has_field mem g w i =
    young g w && (not (is_rawobject (mem w)) && (leb 1 i && ltb i (hdrsize (mem w))))

-- where a path of fields leads from a word, as long as it stays in the young generation
unfoldable pub follow : (ℕ → ℕ) → ℕ → List ℕ → ℕ → Option ℕ
follow mem g [] w = some w
follow mem g (i ∷ path) w =
    let rest = follow mem g path (mem (w + i * 8)) in if has_field mem g w i then rest else none

unfoldable pub forwarded : (ℕ → ℕ) → Option ℕ → Option ℕ
forwarded f none = none
forwarded f (some w) = some (f w)

pub follow-in :
    (mem : ℕ → ℕ) (g i : ℕ) (path : List ℕ) (w : ℕ)
    → has_field mem g w i ≡ true
    → follow mem g (i ∷ path) w ≡ follow mem g path (mem (w + i * 8))
unfolding follow
follow-in mem g i path w has = rw has refl

pub follow-out :
    (mem : ℕ → ℕ) (g i : ℕ) (path : List ℕ) (w : ℕ)
    → has_field mem g w i ≡ false
    → follow mem g (i ∷ path) w ≡ none
unfolding follow
follow-out mem g i path w out = rw out refl

module _ {m : ℕ → ℕ} {g root : ℕ} {Start : ℕ → Type 0} (layout : Layout m g root Start)
    {row : Row m Start root g} {live : ℕ → Bool} {place : ℕ → ℕ} {h : Heap}
    (collected : Collected row live place h) where
  -- a word that is no reference into the young generation, or one to an object that is kept
  abbrev pub Seen : ℕ → Type 0
  Seen w = (young g w ≡ false) ⊎ ((young g w ≡ true) × (live w ≡ true))

  -- a word of the young generation is no other
  apart_words : (v w : ℕ) → young g v ≡ false → young g w ≡ true → (v == w) ≡ false
  apart_words v w old is = elim (Bool-cases (v == w)) [
    | inr other ↦ other
    | inl same ↦
        let e : v ≡ w = ground arith in
        let young_v : young g v ≡ true = rw e is in absurd (ground arith)
  ]

  words_apart : (v w : ℕ) → young g v ≡ true → young g w ≡ false → (v == w) ≡ false
  words_apart v w is old = let other = apart_words w v old is in ground arith

  forward-old : (w : ℕ) → young g w ≡ false → forward g place w ≡ w
  forward-old w old = rw old refl

  forward-live : (w : ℕ) → young g w ≡ true → forward g place w ≡ place w
  forward-live w is = rw is refl

  start_live : (w : ℕ) → live w ≡ true → Start w
  start_live w kept = Reach-Start layout w (collected.only_reached w kept)

  young_place : (w : ℕ) → live w ≡ true → young g (place w) ≡ true
  young_place w kept =
      let (low, down, even, inside) = collected.inside w kept in
      ground (arith, is_reference-bit (place w))

  header_live :
      (w i : ℕ)
      → young g w ≡ true
      → live w ≡ true
      → has_field h.mem g (place w) i ≡ has_field m g w i
  header_live w i is kept = rw (young_place w kept, is, collected.header w kept) refl

  pub Seen-field : (w i : ℕ) → Seen w → has_field m g w i ≡ true → Seen (m (w + i * 8))
  Seen-field w i (inl old) has = absurd (ground arith)
  Seen-field w i (inr (is, kept)) has = elim (Bool-cases (young g (m (w + i * 8)))) [
    | inr old ↦ inl old
    | inl led ↦
        let plain : is_rawobject (m w) ≡ false = ground arith in
        let lo : 1 ≤ i = ground arith in
        let hi : i < hdrsize (m w) = ground arith in
        inr (led, (target_live layout collected w i kept plain lo hi led).0)
  ]

  word_live :
      (w i : ℕ)
      → live w ≡ true
      → has_field m g w i ≡ true
      → h.mem (place w + i * 8) ≡ forward g place (m (w + i * 8))
  word_live w i kept has =
      let plain : is_rawobject (m w) ≡ false = ground arith in
      let lo : 1 ≤ i = ground arith in
      let hi : i < hdrsize (m w) = ground arith in collected.words w i kept lo hi ∙ rw plain refl

  pub follow-forward :
      (path : List ℕ) (w : ℕ)
      → Seen w
      → follow h.mem g path (forward g place w) ≡ forwarded (forward g place) (follow m g path w)
  unfolding follow forwarded
  follow-forward [] w seen = refl
  follow-forward (i ∷ path) w (inl old) =
      ap (follow h.mem g (i ∷ path)) (forward-old w old)
      ∙ follow-out h.mem g i path w (rw old refl)
      ∙ ap (forwarded (forward g place)) (sym (follow-out m g i path w (rw old refl)))
  follow-forward (i ∷ path) w (inr (is, kept)) =
      ap (follow h.mem g (i ∷ path)) (forward-live w is) ∙ elim (Bool-cases (has_field m g w i)) [
        | inr gone ↦
            follow-out h.mem g i path (place w) (header_live w i is kept ∙ gone)
            ∙ ap (forwarded (forward g place)) (sym (follow-out m g i path w gone))
        | inl has ↦
            follow-in h.mem g i path (place w) (header_live w i is kept ∙ has)
            ∙ ap (follow h.mem g path) (word_live w i kept has)
            ∙ follow-forward path (m (w + i * 8)) (Seen-field w i (inr (is, kept)) has)
            ∙ ap (forwarded (forward g place)) (sym (follow-in m g i path w has))
      ]

  pub follow-Seen : (path : List ℕ) (w x : ℕ) → Seen w → follow m g path w ≡ some x → Seen x
  unfolding follow
  follow-Seen [] w x seen found = let e : w ≡ x = cc in subst Seen e seen
  follow-Seen (i ∷ path) w x seen found = elim (Bool-cases (has_field m g w i)) [
    | inr gone ↦
        let lost : none ≡ some x = sym (follow-out m g i path w gone) ∙ found in absurd (cc)
    | inl has ↦
        follow-Seen path (m (w + i * 8)) x (Seen-field w i seen has)
          (sym (follow-in m g i path w has) ∙ found)
  ]

  -- two references to kept objects stay in their order
  place-less : (v w : ℕ) → live v ≡ true → live w ≡ true → ltb (place v) (place w) ≡ ltb v w
  place-less v w kept_v kept_w =
      let up = collected.ordered v w kept_v kept_w in
      let down = collected.ordered w v kept_w kept_v in
      let some_v = layout.nonempty v (start_live v kept_v) in
      let some_w = layout.nonempty w (start_live w kept_w) in
      elim (Bool-cases (v == w)) [
        | inl same ↦
            let e : v ≡ w = ground arith in
            let both : place v ≡ place w = ap place e in ground arith
        | inr other ↦ ground arith
      ]

  pub forward-eq : (v w : ℕ) → Seen v → Seen w → (forward g place v == forward g place w) ≡ (v == w)
  forward-eq v w (inl old) (inl old') = rw (old, old') refl
  forward-eq v w (inl old) (inr (is, kept)) =
      let new = young_place w kept in
      rw (old, is) (apart_words v (place w) old new ∙ sym (apart_words v w old is))
  forward-eq v w (inr (is, kept)) (inl old) =
      let new = young_place v kept in
      rw (old, is) (words_apart (place v) w new old ∙ sym (words_apart v w is old))
  forward-eq v w (inr (is, kept)) (inr (is', kept')) =
      let less = place-less v w kept kept' in
      let more = place-less w v kept' kept in rw (is, is') (ground arith)
