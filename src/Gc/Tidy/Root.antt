-- ===== src/Gc/Tidy/Root.antt =====
-- The heap with the root behind the objects, as `gc` of src/olvm.c marks it: the objects lie as `mark` relies on it.
use ol.Common.{ℕ, ◌+◌, ◌*◌, ◌≤◌, ◌<◌, ◌≡◌, ◌⊎◌, inl, inr, refl, sym, subst, true, arith, upd}
use ol.Word.{make_header, is_reference, is_value, is_rawobject, hdrsize}
use ol.Word.Types.{ttuple}
use ol.Gc.Threads.{young, Layout}
use ol.Gc.Rows.{Row, done, object}
use ol.Gc.Tidy.{Tidy}
use ol.Gc.Tidy.Extend.{below, Tidy-Longer}

module _ {m : ℕ → ℕ} {g end : ℕ} {Start : ℕ → Type 0} (tidy : Tidy m g end Start) (regs : ℕ)
    (leads : young g regs ≡ true → Start regs) where
  -- the memory with the root behind the objects
  abbrev pub with_root : ℕ → ℕ
  with_root = upd (upd m end (make_header ttuple 2)) (end + 8) regs

  abbrev pub StartOrRoot : ℕ → Type 0
  StartOrRoot b = Start b ⊎ (b ≡ end)

  pub below_root : (x : ℕ) → x < end → with_root x ≡ m x
  below_root x lt = ground arith

  root_header : with_root end ≡ make_header ttuple 2
  root_header = ground arith

  root_size : hdrsize (with_root end) ≡ 2
  unfolding hdrsize make_header
  root_size = rw root_header refl

  pub Row-root : {a : ℕ} → Row m Start end a → Row with_root StartOrRoot end a
  Row-root done = done
  Row-root (object a start lt row) = object a (inl start) lt (
      subst (λ (w : ℕ). Row with_root StartOrRoot end (a + hdrsize w * 8)) (sym (below_root a lt))
        (Row-root row))

  root_leads :
      (i : ℕ)
      → 1 ≤ i
      → i < 2
      → young g (with_root (end + i * 8)) ≡ true
      → Start (with_root (end + i * 8))
  root_leads i lo hi is =
      let one : i ≡ 1 = omega arith in
      let word : with_root (end + i * 8) ≡ regs = rw one (ground arith) in
      let is' : young g regs ≡ true = rw word at is in rw word (leads is')

  longer : Tidy with_root g (end + 2 * 8) StartOrRoot
  unfolding hdrsize make_header is_reference is_value
  longer =
      Tidy-Longer tidy with_root 2 below_root (omega arith) root_size (rw root_header refl)
        (rw root_header refl) root_leads

  pub Layout-root : Layout with_root g end StartOrRoot
  unfolding hdrsize make_header is_rawobject
  Layout-root = record {
    nonempty = longer.nonempty;
    plain = longer.plain;
    unmarked = longer.unmarked;
    aligned = longer.aligned;
    low = longer.low;
    high = λ b start. elim start [
      | inl old ↦ let lt = below tidy b old in omega arith
      | inr at ↦ omega arith
    ];
    last = inr refl;
    last_size = root_size;
    last_plain = rw root_header refl;
    apart = longer.apart;
    target = longer.target;
  }
