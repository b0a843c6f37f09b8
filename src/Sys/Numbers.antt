-- ===== src/Sys/Numbers.antt =====
-- Tuples of numbers as answers of system calls (src/olvm.c).
use ol.Common.{
  ==_refl, true, false, ℕ, zero, suc, ◌+◌, ◌*◌, ◌/◌, ◌%◌, ◌^◌, ◌<◌, ◌≡◌, refl, ◌∙◌, ap, some, List,
  [], ◌∷◌, length, get_or, All, leb, arith, Bool-cases, inl, inr, bit_and,
}
use ol.Word.{is_value, wsize, vmax, vbits, make_header}
use ol.Word.Fields.{is_value-digit}
use ol.Word.Sign.{itouv, itouv-sum}
use ol.Word.Types.{ttuple, tintp, tpair, inull}
use ol.Heap.{Heap, load, ref, cdr, new_tuple, new_object, new_list, new_pair}
use ol.Heap.Laws.{
  Extends, Extends-refl, Extends-trans, store_words-fields, store_words-below, new_tuple_lem,
  new_pair_lem,
}
use ol.Machine.{Vm, Continues, operand}
use ol.Number.{untoi, itoun}
use ol.Number.RoundTrip.{untoi-itoun, two_digits, two_digits_lem, digits_sum}
use ol.Sys.{numbers, new_numbers}
use ol.Sys.Files.{FileSystem, Stat, stat_of, sys_stat}

two_digits-fp :
    (h : Heap) (type x : ℕ)
    → ((two_digits h type x).1.fp ≡ h.fp + 48) × (cdr (two_digits h type x).1 (h.fp + 24) ≡ h.fp)
unfolding new_list
two_digits-fp h type x =
    let h1 : Heap = (new_pair h tpair (itouv (x / 2 ^ vbits)) inull).1 in
    ground (
      arith,
      new_pair_lem h tpair (itouv (x / 2 ^ vbits)) inull,
      new_pair_lem h1 type (itouv (bit_and x vmax)) h.fp,
    )

two_digits-kept :
    (h h2 : Heap) (x : ℕ)
    → h.fp % 8 ≡ 0
    → x < 2 ^ 64
    → Extends (two_digits h tintp x).1 h2
    → untoi h2 (h.fp + 24) ≡ x
unfolding untoi
two_digits-kept h h2 x aligned lt grown =
    let (end, tail) = two_digits-fp h tintp x in
    let (at, header, head, last) = two_digits_lem h tintp x in
    let last' : (two_digits h tintp x).1.mem (h.fp + 8) ≡ itouv (x / 2 ^ vbits) = rw tail at last in
    let k1 = grown.keeps (h.fp + 24 + 8) (omega arith) ∙ head in
    let k2 = grown.keeps (h.fp + 24 + 16) (omega arith) ∙ tail in
    let k3 = grown.keeps (h.fp + 8) (omega arith) ∙ last' in
    let value : is_value (h.fp + 24) ≡ false = ground (arith, is_value-digit (h.fp + 24)) in
    rw (untoi, value, k1, k2, k3) (digits_sum x lt)

itoun-long : (h : Heap) (x : ℕ) → leb x vmax ≡ false → itoun h x ≡ two_digits h tintp x
unfolding itoun
itoun-long h x long = rw (itoun, long)

itoun-short : (h : Heap) (x : ℕ) → leb x vmax ≡ true → itoun h x ≡ (itouv x, h)
unfolding itoun
itoun-short h x short = rw (itoun, short)

-- A number stays what it is while the heap grows.
itoun-kept :
    (h h2 : Heap) (x : ℕ)
    → h.fp % 8 ≡ 0
    → x < 2 ^ 64
    → Extends (itoun h x).1 h2
    → untoi h2 (itoun h x).0 ≡ x
unfolding untoi
itoun-kept h h2 x aligned lt grown = elim (Bool-cases (leb x vmax)) [
  | inl short ↦ rw (itoun-short h x short) (ground (arith, itouv-sum x, is_value-digit (itouv x)))
  | inr long ↦
      let grown' : Extends (two_digits h tintp x).1 h2 = rw (itoun-long h x long) at grown in
      ap (λ (p : ℕ × Heap). untoi h2 p.0) (itoun-long h x long)
      ∙ ap (untoi h2) (two_digits_lem h tintp x).0
      ∙ two_digits-kept h h2 x aligned lt grown'
]

itoun-aligned : (h : Heap) (x : ℕ) → h.fp % 8 ≡ 0 → (itoun h x).1.fp % 8 ≡ 0
itoun-aligned h x aligned = elim (Bool-cases (leb x vmax)) [
  | inl short ↦ rw (itoun-short h x short) aligned
  | inr long ↦ rw (itoun-long h x long) (omega (arith, (two_digits-fp h tintp x).0))
]

abbrev Words : Heap → List ℕ → List ℕ × Heap → Type 0
Words h ns (ws, h1) =
    (length ws ≡ length ns)
    × (h1.fp % 8 ≡ 0)
    × Extends h h1
    × ((h2 : Heap)
        → Extends h1 h2
        → (i : ℕ) → i < length ns
        → untoi h2 (get_or ws i 0) ≡ get_or ns i 0)

reads_on :
    (h2 : Heap) (w n : ℕ) (ws ns : List ℕ)
    → untoi h2 w ≡ n
    → ((i : ℕ) → i < length ns → untoi h2 (get_or ws i 0) ≡ get_or ns i 0)
    → (i : ℕ) → i < suc (length ns)
    → untoi h2 (get_or (w ∷ ws) i 0) ≡ get_or (n ∷ ns) i 0
reads_on h2 w n ws ns first later zero lt = first
reads_on h2 w n ws ns first later (suc i) lt = later i (omega arith)

numbers_lem :
    (h : Heap) (ns : List ℕ) → h.fp % 8 ≡ 0 → All (λ n. n < 2 ^ 64) ns → Words h ns (numbers h ns)
unfolding numbers
numbers_lem h [] aligned fits = (refl, aligned, Extends-refl h, λ h2 x i lt. absurd (omega arith))
numbers_lem h (n ∷ ns) aligned (fit, fits) =
    let h1 : Heap = (itoun h n).1 in
    let (long, even, grown, reads) = numbers_lem h1 ns (itoun-aligned h n aligned) fits in
    (
      omega arith,
      even,
      Extends-trans (untoi-itoun h n aligned fit).1 grown,
      λ h2 x i lt.
          reads_on h2 (itoun h n).0 n (numbers h1 ns).0 ns
            (itoun-kept h h2 n aligned fit (Extends-trans grown x)) (reads h2 x) i lt,
    )

new_tuple-Extends : (h : Heap) (xs : List ℕ) → Extends h (new_tuple h xs).1
unfolding new_tuple
new_tuple-Extends h xs =
    let h1 : Heap = (new_object h ttuple (length xs + 1)).1 in
    let (b, e, g, f) = store_words-fields h1 (h.fp + wsize) xs in
    record {
      same_begin = b;
      same_end = e;
      same_genstart = g;
      grows = omega arith;
      keeps = λ a lt. store_words-below h1 (h.fp + wsize) xs a (omega arith) ∙ ground arith;
    }

-- a tuple of numbers behind the heap as it was
abbrev pub NumbersAt : Heap → List ℕ → ℕ → Heap → Type 0
NumbersAt h ns p h' =
    (load h' p ≡ make_header ttuple (length ns + 1))
    × ((i : ℕ) → i < length ns → untoi h' (ref h' p (i + 1)) ≡ get_or ns i 0)
    × Extends h h'

new_numbers_lem :
    (h : Heap) (ns : List ℕ)
    → h.fp % 8 ≡ 0
    → All (λ n. n < 2 ^ 64) ns
    → NumbersAt h ns (new_numbers h ns).0 (new_numbers h ns).1
unfolding new_numbers
new_numbers_lem h ns aligned fits =
    let ws = (numbers h ns).0 in
    let h1 : Heap = (numbers h ns).1 in
    let (long, even, grown, reads) = numbers_lem h ns aligned fits in
    let (at, end, header, fields) = new_tuple_lem h1 ws in
    let tuple = new_tuple-Extends h1 ws in
    (
      header ∙ ap (λ (n : ℕ). make_header ttuple (n + 1)) long,
      λ i lt.
          let field : ref (new_tuple h1 ws).1 h1.fp (i + 1) ≡ get_or ws i 0 =
            ap (new_tuple h1 ws).1.mem {y = h1.fp + wsize + i * wsize} (omega arith)
            ∙ fields i (omega arith) in
          ap (untoi (new_tuple h1 ws).1) field ∙ reads (new_tuple h1 ws).1 tuple i lt,
      Extends-trans grown tuple,
    )

-- the numbers of a file in the order of the answer
abbrev pub stat_numbers : Stat → List ℕ
stat_numbers st =
    st.dev ∷ st.ino ∷ st.mode ∷ st.nlink ∷ st.uid ∷ st.gid ∷ st.rdev ∷ st.size ∷ 0 ∷ 0 ∷ st.atime
    ∷ st.mtime ∷ st.ctime ∷ []

-- (stat port/path link), where the system finds the file and its numbers are below 2 ^ 64: the answer is a new tuple of
-- 13 fields, from which `untoi` reads the numbers of the file in their order, behind a heap that is otherwise as it was.
pub sys_stat_lem :
    (fs : FileSystem) (s : Vm) (st : Stat)
    → s.heap.fp % 8 ≡ 0
    → stat_of fs s ≡ some st
    → All (λ n. n < 2 ^ 64) (stat_numbers st)
    → Continues
        (sys_stat fs s)
        λ t. NumbersAt s.heap (stat_numbers st) (t.regs (operand s 4)) t.heap × (t.ip ≡ s.ip + 5)
unfolding sys_stat
sys_stat_lem fs s st aligned found fits =
    rw (sys_stat, found)
      (rw (==_refl (operand s 4)) (new_numbers_lem s.heap (stat_numbers st) aligned fits), refl)
