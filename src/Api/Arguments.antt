-- ===== src/Api/Arguments.antt =====
-- The list of arguments that `OL_run` (src/olvm.c) makes.
use ol.Common.{
  get_or-left, ℕ, ◌+◌, ◌-◌, ◌*◌, ◌%◌, ◌≤◌, ◌<◌, ◌≡◌, refl, ◌∙◌, ap, sym, subst, arith, List, [],
  ◌∷◌, ◌++◌, length, length-append, get_or, reverse, ◌==◌, Bool-cases, inl, inr, false,
}
use mathlib.Core.List.{reverse-cons}
use ol.Word.{wsize, make_header, make_raw_header}
use ol.Word.Types.{tpair, tstring, inull}
use ol.Heap.{Heap, load, car, cdr, words_for, new_bytevector, new_pair}
use ol.Heap.Bytes.{load_byte, store_bytes}
use ol.Heap.Laws.{Extends, Extends-refl, Extends-trans, new_pair-Extends, new_pair_lem}
use ol.Heap.Raw.{
  load_byte-same, load_byte-store_bytes, store_bytes_lem, store_bytes-Extends,
  new_bytevector-Extends, new_bytevector-fp,
}
use ol.Fasl.{Bytes}
use ol.Api.{push_argument, push_arguments}

-- a string of the bytes, below `fp`
abbrev pub StringAt : Heap → ℕ → Bytes → Type 0
StringAt h p v =
    (load h p
      ≡ make_raw_header tstring (words_for (length v) + 1)
          (words_for (length v) * wsize - length v))
    × (p + (words_for (length v) + 1) * wsize ≤ h.fp)
    × ((i : ℕ) → i < length v → load_byte h (p + wsize + i) ≡ get_or v i 0 % 256)

-- a list of strings, one for each argument that is not empty, in their order
abbrev pub ArgumentsAt : Heap → ℕ → List Bytes → Type 0
ArgumentsAt h l [] = l ≡ inull
ArgumentsAt h l ([] ∷ vs) = ArgumentsAt h l vs
ArgumentsAt h l ((b ∷ bs) ∷ vs) =
    (load h l ≡ make_header tpair 3)
    × (l + 24 ≤ h.fp)
    × StringAt h (car h l) (b ∷ bs)
    × ArgumentsAt h (cdr h l) vs

StringAt-Extends :
    {h h' : Heap} → Extends h h' → (p : ℕ) (v : Bytes) → StringAt h p v → StringAt h' p v
StringAt-Extends {h} {h'} x p v (header, room, bytes) = (
  x.keeps p (omega arith) ∙ header,
  (let more = x.grows in omega arith),
  λ i lt.
      load_byte-same h h' (p + wsize + i)
        (x.keeps (p + wsize + i - (p + wsize + i) % wsize) (omega arith))
      ∙ bytes i lt,
)

ArgumentsAt-Extends :
    {h h' : Heap}
    → Extends h h'
    → (l : ℕ) (vs : List Bytes) → ArgumentsAt h l vs
    → ArgumentsAt h' l vs
ArgumentsAt-Extends x l [] at = at
ArgumentsAt-Extends x l ([] ∷ vs) at = ArgumentsAt-Extends x l vs at
ArgumentsAt-Extends {h} {h'} x l ((b ∷ bs) ∷ vs) (header, room, string, rest) = (
  x.keeps l (omega arith) ∙ header,
  (let more = x.grows in omega arith),
  subst (λ (p : ℕ). StringAt h' p (b ∷ bs)) (sym (x.keeps (l + 1 * wsize) (omega arith)))
      (StringAt-Extends x (car h l) (b ∷ bs) string),
  subst (λ (p : ℕ). ArgumentsAt h' p vs) (sym (x.keeps (l + 2 * wsize) (omega arith)))
      (ArgumentsAt-Extends x (cdr h l) vs rest),
)

bytevector_address : (h : Heap) (size : ℕ) → (new_bytevector h tstring size).0 ≡ h.fp
unfolding new_bytevector
bytevector_address h size = refl

-- the string of an argument
string_made :
    (h : Heap) (v : Bytes)
    → h.fp % wsize ≡ 0
    → StringAt
        (new_bytevector (store_bytes h (h.fp + wsize) (v ++ (0 ∷ []))) tstring (length v)).1
        h.fp
        v
unfolding new_bytevector
string_made h v aligned =
    let bs = v ++ (0 ∷ []) in
    let size = length-append v (0 ∷ []) in
    let h1 : Heap = store_bytes h (h.fp + wsize) bs in
    let h2 : Heap = (new_bytevector h1 tstring (length v)).1 in
    let (fp, below) = store_bytes_lem bs h (h.fp + wsize) in
    let behind : (b : ℕ) → h1.fp + wsize ≤ b → h2.mem b ≡ h1.mem b = λ b le. ground arith in
    (
      ground arith,
      omega arith,
      λ i lt.
          load_byte-same h1 h2 (h.fp + wsize + i)
            (behind (h.fp + wsize + i - (h.fp + wsize + i) % wsize) (omega arith))
          ∙ load_byte-store_bytes bs h (h.fp + wsize) i (omega arith)
          ∙ ap (λ (w : ℕ). w % 256) (get_or-left v (0 ∷ []) i 0 lt),
    )

push_argument_lem :
    (v : Bytes) (h : Heap) (userdata : ℕ)
    → h.fp % wsize ≡ 0
    → Extends h (push_argument (h, userdata) v).0
      × ((push_argument (h, userdata) v).0.fp % wsize ≡ 0)
unfolding push_argument
push_argument_lem v h userdata aligned =
    let bs = v ++ (0 ∷ []) in
    let h1 : Heap = store_bytes h (h.fp + wsize) bs in
    let e1 = store_bytes-Extends bs h aligned in
    let same = (store_bytes_lem bs h (h.fp + wsize)).0 in
    let h2 : Heap = (new_bytevector h1 tstring (length v)).1 in
    let s = (new_bytevector h1 tstring (length v)).0 in
    let h3 : Heap = (new_pair h2 tpair s userdata).1 in
    let e3 =
      Extends-trans (Extends-trans e1 (new_bytevector-Extends h1 tstring (length v)))
        (new_pair-Extends h2 tpair s userdata) in
    let fp2 = new_bytevector-fp h1 tstring (length v) in
    let fp3 = (new_pair_lem h2 tpair s userdata).1 in
    elim (Bool-cases (length v == 0)) [
      | inl e ↦ rw e ((e1, ap (λ (n : ℕ). n % wsize) same ∙ aligned))
      | inr e ↦ rw e ((e3, omega arith))
    ]

pub push_argument-ArgumentsAt :
    (v : Bytes) (h : Heap) (l : ℕ) (vs : List Bytes)
    → h.fp % wsize ≡ 0
    → ArgumentsAt h l vs
    → let (h', l') = push_argument (h, l) v in ArgumentsAt h' l' (v ∷ vs)
unfolding push_argument
push_argument-ArgumentsAt [] h l vs aligned at =
    ArgumentsAt-Extends (store_bytes-Extends (0 ∷ []) h aligned) l vs at
push_argument-ArgumentsAt (b ∷ bs) h l vs aligned at =
    let v = b ∷ bs in
    let h1 : Heap = store_bytes h (h.fp + wsize) (v ++ (0 ∷ [])) in
    let h2 : Heap = (new_bytevector h1 tstring (length v)).1 in
    let s = (new_bytevector h1 tstring (length v)).0 in
    let h3 : Heap = (new_pair h2 tpair s l).1 in
    let pair = new_pair-Extends h2 tpair s l in
    let grown =
      Extends-trans
        (Extends-trans (store_bytes-Extends (v ++ (0 ∷ [])) h aligned)
          (new_bytevector-Extends h1 tstring (length v)))
        pair in
    let (here, end, header, first, second) = new_pair_lem h2 tpair s l in
    let long : (length v == 0) ≡ false = ground arith in
    let result : push_argument (h, l) v ≡ (h3, h2.fp) = rw long (ap (λ (p : ℕ). (h3, p)) here) in
    let address : s ≡ h.fp =
      bytevector_address h1 (length v) ∙ (store_bytes_lem (v ++ (0 ∷ [])) h (h.fp + wsize)).0 in
    let string = StringAt-Extends pair h.fp v (string_made h v aligned) in
    subst (λ (r : Heap × ℕ). ArgumentsAt r.0 r.1 (v ∷ vs)) (sym result)
      (
        header,
        omega arith,
        subst (λ (p : ℕ). StringAt h3 p v) (sym (first ∙ address)) string,
        subst (λ (p : ℕ). ArgumentsAt h3 p vs) (sym second) (ArgumentsAt-Extends grown l vs at),
      )

push_arguments-snoc :
    (acc : Heap × ℕ) (xs : List Bytes) (v : Bytes)
    → push_arguments acc (xs ++ (v ∷ [])) ≡ push_argument (push_arguments acc xs) v
unfolding push_arguments
push_arguments-snoc acc [] v = refl
push_arguments-snoc acc (x ∷ xs) v = push_arguments-snoc (push_argument acc x) xs v

push_arguments-reverse :
    (acc : Heap × ℕ) (v : Bytes) (vs : List Bytes)
    → push_arguments acc (reverse (v ∷ vs)) ≡ push_argument (push_arguments acc (reverse vs)) v
push_arguments-reverse acc v vs =
    ap (push_arguments acc) (reverse-cons v vs) ∙ push_arguments-snoc acc (reverse vs) v

-- the list of arguments, behind a heap that is left as it was
abbrev pub PushedAt : Heap → Heap × ℕ → List Bytes → Type 0
PushedAt h (h', l') vs = Extends h h' × (h'.fp % wsize ≡ 0) × ArgumentsAt h' l' vs

-- The last argument is pushed first.
pub push_arguments-ArgumentsAt :
    (h : Heap) (vs : List Bytes)
    → h.fp % wsize ≡ 0
    → PushedAt h (push_arguments (h, inull) (reverse vs)) vs
unfolding push_arguments
push_arguments-ArgumentsAt h [] aligned = (Extends-refl h, aligned, refl)
push_arguments-ArgumentsAt h (v ∷ vs) aligned =
    let acc = push_arguments (h, inull) (reverse vs) in
    let (x, even, at) = push_arguments-ArgumentsAt h vs aligned in
    let (y, even') = push_argument_lem v acc.0 acc.1 even in
    subst (λ (r : Heap × ℕ). PushedAt h r (v ∷ vs)) (sym (push_arguments-reverse (h, inull) v vs))
      (Extends-trans x y, even', push_argument-ArgumentsAt v acc.0 acc.1 vs even at)
