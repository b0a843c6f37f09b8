-- ===== src/Fasl/Nat.antt =====
-- Numbers of an image: what the compiler writes, and the two readers of the loader (src/olvm.c).
use ol.Common.{
  ℕ, zero, suc, ◌+◌, ◌*◌, ◌/◌, ◌%◌, ◌^◌, ◌<◌, ◌≡◌, refl, ◌∙◌, ap, [], ◌∷◌, ◌++◌, ◌==◌,
  if◌then◌else◌, arith, append_assoc, Bool-cases, inl, inr, ne→==_false,
}
use native.Mathlib.Nat.{pow-succ'}
use ol.Common.Bits.{bit_and-mask, bit_and-bit}
use ol.Fasl.{Bytes, ok, nat_loop, get_nat, decode_word}

-- the groups above the lowest one, each with the top bit set
unfoldable pub upper_groups : ℕ → ℕ → Bytes
upper_groups zero n = []
upper_groups (suc k) n =
    let above = upper_groups k (n / 128) in if n == 0 then [] else above ++ ((n % 128 + 128) ∷ [])

-- a number below 2 ^ 64 in at most ten bytes
unfoldable pub encode_nat : ℕ → Bytes
unfolding upper_groups
encode_nat n = upper_groups 9 (n / 128) ++ (n % 128 ∷ [])

group_more :
    (nat g : ℕ) (rest : Bytes)
    → nat * 128 + g < 2 ^ 64
    → g < 128
    → nat_loop nat ((g + 128) ∷ rest) ≡ nat_loop (nat * 128 + g) rest
unfolding nat_loop
group_more nat g rest fits lt = ground (arith, bit_and-mask 7 (g + 128), bit_and-bit 7 (g + 128))

group_last :
    (nat g : ℕ) (rest : Bytes)
    → nat * 128 + g < 2 ^ 64
    → g < 128
    → nat_loop nat (g ∷ rest) ≡ ok (nat * 128 + g, rest)
unfolding nat_loop
group_last nat g rest fits lt = ground (arith, bit_and-mask 7 g, bit_and-bit 7 g)

upper_groups-read :
    (k n : ℕ) (rest : Bytes)
    → n < 128 ^ k
    → n < 2 ^ 57
    → nat_loop 0 (upper_groups k n ++ rest) ≡ nat_loop n rest
unfolding upper_groups
upper_groups-read zero n rest lt fits = ap (λ (m : ℕ). nat_loop m rest) (omega arith)
upper_groups-read (suc k) n rest lt fits = elim (Bool-cases (n == 0)) [
  | inl none_left ↦ rw none_left (ap (λ (m : ℕ). nat_loop m rest) (ground arith))
  | inr more ↦
      rw (more, append_assoc)
        (upper_groups-read k (n / 128) ((n % 128 + 128) ∷ rest) (omega (arith, pow-succ' 128 k))
            (omega arith)
          ∙ group_more (n / 128) (n % 128) rest (omega arith) (omega arith)
          ∙ ap (λ (m : ℕ). nat_loop m rest) (omega arith))
]

-- `get_nat` and `decode_word` both read back a machine word that was written, and leave what follows it.
pub get_nat-encode_nat :
    (n : ℕ) (rest : Bytes)
    → n < 2 ^ 64
    → (get_nat (encode_nat n ++ rest) ≡ ok (n, rest))
      × (decode_word (encode_nat n ++ rest) ≡ ok (n, rest))
unfolding get_nat decode_word encode_nat
get_nat-encode_nat n rest lt = (read, read)
  where
    read : nat_loop 0 ((upper_groups 9 (n / 128) ++ (n % 128 ∷ [])) ++ rest) ≡ ok (n, rest)
    read = rw append_assoc (
        upper_groups-read 9 (n / 128) (n % 128 ∷ rest) (omega arith) (omega arith)
        ∙ group_last (n / 128) (n % 128) rest (omega arith) (omega arith)
        ∙ ap (λ (m : ℕ). ok (m, rest)) (omega arith))

abbrev StartsNonZero : Bytes → Type 0
StartsNonZero l = (b : ℕ) × (bs : Bytes) × (l ≡ suc b ∷ bs)

starts_of : (n : ℕ) (l : Bytes) → 0 < n → StartsNonZero (n ∷ l)
starts_of zero l pos = absurd (omega arith)
starts_of (suc n) l pos = (n, l, refl)

upper_groups-zero : (k : ℕ) → upper_groups k 0 ≡ []
unfolding upper_groups
upper_groups-zero zero = refl
upper_groups-zero (suc k) = refl

starts-append : {l : Bytes} (more : Bytes) → StartsNonZero l → StartsNonZero (l ++ more)
starts-append more (b, bs, e) = (b, bs ++ more, rw e)

upper_groups-starts : (k n : ℕ) → 0 < n → n < 128 ^ k → StartsNonZero (upper_groups k n)
unfolding upper_groups
upper_groups-starts zero n pos lt = absurd (omega arith)
upper_groups-starts (suc k) n pos lt = elim (Bool-cases (n / 128 == 0)) [
  | inl small ↦
      let e : n / 128 ≡ 0 = ground arith in
      rw (ne→==_false n 0 (omega arith), e, upper_groups-zero)
        (starts_of (n % 128 + 128) [] (omega arith))
  | inr more ↦ rw (ne→==_false n 0 (omega arith)) (
      starts-append _
        (upper_groups-starts k (n / 128) (ground arith) (omega (arith, pow-succ' 128 k))))
]

-- The first byte of a number that is not 0 is not 0: so a field that is a reference is told from a value.
pub encode_nat-starts : (n : ℕ) → 0 < n → n < 2 ^ 64 → StartsNonZero (encode_nat n)
unfolding encode_nat
encode_nat-starts n pos lt = elim (Bool-cases (n / 128 == 0)) [
  | inl small ↦ let e : n / 128 ≡ 0 = ground arith in rw e (starts_of (n % 128) [] (omega arith))
  | inr more ↦ starts-append _ (upper_groups-starts 9 (n / 128) (ground arith) (omega arith))
]
