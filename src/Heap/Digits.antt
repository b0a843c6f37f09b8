-- ===== src/Heap/Digits.antt =====
-- A byte written into a word, among the digits of the word in base 256.
use ol.Common.{
  ℕ, zero, suc, ◌+◌, ◌-◌, ◌*◌, ◌/◌, ◌%◌, ◌^◌, ◌≤◌, ◌<◌, ◌≡◌, inl, inr, refl, sym, ◌∙◌, ap, arith,
  ◌==◌, ltb, if◌then◌else◌, Bool-cases, subst,
}
use ol.Common.Division.{quotient_of}
use native.Mathlib.Nat.{div-add-mod', mod-lt, one-le-pow, mul-le-mul, pow-succ'}

-- the word `w` with its digit at the unit `u` replaced by `b`
abbrev pub put : ℕ → ℕ → ℕ → ℕ
put w u b = w - w / u % 256 * u + b % 256 * u

put-split : (w u b : ℕ) → 0 < u → put w u b ≡ (w / u / 256 * 256 + b % 256) * u + w % u
put-split w u b pos =
    let d : ℕ = w / u % 256 in
    let q : ℕ = w / u / 256 in
    let split : w / u ≡ q * 256 + d = omega arith in
    omega (arith, div-add-mod' w u, ap (λ (x : ℕ). x * u) split)

put-own : (w u b : ℕ) → 0 < u → put w u b / u % 256 ≡ b % 256
put-own w u b pos =
    let e =
      quotient_of (put w u b) (w / u / 256 * 256 + b % 256) u (w % u) pos (put-split w u b pos)
        (mod-lt w pos) in
    omega (arith, e)

product_pos : (a b : ℕ) → 0 < a → 0 < b → 0 < a * b
product_pos a b pa pb =
    let below : 1 * 1 ≤ a * b = mul-le-mul {n₂ = a} {m₂ = b} pa pb in omega arith

digit_low : (d u r : ℕ) → d < 256 → r < u → d * u + r < u * 256
digit_low d u r hd hr =
    let below : d * u ≤ 255 * u = mul-le-mul {n₂ = 255} {m₂ = u} (omega arith) (omega arith) in
    omega arith

-- the digit at a unit `v` of a number that is a multiple of `v * 256` and a rest
digit_of : (c v m x : ℕ) → 0 < v → (c * (v * 256 * m) + x) / v % 256 ≡ x / v % 256
digit_of c v m x pos =
    let e =
      quotient_of (c * (v * 256 * m) + x) (c * 256 * m + x / v) v (x % v) pos
        (omega (arith, div-add-mod' x v)) (mod-lt x pos) in
    omega (arith, e)

put-lower : (w v m b : ℕ) → 0 < v → 0 < m → put w (v * 256 * m) b / v % 256 ≡ w / v % 256
put-lower w v m b posv posm =
    let u : ℕ = v * 256 * m in
    let posu : 0 < u = product_pos (v * 256) m (omega arith) posm in
    let split : w ≡ w / u * u + w % u = sym (div-add-mod' w u) in
    ap (λ (x : ℕ). x / v % 256) (put-split w u b posu)
    ∙ digit_of (w / u / 256 * 256 + b % 256) v m (w % u) posv
    ∙ sym (digit_of (w / u) v m (w % u) posv)
    ∙ ap (λ (x : ℕ). x / v % 256) (sym split)

upper_quotient : (q t u m : ℕ) → 0 < u → 0 < m → t < u → (q * u + t) / (u * m) ≡ q / m
upper_quotient q t u m posu posm lt =
    let rest : (q % m + 1) * u ≤ m * u =
      mul-le-mul {n₂ = m} {m₂ = u} (omega (arith, mod-lt q posm)) (omega arith) in
    quotient_of (q * u + t) (q / m) (u * m) (q % m * u + t) (product_pos u m posu posm)
      (omega (arith, ap (λ (x : ℕ). x * u) (div-add-mod' q m))) (omega arith)

put-upper : (w u m b : ℕ) → 0 < u → 0 < m → put w u b / (u * 256 * m) ≡ w / (u * 256 * m)
put-upper w u m b posu posm =
    let d : ℕ = w / u % 256 in
    let q : ℕ = w / u / 256 in
    let r = mod-lt w posu in
    let low : (b % 256) * u + w % u < u * 256 = digit_low (b % 256) u (w % u) (omega arith) r in
    let old : d * u + w % u < u * 256 = digit_low d u (w % u) (omega arith) r in
    let split : w ≡ q * (u * 256) + (d * u + w % u) = omega (
      arith,
      div-add-mod' w u,
      ap (λ (x : ℕ). x * u) {x = w / u} {y = q * 256 + d} (omega arith),
    ) in
    ap (λ (x : ℕ). x / (u * 256 * m)) (put-split w u b posu ∙ omega arith)
    ∙ upper_quotient q ((b % 256) * u + w % u) (u * 256) m (omega arith) posm low
    ∙ sym (upper_quotient q (d * u + w % u) (u * 256) m (omega arith) posm old)
    ∙ ap (λ (x : ℕ). x / (u * 256 * m)) (sym split)

power_sum : (m n : ℕ) → 256 ^ m * 256 ^ n ≡ 256 ^ (m + n)
power_sum zero n = ground arith
power_sum (suc m) n =
    let e : suc m + n ≡ suc (m + n) = omega arith in
    rw (e, pow-succ', pow-succ') (omega (arith, power_sum m n))

power_split : (j e : ℕ) → 256 ^ (j + 1 + e) ≡ 256 ^ j * 256 * 256 ^ e
power_split j e =
    let one : 256 ^ j * 256 ≡ 256 ^ (j + 1) =
      ap (λ (x : ℕ). 256 ^ j * x) {x = 256} {y = 256 ^ 1} refl ∙ power_sum j 1 in
    sym (power_sum (j + 1) e) ∙ ap (λ (x : ℕ). x * 256 ^ e) (sym one)

positive : (k : ℕ) → 0 < 256 ^ k
positive k = one-le-pow k 256 (omega arith)

-- the digits of a word in which one digit is replaced
pub put-digits :
    (w b k j : ℕ)
    → put w (256 ^ k) b / 256 ^ j % 256 ≡ (if k == j then b % 256 else w / 256 ^ j % 256)
put-digits w b k j = elim (Bool-cases (k == j)) [
  | inl same ↦ let e : j ≡ k = ground arith in rw (same, e) (put-own w (256 ^ k) b (positive k))
  | inr other ↦ rw other (elim (Bool-cases (ltb j k)) [
    | inl lower ↦
        let e : k ≡ j + 1 + (k - (j + 1)) = ground arith in
        subst (λ (u : ℕ). put w u b / 256 ^ j % 256 ≡ w / 256 ^ j % 256)
          (sym (ap (λ (x : ℕ). 256 ^ x) e ∙ power_split j (k - (j + 1))))
          (put-lower w (256 ^ j) (256 ^ (k - (j + 1))) b (positive j) (positive (k - (j + 1))))
    | inr higher ↦
        let e : j ≡ k + 1 + (j - (k + 1)) = ground arith in
        ap (λ (x : ℕ). x % 256)
          (subst (λ (v : ℕ). put w (256 ^ k) b / v ≡ w / v)
            (sym (ap (λ (x : ℕ). 256 ^ x) e ∙ power_split k (j - (k + 1))))
            (put-upper w (256 ^ k) (256 ^ (j - (k + 1))) b (positive k) (positive (j - (k + 1)))))
  ])
]
