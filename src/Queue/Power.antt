-- ===== src/Queue/Power.antt =====
-- `next_power_of_2` gives the least power of two that is not below its argument.
use Prim.Native.Nat.{digits, bit_or-bitwise}
use native.Mathlib.Nat.{
  pow-suc, mul_assoc, mul_comm, mul-sub, le-div_iff_mul-le, div-lt_iff_lt-mul, div-eq_of_lt,
  pow-le-pow_right,
}
use walde.Base.{
  ℕ, zero, suc, ◌+◌, ◌-◌, ◌*◌, ◌/◌, ◌%◌, ◌^◌, ◌≤◌, ◌<◌, ◌≡◌, refl, sym, ap, ◌∙◌, max, bit_or, arith,
  inl, inr, Bool-cases, ltb, lt_of_ltb, le_of_ltb, ==_ne,
}
use walde.Queue.{smear, next_power_of_2}
use walde.Queue.Mask.{pow_pos}

abbrev or_digits : ℕ → ℕ → ℕ → ℕ
or_digits n a b = digits (λ b. b) max n a b

or_digits_fuel : (n m a b : ℕ) → a ≤ n → a ≤ m → or_digits n a b ≡ or_digits m a b
or_digits_fuel zero zero a b p q = refl
or_digits_fuel zero (suc m) zero b p q = refl
or_digits_fuel zero (suc m) (suc a) b p q = absurd (omega arith)
or_digits_fuel (suc n) zero zero b p q = refl
or_digits_fuel (suc n) zero (suc a) b p q = absurd (omega arith)
or_digits_fuel (suc n) (suc m) zero b p q = refl
or_digits_fuel (suc n) (suc m) (suc a) b p q =
    omega (arith, or_digits_fuel n m (suc a / 2) (b / 2) (omega arith) (omega arith))

zero-bit_or : (b : ℕ) → bit_or 0 b ≡ b
zero-bit_or b = bit_or-bitwise 0 b

-- The lowest digit apart.
bit_or_step : (a b : ℕ) → bit_or a b ≡ bit_or (a / 2) (b / 2) * 2 + max (a % 2) (b % 2)
bit_or_step zero b = omega (arith, zero-bit_or b, zero-bit_or (b / 2))
bit_or_step (suc a) b = omega (
  arith,
  bit_or-bitwise (suc a) b,
  bit_or-bitwise (suc a / 2) (b / 2),
  or_digits_fuel a (suc a / 2) (suc a / 2) (b / 2) (omega arith) (omega arith),
)

bit_or_zero : (n a : ℕ) → a ≤ n → bit_or a 0 ≡ a
bit_or_zero n zero h = zero-bit_or 0
bit_or_zero zero (suc a) h = absurd (omega arith)
bit_or_zero (suc n) (suc a) h =
    omega (arith, bit_or_step (suc a) 0, bit_or_zero n (suc a / 2) (omega arith))

-- Digits below the `n`-th are at least those of `b`, and the others at least those of `a`.
bit_or-ge : (n q a b : ℕ) → q * 2 ^ n ≤ a → b < 2 ^ n → q * 2 ^ n + b ≤ bit_or a b
bit_or-ge zero q a b p h =
    omega (arith, bit_or_zero a a (omega arith), ap (bit_or a) {x = b} {y = 0} (omega arith))
bit_or-ge (suc n) q a b p h =
    let e = pow-suc 2 n in
    let d : q * 2 ^ suc n ≡ q * 2 ^ n * 2 = ap (λ z. q * z) e ∙ sym (mul_assoc q (2 ^ n) 2) in
    let ih = bit_or-ge n q (a / 2) (b / 2) (omega (arith, p, d)) (omega (arith, h, e)) in
    omega (arith, bit_or_step a b, ih, d)

bit_or-lt : (n a b : ℕ) → a < 2 ^ n → b < 2 ^ n → bit_or a b < 2 ^ n
bit_or-lt zero a b p q =
    omega (arith, ap (λ x. bit_or x b) {x = a} {y = 0} (omega arith), zero-bit_or b)
bit_or-lt (suc n) a b p q =
    let e = pow-suc 2 n in
    omega (
      arith,
      bit_or_step a b,
      bit_or-lt n (a / 2) (b / 2) (omega (arith, p, e)) (omega (arith, q, e)),
      e,
    )

-- A number of `m` digits, of which the first `j` are ones.
record IsTop (m j w : ℕ) : Type 0 where
  below : w < 2 ^ m
  ones : 2 ^ m ≤ w + 2 ^ (m - j)

pow_add : (a b : ℕ) → 2 ^ (a + b) ≡ 2 ^ a * 2 ^ b
pow_add a zero = ap (λ n. 2 ^ n) {x = a + 0} {y = a} (omega arith) ∙ omega arith
pow_add a (suc b) =
    ap (λ n. 2 ^ n) {x = a + suc b} {y = suc (a + b)} (omega arith)
    ∙ pow-suc 2 (a + b)
    ∙ ap (λ n. n * 2) (pow_add a b)
    ∙ mul_assoc (2 ^ a) (2 ^ b) 2
    ∙ ap (λ n. 2 ^ a * n) (sym (pow-suc 2 b))

-- What the shift of the first digits adds, with the powers as numbers.
shifted :
    (J A C w : ℕ) → 0 < J → A * J ≤ w + A → w < A * J → A ≤ C * J → (w / J < A) × (A ≤ w / J + C)
shifted J A C w pos top low c =
    let p = (div-lt_iff_lt-mul pos).1 low in
    let e = mul_comm (A - C) J ∙ mul-sub J A C in
    let q =
      (le-div_iff_mul-le {x = A - C} {y = w} pos).1
        (omega (arith, e, mul_comm J A, mul_comm J C)) in
    (p, omega (arith, q))

smear-IsTop : (m j w : ℕ) → IsTop m j w → IsTop m (j + j) (smear w j)
smear-IsTop m j w v = elim (Bool-cases (ltb m j)) [
  | inl e ↦
      let l = lt_of_ltb m j e in
      let gone = div-eq_of_lt {n = w} {m = 2 ^ j} (
        let k = pow-le-pow_right {n = 2} (omega arith) {i = m} {j = j} (omega arith) in
        omega (arith, k, v.below)) in
      let g = bit_or-ge 0 w w (w / 2 ^ j) (omega arith) (omega (arith, gone)) in
      let flat : 2 ^ (m - j) ≡ 1 = ap (λ n. 2 ^ n) {x = m - j} {y = 0} (omega arith) in
      record {
        below = bit_or-lt m w (w / 2 ^ j) v.below (let k = pow_pos m in omega (arith, gone, k));
        ones = let k = pow_pos (m - (j + j)) in omega (arith, v.ones, flat, g, gone, k);
      }
  | inr e ↦
      let l = le_of_ltb m j e in
      let whole : 2 ^ m ≡ 2 ^ (m - j) * 2 ^ j =
        ap (λ n. 2 ^ n) {x = m} {y = (m - j) + j} (omega arith) ∙ pow_add (m - j) j in
      let c : 2 ^ (m - j) ≤ 2 ^ (m - (j + j)) * 2 ^ j =
        (let k =
            pow-le-pow_right {n = 2} (omega arith) {i = m - j} {j = m - (j + j) + j}
              (omega arith) in
          omega (arith, k, pow_add (m - (j + j)) j)) in
      let (b, r) =
        shifted (2 ^ j) (2 ^ (m - j)) (2 ^ (m - (j + j))) w (pow_pos j)
          (omega (arith, v.ones, whole)) (omega (arith, v.below, whole)) c in
      let q = mul_comm (2 ^ j - 1) (2 ^ (m - j)) ∙ mul-sub (2 ^ (m - j)) (2 ^ j) 1 in
      let g = bit_or-ge (m - j) (2 ^ j - 1) w (w / 2 ^ j) (omega (arith, q, whole, v.ones)) b in
      record {
        below = bit_or-lt m w (w / 2 ^ j) v.below (
            let k = pow-le-pow_right {n = 2} (omega arith) {i = m - j} {j = m} (omega arith) in
            omega (arith, b, k));
        ones = omega (arith, g, q, whole, r, pow_pos j, pow_pos (m - j));
      }
]

-- The number of digits of `u`.
digits_of : (n u : ℕ) → u < 2 ^ n → (m : ℕ) × (m ≤ n) × IsTop m 1 u × (2 ^ m < 2 * (u + 1))
digits_of zero u h = (0, omega arith, record { below = h; ones = omega arith }, omega arith)
digits_of (suc n) u h = elim (Bool-cases (ltb u (2 ^ n))) [
  | inl e ↦ let (m, l, t, b) = digits_of n u (lt_of_ltb u (2 ^ n) e) in (m, omega arith, t, b)
  | inr e ↦
      let g = le_of_ltb u (2 ^ n) e in
      let d = pow-suc 2 n in
      (
        suc n,
        omega arith,
        record {
          below = h;
          ones = omega (arith, g, d, ap (λ i. 2 ^ i) {x = suc n - 1} {y = n} (omega arith));
        },
        omega (arith, g, d),
      )
]

-- After five rounds all of up to 32 digits are ones.
all_ones :
    (m u : ℕ)
    → m ≤ 32
    → IsTop m 1 u
    → smear (smear (smear (smear (smear u 1) 2) 4) 8) 16 + 1 ≡ 2 ^ m
all_ones m u h t =
    let t5 =
      smear-IsTop m 16 _
        (smear-IsTop m 8 _ (smear-IsTop m 4 _ (smear-IsTop m 2 _ (smear-IsTop m 1 u t)))) in
    omega (arith, t5.below, t5.ones, ap (λ i. 2 ^ i) {x = m - 32} {y = 0} (omega arith))

-- The least power of two that is not below `v`, for `v` from 1 to 2^31; the increment does not
-- overflow there.
pub next_power_of_2_lem :
    (v : ℕ)
    → 0 < v
    → v ≤ 2 ^ 31
    → (k : ℕ) × (k ≤ 31) × (next_power_of_2 v ≡ 2 ^ k) × (v ≤ 2 ^ k) × (2 ^ k < 2 * v)
unfolding next_power_of_2
next_power_of_2_lem v pos h =
    let (m, l, t, b) = digits_of 31 (v - 1) (omega arith) in
    let e = all_ones m (v - 1) (omega arith) t in
    let s = pow-le-pow_right {n = 2} (omega arith) {i = m} {j = 31} l in
    (
      m,
      l,
      rw (==_ne v 0 (λ p. absurd (omega (arith, p, pos)))) (omega (arith, e, s)),
      omega (arith, t.below),
      omega (arith, b),
    )
