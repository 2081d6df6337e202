-- ===== src/Queue/Mask.antt =====
-- `pos & mask_` is the remainder by the capacity, when that is a power of two.
use Prim.Native.Nat.{digits, bit_and-bitwise}
use native.Mathlib.Nat.{pow-suc, mod-lt, mod-eq_of_lt, add-mul-mod_self_right, div-add-mod}
use walde.Base.{
  ℕ, zero, suc, ◌+◌, ◌-◌, ◌*◌, ◌/◌, ◌%◌, ◌^◌, ◌≤◌, ◌<◌, ◌≡◌, sym, ap, ◌∙◌, min, bit_and, arith,
}

pub pow_pos : (k : ℕ) → 0 < 2 ^ k
pow_pos zero = omega arith
pow_pos (suc k) = omega (arith, pow-suc 2 k, pow_pos k)

-- A remainder is known by its quotient.
pub mod_of_parts : (a q r m : ℕ) → a ≡ r + q * m → r < m → a % m ≡ r
mod_of_parts a q r m e h = ap (λ x. x % m) e ∙ add-mul-mod_self_right r q m ∙ mod-eq_of_lt h

-- The low digit apart.
mod_double : (a m : ℕ) → 0 < m → a % (m * 2) ≡ (a / 2 % m) * 2 + a % 2
mod_double a m h =
    mod_of_parts a (a / 2 / m) ((a / 2 % m) * 2 + a % 2) (m * 2)
      (omega (arith, div-add-mod (a / 2) m)) (omega (arith, mod-lt (a / 2) h))

mask_digits : (n a k : ℕ) → a ≤ n → digits (λ _. zero) min n a (2 ^ k - 1) ≡ a % 2 ^ k
mask_digits zero zero k h = sym (mod-eq_of_lt (pow_pos k))
mask_digits zero (suc a) k h = absurd (omega arith)
mask_digits (suc n) zero k h = sym (mod-eq_of_lt (pow_pos k))
mask_digits (suc n) (suc a) zero h = omega (arith, mask_digits n (suc a / 2) 0 (omega arith))
mask_digits (suc n) (suc a) (suc k) h =
    ap (λ b. digits (λ _. zero) min n (suc a / 2) (b / 2) * 2 + min (suc a % 2) (b % 2)) ones
    ∙ ap
        (λ b.
          digits (λ _. zero) min n (suc a / 2) b * 2 + min (suc a % 2) (((2 ^ k - 1) * 2 + 1) % 2))
        half
    ∙ omega (
      arith,
      mask_digits n (suc a / 2) k (omega arith),
      mod_double (suc a) (2 ^ k) (pow_pos k),
      ap (λ m. suc a % m) (pow-suc 2 k),
    )
  where
    ones : 2 ^ suc k - 1 ≡ (2 ^ k - 1) * 2 + 1
    ones = omega (arith, pow-suc 2 k, pow_pos k)

    half : ((2 ^ k - 1) * 2 + 1) / 2 ≡ 2 ^ k - 1
    half = omega arith

-- Masking with `2 ^ k - 1`.
pub bit_and-mask : (a k : ℕ) → bit_and a (2 ^ k - 1) ≡ a % 2 ^ k
bit_and-mask a k = bit_and-bitwise a (2 ^ k - 1) ∙ mask_digits a a k (omega arith)
