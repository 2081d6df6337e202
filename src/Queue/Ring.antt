-- ===== src/Queue/Ring.antt =====
-- The buffer of the demotion queue as a ring of `2 ^ k` slots.
use Prim.Native.Nat.{◌∣◌}
use native.Mathlib.Nat.{
  mod-lt, mod-add-mod, mod-mod_of_dvd, div-add-mod, pow-suc, dvd_refl, dvd-mul_right_of_dvd,
}
use walde.Base.{
  ℕ, zero, suc, ◌+◌, ◌-◌, ◌/◌, ◌%◌, ◌^◌, ◌≤◌, ◌<◌, ◌≡◌, ◌≢◌, sym, ap, ◌∙◌, subst, List, [], ◌∷◌,
  ◌++◌, length, drop, update, update_ne, arith, inl, inr, Bool-cases, ltb, lt_of_ltb, ◌==◌,
  eq_of_==, ne_of_==,
}
use walde.Queue.{DemotionItem}
use walde.Queue.Mask.{mod_of_parts}

-- From position `r` on, the slots hold `xs`.
abbrev pub Holds : (ℕ → DemotionItem) → ℕ → ℕ → List DemotionItem → Type 0
Holds buf m r [] = Unit
Holds buf m r (x ∷ xs) = (buf (r % m) ≡ x) × Holds buf m (r + 1) xs

pub Holds-cong :
    (buf : ℕ → DemotionItem) (m r q : ℕ) (xs : List DemotionItem)
    → r % m ≡ q % m
    → Holds buf m r xs
    → Holds buf m q xs
Holds-cong buf m r q [] e h = tt
Holds-cong buf m r q (x ∷ xs) e h = (
  ap buf (sym e) ∙ h.0,
  Holds-cong buf m (r + 1) (q + 1) xs
      (sym (mod-add-mod r m 1) ∙ ap (λ n. (n + 1) % m) e ∙ mod-add-mod q m 1) h.1,
)

-- Fewer than `m` steps on stands another slot.
mod_ahead : (a d m : ℕ) → 0 < d → d < m → (a + d) % m ≢ a % m
mod_ahead a d m p h e = elim (Bool-cases (ltb (a % m + d) m)) [
  | inl b ↦ omega (
    arith,
    mod_of_parts (a + d) (a / m) (a % m + d) m (omega (arith, div-add-mod a m)) (lt_of_ltb _ _ b),
  )
  | inr b ↦
      let over : m ≤ a % m + d = ground arith in
      omega (
        arith,
        mod_of_parts (a + d) (a / m + 1) (a % m + d - m) m (omega (arith, div-add-mod a m))
            (omega (arith, mod-lt a {m = m} (omega arith))),
        mod-lt a {m = m} (omega arith),
      )
]

-- A write behind the items leaves them in place.
pub Holds-update :
    (buf : ℕ → DemotionItem) (m r w : ℕ) (x : DemotionItem) (xs : List DemotionItem)
    → r + length xs ≤ w
    → w < r + m
    → Holds buf m r xs
    → Holds (update buf (w % m) x) m r xs
Holds-update buf m r w x [] h k b = tt
Holds-update buf m r w x (y ∷ ys) h k b = (
  update_ne buf (w % m) (r % m) x apart ∙ b.0,
  Holds-update buf m (r + 1) w x ys (omega arith) (omega arith) b.1,
)
  where
    e : w ≡ r + (w - r)
    e = omega arith

    apart : w % m ≢ r % m
    apart p = mod_ahead r (w - r) m (omega arith) (omega arith) (ap (λ n. n % m) (sym e) ∙ p)

pub Holds-snoc :
    (buf : ℕ → DemotionItem) (m r : ℕ) (x : DemotionItem) (xs : List DemotionItem)
    → buf ((r + length xs) % m) ≡ x
    → Holds buf m r xs
    → Holds buf m r (xs ++ x ∷ [])
Holds-snoc buf m r x [] e h = (ap (λ n. buf (n % m)) {x = r} {y = r + 0} (omega arith) ∙ e, tt)
Holds-snoc buf m r x (y ∷ ys) e h = (
  h.0,
  Holds-snoc buf m (r + 1) x ys
      (ap (λ n. buf (n % m)) (let p : r + 1 + length ys ≡ r + suc (length ys) = omega arith in p)
        ∙ e)
      h.1,
)

pow_dvd : (k n : ℕ) → k ≤ n → 2 ^ k ∣ 2 ^ n
pow_dvd k zero h = subst (λ j. 2 ^ k ∣ 2 ^ j) {x = k} {y = 0} (omega arith) (dvd_refl (2 ^ k))
pow_dvd k (suc n) h = elim (Bool-cases (k == suc n)) [
  | inl e ↦ subst (λ j. 2 ^ k ∣ 2 ^ j) (eq_of_== k (suc n) e) (dvd_refl (2 ^ k))
  | inr e ↦
      subst (λ p. 2 ^ k ∣ p) (sym (pow-suc 2 n))
        (dvd-mul_right_of_dvd (2 ^ k) (pow_dvd k n (omega (arith, ne_of_== k (suc n) e))) 2)
]

-- The capacity divides the range of the 64-bit positions, so their wrap-around is harmless.
pub wrap_mod : (a k : ℕ) → k ≤ 64 → a % 2 ^ 64 % 2 ^ k ≡ a % 2 ^ k
wrap_mod a k h = mod-mod_of_dvd (2 ^ k) a (pow_dvd k 64 h)

pub Holds-drop :
    (buf : ℕ → DemotionItem) (m r n : ℕ) (xs : List DemotionItem)
    → n ≤ length xs
    → Holds buf m r xs
    → Holds buf m (r + n) (drop n xs)
Holds-drop buf m r zero xs h b =
    Holds-cong buf m r (r + 0) xs (ap (λ j. j % m) {x = r} {y = r + 0} (omega arith)) b
Holds-drop buf m r (suc n) [] h b = absurd (omega arith)
Holds-drop buf m r (suc n) (x ∷ xs) h b =
    Holds-cong buf m (r + 1 + n) (r + suc n) (drop n xs)
      (ap (λ j. j % m) {x = r + 1 + n} {y = r + suc n} (omega arith))
      (Holds-drop buf m (r + 1) n xs (omega arith) b.1)
