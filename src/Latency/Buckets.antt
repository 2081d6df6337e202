-- ===== src/Latency/Buckets.antt =====
-- Which bucket a latency is counted in.
use walde.Base.{
  ℕ, zero, suc, ◌+◌, ◌-◌, ◌*◌, ◌^◌, ◌≤◌, ◌<◌, ◌≡◌, ◌⊎◌, refl, sym, ap, ◌∙◌, subst, inl, inr, true,
  false, Bool-cases, ltb, leb, ltb-true, leb-true, leb-false, le_of_leb, lt_of_leb, lt_of_ltb,
  le_of_ltb, arith,
}
use native.Mathlib.Nat.{pow-le-pow_right, pow-succ'}
use walde.Latency.{flip, ge64, shl64, climb, bucket_of}

-- Signed words that are not negative compare as numbers.
ge64-true : (a b : ℕ) → a < 2 ^ 63 → b ≤ a → ge64 a b ≡ true
unfolding ge64
ge64-true a b h l = leb-true (flip b) (flip a) (omega arith)

ge64-false : (a b : ℕ) → b < 2 ^ 63 → a < b → ge64 a b ≡ false
unfolding ge64
ge64-false a b h l = leb-false (flip b) (flip a) (omega arith)

-- A number that is not negative is at least a negative one.
ge64-negative : (a b : ℕ) → a < 2 ^ 63 → 2 ^ 63 ≤ b → b < 2 ^ 64 → ge64 a b ≡ true
unfolding ge64
ge64-negative a b h l w = leb-true (flip b) (flip a) (omega arith)

pow_twice : (b : ℕ) → 2 ^ (b + 1) ≡ 2 * 2 ^ b
pow_twice b = ap (λ n. 2 ^ n) {x = b + 1} {y = suc b} (omega arith) ∙ pow-succ' 2 b

-- The next threshold.
double : (b : ℕ) → b ≤ 55 → shl64 (100 * 2 ^ b) 1 ≡ 100 * 2 ^ (b + 1)
double b h =
    let twice = pow_twice b in
    let bound : 2 ^ b ≤ 2 ^ 55 = pow-le-pow_right (omega arith) h in omega (arith, twice, bound)

-- A negative number is below every number that is not.
ge64-below : (a b : ℕ) → 2 ^ 63 ≤ a → a < 2 ^ 64 → b < 2 ^ 63 → ge64 a b ≡ false
unfolding ge64
ge64-below a b l w h = leb-false (flip b) (flip a) (omega arith)

module _ (ns : ℕ) where
  climbs :
      (n bucket threshold : ℕ)
      → bucket < 63
      → ge64 ns threshold ≡ true
      → climb (suc n) bucket ns threshold ≡ climb n (bucket + 1) ns (shl64 threshold 1)
  unfolding climb
  climbs n bucket threshold h e = rw (ltb-true bucket 63 h, e) refl

  stays :
      (n bucket threshold : ℕ)
      → ge64 ns threshold ≡ false
      → climb (suc n) bucket ns threshold ≡ bucket
  unfolding climb
  stays n bucket threshold e = elim (Bool-cases (ltb bucket 63)) [
    | inl p ↦ rw (p, e) refl
    | inr p ↦ rw p refl
  ]

  -- Below 100 * 2^56 the thresholds do not overflow.
  low :
      (n c : ℕ)
      → c ≤ 55
      → 57 ≤ n + (c + 1)
      → 100 * 2 ^ c ≤ ns
      → ns < 100 * 2 ^ 56
      → (d : ℕ) × (climb n (c + 1) ns (100 * 2 ^ (c + 1)) ≡ d + 1)
        × (d ≤ 55)
        × (100 * 2 ^ d ≤ ns)
        × (ns < 100 * 2 ^ (d + 1))
  low zero c h g a l = absurd (omega arith)
  low (suc n) c h g a l = elim (Bool-cases (leb (100 * 2 ^ (c + 1)) ns)) [
    | inr p ↦ (
      c,
      stays n (c + 1) (100 * 2 ^ (c + 1)) (
          ge64-false ns (100 * 2 ^ (c + 1)) (omega (arith, pow-le-pow_right two (up c 55 h)))
            (lt_of_leb _ _ p)),
      h,
      a,
      lt_of_leb _ _ p,
    )
    | inl p ↦
        let more = le_of_leb (100 * 2 ^ (c + 1)) ns p in
        let small : c ≤ 54 = elim (Bool-cases (leb c 54)) [
          | inl q ↦ le_of_leb c 54 q
          | inr q ↦
              let far : 56 ≤ c + 1 = let z = lt_of_leb c 54 q in omega arith in
              absurd (omega (arith, pow-le-pow_right two far))
        ] in
        let bound = pow-le-pow_right two (up c 54 small) in
        let (d, e, x, y, z) = low n (c + 1) (omega arith) (omega arith) more l in
        (
          d,
          climbs n (c + 1) (100 * 2 ^ (c + 1)) (omega arith)
                (ge64-true ns (100 * 2 ^ (c + 1)) (omega arith) more)
              ∙ ap (climb n (c + 1 + 1) ns) (double (c + 1) (omega arith))
              ∙ e,
          x,
          y,
          z,
        )
  ]
    where
      two : 0 < 2
      two = omega arith

      up : (i j : ℕ) → i ≤ j → i + 1 ≤ j + 1
      up i j h = omega arith

  -- The first `m` rounds, if every threshold is passed.
  rounds :
      (m : ℕ)
      → m ≤ 55
      → 100 * 2 ^ m ≤ ns
      → ns < 2 ^ 63
      → climb 64 1 ns 200 ≡ climb (64 - m) (m + 1) ns (100 * 2 ^ (m + 1))
  rounds zero h a l = refl
  rounds (suc m) h a l =
      let twice = pow_twice m in
      let bound = pow-le-pow_right two (up m 54 (omega arith)) in
      rounds m (omega arith) (omega (arith, twice)) l
      ∙ ap (λ n. climb n (m + 1) ns (100 * 2 ^ (m + 1))) {x = 64 - m} {y = suc (63 - m)}
          (omega arith)
      ∙ climbs (63 - m) (m + 1) _ (omega arith) (ge64-true ns (100 * 2 ^ (m + 1)) l (omega arith))
      ∙ ap (λ n. climb n (m + 1 + 1) ns (shl64 (100 * 2 ^ (m + 1)) 1)) {x = 63 - m} {y = 64 - suc m}
          (omega arith)
      ∙ ap (climb (64 - suc m) (m + 1 + 1) ns) (double (m + 1) (omega arith))
      ∙ ap (λ b. climb (64 - suc m) b ns (100 * 2 ^ b)) {x = m + 1 + 1} {y = suc m + 1}
          (omega arith)
    where
      two : 0 < 2
      two = omega arith

      up : (i j : ℕ) → i ≤ j → i + 1 ≤ j + 1
      up i j h = omega arith

  -- From 100 * 2^56 on every threshold is passed: those that are too large wrap around.
  high : 100 * 2 ^ 56 ≤ ns → ns < 2 ^ 63 → climb 9 56 ns (100 * 2 ^ 56) ≡ 63
  high a l =
      climbs 8 56 _ (omega arith) (ge64-true ns _ l a)
      ∙ climbs 7 57 _ (omega arith) (ge64-negative ns _ l (omega arith) (omega arith))
      ∙ climbs 6 58 _ (omega arith) (ge64-negative ns _ l (omega arith) (omega arith))
      ∙ climbs 5 59 _ (omega arith) (ge64-true ns _ l (omega arith))
      ∙ climbs 4 60 _ (omega arith) (ge64-true ns _ l (omega arith))
      ∙ climbs 3 61 _ (omega arith) (ge64-negative ns _ l (omega arith) (omega arith))
      ∙ climbs 2 62 _ (omega arith) (ge64-true ns _ l (omega arith))
      ∙ last 1 _
    where
      last : (n t : ℕ) → climb (suc n) 63 ns t ≡ 63
      last n t = unfold climb in refl

-- The bucket of a latency: bucket 0 below 100 ns and for a negative number, bucket `b + 1` from
-- 100 * 2^b up to twice that, and bucket 63 from 100 * 2^56 on.
pub data InBucket (ns : ℕ) : ℕ → Type 0 where
  under : (ns < 100) ⊎ (2 ^ 63 ≤ ns) → InBucket ns 0
  within : (b : ℕ) → b ≤ 55 → 100 * 2 ^ b ≤ ns → ns < 100 * 2 ^ (b + 1) → InBucket ns (b + 1)
  over : 100 * 2 ^ 56 ≤ ns → ns < 2 ^ 63 → InBucket ns 63

-- The loop ends, and every latency is counted in the bucket that its size says.
pub bucket_of-InBucket : (ns : ℕ) → ns < 2 ^ 64 → InBucket ns (bucket_of ns)
unfolding bucket_of
bucket_of-InBucket ns w = elim (Bool-cases (ltb ns 100)) [
  | inl p ↦ let h = lt_of_ltb ns 100 p in rw (ge64-false ns 100 (omega arith) h) (under (inl h))
  | inr p ↦ elim (Bool-cases (ltb ns (2 ^ 63))) [
    | inr q ↦
        let h = le_of_ltb ns (2 ^ 63) q in rw (ge64-below ns 100 h w (omega arith)) (under (inr h))
    | inl q ↦
        let a = le_of_ltb ns 100 p in
        let l = lt_of_ltb ns (2 ^ 63) q in
        rw (ge64-true ns 100 l a) (elim (Bool-cases (ltb ns (100 * 2 ^ 56))) [
          | inl r ↦
              let (d, e, x, y, z) =
                low ns 64 0 (omega arith) (omega arith) (omega arith)
                  (lt_of_ltb ns (100 * 2 ^ 56) r) in
              subst (InBucket ns) (sym e) (within d x y z)
          | inr r ↦
              let b = le_of_ltb ns (100 * 2 ^ 56) r in
              subst (InBucket ns) (sym (rounds ns 55 (omega arith) (omega arith) l ∙ high ns b l))
                (over b l)
        ])
  ]
]
