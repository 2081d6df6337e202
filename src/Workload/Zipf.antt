-- ===== src/Workload/Zipf.antt =====
-- The table of the Zipf generator, and the index that a draw picks.
use walde.Base.{
  ℕ, zero, suc, ◌+◌, ◌%◌, ◌^◌, ◌<◌, ◌≡◌, refl, sym, ap, ◌∙◌, subst, true, false, Bool-cases, inl,
  inr, none, some, List, [], ◌∷◌, length, arith, ==_ne, ◌-◌,
}
use walde.Workload.{
  Doubles, Engine64, ZipfianGenerator, harmonic, cdf_from, set_last, filled, init_zipf, lower_bound,
  next_index,
}

module _ {G D : Type 0} (d : Doubles D) (r : Engine64 G D) where
  -- The table ends with 1.0.
  abbrev pub EndsWithOne : List D → Type 0
  EndsWithOne [] = true ≡ false
  EndsWithOne (x ∷ []) = x ≡ d.of_nat 1
  EndsWithOne (x ∷ y ∷ ys) = EndsWithOne (y ∷ ys)

  -- The table has an entry for each key and ends with 1.0.
  pub record IsZipf (z : ZipfianGenerator G D) : Type 0 where
    pub sized : length z.cdf ≡ z.num_keys
    pub word : z.num_keys < 2 ^ 32
    pub last : EndsWithOne z.cdf

  length-cdf_from : (alpha h : D) (n i : ℕ) (c : D) → length (cdf_from d r alpha h n i c) ≡ n
  unfolding cdf_from
  length-cdf_from alpha h zero i c = refl
  length-cdf_from alpha h (suc n) i c = ap suc (length-cdf_from alpha h n (i + 1) _)

  set_last_lem :
      (x : D) (xs : List D)
      → (ys : List D) × (set_last d r (x ∷ xs) ≡ some ys)
        × (length ys ≡ suc (length xs))
        × EndsWithOne ys
  unfolding set_last
  set_last_lem x [] = (d.of_nat 1 ∷ [], refl, refl, refl)
  set_last_lem x (y ∷ ys) =
      let (zs, e, l, w) = set_last_lem y ys in (x ∷ zs, rw e refl, ap suc l, longer zs l w)
    where
      longer : (zs : List D) → length zs ≡ suc (length ys) → EndsWithOne zs → EndsWithOne (x ∷ zs)
      longer [] l w = absurd (omega arith)
      longer (z ∷ zs) l w = w

  -- What the constructor builds for a number of keys.
  abbrev pub Built : ℕ → D → ℕ → Type 0
  Built zero alpha seed = init_zipf d r 0 alpha seed ≡ none
  Built (suc n) alpha seed =
      (z : ZipfianGenerator G D) × (init_zipf d r (suc n) alpha seed ≡ some z)
      × IsZipf z
      × (z.num_keys ≡ suc n)

  -- With at least one key, and not the largest number of them, the constructor fills a table with an entry for each key, the last of them
  -- 1.0; without a key it writes outside the table.
  pub init_zipf-IsZipf :
      (num_keys : ℕ) (alpha : D) (seed : ℕ) → num_keys < 2 ^ 32 - 1 → Built num_keys alpha seed
  unfolding init_zipf cdf_from
  init_zipf-IsZipf zero alpha seed h = unfold set_last in refl
  init_zipf-IsZipf (suc n) alpha seed small =
      let h = harmonic d r alpha (suc n) 1 (d.of_nat 0) in
      let c = d.add (d.of_nat 0) (d.div (d.div (d.of_nat 1) (d.pow (d.of_nat 1) alpha)) h) in
      let (ys, e, l, w) = set_last_lem c (cdf_from d r alpha h n 1 c) in
      (
        record { num_keys = suc n; alpha = alpha; rng = r.seeded seed; cdf = ys },
        rw (==_ne (suc n) (2 ^ 32 - 1) (λ q. absurd (omega arith)))
            (ap (filled d r (suc n) alpha seed) e),
        record { sized = l ∙ ap suc (length-cdf_from alpha h n 1 c); word = omega arith; last = w },
        refl,
      )

  lower_bound-lt :
      (u : D) (x : D) (xs : List D)
      → d.less (d.of_nat 1) u ≡ false
      → EndsWithOne (x ∷ xs)
      → lower_bound d r (x ∷ xs) u < suc (length xs)
  unfolding lower_bound
  lower_bound-lt u x [] h w = rw (ap (λ z. d.less z u) w ∙ h) (omega arith)
  lower_bound-lt u x (y ∷ ys) h w = elim (Bool-cases (d.less x u)) [
    | inl p ↦ rw p (let l = lower_bound-lt u y ys h w in omega arith)
    | inr p ↦ rw p (omega arith)
  ]

  -- If a draw is not above 1.0, the index that it picks is that of a key, and the generator stays well
  -- formed.
  pub next_index-lt :
      (z : ZipfianGenerator G D)
      → IsZipf z
      → d.less (d.of_nat 1) (r.draw z.rng).0 ≡ false
      → ((next_index d r z).0 < z.num_keys) × IsZipf (next_index d r z).1
  unfolding next_index
  next_index-lt z v h = at z.cdf refl
    where
      at :
          (xs : List D)
          → z.cdf ≡ xs
          → ((lower_bound d r z.cdf (r.draw z.rng).0 % 2 ^ 32) < z.num_keys)
            × IsZipf (record z { rng = (r.draw z.rng).1 })
      at [] e = absurd (let w = subst EndsWithOne e v.last in cc)
      at (x ∷ xs) e =
          let u = (r.draw z.rng).0 in
          let l = lower_bound-lt u x xs h (subst EndsWithOne e v.last) in
          let same = ap (λ c. lower_bound d r c u) e in
          let size = sym v.sized ∙ ap length e in
          (
            omega (arith, l, same, size, v.word),
            record { sized = v.sized; word = v.word; last = v.last },
          )
