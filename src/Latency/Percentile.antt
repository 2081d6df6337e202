-- ===== src/Latency/Percentile.antt =====
-- `percentile_us` against the list of latencies: where the loop over the buckets stops.
use walde.Base.{
  ℕ, zero, suc, ◌+◌, ◌^◌, ◌≤◌, ◌<◌, ◌≡◌, refl, sym, ap, ◌∙◌, inl, inr, Bool-cases, none, some, List,
  [], ◌∷◌, length, ◌==◌, eq_of_==, ne_of_==, ==_ne, ltb, ltb-true, ltb-false, lt_of_ltb, le_of_ltb,
  arith, if◌then◌else◌,
}
use walde.Base.Arith.{add64}
use walde.Latency.{
  LatencyHistogram, Estimate, num_buckets, ge64, shl64, climb, bucket_of, find_bucket, estimate_at,
  percentile_us,
}
use walde.Latency.Samples.{Tallies, tally}

climb-le : (n b ns t : ℕ) → b ≤ 63 → climb n b ns t ≤ 63
unfolding climb
climb-le zero b ns t h = h
climb-le (suc n) b ns t h = elim (Bool-cases (ltb b 63)) [
  | inr p ↦ rw p h
  | inl p ↦
      let l = lt_of_ltb b 63 p in
      elim (Bool-cases (ge64 ns t)) [
        | inl q ↦ rw (p, q) (climb-le n (b + 1) ns (shl64 t 1) (omega arith))
        | inr q ↦ rw (p, q) h
      ]
]

-- There is a counter for every latency.
pub bucket_of-lt : (ns : ℕ) → bucket_of ns < num_buckets
unfolding bucket_of
bucket_of-lt ns = elim (Bool-cases (ge64 ns 100)) [
  | inl p ↦ rw p (let h = climb-le 64 1 ns 200 (omega arith) in omega arith)
  | inr p ↦ rw p (omega arith)
]

-- How many latencies are in the buckets before bucket `n`.
unfoldable pub below : ℕ → List ℕ → ℕ
below n [] = 0
below n (ns ∷ samples) = if ltb (bucket_of ns) n then suc (below n samples) else below n samples

below-suc : (n : ℕ) (samples : List ℕ) → below (suc n) samples ≡ below n samples + tally n samples
unfolding below tally
below-suc n [] = omega arith
below-suc n (ns ∷ samples) = elim (Bool-cases (ltb (bucket_of ns) n)) [
  | inl p ↦
      let h = lt_of_ltb (bucket_of ns) n p in
      rw
        (
          p,
          ltb-true (bucket_of ns) (suc n) (omega arith),
          ==_ne (bucket_of ns) n (λ e. absurd (omega arith)),
        )
        (omega (arith, below-suc n samples))
  | inr p ↦
      let h = le_of_ltb (bucket_of ns) n p in
      elim (Bool-cases (bucket_of ns == n)) [
        | inl q ↦
            let e = eq_of_== (bucket_of ns) n q in
            rw (p, q, ltb-true (bucket_of ns) (suc n) (omega arith))
              (omega (arith, below-suc n samples))
        | inr q ↦
            let e = ne_of_== (bucket_of ns) n q in
            rw (p, q, ltb-false (bucket_of ns) (suc n) (omega arith)) (below-suc n samples)
      ]
]

below-zero : (samples : List ℕ) → below 0 samples ≡ 0
unfolding below
below-zero [] = refl
below-zero (ns ∷ samples) = rw (ltb-false (bucket_of ns) 0 (omega arith)) (below-zero samples)

below-all : (samples : List ℕ) → below num_buckets samples ≡ length samples
unfolding below
below-all [] = refl
below-all (ns ∷ samples) =
    rw (ltb-true (bucket_of ns) num_buckets (bucket_of-lt ns)) (ap suc (below-all samples))

below-le : (n : ℕ) (samples : List ℕ) → below n samples ≤ length samples
unfolding below
below-le n [] = omega arith
below-le n (ns ∷ samples) = elim (Bool-cases (ltb (bucket_of ns) n)) [
  | inl p ↦ rw p (omega (arith, below-le n samples))
  | inr p ↦ rw p (omega (arith, below-le n samples))
]

-- Bucket `b` holds the latency that has `target` others before it, in the order of the buckets.
abbrev pub IsRank : ℕ → List ℕ → ℕ → Type 0
IsRank target samples b = (below b samples ≤ target) × (target < below (suc b) samples)

module _ (h : LatencyHistogram) (samples : List ℕ) (v : Tallies h samples)
    (few : length samples < 2 ^ 64) (target : ℕ) where
  added : (i : ℕ) → i < num_buckets → add64 (below i samples) (h.counts i) ≡ below (suc i) samples
  added i l = omega (arith, v.counts i l, below-suc i samples, below-le (suc i) samples, few)

  find_bucket-IsRank :
      (n i : ℕ)
      → i + n ≡ num_buckets
      → below i samples ≤ target
      → target < length samples
      → (b : ℕ) × (find_bucket h.counts target n i (below i samples) ≡ some b)
        × IsRank target samples b
  unfolding find_bucket
  find_bucket-IsRank zero i e a l =
      let z : i ≡ num_buckets = omega arith in
      absurd (omega (arith, ap (λ k. below k samples) z, below-all samples))
  find_bucket-IsRank (suc n) i e a l =
      let step = added i (omega arith) in
      elim (Bool-cases (ltb target (below (suc i) samples))) [
        | inl p ↦ (i, rw (step, p) refl, (a, lt_of_ltb target _ p))
        | inr p ↦
            let (b, q, r) = find_bucket-IsRank n (suc i) (omega arith) (le_of_ltb target _ p) l in
            (
              b,
              rw (step, p)
                  (ap (λ j. find_bucket h.counts target n j (below (suc i) samples)) {x = i + 1}
                      {y = suc i} (omega arith)
                    ∙ q),
              r,
            )
      ]

  find_bucket-none :
      (n i : ℕ)
      → i + n ≡ num_buckets
      → length samples ≤ target
      → find_bucket h.counts target n i (below i samples) ≡ none
  unfolding find_bucket
  find_bucket-none zero i e l = refl
  find_bucket-none (suc n) i e l =
      rw
        (
          added i (omega arith),
          ltb-false target (below (suc i) samples) (omega (arith, below-le (suc i) samples)),
        )
        (ap (λ j. find_bucket h.counts target n j (below (suc i) samples)) {x = i + 1} {y = suc i}
            (omega arith)
          ∙ find_bucket-none n (suc i) (omega arith) l)

-- What `percentile_us` answers for the latencies that were recorded, where `target` is the converted
-- product of `p` and their number.
abbrev pub Answers : List ℕ → ℕ → Estimate → Type 0
Answers samples target r =
    if length samples == 0
    then r ≡ Estimate.zero_us
    else if ltb target (length samples)
    then ((b : ℕ) × (r ≡ estimate_at (some b)) × IsRank target samples b)
    else r ≡ Estimate.beyond_us

-- For a histogram of fewer than 2^64 latencies `percentile_us` answers 0 if there are none, the
-- estimate for the bucket of the latency with the target rank if there is one of that rank, and the
-- constant after the loop, whatever the latencies are, if the target is their number or more.
pub percentile_us-Answers :
    (scaled : ℕ → ℕ) (h : LatencyHistogram) (samples : List ℕ)
    → Tallies h samples
    → length samples < 2 ^ 64
    → Answers samples (scaled (length samples)) (percentile_us scaled h)
unfolding percentile_us
percentile_us-Answers scaled h samples v few =
    let total : h.total_count ≡ length samples = omega (arith, v.total_count) in
    let target = scaled (length samples) in
    let first = ap (find_bucket h.counts target num_buckets 0) (sym (below-zero samples)) in
    elim (Bool-cases (length samples == 0)) [
      | inl p ↦ rw (total, p) refl
      | inr p ↦ elim (Bool-cases (ltb target (length samples))) [
        | inl q ↦
            let (b, e, r) =
              find_bucket-IsRank h samples v few target num_buckets 0 (omega arith)
                (omega (arith, below-zero samples)) (lt_of_ltb target _ q) in
            rw (total, p, q) (b, ap estimate_at (first ∙ e), r)
        | inr q ↦
            rw (total, p, q)
              (ap estimate_at (
                first
                ∙ find_bucket-none h samples v few target num_buckets 0 (omega arith)
                    (le_of_ltb target _ q)))
      ]
    ]
