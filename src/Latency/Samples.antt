-- ===== src/Latency/Samples.antt =====
-- A histogram against the list of latencies that were recorded in it.
use walde.Base.{
  ℕ, zero, suc, ◌+◌, ◌%◌, ◌^◌, ◌≤◌, ◌<◌, ◌≡◌, refl, ap, ◌∙◌, inl, inr, Bool-cases, List, [], ◌∷◌,
  ◌++◌, length, length-append, ◌==◌, eq_of_==, ne_of_==, ==_ne, arith, if◌then◌else◌, update,
}
use walde.Base.Arith.{add64}
use walde.Latency.{LatencyHistogram, num_buckets, bucket_of, record_ns, merge_counts, merge, reset}

-- How many latencies are counted in bucket `j`.
unfoldable pub tally : ℕ → List ℕ → ℕ
tally j [] = 0
tally j (ns ∷ samples) = if bucket_of ns == j then suc (tally j samples) else tally j samples

-- Their sum.
unfoldable pub sum : List ℕ → ℕ
sum [] = 0
sum (ns ∷ samples) = ns + sum samples

-- The counters are those of the latencies, as words.
pub record Tallies (h : LatencyHistogram) (samples : List ℕ) : Type 0 where
  pub counts : (j : ℕ) → j < num_buckets → h.counts j ≡ tally j samples % 2 ^ 64
  pub total_count : h.total_count ≡ length samples % 2 ^ 64
  pub total_sum : h.total_sum ≡ sum samples % 2 ^ 64

pub reset-Tallies : (h : LatencyHistogram) → Tallies (reset h) []
unfolding reset tally sum
reset-Tallies h = record { counts = λ j l. refl; total_count = refl; total_sum = refl }

-- One more latency.
pub record_ns-Tallies :
    (ns : ℕ) (h : LatencyHistogram) (samples : List ℕ)
    → Tallies h samples
    → Tallies (record_ns ns h) (ns ∷ samples)
unfolding record_ns tally sum
record_ns-Tallies ns h samples v = record {
  counts = λ j l. elim (Bool-cases (bucket_of ns == j)) [
    | inl p ↦
        rw p (
          ap (λ n. add64 (h.counts n) 1) (eq_of_== (bucket_of ns) j p)
          ∙ omega (arith, v.counts j l))
    | inr p ↦ rw p (v.counts j l)
  ];
  total_count = omega (arith, v.total_count);
  total_sum = omega (arith, v.total_sum);
}

pub tally-append : (j : ℕ) (xs ys : List ℕ) → tally j (xs ++ ys) ≡ tally j xs + tally j ys
unfolding tally
tally-append j [] ys = omega arith
tally-append j (x ∷ xs) ys = elim (Bool-cases (bucket_of x == j)) [
  | inl p ↦ rw p (omega (arith, tally-append j xs ys))
  | inr p ↦ rw p (tally-append j xs ys)
]

sum-append : (xs ys : List ℕ) → sum (xs ++ ys) ≡ sum xs + sum ys
unfolding sum
sum-append [] ys = omega arith
sum-append (x ∷ xs) ys = omega (arith, sum-append xs ys)

-- The loop of `merge` leaves the counters below `i` and adds those from `i` on.
merge_counts-below : (n i : ℕ) (f g : ℕ → ℕ) (j : ℕ) → j < i → merge_counts n i f g j ≡ f j
unfolding merge_counts
merge_counts-below zero i f g j h = refl
merge_counts-below (suc n) i f g j h =
    merge_counts-below n (i + 1) (update f i (add64 (f i) (g i))) g j (omega arith)
    ∙ rw (==_ne i j (λ e. absurd (omega arith))) refl

merge_counts-from :
    (n i : ℕ) (f g : ℕ → ℕ) (j : ℕ) → i ≤ j → j < i + n → merge_counts n i f g j ≡ add64 (f j) (g j)
unfolding merge_counts
merge_counts-from zero i f g j a l = absurd (omega arith)
merge_counts-from (suc n) i f g j a l = elim (Bool-cases (i == j)) [
  | inl p ↦
      let e = eq_of_== i j p in
      merge_counts-below n (i + 1) (update f i (add64 (f i) (g i))) g j (omega arith)
      ∙ rw p (ap (λ k. add64 (f k) (g k)) e)
  | inr p ↦
      let ne = ne_of_== i j p in
      merge_counts-from n (i + 1) (update f i (add64 (f i) (g i))) g j (omega arith) (omega arith)
      ∙ rw p refl
]

-- Two histograms merged count the latencies of both.
pub merge-Tallies :
    (h other : LatencyHistogram) (xs ys : List ℕ)
    → Tallies h xs
    → Tallies other ys
    → Tallies (merge h other) (xs ++ ys)
unfolding merge
merge-Tallies h other xs ys v w = record {
  counts = λ j l.
      merge_counts-from num_buckets 0 h.counts other.counts j (omega arith) (omega arith)
      ∙ omega (arith, v.counts j l, w.counts j l, tally-append j xs ys);
  total_count = omega (arith, v.total_count, w.total_count, length-append xs ys);
  total_sum = omega (arith, v.total_sum, w.total_sum, sum-append xs ys);
}
