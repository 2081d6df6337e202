-- ===== src/Latency/Tests.antt =====
-- Histograms and trackers of a few latencies.
use walde.Base.{ℕ, ◌-◌, ◌*◌, ◌/◌, ◌^◌, ◌≡◌, refl, some, [], ◌∷◌, arith}
use walde.Latency.{
  HitPath, LatencyBreakdown, LatencyHistogram, Estimate, empty_histogram, bucket_of, record_ns,
  percentile_us, reset, estimate_at,
}
use walde.Latency.Buckets.{InBucket, bucket_of-InBucket}
use walde.Latency.Samples.{Tallies, reset-Tallies, record_ns-Tallies}
use walde.Latency.Percentile.{Answers, percentile_us-Answers}
use walde.Latency.Tracker.{
  PathLatencyTracker, Tracks, on_path, positives, path_histogram, record_breakdown, merge_tracker,
}
use walde.Latency.Tracked.{record_breakdown-Tracks, merge_tracker-Tracks}

test_buckets :
    (bucket_of 99 ≡ 0)
    × (bucket_of 100 ≡ 1)
    × (bucket_of 199 ≡ 1)
    × (bucket_of 200 ≡ 2)
    × (bucket_of (2 ^ 64 - 1) ≡ 0)
    × (bucket_of (100 * 2 ^ 56) ≡ 63)
unfolding bucket_of
test_buckets = (refl, refl, refl, refl, refl, refl)

-- The middle of the last bucket is computed as 0.
last_bucket : estimate_at (some 63) ≡ Estimate.middle 0
last_bucket = refl

bucket_of-InBucket_example : InBucket 250 (bucket_of 250)
bucket_of-InBucket_example = bucket_of-InBucket 250 (omega arith)

abbrev histogram : LatencyHistogram
histogram = record_ns 250 (record_ns 50 empty_histogram)

histogram-Tallies : Tallies histogram (250 ∷ 50 ∷ [])
unfolding reset
histogram-Tallies =
    record_ns-Tallies 250 (record_ns 50 empty_histogram) (50 ∷ [])
      (record_ns-Tallies 50 empty_histogram [] (reset-Tallies empty_histogram))

-- Half of the number of latencies.
abbrev half : ℕ → ℕ
half n = n / 2

median : percentile_us half histogram ≡ Estimate.middle 600
unfolding percentile_us bucket_of record_ns
median = refl

percentile_us-Answers_example : Answers (250 ∷ 50 ∷ []) (half 2) (percentile_us half histogram)
percentile_us-Answers_example =
    percentile_us-Answers half histogram (250 ∷ 50 ∷ []) histogram-Tallies (omega arith)

abbrev empty_tracker : PathLatencyTracker
empty_tracker = record {
  total = empty_histogram;
  lock_wait = empty_histogram;
  lookup = empty_histogram;
  admission = empty_histogram;
  eviction = empty_histogram;
  l2 = empty_histogram;
  backend = empty_histogram;
  slab = empty_histogram;
  l1_hit = empty_histogram;
  l2_hit = empty_histogram;
  backend_hit = empty_histogram;
  full_miss = empty_histogram;
}

empty-Tallies : Tallies empty_histogram []
unfolding reset
empty-Tallies = reset-Tallies empty_histogram

empty_tracker-Tracks : Tracks empty_tracker []
unfolding on_path positives
empty_tracker-Tracks =
    let e = empty-Tallies in record { parts = (e, e, e, e, e, e, e, e); paths = each }
  where
    each : (p : HitPath) → Tallies (path_histogram p empty_tracker) (on_path p [])
    each HitPath.l1_hit = empty-Tallies
    each HitPath.l2_hit = empty-Tallies
    each HitPath.backend_hit = empty-Tallies
    each HitPath.miss = empty-Tallies

-- A hit in the second level.
abbrev slow : LatencyBreakdown
slow = record {
  total_ns = 900;
  lock_wait_ns = 20;
  lookup_ns = 150;
  admission_ns = 0;
  eviction_ns = 0;
  l2_ns = 300;
  backend_ns = 0;
  slab_ns = 0;
  path = HitPath.l2_hit;
}

record_breakdown-Tracks_example : Tracks (record_breakdown slow empty_tracker) (slow ∷ [])
record_breakdown-Tracks_example = record_breakdown-Tracks slow empty_tracker [] empty_tracker-Tracks

merge_tracker-Tracks_example :
    Tracks
      (merge_tracker (record_breakdown slow empty_tracker) (record_breakdown slow empty_tracker))
      (slow ∷ slow ∷ [])
merge_tracker-Tracks_example =
    merge_tracker-Tracks (record_breakdown slow empty_tracker) (record_breakdown slow empty_tracker)
      (slow ∷ []) (slow ∷ []) (record_breakdown-Tracks slow empty_tracker [] empty_tracker-Tracks)
      (record_breakdown-Tracks slow empty_tracker [] empty_tracker-Tracks)
