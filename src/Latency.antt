-- ===== src/Latency.antt =====
-- include/latency_instrumentation.h: histograms of latencies and the tracker that keeps one for each
-- part and each path of a call. A signed 64-bit number is its word, and wraps around as a shift or a
-- sum does on the target. The clock and the arithmetic on `double` are not modelled.
use walde.Base.{
  ℕ, zero, suc, ◌+◌, ◌-◌, ◌*◌, ◌%◌, ◌^◌, Bool, true, false, not, ◌&&◌, Option, none, some, ◌==◌,
  ltb, leb, if◌then◌else◌, update,
}
use walde.Base.Arith.{add64}
pub mod Buckets
pub mod Samples
pub mod Percentile
pub mod Tracker
pub mod Tracked
mod Tests

pub data HitPath : Type 0 where
  l1_hit l2_hit backend_hit miss : HitPath

pub record LatencyBreakdown : Type 0 where
  pub total_ns : ℕ
  pub lock_wait_ns : ℕ
  pub lookup_ns : ℕ
  pub admission_ns : ℕ
  pub eviction_ns : ℕ
  pub l2_ns : ℕ
  pub backend_ns : ℕ
  pub slab_ns : ℕ
  pub path : HitPath

abbrev pub num_buckets : ℕ
num_buckets = 64

pub record LatencyHistogram : Type 0 where
  pub counts : ℕ → ℕ
  pub total_count : ℕ
  pub total_sum : ℕ

abbrev pub empty_histogram : LatencyHistogram
empty_histogram = record { counts = λ _. 0; total_count = 0; total_sum = 0 }

-- `a >= b` on signed words: the sign bit is flipped.
abbrev pub flip : ℕ → ℕ
flip a = (a + 2 ^ 63) % 2 ^ 64

unfoldable pub ge64 : ℕ → ℕ → Bool
ge64 a b = leb (flip b) (flip a)

-- `a << i`
abbrev pub shl64 : ℕ → ℕ → ℕ
shl64 a i = a * 2 ^ i % 2 ^ 64

-- The loop of `record`; fuel bounds the rounds.
unfoldable pub climb : ℕ → ℕ → ℕ → ℕ → ℕ
climb zero bucket ns threshold = bucket
climb (suc n) bucket ns threshold =
    let next = climb n (bucket + 1) ns (shl64 threshold 1) in
    if ltb bucket (num_buckets - 1) && ge64 ns threshold then next else bucket

unfoldable pub bucket_of : ℕ → ℕ
unfolding climb ge64
bucket_of ns = if ge64 ns 100 then climb num_buckets 1 ns 200 else 0

-- `record`
unfoldable pub record_ns : ℕ → LatencyHistogram → LatencyHistogram
record_ns ns h = record {
  counts = update h.counts (bucket_of ns) (add64 (h.counts (bucket_of ns)) 1);
  total_count = add64 h.total_count 1;
  total_sum = add64 h.total_sum ns;
}

-- `percentile_us` ends with `0.0`, with `0.05`, with the middle of a bucket as the word `lo + hi`, or
-- with the constant after the loop.
pub data Estimate : Type 0 where
  zero_us lowest_us : Estimate
  middle : ℕ → Estimate
  beyond_us : Estimate

-- The bucket in which the loop stops, with `n` buckets left, from bucket `i` on.
unfoldable pub find_bucket : (ℕ → ℕ) → ℕ → ℕ → ℕ → ℕ → Option ℕ
find_bucket counts target zero i cumulative = none
find_bucket counts target (suc n) i cumulative =
    let rest = find_bucket counts target n (i + 1) (add64 cumulative (counts i)) in
    if ltb target (add64 cumulative (counts i)) then some i else rest

abbrev pub estimate_at : Option ℕ → Estimate
estimate_at none = Estimate.beyond_us
estimate_at (some i) =
    if i == 0 then Estimate.lowest_us else Estimate.middle (add64 (shl64 100 (i - 1)) (shl64 100 i))

-- `scaled` is the conversion of `p * total_count_` to a word.
unfoldable pub percentile_us : (scaled : ℕ → ℕ) → LatencyHistogram → Estimate
unfolding find_bucket
percentile_us scaled h =
    if h.total_count == 0
    then Estimate.zero_us
    else estimate_at (find_bucket h.counts (scaled h.total_count) num_buckets 0 0)

abbrev pub count : LatencyHistogram → ℕ
count h = h.total_count

-- The loop of `merge`, with `n` buckets left, from bucket `i` on.
unfoldable pub merge_counts : ℕ → ℕ → (ℕ → ℕ) → (ℕ → ℕ) → ℕ → ℕ
merge_counts zero i counts other = counts
merge_counts (suc n) i counts other =
    merge_counts n (i + 1) (update counts i (add64 (counts i) (other i))) other

unfoldable pub merge : LatencyHistogram → LatencyHistogram → LatencyHistogram
unfolding merge_counts
merge h other = record {
  counts = merge_counts num_buckets 0 h.counts other.counts;
  total_count = add64 h.total_count other.total_count;
  total_sum = add64 h.total_sum other.total_sum;
}

unfoldable pub reset : LatencyHistogram → LatencyHistogram
reset h = empty_histogram
