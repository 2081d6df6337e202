-- ===== src/Latency/Tracker.antt =====
-- `PathLatencyTracker`: a histogram for each part of a call and for each path that it may take.
use walde.Base.{ℕ, Bool, not, List, [], ◌∷◌, map, ◌==◌, if◌then◌else◌}
use walde.Latency.{HitPath, LatencyBreakdown, LatencyHistogram, ge64, record_ns, merge}
use walde.Latency.Samples.{Tallies}

pub record PathLatencyTracker : Type 0 where
  pub total : LatencyHistogram
  pub lock_wait : LatencyHistogram
  pub lookup : LatencyHistogram
  pub admission : LatencyHistogram
  pub eviction : LatencyHistogram
  pub l2 : LatencyHistogram
  pub backend : LatencyHistogram
  pub slab : LatencyHistogram
  pub l1_hit : LatencyHistogram
  pub l2_hit : LatencyHistogram
  pub backend_hit : LatencyHistogram
  pub full_miss : LatencyHistogram

-- `ns > 0`
unfoldable pub positive : ℕ → Bool
positive ns = not (ge64 0 ns)

-- `if (ns > 0) h.record(ns);`
unfoldable pub record_positive : ℕ → LatencyHistogram → LatencyHistogram
record_positive ns h = if positive ns then record_ns ns h else h

-- The `switch` on the path.
unfoldable pub record_path : HitPath → ℕ → PathLatencyTracker → PathLatencyTracker
record_path HitPath.l1_hit ns t = record t { l1_hit = record_ns ns t.l1_hit }
record_path HitPath.l2_hit ns t = record t { l2_hit = record_ns ns t.l2_hit }
record_path HitPath.backend_hit ns t = record t { backend_hit = record_ns ns t.backend_hit }
record_path HitPath.miss ns t = record t { full_miss = record_ns ns t.full_miss }

-- `record`
unfoldable pub record_breakdown : LatencyBreakdown → PathLatencyTracker → PathLatencyTracker
unfolding record_path
record_breakdown bd t = record_path bd.path bd.total_ns (record t {
  total = record_ns bd.total_ns t.total;
  lock_wait = record_ns bd.lock_wait_ns t.lock_wait;
  lookup = record_ns bd.lookup_ns t.lookup;
  slab = record_ns bd.slab_ns t.slab;
  admission = record_positive bd.admission_ns t.admission;
  eviction = record_positive bd.eviction_ns t.eviction;
  l2 = record_positive bd.l2_ns t.l2;
  backend = record_positive bd.backend_ns t.backend;
})

-- `merge`
unfoldable pub merge_tracker : PathLatencyTracker → PathLatencyTracker → PathLatencyTracker
merge_tracker t other = record {
  total = merge t.total other.total;
  lock_wait = merge t.lock_wait other.lock_wait;
  lookup = merge t.lookup other.lookup;
  admission = merge t.admission other.admission;
  eviction = merge t.eviction other.eviction;
  l2 = merge t.l2 other.l2;
  backend = merge t.backend other.backend;
  slab = merge t.slab other.slab;
  l1_hit = merge t.l1_hit other.l1_hit;
  l2_hit = merge t.l2_hit other.l2_hit;
  backend_hit = merge t.backend_hit other.backend_hit;
  full_miss = merge t.full_miss other.full_miss;
}

-- The latencies that are recorded only if they are positive.
unfoldable pub positives : List ℕ → List ℕ
positives [] = []
positives (ns ∷ samples) = if positive ns then ns ∷ positives samples else positives samples

-- The value of the enumerator.
abbrev pub code : HitPath → ℕ
code HitPath.l1_hit = 0
code HitPath.l2_hit = 1
code HitPath.backend_hit = 2
code HitPath.miss = 3

-- The latencies of the calls that took a path.
unfoldable pub on_path : HitPath → List LatencyBreakdown → List ℕ
on_path p [] = []
on_path p (bd ∷ bds) = if code p == code bd.path then bd.total_ns ∷ on_path p bds else on_path p bds

abbrev pub path_histogram : HitPath → PathLatencyTracker → LatencyHistogram
path_histogram HitPath.l1_hit t = t.l1_hit
path_histogram HitPath.l2_hit t = t.l2_hit
path_histogram HitPath.backend_hit t = t.backend_hit
path_histogram HitPath.miss t = t.full_miss

-- The histograms of the parts are those of the calls that were recorded, the latest first.
abbrev pub Parts : PathLatencyTracker → List LatencyBreakdown → Type 0
Parts t bds =
    Tallies t.total (map (λ bd. bd.total_ns) bds)
    × Tallies t.lock_wait (map (λ bd. bd.lock_wait_ns) bds)
    × Tallies t.lookup (map (λ bd. bd.lookup_ns) bds)
    × Tallies t.slab (map (λ bd. bd.slab_ns) bds)
    × Tallies t.admission (positives (map (λ bd. bd.admission_ns) bds))
    × Tallies t.eviction (positives (map (λ bd. bd.eviction_ns) bds))
    × Tallies t.l2 (positives (map (λ bd. bd.l2_ns) bds))
    × Tallies t.backend (positives (map (λ bd. bd.backend_ns) bds))

-- So are those of the paths.
pub record Tracks (t : PathLatencyTracker) (bds : List LatencyBreakdown) : Type 0 where
  pub parts : Parts t bds
  pub paths : (p : HitPath) → Tallies (path_histogram p t) (on_path p bds)
