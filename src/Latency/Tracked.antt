-- ===== src/Latency/Tracked.antt =====
-- The histograms of a tracker against the calls that were recorded.
use walde.Base.{
  ℕ, ◌≡◌, refl, sym, ap, ◌∙◌, subst, inl, inr, Bool-cases, List, [], ◌∷◌, ◌++◌, map, ◌==◌,
  if◌then◌else◌,
}
use mathlib.Core.List.{map-append}
use walde.Latency.{HitPath, LatencyBreakdown, LatencyHistogram, empty_histogram, record_ns, merge}
use walde.Latency.Samples.{Tallies, record_ns-Tallies, merge-Tallies}
use walde.Latency.Tracker.{
  PathLatencyTracker, positive, record_positive, record_path, record_breakdown, merge_tracker,
  positives, code, on_path, path_histogram, Parts, Tracks,
}

record_positive-Tallies :
    (ns : ℕ) (h : LatencyHistogram) (samples : List ℕ)
    → Tallies h (positives samples)
    → Tallies (record_positive ns h) (positives (ns ∷ samples))
unfolding record_positive positives
record_positive-Tallies ns h samples v = elim (Bool-cases (positive ns)) [
  | inl p ↦ rw p (record_ns-Tallies ns h (positives samples) v)
  | inr p ↦ rw p v
]

-- Of the four histograms of paths, `record_path` changes the one of its path.
path_histogram-record :
    (p q : HitPath) (ns : ℕ) (t : PathLatencyTracker)
    → path_histogram p (record_path q ns t)
      ≡ (if code p == code q then record_ns ns (path_histogram p t) else path_histogram p t)
unfolding record_path
path_histogram-record HitPath.l1_hit HitPath.l1_hit ns t = refl
path_histogram-record HitPath.l1_hit HitPath.l2_hit ns t = refl
path_histogram-record HitPath.l1_hit HitPath.backend_hit ns t = refl
path_histogram-record HitPath.l1_hit HitPath.miss ns t = refl
path_histogram-record HitPath.l2_hit HitPath.l1_hit ns t = refl
path_histogram-record HitPath.l2_hit HitPath.l2_hit ns t = refl
path_histogram-record HitPath.l2_hit HitPath.backend_hit ns t = refl
path_histogram-record HitPath.l2_hit HitPath.miss ns t = refl
path_histogram-record HitPath.backend_hit HitPath.l1_hit ns t = refl
path_histogram-record HitPath.backend_hit HitPath.l2_hit ns t = refl
path_histogram-record HitPath.backend_hit HitPath.backend_hit ns t = refl
path_histogram-record HitPath.backend_hit HitPath.miss ns t = refl
path_histogram-record HitPath.miss HitPath.l1_hit ns t = refl
path_histogram-record HitPath.miss HitPath.l2_hit ns t = refl
path_histogram-record HitPath.miss HitPath.backend_hit ns t = refl
path_histogram-record HitPath.miss HitPath.miss ns t = refl

-- It leaves the histograms of the parts.
without_paths : PathLatencyTracker → PathLatencyTracker
without_paths t = record t {
  l1_hit = empty_histogram;
  l2_hit = empty_histogram;
  backend_hit = empty_histogram;
  full_miss = empty_histogram;
}

without_paths-record :
    (q : HitPath) (ns : ℕ) (t : PathLatencyTracker)
    → without_paths t ≡ without_paths (record_path q ns t)
unfolding record_path without_paths
without_paths-record HitPath.l1_hit ns t = refl
without_paths-record HitPath.l2_hit ns t = refl
without_paths-record HitPath.backend_hit ns t = refl
without_paths-record HitPath.miss ns t = refl

record_path-Parts :
    (q : HitPath) (ns : ℕ) (t : PathLatencyTracker) (bds : List LatencyBreakdown)
    → Parts t bds
    → Parts (record_path q ns t) bds
unfolding without_paths
record_path-Parts q ns t bds v = subst (λ z. Parts z bds) (without_paths-record q ns t) v

record_path-paths :
    (bd : LatencyBreakdown) (t : PathLatencyTracker) (bds : List LatencyBreakdown)
    → ((p : HitPath) → Tallies (path_histogram p t) (on_path p bds))
    → (p : HitPath)
    → Tallies (path_histogram p (record_path bd.path bd.total_ns t)) (on_path p (bd ∷ bds))
unfolding on_path
record_path-paths bd t bds v p =
    subst (λ h. Tallies h (on_path p (bd ∷ bds)))
      (sym (path_histogram-record p bd.path bd.total_ns t))
      (elim (Bool-cases (code p == code bd.path)) [
        | inl e ↦ rw e (record_ns-Tallies bd.total_ns (path_histogram p t) (on_path p bds) (v p))
        | inr e ↦ rw e (v p)
      ])

same_paths :
    (p : HitPath) (t u : PathLatencyTracker)
    → t.l1_hit ≡ u.l1_hit
    → t.l2_hit ≡ u.l2_hit
    → t.backend_hit ≡ u.backend_hit
    → t.full_miss ≡ u.full_miss
    → path_histogram p t ≡ path_histogram p u
same_paths HitPath.l1_hit t u a b c d = a
same_paths HitPath.l2_hit t u a b c d = b
same_paths HitPath.backend_hit t u a b c d = c
same_paths HitPath.miss t u a b c d = d

-- One more call: a histogram of a part gets its latency, in four of them only if it is positive, and
-- exactly one of the four histograms of paths gets the total.
pub record_breakdown-Tracks :
    (bd : LatencyBreakdown) (t : PathLatencyTracker) (bds : List LatencyBreakdown)
    → Tracks t bds
    → Tracks (record_breakdown bd t) (bd ∷ bds)
unfolding record_breakdown
record_breakdown-Tracks bd t bds v =
    let (total, lock_wait, lookup, slab, admission, eviction, l2, backend) = v.parts in
    record {
      parts = record_path-Parts bd.path bd.total_ns _ (bd ∷ bds) (
        record_ns-Tallies bd.total_ns t.total _ total,
        record_ns-Tallies bd.lock_wait_ns t.lock_wait _ lock_wait,
        record_ns-Tallies bd.lookup_ns t.lookup _ lookup,
        record_ns-Tallies bd.slab_ns t.slab _ slab,
        record_positive-Tallies bd.admission_ns t.admission _ admission,
        record_positive-Tallies bd.eviction_ns t.eviction _ eviction,
        record_positive-Tallies bd.l2_ns t.l2 _ l2,
        record_positive-Tallies bd.backend_ns t.backend _ backend,
      );
      paths = record_path-paths bd _ bds λ p.
          subst (λ h. Tallies h (on_path p bds)) (same_paths p t _ refl refl refl refl) (v.paths p);
    }

positives-append : (xs ys : List ℕ) → positives (xs ++ ys) ≡ positives xs ++ positives ys
unfolding positives
positives-append [] ys = refl
positives-append (x ∷ xs) ys = elim (Bool-cases (positive x)) [
  | inl p ↦ rw p (ap (◌∷◌ x) (positives-append xs ys))
  | inr p ↦ rw p (positives-append xs ys)
]

on_path-append :
    (p : HitPath) (xs ys : List LatencyBreakdown)
    → on_path p (xs ++ ys) ≡ on_path p xs ++ on_path p ys
unfolding on_path
on_path-append p [] ys = refl
on_path-append p (bd ∷ xs) ys = elim (Bool-cases (code p == code bd.path)) [
  | inl e ↦ rw e (ap (◌∷◌ bd.total_ns) (on_path-append p xs ys))
  | inr e ↦ rw e (on_path-append p xs ys)
]

module _ (xs ys : List LatencyBreakdown) (f : LatencyBreakdown → ℕ) where
  merge-map :
      (h g : LatencyHistogram)
      → Tallies h (map f xs)
      → Tallies g (map f ys)
      → Tallies (merge h g) (map f (xs ++ ys))
  merge-map h g v w =
      subst (Tallies (merge h g)) (sym (map-append f xs ys)) (merge-Tallies h g _ _ v w)

  merge-positives :
      (h g : LatencyHistogram)
      → Tallies h (positives (map f xs))
      → Tallies g (positives (map f ys))
      → Tallies (merge h g) (positives (map f (xs ++ ys)))
  merge-positives h g v w =
      subst (Tallies (merge h g))
        (sym (ap positives (map-append f xs ys) ∙ positives-append (map f xs) (map f ys)))
        (merge-Tallies h g _ _ v w)

path_histogram-merge :
    (p : HitPath) (t u : PathLatencyTracker)
    → path_histogram p (merge_tracker t u) ≡ merge (path_histogram p t) (path_histogram p u)
unfolding merge_tracker
path_histogram-merge HitPath.l1_hit t u = refl
path_histogram-merge HitPath.l2_hit t u = refl
path_histogram-merge HitPath.backend_hit t u = refl
path_histogram-merge HitPath.miss t u = refl

-- Two trackers merged are the tracker of the calls of both.
pub merge_tracker-Tracks :
    (t u : PathLatencyTracker) (xs ys : List LatencyBreakdown)
    → Tracks t xs
    → Tracks u ys
    → Tracks (merge_tracker t u) (xs ++ ys)
unfolding merge_tracker
merge_tracker-Tracks t u xs ys v w =
    let (total, lock_wait, lookup, slab, admission, eviction, l2, backend) = v.parts in
    let (total', lock_wait', lookup', slab', admission', eviction', l2', backend') = w.parts in
    record {
      parts = (
        merge-map xs ys _ t.total u.total total total',
        merge-map xs ys _ t.lock_wait u.lock_wait lock_wait lock_wait',
        merge-map xs ys _ t.lookup u.lookup lookup lookup',
        merge-map xs ys _ t.slab u.slab slab slab',
        merge-positives xs ys _ t.admission u.admission admission admission',
        merge-positives xs ys _ t.eviction u.eviction eviction eviction',
        merge-positives xs ys _ t.l2 u.l2 l2 l2',
        merge-positives xs ys _ t.backend u.backend backend backend',
      );
      paths = λ p.
          subst (Tallies (path_histogram p (merge_tracker t u))) (sym (on_path-append p xs ys)) (
            subst (λ h. Tallies h (on_path p xs ++ on_path p ys)) (sym (path_histogram-merge p t u))
              (merge-Tallies (path_histogram p t) (path_histogram p u) _ _ (v.paths p)
                (w.paths p)));
    }
