-- ===== src/Engine/Sink.antt =====
-- The second level as the end of the drainer: `l2_put_batch` is what the engine gives to it.
use walde.Base.{ℕ, ◌<◌, refl}
use walde.Types.{Key}
use walde.Drainer.{IsSink}
use walde.Engine.{l2_put_batch}
use walde.Engine.Levels.{IsLevel}
use walde.Engine.Batch.{l2_put_batch-absorb, l2_put_batch-append}

-- Insertion into the second level never faults while its stripes respect their invariant, which it
-- keeps, and two batches in a row are one batch: the drainer may rely on it.
pub l2_put_batch-IsSink :
    (xxh32 xxh64 : Key → ℕ → ℕ) (capacity : ℕ)
    → 0 < capacity
    → IsSink (l2_put_batch xxh32 xxh64 capacity) (IsLevel capacity)
unfolding l2_put_batch
l2_put_batch-IsSink xxh32 xxh64 capacity room = record {
  total = λ xs l2 v.
      let (l2', e, w, _) = l2_put_batch-absorb xxh32 xxh64 capacity xs l2 room v in (l2', e, w);
  nothing = λ l2. refl;
  in_a_row = l2_put_batch-append xxh32 xxh64 capacity;
}
