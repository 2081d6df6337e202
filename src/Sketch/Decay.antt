-- ===== src/Sketch/Decay.antt =====
-- `decay` halves every estimate, and `reset` forgets them.
use walde.Base.{
  ℕ, ◌/◌, ◌≤◌, ◌≡◌, refl, ap, sym, ◌∙◌, map, get_or, arith, length-map, min, get_or-map,
}
use walde.Types.{Key}
use walde.Sketch.{CountMinSketch, uint32_max, cell, estimate, decay, reset}
use walde.Sketch.Rows.{IsSketch, cell_same}
use walde.Sketch.Estimate.{counter, estimate_through}
use walde.Sketch.Frequency.{Bounded}

-- Both replace every counter by a function of it.
mapped : (ℕ → ℕ) → ℕ → CountMinSketch → CountMinSketch
mapped f t c = record c { counters = map f c.counters; total_increments = t }

module _ (f : ℕ → ℕ) (z : f 0 ≡ 0) (t : ℕ) (c : CountMinSketch) where
  get_or-mapped : (j : ℕ) → get_or (map f c.counters) j 0 ≡ f (get_or c.counters j 0)
  get_or-mapped j = ap (λ d. get_or (map f c.counters) j d) (sym z) ∙ get_or-map f c.counters j 0

  mapped-IsSketch : IsSketch c → IsSketch (mapped f t c)
  unfolding mapped
  mapped-IsSketch v = record {
    rows = v.rows;
    columns = v.columns;
    table = length-map f c.counters ∙ v.table;
    fits = v.fits;
  }

  counter-mapped :
      (xxh32 : Key → ℕ → ℕ) (k : Key) (r : ℕ)
      → counter xxh32 (mapped f t c) k r ≡ f (counter xxh32 c k r)
  unfolding mapped
  counter-mapped xxh32 k r =
      ap (λ j. get_or (map f c.counters) j 0) (cell_same xxh32 c k r (map f c.counters) t)
      ∙ get_or-mapped (cell xxh32 c k r)

  estimate-mapped :
      (xxh32 : Key → ℕ → ℕ) (k : Key)
      → ((a b : ℕ) → min (f a) (f b) ≡ f (min a b))
      → ((a : ℕ) → f a ≤ a)
      → IsSketch c
      → Bounded uint32_max c
      → estimate xxh32 (mapped f t c) k ≡ f (estimate xxh32 c k)
  estimate-mapped xxh32 k mono small v h =
      estimate_through xxh32 c (mapped f t c) k f v.rows (unfold mapped in refl) mono low
        (omega (arith, counter-mapped xxh32 k 0, small (counter xxh32 c k 0), low))
        (λ r _. counter-mapped xxh32 k r)
    where
      low : counter xxh32 c k 0 ≤ uint32_max
      low = h (cell xxh32 c k 0)

-- `decay` keeps the sketch well formed and halves every estimate, rounding down.
pub estimate-decay :
    (xxh32 : Key → ℕ → ℕ) (c : CountMinSketch) (k : Key)
    → IsSketch c
    → Bounded uint32_max c
    → IsSketch (decay c) × (estimate xxh32 (decay c) k ≡ estimate xxh32 c k / 2)
unfolding decay mapped
estimate-decay xxh32 c k v h = (
  mapped-IsSketch (λ n. n / 2) refl c.total_increments c v,
  estimate-mapped (λ n. n / 2) refl c.total_increments c xxh32 k (λ a b. omega arith)
      (λ a. omega arith) v h,
)

-- After `reset` every estimate and the total are zero.
pub estimate-reset :
    (xxh32 : Key → ℕ → ℕ) (c : CountMinSketch) (k : Key)
    → IsSketch c
    → Bounded uint32_max c
    → IsSketch (reset c) × (estimate xxh32 (reset c) k ≡ 0) × ((reset c).total_increments ≡ 0)
unfolding reset mapped
estimate-reset xxh32 c k v h = (
  mapped-IsSketch (λ _. 0) refl 0 c v,
  estimate-mapped (λ _. 0) refl 0 c xxh32 k (λ a b. omega arith) (λ a. omega arith) v h,
  refl,
)
