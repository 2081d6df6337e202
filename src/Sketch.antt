-- ===== src/Sketch.antt =====
-- src/count_min_sketch.cpp: the Count-Min Sketch. The hash function XXH32 is a parameter: it takes
-- the key and a seed.
use walde.Base.{
  ℕ, zero, suc, ◌+◌, ◌-◌, ◌*◌, ◌/◌, ◌%◌, ◌^◌, min, Bool, true, false, ◌&&◌, Option, none, some, ltb,
  if◌then◌else◌, List, map, get_or, set, replicate,
}
use walde.Base.Arith.{add32, add64}
use walde.Types.{Key}
pub mod Rows
pub mod Estimate
pub mod Frequency
pub mod Decay

pub record CountMinSketch : Type 0 where
  pub depth : ℕ
  pub width : ℕ
  pub counters : List ℕ
  pub seeds : List ℕ
  pub total_increments : ℕ

abbrev pub uint32_max : ℕ
uint32_max = 2 ^ 32 - 1

-- `seeds_[i]` for `i` from `row` on.
unfoldable pub make_seeds : ℕ → ℕ → List ℕ
make_seeds row zero = List.[]
make_seeds row (suc n) =
    List.◌∷◌ (add32 0x9E3779B9 (row * 0x6C62272E % 2 ^ 32)) (make_seeds (row + 1) n)

-- What the constructor builds.
unfoldable pub blank : ℕ → ℕ → CountMinSketch
unfolding make_seeds
blank depth width = record {
  depth = depth;
  width = width;
  counters = replicate (depth * width) 0;
  seeds = make_seeds 0 depth;
  total_increments = 0;
}

-- The constructor; `none` is a failed assertion.
unfoldable pub init : ℕ → ℕ → Option CountMinSketch
init depth width = if ltb 0 depth && ltb 0 width then some (blank depth width) else none

module _ (xxh32 : Key → ℕ → ℕ) where
  unfoldable pub hash : CountMinSketch → Key → ℕ → ℕ
  hash c key row = xxh32 key (get_or c.seeds row 0) % c.width

  -- `row * width_ + col`, in `uint32_t`.
  unfoldable pub cell : CountMinSketch → Key → ℕ → ℕ
  unfolding hash
  cell c key row = add32 (row * c.width % 2 ^ 32) (hash c key row)

  -- The loop of `increment` over the counters `xs`, with `n` rows left.
  unfoldable pub increment_rows : ℕ → ℕ → Key → CountMinSketch → List ℕ → List ℕ
  increment_rows zero row key c xs = xs
  increment_rows (suc n) row key c xs =
      let col = cell c key row in
      increment_rows n (row + 1) key c (set xs col (add32 (get_or xs col 0) 1))

  unfoldable pub increment : Key → CountMinSketch → CountMinSketch
  unfolding increment_rows
  increment key c = record c {
    counters = increment_rows c.depth 0 key c c.counters;
    total_increments = add64 c.total_increments 1;
  }

  -- The loop of `estimate`, with `n` rows left.
  unfoldable pub estimate_rows : ℕ → ℕ → Key → CountMinSketch → ℕ → ℕ
  estimate_rows zero row key c min_val = min_val
  estimate_rows (suc n) row key c min_val =
      estimate_rows n (row + 1) key c (min min_val (get_or c.counters (cell c key row) 0))

  unfoldable pub estimate : CountMinSketch → Key → ℕ
  unfolding estimate_rows
  estimate c key = estimate_rows c.depth 0 key c uint32_max

unfoldable pub decay : CountMinSketch → CountMinSketch
decay c = record c { counters = map (λ n. n / 2) c.counters }

unfoldable pub reset : CountMinSketch → CountMinSketch
reset c = record c { counters = map (λ _. 0) c.counters; total_increments = 0 }
