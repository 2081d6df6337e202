-- ===== src/Sketch/Estimate.antt =====
-- `estimate` as the least counter of a key: how it follows the counters.
use walde.Base.{
  ℕ, zero, suc, ◌+◌, ◌-◌, ◌≤◌, ◌<◌, ◌≡◌, refl, sym, ap, ◌∙◌, subst, min, get_or, arith,
}
use walde.Types.{Key}
use walde.Sketch.{CountMinSketch, uint32_max, cell, estimate_rows, estimate}

-- The counter of key `k` in row `r`.
abbrev pub counter : (Key → ℕ → ℕ) → CountMinSketch → Key → ℕ → ℕ
counter xxh32 c k r = get_or c.counters (cell xxh32 c k r) 0

module _ (xxh32 : Key → ℕ → ℕ) (c d : CountMinSketch) (k : Key) where
  -- A step that is the same on every counter of the key is the same on the estimate.
  estimate_rows_through :
      (f : ℕ → ℕ) (n row m : ℕ)
      → ((a b : ℕ) → min (f a) (f b) ≡ f (min a b))
      → ((r : ℕ) → row ≤ r → r < row + n → counter xxh32 d k r ≡ f (counter xxh32 c k r))
      → estimate_rows xxh32 n row k d (f m) ≡ f (estimate_rows xxh32 n row k c m)
  unfolding estimate_rows
  estimate_rows_through f zero row m mono h = refl
  estimate_rows_through f (suc n) row m mono h =
      rw (h row (omega arith) (omega arith), mono)
        (estimate_rows_through f n (row + 1) (min m (counter xxh32 c k row)) mono
          (λ r a b. h r (omega arith) (omega arith)))

  estimate_rows_above :
      (e n row m m' : ℕ)
      → m' ≤ m + e
      → ((r : ℕ) → row ≤ r → r < row + n → counter xxh32 d k r ≤ counter xxh32 c k r + e)
      → estimate_rows xxh32 n row k d m' ≤ estimate_rows xxh32 n row k c m + e
  unfolding estimate_rows
  estimate_rows_above e zero row m m' start h = start
  estimate_rows_above e (suc n) row m m' start h =
      estimate_rows_above e n (row + 1) (min m (counter xxh32 c k row))
        (min m' (counter xxh32 d k row)) (omega (arith, h row (omega arith) (omega arith)))
        (λ r a b. h r (omega arith) (omega arith))

  pub estimate_above :
      (e : ℕ)
      → d.depth ≡ c.depth
      → ((r : ℕ) → r < c.depth → counter xxh32 d k r ≤ counter xxh32 c k r + e)
      → estimate xxh32 d k ≤ estimate xxh32 c k + e
  unfolding estimate
  estimate_above e same h =
      subst
        (λ n.
          estimate_rows xxh32 n 0 k d uint32_max ≤ estimate_rows xxh32 c.depth 0 k c uint32_max + e)
        (sym same)
        (estimate_rows_above e c.depth 0 uint32_max uint32_max (omega arith)
          (λ r a b. h r (omega arith)))

module _ (xxh32 : Key → ℕ → ℕ) where
  -- The first row sets the start value aside.
  estimate_first :
      (c : CountMinSketch) (k : Key) (n : ℕ)
      → c.depth ≡ suc n
      → counter xxh32 c k 0 ≤ uint32_max
      → estimate xxh32 c k ≡ estimate_rows xxh32 n 1 k c (counter xxh32 c k 0)
  unfolding estimate
  estimate_first c k n e h =
      ap (λ m. estimate_rows xxh32 m 0 k c uint32_max) e
      ∙ unfold estimate_rows in
        ap (estimate_rows xxh32 n 1 k c)
          (let q : min uint32_max (counter xxh32 c k 0) ≡ counter xxh32 c k 0 = omega arith in q)

  pub estimate_through :
      (c d : CountMinSketch) (k : Key) (f : ℕ → ℕ)
      → 0 < c.depth
      → d.depth ≡ c.depth
      → ((a b : ℕ) → min (f a) (f b) ≡ f (min a b))
      → counter xxh32 c k 0 ≤ uint32_max
      → counter xxh32 d k 0 ≤ uint32_max
      → ((r : ℕ) → r < c.depth → counter xxh32 d k r ≡ f (counter xxh32 c k r))
      → estimate xxh32 d k ≡ f (estimate xxh32 c k)
  estimate_through c d k f pos same mono hc hd h =
      estimate_first d k n (same ∙ e) hd
      ∙ ap (estimate_rows xxh32 n 1 k d) (h 0 pos)
      ∙ estimate_rows_through xxh32 c d k f n 1 (counter xxh32 c k 0) mono
          (λ r a b. h r (omega arith))
      ∙ ap f (sym (estimate_first c k n e hc))
    where
      n : ℕ
      n = c.depth - 1

      e : c.depth ≡ suc n
      e = omega arith
