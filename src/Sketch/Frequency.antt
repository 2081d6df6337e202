-- ===== src/Sketch/Frequency.antt =====
-- `estimate` after `increment`: the sketch never underestimates.
use walde.Base.{
  ℕ, ◌+◌, ◌*◌, ◌^◌, ◌≤◌, ◌<◌, ◌≡◌, refl, sym, ap, ◌∙◌, some, ltb-true, List, [], ◌∷◌, get_or,
  length, arith, inl, inr, Bool-cases, str_eq, if◌then◌else◌, eq_iff, length-replicate,
  get_or-replicate, subst,
}
use walde.Base.Arith.{add64}
use walde.Types.{Key}
use walde.Sketch.{
  CountMinSketch, uint32_max, blank, init, increment, increment_rows, estimate, cell,
}
use walde.Sketch.Rows.{
  IsSketch, cell_same, increment_rows_own, increment_rows_bounds, length-increment_rows,
}
use walde.Sketch.Estimate.{counter, estimate_above, estimate_through}

-- Every counter is at most `b`.
abbrev pub Bounded : ℕ → CountMinSketch → Type 0
Bounded b c = (j : ℕ) → get_or c.counters j 0 ≤ b

-- The constructor asserts nothing that fails and builds a sketch of zeros.
pub init-IsSketch :
    (d w : ℕ)
    → 0 < d
    → 0 < w
    → d * w ≤ 2 ^ 32
    → (init d w ≡ some (blank d w)) × IsSketch (blank d w) × Bounded 0 (blank d w)
unfolding init blank
init-IsSketch d w h k f = (
  rw (ltb-true 0 d h, ltb-true 0 w k) refl,
  record { rows = h; columns = k; table = length-replicate (d * w) 0; fits = f },
  λ j. omega (arith, get_or-replicate {A = ℕ} (d * w) j 0),
)

module _ (xxh32 : Key → ℕ → ℕ) (c : CountMinSketch) (key : Key) (v : IsSketch c) where
  pub increment-IsSketch : IsSketch (increment xxh32 key c)
  unfolding increment
  increment-IsSketch = record {
    rows = v.rows;
    columns = v.columns;
    table = length-increment_rows xxh32 c key v c.depth 0 c.counters ∙ v.table;
    fits = v.fits;
  }

  bumped : List ℕ
  bumped = increment_rows xxh32 c.depth 0 key c c.counters

  counter-increment :
      (k : Key) (r : ℕ)
      → counter xxh32 (increment xxh32 key c) k r ≡ get_or bumped (cell xxh32 c k r) 0
  unfolding increment bumped
  counter-increment k r =
      ap (λ j. get_or bumped j 0) (cell_same xxh32 c k r bumped (add64 c.total_increments 1))

  -- Each counter goes up by at most one, and the key's own by one.
  counter-increment_bounds :
      (b : ℕ) (k : Key) (r : ℕ)
      → Bounded b c
      → b < uint32_max
      → (counter xxh32 c k r ≤ counter xxh32 (increment xxh32 key c) k r)
        × (counter xxh32 (increment xxh32 key c) k r ≤ counter xxh32 c k r + 1)
  unfolding bumped
  counter-increment_bounds b k r h lt = rw (counter-increment k r) (
      increment_rows_bounds xxh32 c key v c.depth 0 c.counters (cell xxh32 c k r) (omega arith) refl
        (omega (arith, h (cell xxh32 c k r))))

  counter-increment_own :
      (b r : ℕ)
      → Bounded b c
      → b < uint32_max
      → r < c.depth
      → counter xxh32 (increment xxh32 key c) key r ≡ counter xxh32 c key r + 1
  unfolding bumped
  counter-increment_own b r h lt rlt =
      counter-increment key r
      ∙ increment_rows_own xxh32 c key v c.depth 0 c.counters r (omega arith) (omega arith)
          (omega arith) refl
      ∙ omega (arith, h (cell xxh32 c key r))

  pub increment-Bounded :
      (b : ℕ) → Bounded b c → b < uint32_max → Bounded (b + 1) (increment xxh32 key c)
  unfolding increment
  increment-Bounded b h lt j = omega (
    arith,
    h j,
    (increment_rows_bounds xxh32 c key v c.depth 0 c.counters j (omega arith) refl
        (omega (arith, h j))).1,
  )

  -- As long as no counter is at its maximum, `increment` raises the estimate of its own key by
  -- exactly one, and that of any other key by at most one, never lowering it.
  pub estimate-increment :
      (b : ℕ) (k : Key)
      → Bounded b c
      → b < uint32_max
      → (estimate xxh32 (increment xxh32 key c) key ≡ estimate xxh32 c key + 1)
        × (estimate xxh32 c k ≤ estimate xxh32 (increment xxh32 key c) k)
        × (estimate xxh32 (increment xxh32 key c) k ≤ estimate xxh32 c k + 1)
  estimate-increment b k h lt = (own, omega (arith, lower), upper)
    where
      d : CountMinSketch
      d = increment xxh32 key c

      same : d.depth ≡ c.depth
      same = unfold increment in refl

      own : estimate xxh32 d key ≡ estimate xxh32 c key + 1
      own =
          estimate_through xxh32 c d key (λ x. x + 1) v.rows same (λ a b. omega arith)
            (omega (arith, h (cell xxh32 c key 0)))
            (omega (arith, h (cell xxh32 c key 0), counter-increment_own b 0 h lt v.rows))
            (λ r rlt. counter-increment_own b r h lt rlt)

      lower : estimate xxh32 c k ≤ estimate xxh32 d k + 0
      lower =
          estimate_above xxh32 d c k 0 (sym same)
            (λ r rlt. omega (arith, (counter-increment_bounds b k r h lt).0))

      upper : estimate xxh32 d k ≤ estimate xxh32 c k + 1
      upper = estimate_above xxh32 c d k 1 same (λ r rlt. (counter-increment_bounds b k r h lt).1)

-- How often the key was incremented.
pub count : Key → List Key → ℕ
count k [] = 0
count k (j ∷ js) = (if str_eq j k then 1 else 0) + count k js

module _ (xxh32 : Key → ℕ → ℕ) where
  unfoldable pub increment_all : List Key → CountMinSketch → CountMinSketch
  increment_all [] c = c
  increment_all (j ∷ js) c = increment_all js (increment xxh32 j c)

  -- From any sketch, after a run of increments that overflows no counter, the estimate of a key has
  -- risen by at least the number of its own increments, and by at most the number of all.
  pub estimate-increment_all :
      (js : List Key) (c : CountMinSketch) (b : ℕ) (k : Key)
      → IsSketch c
      → Bounded b c
      → b + length js ≤ uint32_max
      → (estimate xxh32 c k + count k js ≤ estimate xxh32 (increment_all js c) k)
        × (estimate xxh32 (increment_all js c) k ≤ estimate xxh32 c k + length js)
  unfolding increment_all count
  estimate-increment_all [] c b k v h f = (omega arith, omega arith)
  estimate-increment_all (j ∷ js) c b k v h f =
      let step = estimate-increment xxh32 c j v b k h (omega arith) in
      let rest =
        estimate-increment_all js (increment xxh32 j c) (b + 1) k (increment-IsSketch xxh32 c j v)
          (increment-Bounded xxh32 c j v b h (omega arith)) (omega arith) in
      elim (Bool-cases (str_eq j k)) [
        | inl e ↦ rw e (
            let own =
              subst (λ q. estimate xxh32 (increment xxh32 j c) q ≡ estimate xxh32 c q + 1)
                ((eq_iff j k).0 e) step.0 in
            (omega (arith, rest.0, own), omega (arith, rest.1, own)))
        | inr e ↦ rw e (omega (arith, rest.0, step.1), omega (arith, rest.1, step.2))
      ]
