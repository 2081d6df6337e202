-- ===== src/Sketch/Rows.antt =====
-- Where the sketch keeps a key's counters, and what one pass over its rows changes.
use walde.Base.{
  ℕ, zero, suc, ◌+◌, ◌*◌, ◌^◌, ◌≤◌, ◌<◌, ◌≡◌, ◌≢◌, refl, sym, ap, ◌∙◌, List, set, get_or, length,
  arith, inl, inr, Bool-cases, ◌==◌, eq_of_==, ne_of_==, length-set, get_or-set_self, get_or-set_ne,
  subst,
}
use native.Mathlib.Nat.{mod-lt}
use walde.Base.Arith.{add32}
use walde.Types.{Key}
use walde.Sketch.{CountMinSketch, uint32_max, hash, cell, increment_rows}

-- The counters form `depth` rows of `width`, and every index fits `uint32_t`.
pub record IsSketch (c : CountMinSketch) : Type 0 where
  pub rows : 0 < c.depth
  pub columns : 0 < c.width
  pub table : length c.counters ≡ c.depth * c.width
  pub fits : c.depth * c.width ≤ 2 ^ 32

abbrev bump : List ℕ → ℕ → List ℕ
bump xs j = set xs j (add32 (get_or xs j 0) 1)

bump_self : (xs : List ℕ) (j : ℕ) → j < length xs → get_or (bump xs j) j 0 ≡ add32 (get_or xs j 0) 1
bump_self xs j h = get_or-set_self xs j (add32 (get_or xs j 0) 1) 0 h

bump_ne : (xs : List ℕ) (i j : ℕ) → i ≢ j → get_or (bump xs i) j 0 ≡ get_or xs j 0
bump_ne xs i j h = get_or-set_ne xs i j (add32 (get_or xs i 0) 1) 0 h

in_table : (row col d w : ℕ) → row < d → col < w → row * w + col < d * w
in_table row col d w h k = grind arith

pub row_apart : (r q a b w : ℕ) → r < q → a < w → r * w + a ≢ q * w + b
row_apart r q a b w h k = grind arith

module _ (xxh32 : Key → ℕ → ℕ) where
  pub hash-lt :
      (c : CountMinSketch) (key : Key) (row : ℕ) → 0 < c.width → hash xxh32 c key row < c.width
  unfolding hash
  hash-lt c key row h = mod-lt (xxh32 key (get_or c.seeds row 0)) h

  cell_lem :
      (c : CountMinSketch) (key : Key) (row : ℕ)
      → IsSketch c
      → row < c.depth
      → (cell xxh32 c key row ≡ row * c.width + hash xxh32 c key row)
        × (row * c.width + hash xxh32 c key row < c.depth * c.width)
  unfolding cell
  cell_lem c key row v h =
      let col = hash-lt c key row v.columns in
      let inside = in_table row (hash xxh32 c key row) c.depth c.width h col in
      (omega (arith, v.fits), inside)

  -- No counter access leaves the table.
  pub cell-lt :
      (c : CountMinSketch) (key : Key) (row : ℕ)
      → IsSketch c
      → row < c.depth
      → cell xxh32 c key row < length c.counters
  cell-lt c key row v h = omega (arith, cell_lem c key row v h, v.table)

  -- Two rows share no counter, whichever keys they serve.
  pub cell-ne :
      (c : CountMinSketch) (k j : Key) (r q : ℕ)
      → IsSketch c
      → r < q
      → q < c.depth
      → cell xxh32 c k r ≢ cell xxh32 c j q
  cell-ne c k j r q v h d e =
      row_apart r q (hash xxh32 c k r) (hash xxh32 c j q) c.width h (hash-lt c k r v.columns)
        (sym (cell_lem c k r v (omega arith)).0 ∙ e ∙ (cell_lem c j q v d).0)

  -- The counters only decide what is read, not where.
  pub cell_same :
      (c : CountMinSketch) (key : Key) (row : ℕ) (xs : List ℕ) (t : ℕ)
      → cell xxh32 (record c { counters = xs; total_increments = t }) key row ≡ cell xxh32 c key row
  unfolding cell hash
  cell_same c key row xs t = refl

  module _ (c : CountMinSketch) (key : Key) (v : IsSketch c) where
    -- The table keeps its size.
    pub length-increment_rows :
        (n row : ℕ) (xs : List ℕ) → length (increment_rows xxh32 n row key c xs) ≡ length xs
    unfolding increment_rows
    length-increment_rows zero row xs = refl
    length-increment_rows (suc n) row xs =
        length-increment_rows n (row + 1) (bump xs (cell xxh32 c key row))
        ∙ length-set xs (cell xxh32 c key row) _

    -- A counter that the remaining rows do not touch stays.
    increment_rows_untouched :
        (n row : ℕ) (xs : List ℕ) (j : ℕ)
        → ((r : ℕ) → row ≤ r → r < row + n → cell xxh32 c key r ≢ j)
        → get_or (increment_rows xxh32 n row key c xs) j 0 ≡ get_or xs j 0
    unfolding increment_rows
    increment_rows_untouched zero row xs j h = refl
    increment_rows_untouched (suc n) row xs j h =
        increment_rows_untouched n (row + 1) (bump xs (cell xxh32 c key row)) j
          (λ r a b. h r (omega arith) (omega arith))
        ∙ bump_ne xs (cell xxh32 c key row) j (h row (omega arith) (omega arith))

    -- The counter of the current row goes up by one: no later row touches it.
    increment_rows_first :
        (n row : ℕ) (xs : List ℕ)
        → row + suc n ≤ c.depth
        → length xs ≡ length c.counters
        → get_or (increment_rows xxh32 (suc n) row key c xs) (cell xxh32 c key row) 0
          ≡ add32 (get_or xs (cell xxh32 c key row) 0) 1
    unfolding increment_rows
    increment_rows_first n row xs d len =
        increment_rows_untouched n (row + 1) (bump xs (cell xxh32 c key row)) (cell xxh32 c key row)
          (λ r a b e. cell-ne c key key row r v (omega arith) (omega arith) (sym e))
        ∙ bump_self xs (cell xxh32 c key row) (omega (arith, cell-lt c key row v (omega arith)))

    -- The counter that belongs to the key in row `r` goes up by one.
    pub increment_rows_own :
        (n row : ℕ) (xs : List ℕ) (r : ℕ)
        → row ≤ r
        → r < row + n
        → row + n ≤ c.depth
        → length xs ≡ length c.counters
        → get_or (increment_rows xxh32 n row key c xs) (cell xxh32 c key r) 0
          ≡ add32 (get_or xs (cell xxh32 c key r) 0) 1
    unfolding increment_rows
    increment_rows_own zero row xs r a b d len = absurd (omega arith)
    increment_rows_own (suc n) row xs r a b d len = elim (Bool-cases (row == r)) [
      | inl e ↦
          subst
            (λ q.
              get_or (increment_rows xxh32 (suc n) row key c xs) (cell xxh32 c key q) 0
              ≡ add32 (get_or xs (cell xxh32 c key q) 0) 1)
            (eq_of_== row r e) (increment_rows_first n row xs d len)
      | inr e ↦
          let later : row < r = omega (arith, ne_of_== row r e) in
          increment_rows_own n (row + 1) (bump xs (cell xxh32 c key row)) r (omega arith)
            (omega arith) (omega arith) (length-set xs (cell xxh32 c key row) _ ∙ len)
          ∙ ap (λ x. add32 x 1)
              (bump_ne xs (cell xxh32 c key row) (cell xxh32 c key r)
                (cell-ne c key key row r v later (omega arith)))
    ]

    -- No counter goes up by more than one.
    pub increment_rows_bounds :
        (n row : ℕ) (xs : List ℕ) (j : ℕ)
        → row + n ≤ c.depth
        → length xs ≡ length c.counters
        → get_or xs j 0 < uint32_max
        → (get_or xs j 0 ≤ get_or (increment_rows xxh32 n row key c xs) j 0)
          × (get_or (increment_rows xxh32 n row key c xs) j 0 ≤ get_or xs j 0 + 1)
    unfolding increment_rows
    increment_rows_bounds zero row xs j d len b = (omega arith, omega arith)
    increment_rows_bounds (suc n) row xs j d len b = elim (Bool-cases (cell xxh32 c key row == j)) [
      | inl e ↦
          let at : cell xxh32 c key row ≡ j = eq_of_== (cell xxh32 c key row) j e in
          let up =
            subst
              (λ q.
                get_or (increment_rows xxh32 (suc n) row key c xs) q 0 ≡ add32 (get_or xs q 0) 1)
              at (increment_rows_first n row xs d len) in
          (omega (arith, up), omega (arith, up))
      | inr e ↦
          let kept : get_or (bump xs (cell xxh32 c key row)) j 0 ≡ get_or xs j 0 =
            bump_ne xs (cell xxh32 c key row) j (ne_of_== (cell xxh32 c key row) j e) in
          let rest =
            increment_rows_bounds n (row + 1) (bump xs (cell xxh32 c key row)) j (omega arith)
              (length-set xs (cell xxh32 c key row) _ ∙ len) (omega (arith, kept)) in
          (omega (arith, kept, rest.0), omega (arith, kept, rest.1))
    ]
