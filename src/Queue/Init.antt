-- ===== src/Queue/Init.antt =====
-- The constructor of `DemotionQueue` builds an empty queue.
use walde.Base.{
  ℕ, ◌*◌, ◌^◌, ◌≤◌, ◌<◌, ◌≡◌, refl, [], inl, inr, Bool-cases, ◌==◌, eq_of_==, ne_of_==, arith, max,
}
use walde.Queue.{next_power_of_2, init}
use walde.Queue.Mask.{pow_pos}
use walde.Queue.Power.{next_power_of_2_lem}
use walde.Queue.Fifo.{IsQueue, pow_small}

empty_of :
    (capacity k : ℕ) → k ≤ 31 → next_power_of_2 capacity ≡ 2 ^ k → IsQueue k (init capacity) []
unfolding init
empty_of capacity k h e = record {
  capacity = e;
  mask = omega (arith, e, pow_small k h, pow_pos k);
  small = h;
  read = omega arith;
  write = refl;
  bound = omega arith;
  items = tt;
}

-- For a requested capacity of at most 2^31 the constructor builds an empty queue whose capacity is a
-- power of two, at least the requested one, less than twice as large, and 1 for a request of 0.
pub init-IsQueue :
    (capacity : ℕ)
    → capacity ≤ 2 ^ 31
    → (k : ℕ) × IsQueue k (init capacity) [] × (capacity ≤ 2 ^ k) × (2 ^ k < 2 * max 1 capacity)
unfolding next_power_of_2
init-IsQueue capacity h = elim (Bool-cases (capacity == 0)) [
  | inl p ↦
      let z = eq_of_== capacity 0 p in
      (0, empty_of capacity 0 (omega arith) (rw p refl), omega (arith, z), omega (arith, z))
  | inr p ↦
      let n = ne_of_== capacity 0 p in
      let (k, l, e, a, b) = next_power_of_2_lem capacity (omega (arith, n)) h in
      (k, empty_of capacity k l e, a, omega (arith, b))
]
