-- ===== src/Queue/Fifo.antt =====
-- The demotion queue is a first-in first-out queue that refuses pushes at its pressure threshold.
use walde.Base.{
  ℕ, ◌+◌, ◌-◌, ◌%◌, ◌^◌, ◌≤◌, ◌<◌, ◌≡◌, refl, sym, ap, ◌∙◌, subst, List, [], ◌∷◌, ◌++◌, length,
  length-append, update, update_self, arith, true, false, inl, inr, Bool-cases, ltb, lt_of_ltb,
  le_of_ltb, if◌then◌else◌, ◌*◌, ◌/◌, bit_and, leb-true, leb-false,
}
use native.Mathlib.Nat.{mod-lt, mod-eq_of_lt, pow-le-pow_right}
use walde.Base.Arith.{add64}
use walde.Queue.{DemotionItem, DemotionQueue, threshold, unlocked_size, slot, try_push}
use walde.Queue.Mask.{pow_pos, bit_and-mask}
use walde.Queue.Ring.{Holds, Holds-update, Holds-snoc, wrap_mod}

-- The queue `q`, of capacity `2 ^ k`, holds `xs`, oldest first.
pub record IsQueue (k : ℕ) (q : DemotionQueue) (xs : List DemotionItem) : Type 0 where
  pub capacity : q.capacity ≡ 2 ^ k
  pub mask : q.mask ≡ 2 ^ k - 1
  pub small : k ≤ 31
  pub read : q.read_pos < 2 ^ 64
  pub write : q.write_pos ≡ add64 q.read_pos (length xs)
  pub bound : length xs ≤ 2 ^ k
  pub items : Holds q.buffer (2 ^ k) q.read_pos xs

pub pow_small : (k : ℕ) → k ≤ 31 → 2 ^ k ≤ 2 ^ 31
pow_small k h = pow-le-pow_right (omega arith) h

module _ (k : ℕ) (q : DemotionQueue) (xs : List DemotionItem) (v : IsQueue k q xs) where
  pub slot-mod : (p : ℕ) → slot q p ≡ p % 2 ^ k
  unfolding slot
  slot-mod p =
      ap (λ m. bit_and p m % 2 ^ 32) v.mask
      ∙ ap (λ m. m % 2 ^ 32) (bit_and-mask p k)
      ∙ mod-eq_of_lt (omega (arith, mod-lt p (pow_pos k), pow_small k v.small))

  pub size-length : unlocked_size q ≡ length xs
  size-length = omega (arith, v.write, v.bound, v.read, pow_small k v.small)

  threshold-le : threshold q ≤ 2 ^ k
  unfolding threshold
  threshold-le = omega (arith, v.capacity)

  -- The queue after an accepted push.
  pushed : DemotionItem → DemotionQueue
  pushed item = record q {
    buffer = update q.buffer (slot q q.write_pos) item;
    write_pos = add64 q.write_pos 1;
  }

  write_slot : slot q q.write_pos ≡ (q.read_pos + length xs) % 2 ^ k
  write_slot =
      slot-mod q.write_pos
      ∙ ap (λ n. n % 2 ^ k) v.write
      ∙ wrap_mod (q.read_pos + length xs) k (omega (arith, v.small))

  pushed-IsQueue :
      (item : DemotionItem) → length xs < 2 ^ k → IsQueue k (pushed item) (xs ++ item ∷ [])
  unfolding pushed
  pushed-IsQueue item room = record {
    capacity = v.capacity;
    mask = v.mask;
    small = v.small;
    read = v.read;
    write = omega (arith, v.write, length-append xs (item ∷ []));
    bound = omega (arith, length-append xs (item ∷ []));
    items =
        Holds-snoc (update q.buffer (slot q q.write_pos) item) (2 ^ k) q.read_pos item xs
          (ap (update q.buffer (slot q q.write_pos) item) (sym write_slot)
            ∙ update_self q.buffer (slot q q.write_pos) item)
          (subst (λ j. Holds (update q.buffer j item) (2 ^ k) q.read_pos xs) (sym write_slot)
            (Holds-update q.buffer (2 ^ k) q.read_pos (q.read_pos + length xs) item xs (omega arith)
              (omega arith) v.items));
  }

  try_push_accepts :
      (item : DemotionItem) → length xs < threshold q → try_push q item ≡ (true, pushed item)
  unfolding try_push pushed
  try_push_accepts item h =
      rw (leb-false (threshold q) (unlocked_size q) (omega (arith, size-length))) (
        rw
          (leb-false q.capacity (unlocked_size q)
            (omega (arith, size-length, threshold-le, v.capacity)))
          refl)

  try_push_refuses :
      (item : DemotionItem)
      → threshold q ≤ length xs
      → try_push q item ≡ (false, record q { drops = add64 q.drops 1 })
  unfolding try_push
  try_push_refuses item h =
      rw (leb-true (threshold q) (unlocked_size q) (omega (arith, size-length))) refl

  counted : {n : ℕ} → IsQueue k (record q { drops = n }) xs
  counted = record {
    capacity = v.capacity;
    mask = v.mask;
    small = v.small;
    read = v.read;
    write = v.write;
    bound = v.bound;
    items = v.items;
  }

  -- Below the threshold a push puts the item behind the others and counts no drop.
  pub try_push_below :
      (item : DemotionItem)
      → length xs < threshold q
      → ((try_push q item).0 ≡ true)
        × IsQueue k (try_push q item).1 (xs ++ item ∷ [])
        × ((try_push q item).1.drops ≡ q.drops)
  try_push_below item h =
      subst (λ r. (r.0 ≡ true) × IsQueue k r.1 (xs ++ item ∷ []) × (r.1.drops ≡ q.drops))
        (sym (try_push_accepts item h))
        (refl, pushed-IsQueue item (omega (arith, threshold-le)), unfold pushed in refl)

  -- From the threshold on a push is refused: it changes nothing but the count of drops.
  pub try_push_above :
      (item : DemotionItem)
      → threshold q ≤ length xs
      → ((try_push q item).0 ≡ false)
        × IsQueue k (try_push q item).1 xs
        × ((try_push q item).1.drops ≡ add64 q.drops 1)
  try_push_above item h =
      subst (λ r. (r.0 ≡ false) × IsQueue k r.1 xs × (r.1.drops ≡ add64 q.drops 1))
        (sym (try_push_refuses item h)) (refl, counted, refl)

  -- Four fifths of the capacity, rounded down, while the float's error is below one slot.
  threshold-fifths : k ≤ 23 → threshold q ≡ 2 ^ k * 4 / 5
  unfolding threshold
  threshold-fifths h =
      let bound : 2 ^ k ≤ 2 ^ 23 = pow-le-pow_right (omega arith) h in
      omega (arith, v.capacity, bound)

  -- For a capacity of up to 2^23 slots a push is accepted exactly if the queue holds fewer items than
  -- four fifths of the capacity, rounded down: then the item is behind the others and no drop is
  -- counted; otherwise the queue holds what it held and one drop more is counted.
  pub try_push-fifths :
      (item : DemotionItem)
      → k ≤ 23
      → let room = ltb (length xs) (2 ^ k * 4 / 5) in
        ((try_push q item).0 ≡ room)
        × IsQueue k (try_push q item).1 (if room then xs ++ item ∷ [] else xs)
        × ((try_push q item).1.drops ≡ (if room then q.drops else add64 q.drops 1))
  try_push-fifths item h =
      let t = threshold-fifths h in
      elim (Bool-cases (ltb (length xs) (2 ^ k * 4 / 5))) [
        | inl e ↦ rw e (try_push_below item (omega (arith, t, lt_of_ltb (length xs) _ e)))
        | inr e ↦ rw e (try_push_above item (omega (arith, t, le_of_ltb (length xs) _ e)))
      ]
