-- ===== src/Queue/Pop.antt =====
-- `try_pop` and `try_pop_batch` take the oldest items, in order.
use walde.Base.{
  ℕ, zero, suc, ◌+◌, ◌%◌, ◌^◌, ◌≤◌, ◌≡◌, refl, sym, ap, ◌∙◌, subst, List, [], ◌∷◌, ◌++◌, length,
  length-drop, take, drop, take-min, drop-min, arith, ◌≢◌, some, none, min, ==_ne, eq_true,
}
use mathlib.Core.Path.{ap₂}
use mathlib.Core.List.{append-nil}
use walde.Base.Arith.{add64}
use walde.Queue.{
  DemotionItem, DemotionQueue, unlocked_size, slot, try_pop, batch_items, try_pop_batch,
}
use walde.Queue.Ring.{Holds, Holds-cong, Holds-drop, wrap_mod}
use walde.Queue.Fifo.{IsQueue, slot-mod, size-length, pow_small}

module _ (k : ℕ) (q : DemotionQueue) where
  -- The queue after `n` items are taken.
  abbrev advanced : ℕ → DemotionQueue
  advanced n = record q { read_pos = add64 q.read_pos n }

  advanced-IsQueue :
      (xs : List DemotionItem) (n : ℕ)
      → IsQueue k q xs
      → n ≤ length xs
      → IsQueue k (advanced n) (drop n xs)
  advanced-IsQueue xs n v h = record {
    capacity = v.capacity;
    mask = v.mask;
    small = v.small;
    read = omega arith;
    write = omega (arith, v.write, length-drop n xs);
    bound = omega (arith, v.bound, length-drop n xs);
    items =
        Holds-cong q.buffer (2 ^ k) (q.read_pos + n) (add64 q.read_pos n) (drop n xs)
          (sym (wrap_mod (q.read_pos + n) k (omega (arith, v.small))))
          (Holds-drop q.buffer (2 ^ k) q.read_pos n xs h v.items);
  }

  batch_items-take :
      (xs ys : List DemotionItem) (i n : ℕ)
      → IsQueue k q xs
      → Holds q.buffer (2 ^ k) (q.read_pos + i) ys
      → n ≤ length ys
      → batch_items q i n ≡ take n ys
  unfolding batch_items
  batch_items-take xs ys i zero v b h = refl
  batch_items-take xs [] i (suc n) v b h = absurd (omega arith)
  batch_items-take xs (y ∷ ys) i (suc n) v b h =
      ap₂ ◌∷◌
        (ap q.buffer (
            slot-mod k q xs v (add64 q.read_pos i)
            ∙ wrap_mod (q.read_pos + i) k (omega (arith, v.small)))
          ∙ b.0)
        (batch_items-take xs ys (i + 1) n v
          (Holds-cong q.buffer (2 ^ k) (q.read_pos + i + 1) (q.read_pos + (i + 1)) ys
            (ap (λ j. j % 2 ^ k) {x = q.read_pos + i + 1} {y = q.read_pos + (i + 1)} (omega arith))
            b.1)
          (omega arith))

  -- `try_pop` hands out the oldest item, or reports that there is none and changes nothing.
  pub try_pop_lem :
      (xs : List DemotionItem)
      → IsQueue k q xs
      → ((try_pop q).0 ≡ elim xs [ [] ↦ none | x ∷ _ ↦ some x ])
        × IsQueue k (try_pop q).1 (drop 1 xs)
  unfolding try_pop
  try_pop_lem [] v =
      let e : try_pop q ≡ (none, q) =
        rw (eq_true q.read_pos q.write_pos (omega (arith, v.write, v.read))) refl in
      subst (λ r. (r.0 ≡ none) × IsQueue k r.1 []) (sym e) (refl, v)
  try_pop_lem (x ∷ xs) v =
      let far : q.read_pos ≢ q.write_pos =
        λ e. absurd (omega (arith, v.write, v.read, v.bound, pow_small k v.small)) in
      let e : try_pop q ≡ (some (q.buffer (slot q q.read_pos)), advanced 1) =
        rw (==_ne q.read_pos q.write_pos far) refl in
      subst (λ r. (r.0 ≡ some x) × IsQueue k r.1 xs) (sym e)
        (
          ap some (ap q.buffer (slot-mod k q (x ∷ xs) v q.read_pos) ∙ v.items.0),
          advanced-IsQueue (x ∷ xs) 1 v (omega arith),
        )

  -- `try_pop_batch` appends the `max_count` oldest items, or all there are, to `out` in order and
  -- says how many.
  pub try_pop_batch_lem :
      (xs out : List DemotionItem) (max_count : ℕ)
      → IsQueue k q xs
      → ((try_pop_batch q out max_count).0 ≡ min max_count (length xs))
        × ((try_pop_batch q out max_count).1 ≡ out ++ take max_count xs)
        × IsQueue k (try_pop_batch q out max_count).2 (drop max_count xs)
  unfolding try_pop_batch
  try_pop_batch_lem [] out n v =
      let e : try_pop_batch q out n ≡ (0, out, q) =
        rw (eq_true (unlocked_size q) 0 (size-length k q [] v)) refl in
      subst (λ r. (r.0 ≡ min n 0) × (r.1 ≡ out ++ take n []) × IsQueue k r.2 (drop n [])) (sym e)
        (
          omega arith,
          sym (
              ap (◌++◌ out) (sym (take-min n []))
              ∙ ap (λ m. out ++ take m []) {x = min n 0} {y = 0} (omega arith)
              ∙ append-nil out),
          subst (IsQueue k q)
              (ap (λ m. drop m []) {x = 0} {y = min n 0} (omega arith) ∙ drop-min n []) v,
        )
  try_pop_batch_lem (x ∷ xs) out n v =
      let all = x ∷ xs in
      let m = min n (length all) in
      let size = size-length k q all v in
      let e : try_pop_batch q out n ≡ (m, out ++ batch_items q 0 m, advanced m) =
        rw size (rw (==_ne (suc (length xs)) 0 (omega arith)) refl) in
      subst (λ r. (r.0 ≡ m) × (r.1 ≡ out ++ take n all) × IsQueue k r.2 (drop n all)) (sym e)
        (
          refl,
          ap (◌++◌ out) (
              batch_items-take all all 0 m v
                (Holds-cong q.buffer (2 ^ k) q.read_pos (q.read_pos + 0) all
                  (ap (λ j. j % 2 ^ k) {x = q.read_pos} {y = q.read_pos + 0} (omega arith)) v.items)
                (omega arith)
              ∙ take-min n all),
          subst (IsQueue k (advanced m)) (drop-min n all) (advanced-IsQueue all m v (omega arith)),
        )
