-- ===== src/Engine/Init.antt =====
-- The constructor of `CacheEngine`.
use walde.Base.{ℕ, ◌<◌, ◌≤◌, ◌+◌, ◌/◌, max, ◌≡◌, refl, ap, Option, some, arith}
use walde.Types.{Key, Value, invalid_index, num_stripes}
use walde.Queue
use walde.Queue.{DemotionQueue}
use walde.Striped.{StripedCache, set_demotion_queue}
use walde.Striped.Invariant.{IsCache}
use walde.Striped.Init.{first, init-IsCache}
use walde.L2.{empty_stripe}
use walde.L2.Stripes.{empty_stripe-IsL2}
use walde.Backend.{StorageBackend, IsStore}
use walde.Engine.{CacheEngine, num_l2_stripes, init}
use walde.Engine.Lookup.{IsEngine, answer, or_else}
use walde.Engine.Coherence.{IsCoherent}

pub IsCache-queue :
    (c : StripedCache) (q : Option DemotionQueue) → IsCache c → IsCache (set_demotion_queue q c)
IsCache-queue c q v = record {
  families = v.families;
  unused = v.unused;
  part = v.part;
  apart = v.apart;
}

module _ (window_part probation_part : ℕ → ℕ) (smaller : (n : ℕ) → 0 < n → probation_part n < n)
    (total : ℕ) (word : total + num_stripes ≤ invalid_index) {S : Type 0}
    (l2_capacity demotion_queue_size : ℕ) (backend : S) where
  -- The engine that is assembled.
  abbrev pub assembled : CacheEngine S
  assembled = record {
    l1 =
        set_demotion_queue (some (Queue.init demotion_queue_size))
          (first window_part probation_part smaller total word);
    backend = backend;
    l2_stripes = λ _. empty_stripe;
    l2_capacity_per_stripe = max 1 (l2_capacity / num_l2_stripes);
  }

  -- The constructor succeeds if the striped cache's does; the engine respects its invariant, and a
  -- lookup answers with what the backend stores, with which both levels agree.
  pub init-IsEngine :
      (xxh32 xxh64 : Key → ℕ → ℕ) (b : StorageBackend S) (stored : S → Key → Option Value)
      (store : IsStore b stored)
      → (init window_part probation_part total l2_capacity demotion_queue_size backend
          ≡ some assembled)
        × IsEngine assembled
        × IsCoherent xxh32 xxh64 b stored store assembled
        × ((k : Key) → answer xxh32 xxh64 b stored store assembled k ≡ stored backend k)
  unfolding init
  init-IsEngine xxh32 xxh64 b stored store =
      let (e, v, empty) = init-IsCache window_part probation_part smaller total word xxh32 xxh64 in
      (
        rw (init, e) refl,
        record {
          l1 =
              IsCache-queue (first window_part probation_part smaller total word)
                (some (Queue.init demotion_queue_size)) v;
          l2 = λ i h. empty_stripe-IsL2 (max 1 (l2_capacity / num_l2_stripes));
          room = omega arith;
        },
        record { first = λ k w p. absurd (let q = empty k in cc); second = λ k w p. absurd cc },
        λ k. ap (λ o. or_else o (stored backend k)) (empty k),
      )
