-- ===== src/Striped/Init.antt =====
-- The constructor of `StripedCache`: no stripe holds an entry, and all slots are free.
use walde.Base.{
  ℕ, ◌+◌, ◌/◌, ◌^◌, ◌≤◌, ◌<◌, ◌≡◌, refl, none, some, arith, ltb, inl, inr, Bool-cases, le_of_ltb,
}
use walde.Base.Arith.{add32}
use walde.Types.{Key, invalid_index, num_stripes}
use walde.Slab
use walde.Slab.{fresh}
use walde.Slab.Alloc.{init-IsFree}
use walde.Slab.FreeList.{IsFree, up_from}
use walde.Stripe
use walde.Stripe.{CacheStripe, built}
use walde.Stripe.Init.{IsEmpty, no_entries, Lists-empty, Indexed-empty, init-IsEmpty}
use walde.Striped.{StripedCache, init, per_stripe}
use walde.Striped.Invariant.{IsCache}
use walde.Striped.Methods.{held}

module _ (window_part probation_part : ℕ → ℕ) (smaller : (n : ℕ) → 0 < n → probation_part n < n)
    (total : ℕ) (word : total + num_stripes ≤ invalid_index) where
  stripe : CacheStripe
  stripe = built window_part probation_part (per_stripe total)

  -- The cache that is built.
  abbrev pub first : StripedCache
  first = record {
    stripes = λ _. built window_part probation_part (per_stripe total);
    slab = fresh (total + num_stripes);
    demotion_queue = none;
  }

  per_stripe_bounds : (3 ≤ per_stripe total) × (per_stripe total < 2 ^ 32)
  per_stripe_bounds = elim (Bool-cases (ltb (total / num_stripes) 3)) [
    | inl e ↦ rw e (omega arith, omega arith)
    | inr e ↦ rw e (let h = le_of_ltb _ _ e in (h, omega arith))
  ]

  stripe-IsEmpty :
      (Stripe.init window_part probation_part (per_stripe total) ≡ some stripe) × IsEmpty stripe
  unfolding stripe
  stripe-IsEmpty =
      init-IsEmpty window_part probation_part smaller (per_stripe total) per_stripe_bounds.0
        per_stripe_bounds.1

  slab-IsFree :
      (Slab.init (total + num_stripes) ≡ some (fresh (total + num_stripes)))
      × IsFree (fresh (total + num_stripes)) (up_from 0 (total + num_stripes))
  slab-IsFree = init-IsFree (total + num_stripes) (omega arith) word

  first-IsCache : IsCache first
  unfolding stripe
  first-IsCache = record {
    families = λ _. no_entries;
    unused = up_from 0 (total + num_stripes);
    part = λ i l. record {
      lists =
          Lists-empty stripe (fresh (total + num_stripes)) _ stripe-IsEmpty.1 slab-IsFree.1
            (λ a m. refl);
      index =
          Indexed-empty stripe (fresh (total + num_stripes)) (up_from 0 (total + num_stripes))
            stripe-IsEmpty.1 slab-IsFree.1 (λ a m. refl);
      window_bound = omega arith;
      main_bound = omega arith;
      protected_bound = omega arith;
      protected_room = stripe-IsEmpty.1.protected_room;
    };
    apart = λ i j l n ne g h a m. absurd (cc);
  }

  exact : add32 total num_stripes ≡ total + num_stripes
  exact = omega (arith, word)

  opens : init window_part probation_part total ≡ some first
  unfolding init stripe
  opens = rw (init, exact, slab-IsFree.0) (rw stripe-IsEmpty.0 refl)

  -- The constructor succeeds, without overflow of the slab's capacity and with a probation share that
  -- is smaller than the main capacity it is a part of; the cache that it builds respects the invariant
  -- and holds nothing for any key.
  pub init-IsCache :
      (xxh32 xxh64 : Key → ℕ → ℕ)
      → (init window_part probation_part total ≡ some first)
        × IsCache first
        × ((k : Key) → held xxh32 xxh64 first k ≡ none)
  unfolding built
  init-IsCache xxh32 xxh64 = (opens, first-IsCache, λ k. refl)
