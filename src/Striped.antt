-- ===== src/Striped.antt =====
-- src/striped_cache.cpp and include/striped_cache.h: 64 stripes over one slab. A key is routed to a
-- stripe by its hash. All stripes point to one demotion queue, so it is a field here, lent to the
-- stripe that runs; a method of a stripe is one step.
pub mod Sharing
pub mod Invariant
pub mod Methods
pub mod Kept
pub mod Init
pub mod Batch
mod Tests
use walde.Base.{
  ℕ, zero, suc, ◌+◌, ◌/◌, ◌%◌, Bool, Option, none, some, List, [], ◌∷◌, ◌==◌, ltb, if◌then◌else◌,
  update, length, replicate, set,
}
use walde.Base.Arith.{add32, add64}
use walde.Types.{num_stripes, Key, Value}
use walde.Slab
use walde.Slab.{Slab, Cmd, and_then}
use walde.Queue.{DemotionQueue}
use walde.Stripe
use walde.Stripe.{CacheStripe}

pub record StripedCache : Type 0 where
  pub stripes : ℕ → CacheStripe
  pub slab : Slab
  pub demotion_queue : Option DemotionQueue

-- A method that may fail, with its result and the cache that it leaves.
abbrev pub Method : Type 0 → Type 0
Method A = StripedCache → Option (A × StripedCache)

abbrev pub per_stripe : ℕ → ℕ
per_stripe total_capacity =
    if ltb (total_capacity / num_stripes) 3 then 3 else total_capacity / num_stripes

-- The constructor; each stripe has the same capacity and the same first state. `none` is the
-- exception of the slab or a failed assertion of a stripe.
unfoldable pub init : (window_part probation_part : ℕ → ℕ) → ℕ → Option StripedCache
init window_part probation_part total_capacity =
    elim (Slab.init (add32 total_capacity num_stripes)) [
      | none ↦ none
      | some slab ↦ elim (Stripe.init window_part probation_part (per_stripe total_capacity)) [
        | none ↦ none
        | some s ↦ some (record { stripes = λ _. s; slab = slab; demotion_queue = none })
      ]
    ]

-- `set_demotion_queue`
abbrev pub set_demotion_queue : Option DemotionQueue → StripedCache → StripedCache
set_demotion_queue q c = record c { demotion_queue = q }

-- The stripe as it runs, with the queue that all stripes share.
abbrev pub lent : StripedCache → ℕ → CacheStripe
lent c i = record (c.stripes i) { demotion_queue = c.demotion_queue }

abbrev pub returned :
    {A : Type 0} → StripedCache → ℕ → Option ((A × CacheStripe) × Slab) → Option (A × StripedCache)
returned c i none = none
returned c i (some ((a, s), t)) =
    some (a, record { stripes = update c.stripes i s; slab = t; demotion_queue = s.demotion_queue })

-- `stripes_[i]->op(...)`
abbrev pub on_stripe : {A : Type 0} → ℕ → (CacheStripe → Cmd (A × CacheStripe)) → Method A
on_stripe i op c = returned c i (op (lent c i) c.slab)

module _ (xxh32 xxh64 : Key → ℕ → ℕ) where
  unfoldable pub route : Key → ℕ
  route key = xxh64 key 0 % num_stripes

  unfoldable pub get : Key → Method (Option Value)
  unfolding route
  get key = on_stripe (route key) (λ s. Stripe.get xxh32 s key)

  unfoldable pub put : Key → Value → Method Bool
  unfolding route
  put key value = on_stripe (route key) (λ s. Stripe.put xxh32 s key value)

  unfoldable pub remove : Key → Method Bool
  unfolding route
  remove key = on_stripe (route key) (λ s. Stripe.remove s key)

  -- `stripe_groups[s]`, from index `i` on: the keys of the group with their indices, in order.
  unfoldable pub group : ℕ → ℕ → List Key → List (ℕ × Key)
  unfolding route
  group s i [] = []
  group s i (k ∷ ks) = let rest = group s (i + 1) ks in if route k == s then (i, k) ∷ rest else rest

  -- The inner loop of `batch_get`, over one group.
  unfoldable pub get_group : ℕ → List (ℕ × Key) → List (Option Value) → Method (List (Option Value))
  get_group s [] results c = some (results, c)
  get_group s ((i, k) ∷ ks) results c =
      and_then (on_stripe s (λ st. Stripe.get xxh32 st k) c)
        λ v c'. get_group s ks (set results i v) c'

  -- The outer loop, with `n` stripes left, from stripe `s` on.
  unfoldable pub get_groups : ℕ → ℕ → List Key → List (Option Value) → Method (List (Option Value))
  unfolding group get_group
  get_groups zero s keys results c = some (results, c)
  get_groups (suc n) s keys results c =
      and_then (get_group s (group s 0 keys) results c)
        λ results' c'. get_groups n (s + 1) keys results' c'

  unfoldable pub batch_get : List Key → Method (List (Option Value))
  unfolding get_groups
  batch_get keys = get_groups num_stripes 0 keys (replicate (length keys) none)

-- `uint64_t sum = 0; for (auto& s : stripes_) sum += ...`, over `n` stripes from stripe `i` on.
unfoldable pub sum64 : (CacheStripe → ℕ) → StripedCache → ℕ → ℕ → ℕ → ℕ
sum64 f c zero i sum = sum
sum64 f c (suc n) i sum = sum64 f c n (i + 1) (add64 sum (f (c.stripes i)))

unfoldable pub total_hits : StripedCache → ℕ
unfolding sum64
total_hits c = sum64 (λ s. s.hits) c num_stripes 0 0

unfoldable pub total_misses : StripedCache → ℕ
unfolding sum64
total_misses c = sum64 (λ s. s.misses) c num_stripes 0 0

unfoldable pub total_evictions : StripedCache → ℕ
unfolding sum64
total_evictions c = sum64 (λ s. s.evictions) c num_stripes 0 0

unfoldable pub total_admissions : StripedCache → ℕ
unfolding sum64
total_admissions c = sum64 (λ s. s.admissions) c num_stripes 0 0

unfoldable pub total_rejections : StripedCache → ℕ
unfolding sum64
total_rejections c = sum64 (λ s. s.rejections) c num_stripes 0 0

-- The same in 32 bits.
unfoldable pub sum_sizes : StripedCache → ℕ → ℕ → ℕ → ℕ
sum_sizes c zero i sum = sum
sum_sizes c (suc n) i sum = sum_sizes c n (i + 1) (add32 sum (Stripe.size (c.stripes i)))

unfoldable pub total_size : StripedCache → ℕ
unfolding sum_sizes
total_size c = sum_sizes c num_stripes 0 0

unfoldable pub stripe_hits : ℕ → StripedCache → ℕ
stripe_hits stripe_id c = (c.stripes stripe_id).hits

unfoldable pub stripe_misses : ℕ → StripedCache → ℕ
stripe_misses stripe_id c = (c.stripes stripe_id).misses
