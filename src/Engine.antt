-- ===== src/Engine.antt =====
-- src/cache_engine.cpp and include/cache_engine.h: the engine over the striped cache, the second
-- level and a storage backend. The demotion queue that the stripes point to lives in the striped
-- cache's field; a call is one step, and so is a round of the drainer.
pub mod Levels
pub mod Lookup
pub mod Calls
pub mod Coherence
pub mod Batch
pub mod Init
pub mod Sink
pub mod Kept
pub mod Threads
pub mod Instrumented
mod Tests
use walde.Base.{
  ℕ, zero, suc, ◌+◌, ◌*◌, ◌/◌, ◌%◌, ◌^◌, max, Bool, true, false, ◌||◌, Option, none, some, List, [],
  ◌∷◌, update, if◌then◌else◌,
}
use walde.Base.Arith.{add32, add64}
use walde.Types.{Key, Value}
use walde.Slab.{and_then}
use walde.Queue
use walde.Queue.{DemotionItem, DemotionQueue, try_pop_batch}
use walde.Striped
use walde.Striped.{StripedCache}
use walde.L2.{L2Stripe, empty_stripe, get_in, put_in, remove_in}
use walde.Backend.{StorageBackend}

abbrev pub num_l2_stripes : ℕ
num_l2_stripes = 16

-- The stripes of the second level, `l2_stripes_`.
abbrev pub L2Stripes : Type 0
L2Stripes = ℕ → L2Stripe

pub record CacheEngine (S : Type 0) : Type 0 where
  pub l1 : StripedCache
  pub backend : S
  pub l2_stripes : L2Stripes
  pub l2_capacity_per_stripe : ℕ

-- A call that may fail, with its result and the engine that it leaves.
abbrev pub Call : Type 0 → Type 0 → Type 0
Call S A = CacheEngine S → Option (A × CacheEngine S)

-- The constructor, without the drainer's thread.
unfoldable pub init :
    {S : Type 0} (window_part probation_part : ℕ → ℕ)
    (total_capacity l2_capacity demotion_queue_size : ℕ)
    → S
    → Option (CacheEngine S)
init window_part probation_part total_capacity l2_capacity demotion_queue_size backend =
    elim (Striped.init window_part probation_part total_capacity) [
      | none ↦ none
      | some l1 ↦ some (record {
        l1 = Striped.set_demotion_queue (some (Queue.init demotion_queue_size)) l1;
        backend = backend;
        l2_stripes = λ _. empty_stripe;
        l2_capacity_per_stripe = max 1 (l2_capacity / num_l2_stripes);
      })
    ]

abbrev pub with_l1 :
    {S A : Type 0} → CacheEngine S → Option (A × StripedCache) → Option (A × CacheEngine S)
with_l1 e none = none
with_l1 e (some (a, l1)) = some (a, record e { l1 = l1 })

abbrev pub on_l1 : {S A : Type 0} → Striped.Method A → Call S A
on_l1 op e = with_l1 e (op e.l1)

abbrev pub with_l2 :
    {S A : Type 0} → CacheEngine S → Option (A × L2Stripes) → Option (A × CacheEngine S)
with_l2 e none = none
with_l2 e (some (a, l2)) = some (a, record e { l2_stripes = l2 })

abbrev pub on_l2 : {S A : Type 0} → (L2Stripes → Option (A × L2Stripes)) → Call S A
on_l2 op e = with_l2 e (op e.l2_stripes)

abbrev pub on_backend : {S A : Type 0} → (S → A × S) → Call S A
on_backend op e = some ((op e.backend).0, record e { backend = (op e.backend).1 })

-- A stripe is written back where it stood.
abbrev pub write_back :
    {A : Type 0} → L2Stripes → ℕ → Option (A × L2Stripe) → Option (A × L2Stripes)
write_back l2 i none = none
write_back l2 i (some (a, s)) = some (a, update l2 i s)

abbrev pub store_back : L2Stripes → ℕ → Option L2Stripe → Option L2Stripes
store_back l2 i none = none
store_back l2 i (some s) = some (update l2 i s)

module _ (xxh32 xxh64 : Key → ℕ → ℕ) where
  -- The seed is `0x1234567890ABCDEF`.
  unfoldable pub get_l2_stripe_index : Key → ℕ
  get_l2_stripe_index key = xxh64 key 1311768467294899695 % num_l2_stripes

  -- Without the time stamps.
  unfoldable pub l2_get : Key → L2Stripes → Option (Option Value × L2Stripes)
  unfolding get_l2_stripe_index
  l2_get key l2 =
      write_back l2 (get_l2_stripe_index key) (get_in key (l2 (get_l2_stripe_index key)))

  -- One round of the loop of `l2_put_batch`.
  unfoldable pub l2_put : ℕ → DemotionItem → L2Stripes → Option L2Stripes
  unfolding get_l2_stripe_index
  l2_put capacity item l2 =
      store_back l2 (get_l2_stripe_index item.key)
        (put_in capacity item (l2 (get_l2_stripe_index item.key)))

  unfoldable pub l2_put_batch : ℕ → List DemotionItem → L2Stripes → Option L2Stripes
  unfolding l2_put
  l2_put_batch capacity [] l2 = some l2
  l2_put_batch capacity (item ∷ items) l2 = elim (l2_put capacity item l2) [
    | none ↦ none
    | some l2' ↦ l2_put_batch capacity items l2'
  ]

  -- The part of `remove` that works on the second level.
  unfoldable pub l2_remove : Key → L2Stripes → Option L2Stripes
  unfolding get_l2_stripe_index
  l2_remove key l2 =
      store_back l2 (get_l2_stripe_index key) (remove_in key (l2 (get_l2_stripe_index key)))

  module _ {S : Type 0} (b : StorageBackend S) where
    -- A value that is found below the first level is put into it, whatever becomes of it there.
    abbrev pub rescue : Key → Value → Call S (Option Value)
    rescue key value e =
        and_then (on_l1 (Striped.put xxh32 xxh64 key value) e) λ _ e'. some (some value, e')

    abbrev pub from_backend : Key → Option Value → Call S (Option Value)
    from_backend key none e = some (none, e)
    from_backend key (some value) e = rescue key value e

    abbrev pub from_l2 : Key → Option Value → Call S (Option Value)
    from_l2 key none e = and_then (on_backend (b.get key) e) (from_backend key)
    from_l2 key (some value) e = rescue key value e

    abbrev pub from_l1 : Key → Option Value → Call S (Option Value)
    from_l1 key none e = and_then (on_l2 (l2_get key) e) (from_l2 key)
    from_l1 key (some value) e = some (some value, e)

    -- With or without instrumentation, less the time stamps.
    unfoldable pub get : Key → Call S (Option Value)
    unfolding l2_get
    get key e = and_then (on_l1 (Striped.get xxh32 xxh64 key) e) (from_l1 key)

    unfoldable pub put : Key → Value → Call S Bool
    put key value e =
        and_then (on_backend (b.put key value) e)
          λ _ e'. on_l1 (Striped.put xxh32 xxh64 key value) e'

    unfoldable pub remove : Key → Call S Bool
    unfolding l2_remove
    remove key e = and_then (on_l1 (Striped.remove xxh32 xxh64 key) e) λ in_l1 e1.
        elim (l2_remove key e1.l2_stripes) [
          | none ↦ none
          | some l2 ↦
              and_then (on_backend (b.remove key) (record e1 { l2_stripes = l2 }))
                λ in_backend e2. some (in_l1 || in_backend, e2)
        ]

-- `uint64_t total = 0; for (const auto& s : l2_stripes_) total += ...`, over `n` stripes from stripe `i` on.
unfoldable pub sum_l2 : (L2Stripe → ℕ) → L2Stripes → ℕ → ℕ → ℕ → ℕ
sum_l2 f l2 zero i total = total
sum_l2 f l2 (suc n) i total = sum_l2 f l2 n (i + 1) (add64 total (f (l2 i)))

unfoldable pub l2_hits : {S : Type 0} → CacheEngine S → ℕ
unfolding sum_l2
l2_hits e = sum_l2 (λ s. s.hits) e.l2_stripes num_l2_stripes 0 0

unfoldable pub l2_misses : {S : Type 0} → CacheEngine S → ℕ
unfolding sum_l2
l2_misses e = sum_l2 (λ s. s.misses) e.l2_stripes num_l2_stripes 0 0

-- The same in 32 bits.
unfoldable pub sum_l2_sizes : L2Stripes → ℕ → ℕ → ℕ → ℕ
sum_l2_sizes l2 zero i total = total
sum_l2_sizes l2 (suc n) i total = sum_l2_sizes l2 n (i + 1) (add32 total ((l2 i).map_size % 2 ^ 32))

unfoldable pub l2_size : {S : Type 0} → CacheEngine S → ℕ
unfolding sum_l2_sizes
l2_size e = sum_l2_sizes e.l2_stripes num_l2_stripes 0 0

abbrev pub l1_hits : {S : Type 0} → CacheEngine S → ℕ
l1_hits e = Striped.total_hits e.l1

abbrev pub l1_misses : {S : Type 0} → CacheEngine S → ℕ
l1_misses e = Striped.total_misses e.l1

abbrev pub l1_evictions : {S : Type 0} → CacheEngine S → ℕ
l1_evictions e = Striped.total_evictions e.l1

abbrev pub l1_admissions : {S : Type 0} → CacheEngine S → ℕ
l1_admissions e = Striped.total_admissions e.l1

abbrev pub l1_rejections : {S : Type 0} → CacheEngine S → ℕ
l1_rejections e = Striped.total_rejections e.l1

abbrev pub l1_size : {S : Type 0} → CacheEngine S → ℕ
l1_size e = Striped.total_size e.l1
