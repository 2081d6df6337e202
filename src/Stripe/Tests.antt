-- ===== src/Stripe/Tests.antt =====
-- A stripe with one entry in the window and one in probation, runs and witnesses.
use walde.Base.{
  ℕ, zero, suc, ◌≡◌, refl, ◌∈◌, true, false, [], ◌∷◌, none, some, arith, if◌then◌else◌, str_eq, inl,
  inr, Bool-cases, eq_of_str_eq, sym, ap, ◌∙◌,
}
use walde.Types.{Segment, CacheNode, Key, Value, invalid_index, reset_node}
use walde.Slab.{Slab, unpack_index}
use walde.Slab.FreeList.{IsFree}
use walde.Slab.Yields.{Yields}
use walde.Lru.{IntrusiveLru, empty_lru}
use walde.Lru.Links.{IsLru}
use walde.Sketch
use walde.Latency.{HitPath, LatencyBreakdown}
use walde.Stripe
use walde.Stripe.{CacheStripe, insert_key, put}
use walde.Stripe.Lists.{nowhere, Family, Lists, lru_of, resident, is_listed}
use walde.Stripe.Contents.{IsStripe, Indexed}
use walde.Stripe.Instrumented.{get_instrumented, put_instrumented, beside, get_put_instrumented}
use walde.Stripe.Put.{put-insert, Stored}

abbrev hash_one : Key → ℕ → ℕ
hash_one _ row = row

abbrev alone : Key → Value → Segment → CacheNode
alone k v g = record { prev = invalid_index; next = invalid_index; key = k; value = v; segment = g }

abbrev nodes : ℕ → CacheNode
nodes zero = alone "a" "1" Segment.window
nodes (suc zero) = alone "b" "2" Segment.probation
nodes (suc (suc _)) = reset_node

abbrev pool : Slab
pool = record {
  capacity = 3;
  pool = nodes;
  free_next = λ _. invalid_index;
  head = 2;
  free_count = 1;
}

abbrev only : ℕ → IntrusiveLru
only i = record { head = i; tail = i; size = 1 }

abbrev stripe : CacheStripe
stripe = record {
  total_capacity = 3;
  window_capacity = 1;
  main_capacity = 2;
  probation_capacity = 1;
  protected_capacity = 1;
  index_map = insert_key "a" 0 (insert_key "b" 1 (λ _. none));
  window = only 0;
  probation = only 1;
  protected = empty_lru;
  cms = Sketch.blank 4 512;
  decay_interval = 15;
  ops_since_decay = 0;
  hits = 0;
  misses = 0;
  evictions = 0;
  admissions = 0;
  rejections = 0;
  demotion_queue = none;
}

abbrev entries : Family
entries Segment.window = 0 ∷ []
entries Segment.probation = 1 ∷ []
entries Segment.protected = []
entries Segment.free = []
entries Segment.l2 = []

empty-IsLru : IsLru pool empty_lru []
empty-IsLru = record {
  linked = tt;
  head = refl;
  tail = refl;
  size = refl;
  distinct = tt;
  below = tt;
}

stripe_lists : (g : Segment) → IsLru pool (lru_of stripe g) (entries g)
stripe_lists Segment.window = record {
  linked = (refl, refl, tt);
  head = refl;
  tail = refl;
  size = refl;
  distinct = (refl, tt);
  below = (omega arith, tt);
}
stripe_lists Segment.probation = record {
  linked = (refl, refl, tt);
  head = refl;
  tail = refl;
  size = refl;
  distinct = (refl, tt);
  below = (omega arith, tt);
}
stripe_lists Segment.protected = empty-IsLru
stripe_lists Segment.free = empty-IsLru
stripe_lists Segment.l2 = empty-IsLru

tags : (g : Segment) (i : ℕ) → i ∈ entries g → (nodes i).segment ≡ g
tags Segment.window zero m = refl
tags Segment.window (suc i) m = absurd (ground (arith, m))
tags Segment.probation zero m = absurd (ground (arith, m))
tags Segment.probation (suc zero) m = refl
tags Segment.probation (suc (suc i)) m = absurd (ground (arith, m))
tags Segment.protected i m = absurd cc
tags Segment.free i m = absurd cc
tags Segment.l2 i m = absurd cc

blanks : (i : ℕ) → i ∈ (2 ∷ []) → (nodes i).segment ≡ Segment.free
blanks zero m = absurd (ground (arith, m))
blanks (suc zero) m = absurd (ground (arith, m))
blanks (suc (suc i)) m = refl

no_others : (g : Segment) → is_listed g ≡ false → entries g ≡ []
no_others Segment.window e = absurd cc
no_others Segment.probation e = absurd cc
no_others Segment.protected e = absurd cc
no_others Segment.free e = refl
no_others Segment.l2 e = refl

IsFree-pool : IsFree pool (2 ∷ [])
unfolding unpack_index
IsFree-pool = record {
  chain = (refl, refl);
  distinct = (refl, tt);
  below = (omega arith, tt);
  count = refl;
  small = omega arith;
}

names : (i : ℕ) → resident pool entries i ≡ true → stripe.index_map (nodes i).key ≡ some i
names zero m = refl
names (suc zero) m = refl
names (suc (suc i)) m = absurd cc

finds :
    (k : Key) (i : ℕ)
    → stripe.index_map k ≡ some i
    → (resident pool entries i ≡ true) × ((nodes i).key ≡ k)
finds k i e = elim (Bool-cases (str_eq "a" k)) [
  | inl p ↦
      at_a i (eq_of_str_eq "a" k p)
        (sym (ap (λ b. if b then some 0 else insert_key "b" 1 (λ _. none) k) p) ∙ e)
  | inr p ↦ elim (Bool-cases (str_eq "b" k)) [
    | inl q ↦ at_b i (eq_of_str_eq "b" k q) (
        sym (ap (λ b. if b then some 1 else none) q)
        ∙ (sym (ap (λ b. if b then some 0 else insert_key "b" 1 (λ _. none) k) p) ∙ e))
    | inr q ↦ absurd (
        let f =
          sym (ap (λ b. if b then some 1 else none) q)
          ∙ (sym (ap (λ b. if b then some 0 else insert_key "b" 1 (λ _. none) k) p) ∙ e) in
        cc)
  ]
]
  where
    at_a :
        (i : ℕ) → "a" ≡ k → some 0 ≡ some i → (resident pool entries i ≡ true) × ((nodes i).key ≡ k)
    at_a zero q f = (refl, q)
    at_a (suc i) q f = absurd cc

    at_b :
        (i : ℕ) → "b" ≡ k → some 1 ≡ some i → (resident pool entries i ≡ true) × ((nodes i).key ≡ k)
    at_b zero q f = absurd cc
    at_b (suc zero) q f = (refl, q)
    at_b (suc (suc i)) q f = absurd cc

stripe-Lists : Lists (nowhere 3) pool (lru_of stripe) entries (2 ∷ [])
stripe-Lists = record {
  sized = refl;
  each = stripe_lists;
  tagged = tags;
  free = IsFree-pool;
  blank = blanks;
  unlisted = no_others;
  outside = λ a f. absurd f;
}

stripe-Indexed : Indexed stripe.index_map pool (resident pool entries)
stripe-Indexed = record { indexed = names; found = finds }

stripe-IsStripe : IsStripe (nowhere 3) stripe pool
stripe-IsStripe = record {
  family = entries;
  unused = 2 ∷ [];
  lists = stripe-Lists;
  index = stripe-Indexed;
  window_bound = omega arith;
  main_bound = omega arith;
  protected_bound = omega arith;
  protected_room = omega arith;
}

put-insert_example :
    Yields
      (λ r u. (r.0 ≡ true) × Stored (nowhere 3) stripe pool "c" "3" r.1 u)
      (put hash_one stripe "c" "3" pool)
put-insert_example =
    put-insert (nowhere 3) hash_one stripe pool "c" "3" stripe-IsStripe refl (omega arith)

-- What the timers say.
abbrev bd : LatencyBreakdown
bd = record {
  total_ns = 0;
  lock_wait_ns = 0;
  lookup_ns = 0;
  admission_ns = 0;
  eviction_ns = 0;
  l2_ns = 0;
  backend_ns = 0;
  slab_ns = 0;
  path = HitPath.miss;
}

abbrev measured : LatencyBreakdown
measured = record bd { lock_wait_ns = 10; lookup_ns = 20; slab_ns = 30 }

-- "b" is resident, so the slab is not timed.
get_put_instrumented_example :
    (get_instrumented hash_one measured stripe "b" bd pool
      ≡ beside
          (record bd { lock_wait_ns = 10; lookup_ns = 20 })
          (Stripe.get hash_one stripe "b" pool))
    × (put_instrumented hash_one measured stripe "b" "3" bd pool
        ≡ beside
            (record bd { lock_wait_ns = 10; lookup_ns = 20 })
            (put hash_one stripe "b" "3" pool))
get_put_instrumented_example = get_put_instrumented hash_one measured "b" bd stripe "3" pool
