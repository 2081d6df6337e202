-- ===== src/Tests.antt =====
-- Small runs of the model, and the theorems at concrete inputs: a slab of four slots with slots 1
-- and 0 in one list, a sketch of two rows of eight, and a queue of four.
use walde.Base.{
  ℕ, ◌+◌, ◌*◌, max, ◌/◌, ◌^◌, ◌%◌, ◌≤◌, ◌<◌, ◌≡◌, refl, [], ◌∷◌, some, true, false, update, arith,
  if◌then◌else◌, str_eq,
}
use walde.Base.Arith.{add32}
use walde.Types.{reset_node, CacheNode, Key}
use walde.Slab.{
  Slab, fresh, done, retry, allocate, allocate_loop, allocate_attempt, deallocate, deallocate_loop,
  deallocate_attempt, pack, unpack_index, unpack_tag,
}
use walde.Slab.FreeList.{IsFree, up_from}
use walde.Slab.Alloc.{init-IsFree, taken, given, cleared, allocate-taken, deallocate-given}
use walde.Slab.Yields.{Yields}
use walde.Slab.Tags.{Swaps, Swaps-stale, fresh-HasWords}
use walde.Lru.{IntrusiveLru, move_to_front}
use walde.Lru.Links.{IsLru, Relinked}
use walde.Lru.Ends.{move_to_front_lem}
use walde.Sketch
use walde.Sketch.{CountMinSketch, increment, estimate, decay, reset, cell, uint32_max}
use walde.Sketch.Rows.{IsSketch}
use walde.Sketch.Frequency.{Bounded, count, increment_all, init-IsSketch, estimate-increment_all}
use walde.Sketch.Decay.{estimate-decay}
use walde.Queue
use walde.Queue.Init.{init-IsQueue}
use walde.Queue.{DemotionItem, DemotionQueue, empty_item, threshold, try_push, try_pop_batch}
use walde.Queue.Fifo.{IsQueue, try_push_below, try_push-fifths}
use walde.Queue.Pop.{try_pop_batch_lem}

-- The slab.
fresh-IsFree : IsFree (fresh 4) (0 ∷ 1 ∷ 2 ∷ 3 ∷ [])
unfolding up_from
fresh-IsFree = (init-IsFree 4 (omega arith) (omega arith)).1

allocate-taken_example :
    (allocate_loop 2 (fresh 4).head (fresh 4) ≡ done 0 (taken 0 (fresh 4)))
    × (allocate (fresh 4) ≡ some (0, taken 0 (fresh 4)))
    × IsFree (taken 0 (fresh 4)) (1 ∷ 2 ∷ 3 ∷ [])
    × (unpack_tag (taken 0 (fresh 4)).head ≡ add32 (unpack_tag (fresh 4).head) 1)
allocate-taken_example = allocate-taken (fresh 4) 0 (1 ∷ 2 ∷ 3 ∷ []) 2 fresh-IsFree

-- Slot 0 in use.
abbrev three_free : Slab
three_free = record (fresh 4) { head = pack 1 1; free_count = 3 }

first_slot : unpack_index (fresh 4).head < 4
unfolding unpack_index pack
first_slot = omega arith

three_free-IsFree : IsFree three_free (1 ∷ 2 ∷ 3 ∷ [])
unfolding pack unpack_index
three_free-IsFree = record {
  chain = (refl, (refl, (refl, refl)));
  distinct = (refl, (refl, (refl, tt)));
  below = omega arith;
  count = refl;
  small = omega arith;
}

deallocate-given_example :
    (deallocate_loop 1 0 three_free.head (cleared 0 three_free) ≡ done tt (given 0 three_free))
    × (deallocate 0 three_free ≡ some (tt, given 0 three_free))
    × IsFree (given 0 three_free) (0 ∷ 1 ∷ 2 ∷ 3 ∷ [])
deallocate-given_example =
    deallocate-given three_free 0 (1 ∷ 2 ∷ 3 ∷ []) 1 (omega arith) refl three_free-IsFree

-- Another thread took slot 0 and gave it back.
abbrev reused : Slab
reused = given 0 (taken 0 (fresh 4))

two_swaps : Swaps (fresh 4) 2 reused
unfolding taken given allocate_attempt deallocate_attempt pack unpack_index unpack_tag
two_swaps =
    Swaps.give false 0 (taken 0 (fresh 4)).head
      (Swaps.clear 0 (Swaps.take false (fresh 4).head 0 Swaps.none_yet (λ e. absurd cc) refl))
      (omega arith) refl

Swaps-stale_example :
    (unpack_tag reused.head ≡ (unpack_tag (fresh 4).head + 2) % 2 ^ 32)
    × (allocate_attempt false (fresh 4).head reused ≡ retry reused.head reused)
    × (deallocate_attempt false 1 (fresh 4).head reused
        ≡ retry reused.head
            (record reused { free_next = update reused.free_next 1 (unpack_index (fresh 4).head) }))
Swaps-stale_example =
    Swaps-stale (fresh 4) reused 2 false 1 (fresh-HasWords 4 (omega arith)) first_slot two_swaps
      (omega arith) (omega arith)

-- The list 1, 0.
abbrev two_nodes : ℕ → CacheNode
two_nodes =
    update (update (λ _. reset_node) 0 (record reset_node { prev = 1; key = "a" })) 1
      (record reset_node { next = 0; key = "b" })

abbrev two_slab : Slab
two_slab = record (fresh 4) { pool = two_nodes; head = pack 2 2; free_count = 2 }

abbrev two : IntrusiveLru
two = record { head = 1; tail = 0; size = 2 }

two-IsLru : IsLru two_slab two (1 ∷ 0 ∷ [])
two-IsLru = record {
  linked = (refl, refl, (refl, refl, tt));
  head = refl;
  tail = refl;
  size = refl;
  distinct = (refl, (refl, tt));
  below = omega arith;
}

move_to_front_lem_example :
    Yields
      (λ l t. IsLru t l (0 ∷ 1 ∷ []) × Relinked (1 ∷ 0 ∷ []) two_slab t)
      (move_to_front two 0 two_slab)
move_to_front_lem_example = move_to_front_lem two_slab two 0 (1 ∷ []) [] (omega arith) two-IsLru

-- The sketch, with a hash that tells "a" from the other keys.
hash_example : Key → ℕ → ℕ
hash_example k seed = (if str_eq k "a" then 1 else 2) + seed

abbrev sketch : CountMinSketch
sketch = Sketch.blank 2 8

sketch-IsSketch : IsSketch sketch × Bounded 0 sketch
sketch-IsSketch =
    let (_, table, zero_counters) = init-IsSketch 2 8 (omega arith) (omega arith) (omega arith) in
    (table, zero_counters)

sketch-Bounded : Bounded uint32_max sketch
sketch-Bounded j = omega (arith, sketch-IsSketch.1 j)

estimate_run :
    estimate hash_example (increment_all hash_example ("a" ∷ "b" ∷ "a" ∷ []) sketch) "a" ≡ 2
unfolding hash_example Sketch.blank increment_all increment estimate cell
estimate_run = refl

estimate-increment_all_example :
    (estimate hash_example sketch "a" + count "a" ("a" ∷ "b" ∷ "a" ∷ [])
      ≤ estimate hash_example (increment_all hash_example ("a" ∷ "b" ∷ "a" ∷ []) sketch) "a")
    × (estimate hash_example (increment_all hash_example ("a" ∷ "b" ∷ "a" ∷ []) sketch) "a"
        ≤ estimate hash_example sketch "a" + 3)
estimate-increment_all_example =
    estimate-increment_all hash_example ("a" ∷ "b" ∷ "a" ∷ []) sketch 0 "a" sketch-IsSketch.0
      sketch-IsSketch.1 (omega arith)

estimate-decay_example :
    IsSketch (decay sketch)
    × (estimate hash_example (decay sketch) "a" ≡ estimate hash_example sketch "a" / 2)
estimate-decay_example = estimate-decay hash_example sketch "a" sketch-IsSketch.0 sketch-Bounded

-- The queue, of capacity 4, with two items across the end of the buffer.
abbrev item_a : DemotionItem
item_a = record { key = "a"; value = "1"; frequency = 3 }

abbrev item_b : DemotionItem
item_b = record { key = "b"; value = "2"; frequency = 5 }

abbrev queue : DemotionQueue
queue = record {
  capacity = 4;
  mask = 3;
  buffer = update (update (update (λ _. empty_item) 3 item_a) 0 item_b) 1 item_a;
  write_pos = 5;
  read_pos = 3;
  drops = 0;
}

queue-IsQueue : IsQueue 2 queue (item_a ∷ item_b ∷ [])
queue-IsQueue = record {
  capacity = refl;
  mask = refl;
  small = omega arith;
  read = omega arith;
  write = refl;
  bound = omega arith;
  items = (refl, (refl, tt));
}

two-below : 2 < threshold queue
unfolding threshold
two-below = omega arith

-- Three items are below the threshold of a queue of four, and a queue of one takes none.
threshold_run : (threshold queue ≡ 3) × (threshold (record queue { capacity = 1 }) ≡ 0)
unfolding threshold
threshold_run = (refl, refl)

try_push_below_example :
    ((try_push queue item_a).0 ≡ true)
    × IsQueue 2 (try_push queue item_a).1 (item_a ∷ item_b ∷ item_a ∷ [])
    × ((try_push queue item_a).1.drops ≡ queue.drops)
try_push_below_example =
    try_push_below 2 queue (item_a ∷ item_b ∷ []) queue-IsQueue item_a two-below

try_push-fifths_example :
    ((try_push queue item_a).0 ≡ true)
    × IsQueue 2 (try_push queue item_a).1 (item_a ∷ item_b ∷ item_a ∷ [])
    × ((try_push queue item_a).1.drops ≡ queue.drops)
try_push-fifths_example =
    try_push-fifths 2 queue (item_a ∷ item_b ∷ []) queue-IsQueue item_a (omega arith)

try_pop_batch_lem_example :
    ((try_pop_batch queue [] 64).0 ≡ 2)
    × ((try_pop_batch queue [] 64).1 ≡ item_a ∷ item_b ∷ [])
    × IsQueue 2 (try_pop_batch queue [] 64).2 []
try_pop_batch_lem_example = try_pop_batch_lem 2 queue (item_a ∷ item_b ∷ []) [] 64 queue-IsQueue

init-IsQueue_example : (k : ℕ) × IsQueue k (Queue.init 5) [] × (5 ≤ 2 ^ k) × (2 ^ k < 2 * max 1 5)
init-IsQueue_example = init-IsQueue 5 (omega arith)
