-- ===== src/Queue.antt =====
-- src/demotion_queue.cpp: a ring buffer of demoted entries that refuses pushes from four fifths of
-- its capacity on. Each method holds the queue's mutex throughout, so it is one step.
use walde.Base.{
  ℕ, zero, suc, ◌+◌, ◌-◌, ◌*◌, ◌/◌, ◌%◌, ◌^◌, min, bit_and, bit_or, Bool, true, false, Option, none,
  some, List, [], ◌∷◌, ◌++◌, ◌==◌, leb, if◌then◌else◌, update,
}
use walde.Base.Arith.{add32, sub32, add64, sub64}
use walde.Types.{Key, Value}
pub mod Mask
pub mod Ring
pub mod Fifo
pub mod Pop
pub mod Power
pub mod Init
pub mod Kept

pub record DemotionItem : Type 0 where
  pub key : Key
  pub value : Value
  pub frequency : ℕ

abbrev pub empty_item : DemotionItem
empty_item = record { key = ""; value = ""; frequency = 0 }

pub record DemotionQueue : Type 0 where
  pub capacity : ℕ
  pub mask : ℕ
  pub buffer : ℕ → DemotionItem
  pub write_pos : ℕ
  pub read_pos : ℕ
  pub drops : ℕ

-- `v |= v >> k`
abbrev pub smear : ℕ → ℕ → ℕ
smear v k = bit_or v (v / 2 ^ k)

unfoldable pub next_power_of_2 : ℕ → ℕ
next_power_of_2 v =
    if v == 0 then 1 else add32 (smear (smear (smear (smear (smear (v - 1) 1) 2) 4) 8) 16) 1

unfoldable pub init : ℕ → DemotionQueue
unfolding next_power_of_2
init capacity = record {
  capacity = next_power_of_2 capacity;
  mask = sub32 (next_power_of_2 capacity) 1;
  buffer = λ _. empty_item;
  write_pos = 0;
  read_pos = 0;
  drops = 0;
}

abbrev pub unlocked_size : DemotionQueue → ℕ
unlocked_size q = sub64 q.write_pos q.read_pos

-- `static_cast<uint64_t>(capacity_ * 0.80f)`: the float nearest to 0.8 is 13421773 / 2^24, and its
-- product with a power of two is exact.
unfoldable pub threshold : DemotionQueue → ℕ
threshold q = q.capacity * 13421773 / 2 ^ 24

unfoldable pub is_under_pressure : DemotionQueue → Bool
unfolding threshold
is_under_pressure q = leb (threshold q) (unlocked_size q)

unfoldable pub size : DemotionQueue → ℕ
size q = unlocked_size q % 2 ^ 32

-- `buffer_[static_cast<uint32_t>(pos & mask_)]`
unfoldable pub slot : DemotionQueue → ℕ → ℕ
slot q pos = bit_and pos q.mask % 2 ^ 32

unfoldable pub try_push : DemotionQueue → DemotionItem → Bool × DemotionQueue
unfolding threshold slot
try_push q item =
    if leb (threshold q) (unlocked_size q)
    then (false, record q { drops = add64 q.drops 1 })
    else if leb q.capacity (unlocked_size q)
    then (false, record q { drops = add64 q.drops 1 })
    else (
      true,
      record q {
        buffer = update q.buffer (slot q q.write_pos) item;
        write_pos = add64 q.write_pos 1;
      },
    )

-- What `std::move` leaves in a buffer slot is never read again: the slot keeps its value here.
unfoldable pub try_pop : DemotionQueue → Option DemotionItem × DemotionQueue
unfolding slot
try_pop q =
    if q.read_pos == q.write_pos
    then (none, q)
    else (some (q.buffer (slot q q.read_pos)), record q { read_pos = add64 q.read_pos 1 })

-- The loop of `try_pop_batch`: `n` rounds from round `i` on.
unfoldable pub batch_items : DemotionQueue → ℕ → ℕ → List DemotionItem
unfolding slot
batch_items q i zero = []
batch_items q i (suc n) = q.buffer (slot q (add64 q.read_pos i)) ∷ batch_items q (i + 1) n

-- The items are appended to `out`.
unfoldable pub try_pop_batch :
    DemotionQueue → List DemotionItem → ℕ → ℕ × List DemotionItem × DemotionQueue
unfolding batch_items
try_pop_batch q out max_count =
    let available = unlocked_size q in
    let to_pop = min max_count available in
    if available == 0
    then (0, out, q)
    else (to_pop, out ++ batch_items q 0 to_pop, record q { read_pos = add64 q.read_pos to_pop })
