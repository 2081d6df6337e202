-- ===== src/Queue/Kept.antt =====
-- A property of all items of the demotion queue, through pushes and pops.
use walde.Base.{
  ℕ, zero, suc, sym, subst, List, [], ◌∷◌, ◌++◌, length, take, drop, inl, inr, Bool-cases, ltb,
  lt_of_ltb, le_of_ltb,
}
use walde.Types.{Key, Value}
use walde.Queue.{DemotionItem, DemotionQueue, threshold, try_push, try_pop_batch}
use walde.Queue.Fifo.{IsQueue, try_push_below, try_push_above}
use walde.Queue.Pop.{try_pop_batch_lem}

-- A relation between keys and values that holds for every item.
pub data AllItems (Ok : Key → Value → Type 0) : List DemotionItem → Type 0 where
  no_items : AllItems Ok []
  one_more :
      {item : DemotionItem} {items : List DemotionItem}
      → Ok item.key item.value
      → AllItems Ok items
      → AllItems Ok (item ∷ items)

module _ {Ok : Key → Value → Type 0} where
  pub AllItems-snoc :
      {items : List DemotionItem} (item : DemotionItem)
      → AllItems Ok items
      → Ok item.key item.value
      → AllItems Ok (items ++ item ∷ [])
  AllItems-snoc item no_items p = one_more p no_items
  AllItems-snoc item (one_more q ps) p = one_more q (AllItems-snoc item ps p)

  pub AllItems-take :
      (n : ℕ) {items : List DemotionItem} → AllItems Ok items → AllItems Ok (take n items)
  AllItems-take zero ps = no_items
  AllItems-take (suc n) no_items = no_items
  AllItems-take (suc n) (one_more p ps) = one_more p (AllItems-take n ps)

  pub AllItems-drop :
      (n : ℕ) {items : List DemotionItem} → AllItems Ok items → AllItems Ok (drop n items)
  AllItems-drop zero ps = ps
  AllItems-drop (suc n) no_items = no_items
  AllItems-drop (suc n) (one_more p ps) = AllItems-drop n ps

-- The queue is well formed and every item in it is `Ok`.
pub record QueueHolds (Ok : Key → Value → Type 0) (q : DemotionQueue) : Type 0 where
  pub k : ℕ
  pub items : List DemotionItem
  pub queue : IsQueue k q items
  pub all : AllItems Ok items

module _ {Ok : Key → Value → Type 0} {q : DemotionQueue} (v : QueueHolds Ok q) where
  -- A push, accepted or refused.
  pub try_push-QueueHolds :
      (item : DemotionItem) → Ok item.key item.value → QueueHolds Ok (try_push q item).1
  try_push-QueueHolds item p = elim (Bool-cases (ltb (length v.items) (threshold q))) [
    | inl e ↦
        let (_, w, _) =
          try_push_below v.k q v.items v.queue item (lt_of_ltb (length v.items) (threshold q) e) in
        record {
          k = v.k;
          items = v.items ++ item ∷ [];
          queue = w;
          all = AllItems-snoc item v.all p;
        }
    | inr e ↦
        let (_, w, _) =
          try_push_above v.k q v.items v.queue item (le_of_ltb (length v.items) (threshold q) e) in
        record { k = v.k; items = v.items; queue = w; all = v.all }
  ]

  -- A batch that is popped, and what it leaves.
  pub try_pop_batch-QueueHolds :
      (max_count : ℕ)
      → AllItems Ok (try_pop_batch q [] max_count).1
        × QueueHolds Ok (try_pop_batch q [] max_count).2
  try_pop_batch-QueueHolds n =
      let (_, e, w) = try_pop_batch_lem v.k q v.items [] n v.queue in
      (
        subst (AllItems Ok) (sym e) (AllItems-take n v.all),
        record { k = v.k; items = drop n v.items; queue = w; all = AllItems-drop n v.all },
      )
