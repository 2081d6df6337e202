-- ===== src/L2.antt =====
-- src/cache_engine.cpp and include/cache_engine.h, the second level: stripes that each hold a doubly
-- linked list with the latest entry in front and an index from keys to list iterators. The nodes of
-- a list have addresses that stand for the iterators; `none` is an access through an iterator
-- that points nowhere. A stripe's mutex makes each operation on it one step.
use walde.Base.{
  ℕ, zero, suc, ◌+◌, ◌-◌, ◌%◌, Bool, Option, none, some, List, [], ◌∷◌, ◌==◌, leb, if◌then◌else◌,
  update, length, str_eq,
}
use walde.Base.Arith.{add32, add64}
use walde.Types.{Key, Value}
use walde.Queue.{DemotionItem}
use walde.Stripe.{IndexMap, insert_key, erase_key}
pub mod Nodes
pub mod Recency
pub mod Stripes
pub mod Insert
pub mod Once
mod Tests

pub record L2Node : Type 0 where
  pub key : Key
  pub value : Value

-- `std::list<L2Node>`: the nodes in order, each with its address.
abbrev pub NodeList : Type 0
NodeList = List (ℕ × L2Node)

-- `map_size` is the `size()` of the hash map, and `next` an address that no node has had.
pub record L2Stripe : Type 0 where
  pub list : NodeList
  pub map : IndexMap
  pub map_size : ℕ
  pub next : ℕ
  pub hits : ℕ
  pub misses : ℕ

abbrev pub empty_stripe : L2Stripe
empty_stripe = record { list = []; map = λ _. none; map_size = 0; next = 0; hits = 0; misses = 0 }

-- `*it`
abbrev pub deref : ℕ → NodeList → Option L2Node
deref it [] = none
deref it ((a, n) ∷ xs) = if a == it then some n else deref it xs

-- `list.erase(it)`
abbrev pub erase : ℕ → NodeList → NodeList
erase it [] = []
erase it ((a, n) ∷ xs) = if a == it then xs else (a, n) ∷ erase it xs

-- `list.back()`
abbrev pub back : NodeList → Option (ℕ × L2Node)
back [] = none
back (x ∷ []) = some x
back (x ∷ y ∷ xs) = back (y ∷ xs)

-- `list.pop_back()`
abbrev pub pop_back : NodeList → NodeList
pop_back [] = []
pop_back (x ∷ []) = []
pop_back (x ∷ y ∷ xs) = x ∷ pop_back (y ∷ xs)

-- `l2_get` in its stripe, without the time stamps.
unfoldable pub get_in : Key → L2Stripe → Option (Option Value × L2Stripe)
get_in key s = elim (s.map key) [
  | none ↦ some (none, record s { misses = add64 s.misses 1 })
  | some it ↦ elim (deref it s.list) [
    | none ↦ none
    | some n ↦ some (
      some n.value,
      record s {
        list = erase it s.list;
        map = erase_key key s.map;
        map_size = s.map_size - 1;
        hits = add64 s.hits 1;
      },
    )
  ]
]

-- A new node in front, and its iterator in the map.
abbrev pub push_new : DemotionItem → L2Stripe → L2Stripe
push_new item s = record s {
  list = (s.next, record { key = item.key; value = item.value }) ∷ s.list;
  map = insert_key item.key s.next s.map;
  map_size = s.map_size + 1;
  next = s.next + 1;
}

-- The size of the hash map after `map.erase(key)`.
abbrev pub erased_size : Key → L2Stripe → ℕ
erased_size key s = elim (s.map key) [ none ↦ s.map_size | some _ ↦ s.map_size - 1 ]

-- The last node gives way.
unfoldable pub drop_last : L2Stripe → Option L2Stripe
drop_last s = elim (back s.list) [
  | none ↦ none
  | some (a, n) ↦ some (record s {
    map = erase_key n.key s.map;
    map_size = erased_size n.key s;
    list = pop_back s.list;
  })
]

-- The body of the loop of `l2_put_batch`, in its stripe.
unfoldable pub put_in : ℕ → DemotionItem → L2Stripe → Option L2Stripe
unfolding drop_last
put_in capacity item s = elim (s.map item.key) [
  | some it ↦ elim (deref it s.list) [
    | none ↦ none
    | some n ↦ some (record s { list = (it, record n { value = item.value }) ∷ erase it s.list })
  ]
  | none ↦
      if leb capacity s.map_size
      then elim (drop_last s) [ none ↦ none | some s' ↦ some (push_new item s') ]
      else some (push_new item s)
]

-- `remove` in its stripe.
unfoldable pub remove_in : Key → L2Stripe → Option L2Stripe
remove_in key s = elim (s.map key) [
  | none ↦ some s
  | some it ↦ elim (deref it s.list) [
    | none ↦ none
    | some n ↦
        some (record s {
          list = erase it s.list;
          map = erase_key key s.map;
          map_size = s.map_size - 1;
        })
  ]
]
