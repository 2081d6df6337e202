-- ===== src/Lru.antt =====
-- src/lru_list.cpp and include/lru_list.h: a doubly linked list threaded through the `prev` and
-- `next` fields of slab nodes. The list object is a value of its own; its methods are commands on
-- the slab that return the new object.
use walde.Base.{ℕ, Bool, ◌==◌, ltb, not, if◌then◌else◌}
use walde.Base.Arith.{add32, sub32}
use walde.Types.{invalid_index, CacheNode}
use walde.Slab.{Cmd, pure, ◌>>=◌, ◌>>◌, assert, node, set_node}
pub mod Links
pub mod Steps
pub mod Push
pub mod Unlink
pub mod Remove
pub mod Frame
pub mod Ends

pub record IntrusiveLru : Type 0 where
  pub head : ℕ
  pub tail : ℕ
  pub size : ℕ

abbrev pub empty_lru : IntrusiveLru
empty_lru = record { head = invalid_index; tail = invalid_index; size = 0 }

abbrev pub peek_back : IntrusiveLru → ℕ
peek_back l = l.tail

abbrev pub is_empty : IntrusiveLru → Bool
is_empty l = l.size == 0

-- `slab_.node(index).next = v` and its like.
unfoldable pub set_next : ℕ → ℕ → Cmd (Unit {0})
set_next i v = do n ← node i; set_node i (record n { next = v })

unfoldable pub set_prev : ℕ → ℕ → Cmd (Unit {0})
set_prev i v = do n ← node i; set_node i (record n { prev = v })

unfoldable pub push_front : IntrusiveLru → ℕ → Cmd IntrusiveLru
push_front l index = do
  assert (not (index == invalid_index))
  set_prev index invalid_index
  set_next index l.head
  if l.head == invalid_index
      then pure (record { head = index; tail = index; size = add32 l.size 1 })
      else do set_prev l.head index; pure (record l { head = index; size = add32 l.size 1 })

-- The first `if` of `remove`: the node before `n`, or the list's head, skips it.
unfoldable pub bypass_next : IntrusiveLru → CacheNode → Cmd ℕ
bypass_next l n =
    if n.prev == invalid_index then pure n.next else do set_next n.prev n.next; pure l.head

-- The second `if` of `remove`: the node behind `n`, or the list's tail, skips it.
unfoldable pub bypass_prev : IntrusiveLru → CacheNode → Cmd ℕ
bypass_prev l n =
    if n.next == invalid_index then pure n.prev else do set_prev n.next n.prev; pure l.tail

unfoldable pub remove : IntrusiveLru → ℕ → Cmd IntrusiveLru
remove l index = do
  assert (not (index == invalid_index))
  assert (ltb 0 l.size)
  n ← node index
  head' ← bypass_next l n
  m ← node index
  tail' ← bypass_prev l m
  set_prev index invalid_index
  set_next index invalid_index
  pure (record { head = head'; tail = tail'; size = sub32 l.size 1 })

-- The victim comes back beside the list, `invalid_index` if there is none.
unfoldable pub pop_back : IntrusiveLru → Cmd (ℕ × IntrusiveLru)
pop_back l =
    if l.tail == invalid_index
    then pure (invalid_index, l)
    else do l' ← remove l l.tail; pure (l.tail, l')

unfoldable pub move_to_front : IntrusiveLru → ℕ → Cmd IntrusiveLru
move_to_front l index = do
  assert (not (index == invalid_index))
  if index == l.head then pure l else do l' ← remove l index; push_front l' index
