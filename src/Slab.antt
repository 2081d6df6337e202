-- ===== src/Slab.antt =====
-- src/slab_allocator.cpp and include/slab_allocator.h: a fixed pool of nodes with a free list whose
-- head is one 64-bit word that packs an index and a tag. A command is a function of the slab, and
-- `none` is a failed assertion or an access outside the pool. Each CAS loop is a loop over single
-- attempts; the attempt takes the word that the thread read last and whether the weak
-- compare-exchange fails spuriously.
use walde.Base.{
  ℕ, zero, suc, ◌+◌, ◌-◌, ◌*◌, ◌/◌, ◌%◌, ◌^◌, Bool, true, false, Option, none, some, ◌==◌, ltb,
  if◌then◌else◌, not, ◌&&◌, update,
}
use walde.Base.Arith.{add32, sub32}
use walde.Types.{invalid_index, CacheNode, reset_node}
pub mod FreeList
pub mod Alloc
pub mod Tags
pub mod Pack
pub mod Yields

pub record Slab : Type 0 where
  pub capacity : ℕ
  pub pool : ℕ → CacheNode
  pub free_next : ℕ → ℕ
  pub head : ℕ
  pub free_count : ℕ

abbrev pub Cmd : Type 0 → Type 0
Cmd A = Slab → Option (A × Slab)

abbrev pub pure : {A : Type 0} → A → Cmd A
pure a s = some (a, s)

abbrev pub and_then : {A B S : Type 0} → Option (A × S) → (A → S → Option (B × S)) → Option (B × S)
and_then none f = none
and_then (some (a, t)) f = f a t

infixl 5 ◌>>=◌ ◌>>◌
abbrev pub ◌>>=◌ : {A B : Type 0} → Cmd A → (A → Cmd B) → Cmd B
◌>>=◌ m f s = and_then (m s) f

abbrev pub ◌>>◌ : {A B : Type 0} → Cmd A → Cmd B → Cmd B
m >> n = m >>= λ _. n

abbrev pub assert : Bool → Cmd (Unit {0})
assert b s = if b then some (tt, s) else none

abbrev pub capacity_of : Cmd ℕ
capacity_of s = some (s.capacity, s)

abbrev pub available : Slab → ℕ
available s = s.free_count

-- `node(index)`, read and written through the reference.
unfoldable pub node : ℕ → Cmd CacheNode
node i s = if ltb i s.capacity then some (s.pool i, s) else none

unfoldable pub set_node : ℕ → CacheNode → Cmd (Unit {0})
set_node i n s = if ltb i s.capacity then some (tt, record s { pool = update s.pool i n }) else none

-- The two halves do not overlap, so `|` is a sum.
unfoldable pub pack : ℕ → ℕ → ℕ
pack index tag = tag * 2 ^ 32 + index

unfoldable pub unpack_index : ℕ → ℕ
unpack_index packed = packed % 2 ^ 32

unfoldable pub unpack_tag : ℕ → ℕ
unpack_tag packed = packed / 2 ^ 32 % 2 ^ 32

-- What the constructor builds.
abbrev pub fresh : ℕ → Slab
fresh capacity = record {
  capacity = capacity;
  pool = λ _. reset_node;
  free_next = λ i. if ltb i (capacity - 1) then i + 1 else invalid_index;
  head = pack 0 0;
  free_count = capacity;
}

-- The constructor; `none` is the exception at capacity 0.
unfoldable pub init : ℕ → Option Slab
init capacity = if capacity == 0 then none else some (fresh capacity)

-- How one round of a CAS loop ends: it returns, or goes on with the word that it has now read.
pub data Attempt (A : Type 0) : Type 0 where
  done : A → Slab → Attempt A
  retry : ℕ → Slab → Attempt A
  fault : Attempt A

-- One round of the loop of `allocate`, with `old_packed` in hand.
unfoldable pub allocate_attempt : (spurious : Bool) → ℕ → Slab → Attempt ℕ
allocate_attempt spurious old_packed s =
    let old_index = unpack_index old_packed in
    let old_tag = unpack_tag old_packed in
    if old_index == invalid_index
    then done invalid_index s
    else if not (ltb old_index s.capacity)
    then fault
    else if (s.head == old_packed) && not spurious
    then done old_index (record s {
      pool = update s.pool old_index reset_node;
      head = pack (s.free_next old_index) (add32 old_tag 1);
      free_count = sub32 s.free_count 1;
    })
    else retry s.head s

-- The loop, the first `n` compare-exchanges of which fail spuriously.
unfoldable pub allocate_loop : ℕ → ℕ → Slab → Attempt ℕ
unfolding allocate_attempt
allocate_loop zero p s = allocate_attempt false p s
allocate_loop (suc n) p s = elim (allocate_attempt true p s) [
  | done i t ↦ done i t
  | retry q t ↦ allocate_loop n q t
  | fault ↦ fault
]

-- A loop that has not returned gives no result.
abbrev pub finished : {A : Type 0} → Attempt A → Option (A × Slab)
finished (done a t) = some (a, t)
finished (retry _ _) = none
finished fault = none

unfoldable pub allocate : Cmd ℕ
unfolding allocate_loop
allocate s = finished (allocate_loop 0 s.head s)

-- One round of the loop of `deallocate`: it links the slot to the head that it read, then tries.
unfoldable pub deallocate_attempt : (spurious : Bool) → ℕ → ℕ → Slab → Attempt (Unit {0})
deallocate_attempt spurious index old_packed s =
    let old_index = unpack_index old_packed in
    let old_tag = unpack_tag old_packed in
    let linked = record s { free_next = update s.free_next index old_index } in
    if (s.head == old_packed) && not spurious
    then done tt
        (record linked { head = pack index (add32 old_tag 1); free_count = add32 s.free_count 1 })
    else retry s.head linked

unfoldable pub deallocate_loop : ℕ → ℕ → ℕ → Slab → Attempt (Unit {0})
unfolding deallocate_attempt
deallocate_loop zero index p s = deallocate_attempt false index p s
deallocate_loop (suc n) index p s = elim (deallocate_attempt true index p s) [
  | done u t ↦ done u t
  | retry q t ↦ deallocate_loop n index q t
  | fault ↦ fault
]

-- The node is reset before the loop.
unfoldable pub deallocate : ℕ → Cmd (Unit {0})
unfolding deallocate_loop
deallocate index = do
  assert (ltb index (← capacity_of))
  λ s.
      let t = record s { pool = update s.pool index reset_node } in
      finished (deallocate_loop 0 index t.head t)
