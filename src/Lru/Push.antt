-- ===== src/Lru/Push.antt =====
-- `IntrusiveLRU::push_front` puts an unlinked slot in front.
use walde.Base.{
  ℕ, ◌≤◌, ◌<◌, ◌≡◌, refl, List, [], ◌∷◌, ◌∈◌, ◌∉◌, Distinct, some, arith, update_ne, ==_ne,
  length-le, ap, ◌∙◌,
}
use walde.Base.Arith.{add32}
use walde.Types.{invalid_index}
use walde.Slab.{Slab, ◌>>=◌}
use walde.Slab.Yields.{Yields, yields, along}
use walde.Lru.{IntrusiveLru, push_front}
use walde.Lru.Links.{Pool, Linked, IsLru, Relinked, Linked-update, Linked-set_prev}
use walde.Lru.Steps.{
  with_next, with_prev, repool, set_next_lem, set_prev_lem, SameNodes, SameNodes-with_next,
  SameNodes-with_prev, SameNodes-trans, Relinked-repool,
}

-- The new node's own links.
linked_in : Pool → ℕ → ℕ → Pool
linked_in h i n = with_next (with_prev h i invalid_index) i n

pushed_pool : Pool → ℕ → List ℕ → Pool
unfolding linked_in
pushed_pool h i [] = linked_in h i invalid_index
pushed_pool h i (x ∷ xs) = with_prev (linked_in h i x) x i

pushed : IntrusiveLru → ℕ → List ℕ → IntrusiveLru
pushed l i [] = record { head = i; tail = i; size = add32 l.size 1 }
pushed l i (_ ∷ _) = record l { head = i; size = add32 l.size 1 }

linked_in-Linked :
    (h : Pool) (i p n v : ℕ) (xs : List ℕ)
    → i ∉ xs
    → Linked h p xs n
    → Linked (linked_in h i v) p xs n
unfolding linked_in
linked_in-Linked h i p n v xs out k =
    Linked-update (with_prev h i invalid_index) i _ p n xs out (Linked-update h i _ p n xs out k)

linked_in-node :
    (h : Pool) (i v : ℕ)
    → (((linked_in h i v) i).prev ≡ invalid_index) × (((linked_in h i v) i).next ≡ v)
unfolding linked_in
linked_in-node h i v = (ground arith, ground arith)

linked_in-SameNodes : (xs : List ℕ) (h : Pool) (i v : ℕ) → i ∈ xs → SameNodes xs h (linked_in h i v)
unfolding linked_in
linked_in-SameNodes xs h i v m =
    SameNodes-trans xs h (with_prev h i invalid_index) (linked_in h i v)
      (SameNodes-with_prev xs h i invalid_index m)
      (SameNodes-with_next xs (with_prev h i invalid_index) i v m)

pushed_pool-SameNodes : (h : Pool) (i : ℕ) (xs : List ℕ) → SameNodes (i ∷ xs) h (pushed_pool h i xs)
unfolding pushed_pool
pushed_pool-SameNodes h i [] = linked_in-SameNodes (i ∷ []) h i invalid_index (ground arith)
pushed_pool-SameNodes h i (x ∷ xs) =
    SameNodes-trans (i ∷ x ∷ xs) h (linked_in h i x) (pushed_pool h i (x ∷ xs))
      (linked_in-SameNodes (i ∷ x ∷ xs) h i x (ground arith))
      (SameNodes-with_prev (i ∷ x ∷ xs) (linked_in h i x) x i (ground arith))

pushed_pool-Linked :
    (h : Pool) (i : ℕ) (xs : List ℕ)
    → Distinct (i ∷ xs)
    → Linked h invalid_index xs invalid_index
    → Linked (pushed_pool h i xs) invalid_index (i ∷ xs) invalid_index
unfolding pushed_pool
pushed_pool-Linked h i [] d k =
    ((linked_in-node h i invalid_index).0, (linked_in-node h i invalid_index).1, tt)
pushed_pool-Linked h i (x ∷ xs) d k = (
  ap (λ c. c.prev) kept ∙ (linked_in-node h i x).0,
  ap (λ c. c.next) kept ∙ (linked_in-node h i x).1,
  Linked-set_prev (linked_in h i x) invalid_index i invalid_index x xs d.1
      (linked_in-Linked h i invalid_index invalid_index x (x ∷ xs) d.0 k),
)
  where
    kept : with_prev (linked_in h i x) x i i ≡ linked_in h i x i
    kept = update_ne (linked_in h i x) x i _ (ground arith)

module _ (s : Slab) (l : IntrusiveLru) (i : ℕ) where
  push_front-pushed :
      (xs : List ℕ)
      → s.capacity ≤ invalid_index
      → IsLru s l xs
      → i < s.capacity
      → push_front l i s ≡ some (pushed l i xs, repool s (pushed_pool s.pool i xs))
  unfolding push_front pushed pushed_pool
  push_front-pushed [] small lru h =
      let one = repool s (with_prev s.pool i invalid_index) in
      rw (==_ne i invalid_index (omega arith), set_prev_lem i invalid_index s h, ◌>>=◌)
        (rw (set_next_lem i l.head one h, ◌>>=◌) (rw lru.head refl))
  push_front-pushed (x ∷ xs) small lru h =
      let one = repool s (with_prev s.pool i invalid_index) in
      let two = repool s (linked_in s.pool i x) in
      rw (==_ne i invalid_index (omega arith), set_prev_lem i invalid_index s h, ◌>>=◌)
        (rw (set_next_lem i l.head one h, ◌>>=◌)
          (rw (lru.head) (
            rw (==_ne x invalid_index (omega (arith, lru.below.0)))
              (rw (set_prev_lem x i two lru.below.0, ◌>>=◌) refl))))

  pushed-IsLru :
      (xs : List ℕ)
      → s.capacity ≤ invalid_index
      → IsLru s l xs
      → i < s.capacity
      → i ∉ xs
      → IsLru (repool s (pushed_pool s.pool i xs)) (pushed l i xs) (i ∷ xs)
  unfolding pushed
  pushed-IsLru [] small lru h out = record {
    linked = pushed_pool-Linked s.pool i [] (out, tt) tt;
    head = refl;
    tail = refl;
    size = omega (arith, lru.size);
    distinct = (out, tt);
    below = (h, tt);
  }
  pushed-IsLru (x ∷ xs) small lru h out = record {
    linked = pushed_pool-Linked s.pool i (x ∷ xs) (out, lru.distinct) lru.linked;
    head = refl;
    tail = lru.tail;
    size =
        omega
          (arith, lru.size, length-le s.capacity (i ∷ x ∷ xs) (h, lru.below) (out, lru.distinct));
    distinct = (out, lru.distinct);
    below = (h, lru.below);
  }

  -- A slot that is in no list becomes the front of this one, and no other node changes.
  pub push_front_lem :
      (xs : List ℕ)
      → s.capacity ≤ invalid_index
      → IsLru s l xs
      → i < s.capacity
      → i ∉ xs
      → Yields (λ l' t. IsLru t l' (i ∷ xs) × Relinked (i ∷ xs) s t) (push_front l i s)
  push_front_lem xs small lru h out = along (push_front-pushed xs small lru h) (
      yields (
        pushed-IsLru xs small lru h out,
        Relinked-repool (i ∷ xs) s (pushed_pool s.pool i xs) (pushed_pool-SameNodes s.pool i xs),
      ))
