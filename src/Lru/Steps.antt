-- ===== src/Lru/Steps.antt =====
-- Single link writes: what they return, and what they leave alone.
use walde.Base.{
  ℕ, ◌<◌, ◌≡◌, refl, List, ◌∈◌, ◌∉◌, some, arith, update, update_ne, ltb-true, ◌∙◌, ne_of_mem,
}
use walde.Types.{CacheNode}
use walde.Slab.{Slab, node, set_node, ◌>>=◌}
use walde.Lru.{set_next, set_prev}
use walde.Lru.Links.{Pool, Relinked}

abbrev pub with_next : Pool → ℕ → ℕ → Pool
with_next h i v = update h i (record (h i) { next = v })

abbrev pub with_prev : Pool → ℕ → ℕ → Pool
with_prev h i v = update h i (record (h i) { prev = v })

abbrev pub repool : Slab → Pool → Slab
repool s h = record s { pool = h }

pub node_lem : (i : ℕ) (s : Slab) → i < s.capacity → node i s ≡ some (s.pool i, s)
unfolding node
node_lem i s h = rw (ltb-true i s.capacity h)

pub set_node_lem :
    (i : ℕ) (n : CacheNode) (s : Slab)
    → i < s.capacity
    → set_node i n s ≡ some (tt, repool s (update s.pool i n))
unfolding set_node
set_node_lem i n s h = rw (ltb-true i s.capacity h)

pub set_next_lem :
    (i v : ℕ) (s : Slab)
    → i < s.capacity
    → set_next i v s ≡ some (tt, repool s (with_next s.pool i v))
unfolding set_next
set_next_lem i v s h = rw (node_lem i s h, ◌>>=◌) (set_node_lem i _ s h)

pub set_prev_lem :
    (i v : ℕ) (s : Slab)
    → i < s.capacity
    → set_prev i v s ≡ some (tt, repool s (with_prev s.pool i v))
unfolding set_prev
set_prev_lem i v s h = rw (node_lem i s h, ◌>>=◌) (set_node_lem i _ s h)

-- The pools `h` and `g` differ at most in the links of the nodes of `xs`.
pub record SameNodes (xs : List ℕ) (h g : Pool) : Type 0 where
  pub outside : (a : ℕ) → a ∉ xs → g a ≡ h a
  pub key : (a : ℕ) → (g a).key ≡ (h a).key
  pub value : (a : ℕ) → (g a).value ≡ (h a).value
  pub segment : (a : ℕ) → (g a).segment ≡ (h a).segment

pub SameNodes-with_next :
    (xs : List ℕ) (h : Pool) (i v : ℕ) → i ∈ xs → SameNodes xs h (with_next h i v)
SameNodes-with_next xs h i v m = record {
  outside = λ a o. update_ne h i a _ (ne_of_mem i a xs m o);
  key = λ a. ground arith;
  value = λ a. ground arith;
  segment = λ a. ground arith;
}

pub SameNodes-with_prev :
    (xs : List ℕ) (h : Pool) (i v : ℕ) → i ∈ xs → SameNodes xs h (with_prev h i v)
SameNodes-with_prev xs h i v m = record {
  outside = λ a o. update_ne h i a _ (ne_of_mem i a xs m o);
  key = λ a. ground arith;
  value = λ a. ground arith;
  segment = λ a. ground arith;
}

pub SameNodes-trans :
    (xs : List ℕ) (h g k : Pool) → SameNodes xs h g → SameNodes xs g k → SameNodes xs h k
SameNodes-trans xs h g k p q = record {
  outside = λ a o. q.outside a o ∙ p.outside a o;
  key = λ a. q.key a ∙ p.key a;
  value = λ a. q.value a ∙ p.value a;
  segment = λ a. q.segment a ∙ p.segment a;
}

pub Relinked-repool :
    (xs : List ℕ) (s : Slab) (g : Pool) → SameNodes xs s.pool g → Relinked xs s (repool s g)
Relinked-repool xs s g p = record {
  capacity = refl;
  free_next = refl;
  head = refl;
  free_count = refl;
  outside = p.outside;
  key = p.key;
  value = p.value;
  segment = p.segment;
}
