-- ===== src/Lru/Links.antt =====
-- The list that the links of the slab nodes spell, with frame and split lemmas.
use walde.Base.{
  ℕ, ◌≡◌, List, [], ◌∷◌, ◌++◌, ◌∈◌, ◌∉◌, Distinct, AllBelow, length, update, head_or, last_or,
  arith, has-last_or, update_ne, ne_of_mem, ap, ◌∙◌,
}
use walde.Types.{invalid_index, CacheNode}
use walde.Slab.{Slab}
use walde.Lru.{IntrusiveLru}

abbrev pub Pool : Type 0
Pool = ℕ → CacheNode

-- Through the nodes of `xs`, in order: each points back to the one before (the first to `p`) and
-- on to the one behind (the last to `n`).
abbrev pub Linked : Pool → ℕ → List ℕ → ℕ → Type 0
Linked h p [] n = Unit
Linked h p (x ∷ xs) n = ((h x).prev ≡ p) × ((h x).next ≡ head_or n xs) × Linked h x xs n

-- The object `l` is the list `xs`, front first.
pub record IsLru (s : Slab) (l : IntrusiveLru) (xs : List ℕ) : Type 0 where
  pub linked : Linked s.pool invalid_index xs invalid_index
  pub head : l.head ≡ head_or invalid_index xs
  pub tail : l.tail ≡ last_or invalid_index xs
  pub size : l.size ≡ length xs
  pub distinct : Distinct xs
  pub below : AllBelow s.capacity xs

-- What a list operation leaves alone: everything but the links of the nodes of `xs`.
pub record Relinked (xs : List ℕ) (s t : Slab) : Type 0 where
  pub capacity : t.capacity ≡ s.capacity
  pub free_next : t.free_next ≡ s.free_next
  pub head : t.head ≡ s.head
  pub free_count : t.free_count ≡ s.free_count
  pub outside : (a : ℕ) → a ∉ xs → t.pool a ≡ s.pool a
  pub key : (a : ℕ) → (t.pool a).key ≡ (s.pool a).key
  pub value : (a : ℕ) → (t.pool a).value ≡ (s.pool a).value
  pub segment : (a : ℕ) → (t.pool a).segment ≡ (s.pool a).segment

-- Only the links of the nodes themselves count.
pub Linked-same :
    (g h : Pool) (p n : ℕ) (xs : List ℕ)
    → ((a : ℕ) → a ∈ xs → ((g a).prev ≡ (h a).prev) × ((g a).next ≡ (h a).next))
    → Linked h p xs n
    → Linked g p xs n
Linked-same g h p n [] same k = tt
Linked-same g h p n (x ∷ xs) same k = (
  (same x (ground arith)).0 ∙ k.0,
  (same x (ground arith)).1 ∙ k.1,
  Linked-same g h x n xs (λ a m. same a (ground arith)) k.2,
)

pub Linked-frame :
    (g h : Pool) (p n : ℕ) (xs : List ℕ)
    → ((a : ℕ) → a ∈ xs → g a ≡ h a)
    → Linked h p xs n
    → Linked g p xs n
Linked-frame g h p n xs same =
    Linked-same g h p n xs (λ a m. (ap (λ c. c.prev) (same a m), ap (λ c. c.next) (same a m)))

pub Linked-update :
    (h : Pool) (i : ℕ) (c : CacheNode) (p n : ℕ) (xs : List ℕ)
    → i ∉ xs
    → Linked h p xs n
    → Linked (update h i c) p xs n
Linked-update h i c p n xs out k = Linked-frame (update h i c) h p n xs (λ a m. ground arith) k

pub Linked-append :
    (h : Pool) (p n : ℕ) (xs ys : List ℕ)
    → Linked h p xs (head_or n ys)
    → Linked h (last_or p xs) ys n
    → Linked h p (xs ++ ys) n
Linked-append h p n [] ys k m = m
Linked-append h p n (x ∷ []) ys k m = (k.0, k.1, m)
Linked-append h p n (x ∷ y ∷ xs) ys k m = (k.0, k.1, Linked-append h x n (y ∷ xs) ys k.2 m)

pub Linked-split :
    (h : Pool) (p n : ℕ) (xs ys : List ℕ)
    → Linked h p (xs ++ ys) n
    → Linked h p xs (head_or n ys) × Linked h (last_or p xs) ys n
Linked-split h p n [] ys k = (tt, k)
Linked-split h p n (x ∷ []) ys k = ((k.0, k.1, tt), k.2)
Linked-split h p n (x ∷ y ∷ xs) ys k =
    let (a, b) = Linked-split h x n (y ∷ xs) ys k.2 in ((k.0, k.1, a), b)

-- A write to the `next` of the last node moves the end of the list.
pub Linked-set_next :
    (h : Pool) (p n m x : ℕ) (xs : List ℕ)
    → Distinct (x ∷ xs)
    → Linked h p (x ∷ xs) n
    → Linked (update h (last_or x xs) (record (h (last_or x xs)) { next = m })) p (x ∷ xs) m
Linked-set_next h p n m x [] d k = (ground arith, ground arith, tt)
Linked-set_next h p n m x (y ∷ ys) d k =
    (ap (λ c. c.prev) kept ∙ k.0, ap (λ c. c.next) kept ∙ k.1, Linked-set_next h x n m y ys d.1 k.2)
  where
    kept : update h (last_or y ys) (record (h (last_or y ys)) { next = m }) x ≡ h x
    kept =
        update_ne h (last_or y ys) x _ (ne_of_mem (last_or y ys) x (y ∷ ys) (has-last_or y ys) d.0)

-- A write to the `prev` of the first node moves its start.
pub Linked-set_prev :
    (h : Pool) (p q n y : ℕ) (ys : List ℕ)
    → Distinct (y ∷ ys)
    → Linked h p (y ∷ ys) n
    → Linked (update h y (record (h y) { prev = q })) q (y ∷ ys) n
Linked-set_prev h p q n y ys d k =
    (ground arith, ground arith, Linked-update h y (record (h y) { prev = q }) y n ys d.0 k.2)
