-- ===== src/Lru/Unlink.antt =====
-- The link writes of `IntrusiveLRU::remove`, pool by pool: the neighbours skip the node, and its own
-- links are cleared.
use walde.Base.{
  ℕ, ◌≤◌, ◌<◌, ◌≡◌, refl, List, [], ◌∷◌, ◌++◌, ◌∈◌, ◌∉◌, Distinct, AllBelow, Disjoint, some, arith,
  update_ne, ==_ne, last_or-lt, head_or, last_or, ne_of_mem, has-append, has-last_or,
}
use walde.Types.{invalid_index, CacheNode}
use walde.Slab.{Slab, ◌>>=◌}
use walde.Lru.{IntrusiveLru, bypass_next, bypass_prev}
use walde.Lru.Links.{
  Pool, Linked, Linked-frame, Linked-update, Linked-append, Linked-split, Linked-set_next,
  Linked-set_prev,
}
use walde.Lru.Steps.{
  with_next, with_prev, repool, set_next_lem, set_prev_lem, SameNodes, SameNodes-with_next,
  SameNodes-with_prev, SameNodes-trans,
}

-- The pool after each of the two bypasses, and after the node's own links are cleared.
abbrev pub over_next : Pool → List ℕ → ℕ → Pool
over_next h [] n = h
over_next h (x ∷ xs) n = with_next h (last_or x xs) n

abbrev pub over_prev : Pool → List ℕ → ℕ → Pool
over_prev h [] p = h
over_prev h (y ∷ ys) p = with_prev h y p

abbrev pub cut : Pool → ℕ → Pool
cut h i = with_next (with_prev h i invalid_index) i invalid_index

abbrev pub bridged : Pool → List ℕ → List ℕ → Pool
bridged h xs ys =
    over_prev (over_next h xs (head_or invalid_index ys)) ys (last_or invalid_index xs)

module _ (l : IntrusiveLru) (s : Slab) (n : CacheNode) where
  pub bypass_next_lem :
      (xs : List ℕ)
      → s.capacity ≤ invalid_index
      → AllBelow s.capacity xs
      → n.prev ≡ last_or invalid_index xs
      → bypass_next l n s
        ≡ some (elim xs [ [] ↦ n.next | _ ∷ _ ↦ l.head ], repool s (over_next s.pool xs n.next))
  unfolding bypass_next
  bypass_next_lem [] small below e = rw e refl
  bypass_next_lem (x ∷ xs) small below e =
      let h : last_or x xs < s.capacity = last_or-lt s.capacity x xs below in
      rw e (
        rw (==_ne (last_or x xs) invalid_index (omega arith))
          (rw (set_next_lem (last_or x xs) n.next s h, ◌>>=◌) refl))

  pub bypass_prev_lem :
      (ys : List ℕ)
      → s.capacity ≤ invalid_index
      → AllBelow s.capacity ys
      → n.next ≡ head_or invalid_index ys
      → bypass_prev l n s
        ≡ some (elim ys [ [] ↦ n.prev | _ ∷ _ ↦ l.tail ], repool s (over_prev s.pool ys n.prev))
  unfolding bypass_prev
  bypass_prev_lem [] small below e = rw e refl
  bypass_prev_lem (y ∷ ys) small below e = rw e (
      rw (==_ne y invalid_index (omega (arith, below.0)))
        (rw (set_prev_lem y n.prev s below.0, ◌>>=◌) refl))

-- What the links around a slot in the middle say.
pub middle :
    (h : Pool) (i : ℕ) (xs ys : List ℕ)
    → Linked h invalid_index (xs ++ i ∷ ys) invalid_index
    → Linked h invalid_index xs i
      × ((h i).prev ≡ last_or invalid_index xs)
      × ((h i).next ≡ head_or invalid_index ys)
      × Linked h i ys invalid_index
middle h i xs ys k =
    let (a, b) = Linked-split h invalid_index invalid_index xs (i ∷ ys) k in (a, b.0, b.1, b.2)

pub over_next-outside : (h : Pool) (xs : List ℕ) (n a : ℕ) → a ∉ xs → over_next h xs n a ≡ h a
over_next-outside h [] n a o = refl
over_next-outside h (x ∷ xs) n a o =
    update_ne h (last_or x xs) a _ (ne_of_mem (last_or x xs) a (x ∷ xs) (has-last_or x xs) o)

pub over_prev-outside : (h : Pool) (ys : List ℕ) (p a : ℕ) → a ∉ ys → over_prev h ys p a ≡ h a
over_prev-outside h [] p a o = refl
over_prev-outside h (y ∷ ys) p a o = update_ne h y a _ (ne_of_mem y a (y ∷ ys) (ground arith) o)

over_next-Linked :
    (h : Pool) (p n m : ℕ) (xs : List ℕ)
    → Distinct xs
    → Linked h p xs n
    → Linked (over_next h xs m) p xs m
over_next-Linked h p n m [] d k = tt
over_next-Linked h p n m (x ∷ xs) d k = Linked-set_next h p n m x xs d k

over_prev-Linked :
    (h : Pool) (p q n : ℕ) (ys : List ℕ)
    → Distinct ys
    → Linked h p ys n
    → Linked (over_prev h ys q) q ys n
over_prev-Linked h p q n [] d k = tt
over_prev-Linked h p q n (y ∷ ys) d k = Linked-set_prev h p q n y ys d k

pub bridged-Linked :
    (h : Pool) (i : ℕ) (xs ys : List ℕ)
    → Distinct xs
    → Distinct ys
    → Disjoint xs ys
    → Linked h invalid_index xs i
    → Linked h i ys invalid_index
    → Linked (bridged h xs ys) invalid_index (xs ++ ys) invalid_index
bridged-Linked h i xs ys dx dy apart k m =
    Linked-append (bridged h xs ys) invalid_index invalid_index xs ys
      (Linked-frame (bridged h xs ys) one invalid_index n xs
        (λ a e. over_prev-outside one ys p a (apart a e))
        (over_next-Linked h invalid_index i n xs dx k))
      (over_prev-Linked one i p invalid_index ys dy
        (Linked-frame one h i invalid_index ys (λ a e. over_next-outside h xs n a (away a e)) m))
  where
    n : ℕ
    n = head_or invalid_index ys

    p : ℕ
    p = last_or invalid_index xs

    one : Pool
    one = over_next h xs n

    away : (a : ℕ) → a ∈ ys → a ∉ xs
    away a e = ground (arith, apart a)

pub cut-Linked :
    (h : Pool) (i p n : ℕ) (xs : List ℕ) → i ∉ xs → Linked h p xs n → Linked (cut h i) p xs n
cut-Linked h i p n xs out k =
    Linked-update (with_prev h i invalid_index) i _ p n xs out (Linked-update h i _ p n xs out k)

over_next-SameNodes :
    (zs : List ℕ) (h : Pool) (xs : List ℕ) (n : ℕ)
    → ((a : ℕ) → a ∈ xs → a ∈ zs)
    → SameNodes zs h (over_next h xs n)
over_next-SameNodes zs h [] n sub = record {
  outside = λ a o. refl;
  key = λ a. refl;
  value = λ a. refl;
  segment = λ a. refl;
}
over_next-SameNodes zs h (x ∷ xs) n sub =
    SameNodes-with_next zs h (last_or x xs) n (sub (last_or x xs) (has-last_or x xs))

over_prev-SameNodes :
    (zs : List ℕ) (h : Pool) (ys : List ℕ) (p : ℕ)
    → ((a : ℕ) → a ∈ ys → a ∈ zs)
    → SameNodes zs h (over_prev h ys p)
over_prev-SameNodes zs h [] p sub = record {
  outside = λ a o. refl;
  key = λ a. refl;
  value = λ a. refl;
  segment = λ a. refl;
}
over_prev-SameNodes zs h (y ∷ ys) p sub = SameNodes-with_prev zs h y p (sub y (ground arith))

abbrev pub removed_pool : Pool → ℕ → List ℕ → List ℕ → Pool
removed_pool h i xs ys = cut (bridged h xs ys) i

pub removed_pool-SameNodes :
    (h : Pool) (i : ℕ) (xs ys : List ℕ) → SameNodes (xs ++ i ∷ ys) h (removed_pool h i xs ys)
removed_pool-SameNodes h i xs ys =
    SameNodes-trans zs h one (cut two i)
      (over_next-SameNodes zs h xs (head_or invalid_index ys)
        (λ a e. ground (arith, has-append a xs (i ∷ ys))))
      (SameNodes-trans zs one two (cut two i)
        (over_prev-SameNodes zs one ys (last_or invalid_index xs)
          (λ a e. ground (arith, has-append a xs (i ∷ ys))))
        (SameNodes-trans zs two (with_prev two i invalid_index) (cut two i)
          (SameNodes-with_prev zs two i invalid_index here)
          (SameNodes-with_next zs (with_prev two i invalid_index) i invalid_index here)))
  where
    zs : List ℕ
    zs = xs ++ i ∷ ys

    one : Pool
    one = over_next h xs (head_or invalid_index ys)

    two : Pool
    two = bridged h xs ys

    here : i ∈ zs
    here = ground (arith, has-append i xs (i ∷ ys))
