-- ===== src/Lru/Remove.antt =====
-- `IntrusiveLRU::remove` takes a slot out of the list, wherever it stands.
use mathlib.Core.List.{append-nil}
use walde.Base.{
  ℕ, ◌≤◌, ◌<◌, ◌≡◌, refl, List, [], ◌∷◌, ◌++◌, ◌∉◌, Distinct, AllBelow, Disjoint, some, arith,
  ltb-true, ==_ne, length-le, head_or, last_or, ap, sym, ◌∙◌, AllBelow-append, AllBelow-split,
  Distinct-append, Distinct-split, length-append, has-append,
}
use walde.Base.Arith.{sub32}
use walde.Types.{invalid_index}
use walde.Slab.{Slab, ◌>>=◌}
use walde.Slab.Yields.{Yields, yields, along}
use walde.Lru.{IntrusiveLru, remove}
use walde.Lru.Links.{Linked, IsLru, Relinked}
use walde.Lru.Steps.{with_prev, repool, node_lem, set_next_lem, set_prev_lem, Relinked-repool}
use walde.Lru.Unlink.{
  over_next, over_prev, bridged, bypass_next_lem, bypass_prev_lem, middle, over_next-outside,
  bridged-Linked, cut-Linked, removed_pool, removed_pool-SameNodes,
}

-- What the list object holds afterwards.
removed : IntrusiveLru → List ℕ → List ℕ → IntrusiveLru
removed l xs ys = record {
  head = head_or invalid_index (xs ++ ys);
  tail = last_or invalid_index (xs ++ ys);
  size = sub32 l.size 1;
}

pub last_or-append :
    (d : ℕ) (xs : List ℕ) (y : ℕ) (ys : List ℕ) → last_or d (xs ++ y ∷ ys) ≡ last_or y ys
last_or-append d [] y ys = refl
last_or-append d (x ∷ xs) y ys = last_or-append x xs y ys

new_head :
    (hd n i : ℕ) (xs ys : List ℕ)
    → hd ≡ head_or invalid_index (xs ++ i ∷ ys)
    → n ≡ head_or invalid_index ys
    → (elim xs [ [] ↦ n | _ ∷ _ ↦ hd ]) ≡ head_or invalid_index (xs ++ ys)
new_head hd n i [] ys h k = k
new_head hd n i (x ∷ xs) ys h k = h

new_tail :
    (tl p i : ℕ) (xs ys : List ℕ)
    → tl ≡ last_or invalid_index (xs ++ i ∷ ys)
    → p ≡ last_or invalid_index xs
    → (elim ys [ [] ↦ p | _ ∷ _ ↦ tl ]) ≡ last_or invalid_index (xs ++ ys)
new_tail tl p i xs [] h k = k ∙ ap (last_or invalid_index) (sym (append-nil xs))
new_tail tl p i xs (y ∷ ys) h k =
    h ∙ last_or-append invalid_index xs i (y ∷ ys) ∙ sym (last_or-append invalid_index xs y ys)

module _ (s : Slab) (l : IntrusiveLru) (i : ℕ) (xs ys : List ℕ)
    (lru : IsLru s l (xs ++ i ∷ ys)) where
  around :
      Linked s.pool invalid_index xs i
      × ((s.pool i).prev ≡ last_or invalid_index xs)
      × ((s.pool i).next ≡ head_or invalid_index ys)
      × Linked s.pool i ys invalid_index
  around = middle s.pool i xs ys lru.linked

  below : AllBelow s.capacity xs × AllBelow s.capacity (i ∷ ys)
  below = AllBelow-split s.capacity xs (i ∷ ys) lru.below

  distinct : Distinct xs × Distinct (i ∷ ys) × Disjoint xs (i ∷ ys)
  distinct = Distinct-split xs (i ∷ ys) lru.distinct

  not_before : i ∉ xs
  not_before = ground (arith, distinct.2 i)

  occupied : 0 < l.size
  occupied = omega (arith, lru.size, length-append xs (i ∷ ys))

  unmoved : over_next s.pool xs (s.pool i).next i ≡ s.pool i
  unmoved = over_next-outside s.pool xs (s.pool i).next i not_before

  remove-removed :
      s.capacity ≤ invalid_index
      → remove l i s ≡ some (removed l xs ys, repool s (removed_pool s.pool i xs ys))
  unfolding remove removed
  remove-removed small =
      let one = repool s (over_next s.pool xs (s.pool i).next) in
      let two = repool s (over_prev one.pool ys (s.pool i).prev) in
      let three = repool s (with_prev two.pool i invalid_index) in
      rw (==_ne i invalid_index (omega (arith, below.1.0)), ltb-true 0 l.size occupied, ◌>>=◌)
        (rw (node_lem i s below.1.0, ◌>>=◌)
          (rw (bypass_next_lem l s (s.pool i) xs small below.0 around.1, ◌>>=◌)
            (rw (node_lem i one below.1.0, ◌>>=◌)
              (rw unmoved (
                rw (bypass_prev_lem l one (s.pool i) ys small below.1.1 around.2, ◌>>=◌)
                  (rw (set_prev_lem i invalid_index two below.1.0, ◌>>=◌)
                    (rw (set_next_lem i invalid_index three below.1.0, ◌>>=◌)
                      (rw (new_head l.head (s.pool i).next i xs ys lru.head around.2) (
                        rw (new_tail l.tail (s.pool i).prev i xs ys lru.tail around.1)
                          (rw (around.1, around.2) refl))))))))))

  removed-IsLru :
      s.capacity ≤ invalid_index
      → IsLru (repool s (removed_pool s.pool i xs ys)) (removed l xs ys) (xs ++ ys)
  unfolding removed
  removed-IsLru small = record {
    linked =
        cut-Linked (bridged s.pool xs ys) i invalid_index invalid_index (xs ++ ys) gone
          (bridged-Linked s.pool i xs ys distinct.0 distinct.1.1 apart around.0 around.3);
    head = refl;
    tail = refl;
    size = omega (
      arith,
      lru.size,
      length-append xs (i ∷ ys),
      length-append xs ys,
      length-le s.capacity (xs ++ i ∷ ys) lru.below lru.distinct,
    );
    distinct = Distinct-append xs ys distinct.0 distinct.1.1 apart;
    below = AllBelow-append s.capacity xs ys below.0 below.1.1;
  }
    where
      apart : Disjoint xs ys
      apart a e = ground (arith, distinct.2 a)

      gone : i ∉ (xs ++ ys)
      gone = ground (arith, has-append i xs ys, not_before, distinct.1.0)

  -- The slot leaves the list, which keeps the order of the others; no node outside it changes, and
  -- of the nodes in it only links change.
  pub remove_lem :
      s.capacity ≤ invalid_index
      → Yields (λ l' t. IsLru t l' (xs ++ ys) × Relinked (xs ++ i ∷ ys) s t) (remove l i s)
  remove_lem small = along (remove-removed small) (
      yields (
        removed-IsLru small,
        Relinked-repool (xs ++ i ∷ ys) s (removed_pool s.pool i xs ys)
            (removed_pool-SameNodes s.pool i xs ys),
      ))
