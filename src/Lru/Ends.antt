-- ===== src/Lru/Ends.antt =====
-- `pop_back` and `move_to_front`.
use mathlib.Core.List.{append-nil}
use walde.Base.{
  ℕ, ◌≤◌, ◌<◌, ◌≡◌, ◌≢◌, refl, List, [], ◌∷◌, ◌++◌, ◌∉◌, some, arith, ==_ne, ==_self, sym, subst,
  ◌∙◌, AllBelow-split, Distinct-split, has-append,
}
use walde.Types.{invalid_index}
use walde.Slab.{Slab, ◌>>=◌, pure}
use walde.Slab.Yields
use walde.Slab.Yields.{Yields, yields, along}
use walde.Lru.{IntrusiveLru, remove, push_front, pop_back, move_to_front}
use walde.Lru.Links.{IsLru, Relinked}
use walde.Lru.Push.{push_front_lem}
use walde.Lru.Remove.{remove_lem, last_or-append}
use walde.Lru.Frame.{Relinked-refl, Relinked-mono, Relinked-trans}

pub pop_back-nil :
    (s : Slab) (l : IntrusiveLru) → IsLru s l [] → pop_back l s ≡ some ((invalid_index, l), s)
unfolding pop_back
pop_back-nil s l lru = rw lru.tail refl

to_front_absent :
    (i x : ℕ) (xs ys : List ℕ) (a : ℕ) → a ∉ (x ∷ (xs ++ i ∷ ys)) → a ∉ (i ∷ x ∷ (xs ++ ys))
to_front_absent i x xs ys a o = ground (arith, has-append a xs (i ∷ ys), has-append a xs ys)

module _ (s : Slab) (l : IntrusiveLru) (i : ℕ) where
  pop_back_step :
      l.tail ≡ i → i < invalid_index → pop_back l s ≡ (remove l i >>= λ l'. pure (i, l')) s
  unfolding pop_back
  pop_back_step e h = rw e (rw (==_ne i invalid_index (omega arith)) refl)

  move_to_front_step :
      l.head ≢ i
      → i < invalid_index
      → move_to_front l i s ≡ (remove l i >>= λ l'. push_front l' i) s
  unfolding move_to_front
  move_to_front_step e h =
      rw (==_ne i invalid_index (omega arith), ◌>>=◌) (rw (==_ne i l.head (λ p. e (sym p))) refl)

  move_to_front_first : l.head ≡ i → i < invalid_index → move_to_front l i s ≡ some (l, s)
  unfolding move_to_front
  move_to_front_first e h =
      rw (==_ne i invalid_index (omega arith), ◌>>=◌) (rw e (rw (==_self i) refl))

  -- The last slot is taken out of the list and returned.
  pub pop_back-append :
      (xs : List ℕ)
      → s.capacity ≤ invalid_index
      → IsLru s l (xs ++ i ∷ [])
      → Yields (λ r t. (r.0 ≡ i) × IsLru t r.1 xs × Relinked (xs ++ i ∷ []) s t) (pop_back l s)
  pop_back-append xs small lru =
      along
        (pop_back_step (lru.tail ∙ last_or-append invalid_index xs i [])
          (omega (arith, (AllBelow-split s.capacity xs (i ∷ []) lru.below).1.0)))
        (Yields.bind (remove_lem s l i xs [] lru small)
          λ l' t (lru', r). yields (refl, subst (IsLru t l') (append-nil xs) lru', r))

  -- A slot of the list becomes its front, and the others keep their order.
  pub move_to_front_lem :
      (xs ys : List ℕ)
      → s.capacity ≤ invalid_index
      → IsLru s l (xs ++ i ∷ ys)
      → Yields
          (λ l' t. IsLru t l' (i ∷ (xs ++ ys)) × Relinked (xs ++ i ∷ ys) s t)
          (move_to_front l i s)
  move_to_front_lem [] ys small lru =
      along (move_to_front_first lru.head (omega (arith, lru.below.0)))
        (yields (lru, Relinked-refl (i ∷ ys) s))
  move_to_front_lem (x ∷ xs) ys small lru =
      let below = (AllBelow-split s.capacity (x ∷ xs) (i ∷ ys) lru.below).1.0 in
      let split = Distinct-split (x ∷ xs) (i ∷ ys) lru.distinct in
      let out : i ∉ (x ∷ (xs ++ ys)) = ground (arith, has-append i xs ys, split.1.0, split.2 i) in
      let first : x ≢ i = ground (arith, split.2 i) in
      along (move_to_front_step (λ e. first (sym lru.head ∙ e)) (omega arith)) (
        Yields.bind (remove_lem s l i (x ∷ xs) ys lru small) λ m t (lru', r).
          Yields.mono
            (push_front_lem t m i (x ∷ (xs ++ ys)) (rw r.capacity small) lru' (rw r.capacity below)
              out)
            λ l' u (lru'', r'). (
              lru'',
              Relinked-trans (x ∷ (xs ++ i ∷ ys)) r (
                  Relinked-mono (i ∷ x ∷ (xs ++ ys)) (x ∷ (xs ++ i ∷ ys))
                    (to_front_absent i x xs ys) r'),
            ))
