-- ===== src/Striped/Batch.antt =====
-- `batch_get` against a lookup of each key by itself.
use walde.Base.{
  ℕ, zero, suc, ◌+◌, ◌≤◌, ◌<◌, ◌≡◌, refl, sym, ap, ◌∙◌, subst, Bool, true, false, Option, none,
  List, [], ◌∷◌, map, arith, inl, inr, Bool-cases, ◌==◌, eq_of_==, ne_of_==, ==_ne, if◌then◌else◌,
  length, get_or, set, replicate, length-set, length-map, length-replicate, get_or-ext,
  get_or-set_self, get_or-set_ne, get_or-map,
}
use walde.Types.{Key, Value, num_stripes}
use walde.Slab.Yields
use walde.Slab.Yields.{Yields, yields, along}
use walde.Stripe
use walde.Striped.{StripedCache, on_stripe, route, get, group, get_group, get_groups, batch_get}
use walde.Striped.Invariant.{IsCache}
use walde.Striped.Methods.{held, route-lt, get-held}

-- The writes of one group.
place : (Key → Option Value) → List (ℕ × Key) → List (Option Value) → List (Option Value)
place f [] r = r
place f ((i, k) ∷ ks) r = place f ks (set r i (f k))

module _ (xxh32 xxh64 : Key → ℕ → ℕ) (f : Key → Option Value) where
  length-place : (ks : List (ℕ × Key)) (r : List (Option Value)) → length (place f ks r) ≡ length r
  unfolding place
  length-place [] r = refl
  length-place ((i, k) ∷ ks) r = length-place ks (set r i (f k)) ∙ length-set r i (f k)

  -- A group from index `j` on writes at no smaller index.
  place-below :
      (s j i : ℕ) (ks : List Key) (r : List (Option Value))
      → i < j
      → get_or (place f (group xxh32 xxh64 s j ks) r) i none ≡ get_or r i none
  unfolding place group
  place-below s j i [] r h = refl
  place-below s j i (k ∷ ks) r h = elim (Bool-cases (route xxh32 xxh64 k == s)) [
    | inl e ↦ rw e (
        place-below s (j + 1) i ks (set r j (f k)) (omega arith)
        ∙ get_or-set_ne r j i (f k) none (λ p. absurd (omega (arith, p))))
    | inr e ↦ rw e (place-below s (j + 1) i ks r (omega arith))
  ]

  -- It writes at index `j + n` if the `n`-th key belongs to it.
  place-at :
      (s j n i : ℕ) (ks : List Key) (r : List (Option Value))
      → i ≡ j + n
      → n < length ks
      → i < length r
      → get_or (place f (group xxh32 xxh64 s j ks) r) i none
        ≡ (if route xxh32 xxh64 (get_or ks n "") == s then f (get_or ks n "") else get_or r i none)
  unfolding place group
  place-at s j n i [] r e h l = absurd (omega arith)
  place-at s j zero i (k ∷ ks) r e h l = elim (Bool-cases (route xxh32 xxh64 k == s)) [
    | inl p ↦ rw p (
        place-below s (j + 1) i ks (set r j (f k)) (omega arith)
        ∙ ap (λ m. get_or (set r j (f k)) m none) {x = i} {y = j} (omega arith)
        ∙ get_or-set_self r j (f k) none (omega arith))
    | inr p ↦ rw p (place-below s (j + 1) i ks r (omega arith))
  ]
  place-at s j (suc n) i (k ∷ ks) r e h l = elim (Bool-cases (route xxh32 xxh64 k == s)) [
    | inl p ↦ rw p (
        place-at s (j + 1) n i ks (set r j (f k)) (omega arith) (omega arith)
          (omega (arith, length-set r j (f k)))
        ∙ ap (λ o. if route xxh32 xxh64 (get_or ks n "") == s then f (get_or ks n "") else o)
            (get_or-set_ne r j i (f k) none (λ q. absurd (omega (arith, q)))))
    | inr p ↦ rw p (place-at s (j + 1) n i ks r (omega arith) (omega arith) l)
  ]

  -- The writes of `n` groups from stripe `s` on.
  place_groups : ℕ → ℕ → List Key → List (Option Value) → List (Option Value)
  place_groups zero s keys r = r
  place_groups (suc n) s keys r =
      place_groups n (s + 1) keys (place f (group xxh32 xxh64 s 0 keys) r)

  length-place_groups :
      (n s : ℕ) (keys : List Key) (r : List (Option Value))
      → length (place_groups n s keys r) ≡ length r
  unfolding place_groups
  length-place_groups zero s keys r = refl
  length-place_groups (suc n) s keys r =
      length-place_groups n (s + 1) keys (place f (group xxh32 xxh64 s 0 keys) r)
      ∙ length-place (group xxh32 xxh64 s 0 keys) r

  module _ (keys : List Key) (i : ℕ) (h : i < length keys) where
    home : ℕ
    home = route xxh32 xxh64 (get_or keys i "")

    place_one :
        (s : ℕ) (r : List (Option Value)) (b : Bool)
        → (home == s) ≡ b
        → length r ≡ length keys
        → get_or (place f (group xxh32 xxh64 s 0 keys) r) i none
          ≡ (if b then f (get_or keys i "") else get_or r i none)
    unfolding home
    place_one s r b e l =
        place-at s 0 i i keys r (omega arith) h (omega (arith, l))
        ∙ ap (λ c. if c then f (get_or keys i "") else get_or r i none) e

    place_groups_past :
        (n s : ℕ) (r : List (Option Value))
        → home < s
        → length r ≡ length keys
        → get_or (place_groups n s keys r) i none ≡ get_or r i none
    unfolding place_groups
    place_groups_past zero s r p l = refl
    place_groups_past (suc n) s r p l =
        place_groups_past n (s + 1) (place f (group xxh32 xxh64 s 0 keys) r) (omega arith)
          (length-place (group xxh32 xxh64 s 0 keys) r ∙ l)
        ∙ place_one s r false (==_ne home s (omega arith)) l

    -- Every key is looked up in the group of its stripe.
    place_groups_at :
        (n s : ℕ) (r : List (Option Value))
        → s ≤ home
        → home < s + n
        → length r ≡ length keys
        → get_or (place_groups n s keys r) i none ≡ f (get_or keys i "")
    unfolding place_groups
    place_groups_at zero s r p q l = absurd (omega arith)
    place_groups_at (suc n) s r p q l = elim (Bool-cases (home == s)) [
      | inl e ↦
          place_groups_past n (s + 1) (place f (group xxh32 xxh64 s 0 keys) r)
            (let d = eq_of_== home s e in omega arith)
            (length-place (group xxh32 xxh64 s 0 keys) r ∙ l)
          ∙ place_one s r true e l
      | inr e ↦
          place_groups_at n (s + 1) (place f (group xxh32 xxh64 s 0 keys) r)
            (let d = ne_of_== home s e in omega arith) (omega arith)
            (length-place (group xxh32 xxh64 s 0 keys) r ∙ l)
    ]

module _ (xxh32 xxh64 : Key → ℕ → ℕ) (c0 : StripedCache) where
  -- A cache that holds what it held at first.
  abbrev Same : StripedCache → Type 0
  Same c = IsCache c × ((k : Key) → held xxh32 xxh64 c k ≡ held xxh32 xxh64 c0 k)

  get_one :
      (key : Key) (c : StripedCache)
      → Same c
      → Yields (λ r c'. (r ≡ held xxh32 xxh64 c0 key) × Same c') (get xxh32 xxh64 key c)
  get_one key c (v, e) =
      Yields.mono (get-held xxh32 xxh64 c key v)
        λ r c' (p, w, same). (p ∙ e key, (w, λ k. same k ∙ e k))

  get_group_lem :
      (s j : ℕ) (keys : List Key) (results : List (Option Value)) (c : StripedCache)
      → Same c
      → Yields
          (λ rs c'.
            (rs ≡ place (held xxh32 xxh64 c0) (group xxh32 xxh64 s j keys) results) × Same c')
          (get_group xxh32 xxh64 s (group xxh32 xxh64 s j keys) results c)
  unfolding group get_group place get
  get_group_lem s j [] results c h = yields (refl, h)
  get_group_lem s j (k ∷ ks) results c h = elim (Bool-cases (route xxh32 xxh64 k == s)) [
    | inl e ↦ rw e (
        Yields.bind
          (subst
            (λ i.
              Yields (λ r c'. (r ≡ held xxh32 xxh64 c0 k) × Same c')
                (on_stripe i (λ st. Stripe.get xxh32 st k) c))
            (eq_of_== _ s e) (get_one k c h))
          λ v c' (p, w).
            Yields.mono (get_group_lem s (j + 1) ks (set results j v) c' w) λ rs c'' (q, z). (
              q
                  ∙ ap
                      (λ o.
                        place (held xxh32 xxh64 c0) (group xxh32 xxh64 s (j + 1) ks)
                          (set results j o))
                      p,
              z,
            ))
    | inr e ↦ rw e (get_group_lem s (j + 1) ks results c h)
  ]

  get_groups_lem :
      (n s : ℕ) (keys : List Key) (results : List (Option Value)) (c : StripedCache)
      → Same c
      → Yields
          (λ rs c'.
            (rs ≡ place_groups xxh32 xxh64 (held xxh32 xxh64 c0) n s keys results) × Same c')
          (get_groups xxh32 xxh64 n s keys results c)
  unfolding get_groups place_groups
  get_groups_lem zero s keys results c h = yields (refl, h)
  get_groups_lem (suc n) s keys results c h =
      Yields.bind (get_group_lem s 0 keys results c h) λ r c' (p, w).
        Yields.mono (get_groups_lem n (s + 1) keys r c' w) λ rs c'' (q, z).
          (q ∙ ap (place_groups xxh32 xxh64 (held xxh32 xxh64 c0) n (s + 1) keys) p, z)

  place_all :
      (keys : List Key)
      → place_groups xxh32 xxh64
          (held xxh32 xxh64 c0)
          num_stripes
          0
          keys
          (replicate (length keys) none)
        ≡ map (held xxh32 xxh64 c0) keys
  unfolding home
  place_all keys =
      let f = held xxh32 xxh64 c0 in
      let r = replicate (length keys) none in
      get_or-ext none (f "") _ (map f keys)
        (length-place_groups xxh32 xxh64 f num_stripes 0 keys r
          ∙ length-replicate (length keys) none
          ∙ sym (length-map f keys))
        (λ i l.
          let h : i < length keys = subst (λ n. i < n) (length-map f keys) l in
          place_groups_at xxh32 xxh64 f keys i h num_stripes 0 r (omega arith)
            (route-lt xxh32 xxh64 (get_or keys i "")) (length-replicate (length keys) none)
          ∙ sym (get_or-map f keys i ""))

  -- A batch of lookups never faults and returns, in the order of the keys and for keys that repeat
  -- too, the value that the cache holds for each key; it keeps the invariant and what the cache
  -- holds for every key.
  pub batch_get-held :
      (keys : List Key)
      → IsCache c0
      → Yields
          (λ rs c'.
            (rs ≡ map (held xxh32 xxh64 c0) keys)
            × IsCache c'
            × ((k : Key) → held xxh32 xxh64 c' k ≡ held xxh32 xxh64 c0 k))
          (batch_get xxh32 xxh64 keys c0)
  unfolding batch_get
  batch_get-held keys v =
      Yields.mono
        (get_groups_lem num_stripes 0 keys (replicate (length keys) none) c0 (v, λ k. refl))
        λ rs c' (p, (w, same)). (p ∙ place_all keys, w, same)
