-- ===== src/Striped/Methods.antt =====
-- The methods of `StripedCache` against the map from keys to values that the cache stands for.
use walde.Base.{
  ℕ, ◌<◌, ◌≡◌, ◌≢◌, refl, sym, ap, ◌∙◌, subst, Bool, true, false, Option, none, some, arith, inl,
  inr, Bool-cases, ◌==◌, eq_of_==, ne_of_==, ==_self, ltb, str_eq, eq_of_str_eq, if◌then◌else◌,
  update_self,
}
use walde.Types.{Key, Value, num_stripes}
use walde.Slab.{Slab, Cmd}
use walde.Slab.Yields
use walde.Slab.Yields.{Yields, yields}
use walde.Stripe
use walde.Stripe.{CacheStripe}
use walde.Stripe.Contents.{IsStripe}
use walde.Stripe.Contents
use walde.Stripe.Get.{get-contents}
use walde.Stripe.Remove.{remove-contents, is_some}
use walde.Stripe.Admit.{less}
use walde.Stripe.Write.{put_lem}
use walde.Striped.{StripedCache, lent, returned, on_stripe, route, get, put, remove}
use walde.Striped.Invariant.{elsewhere, IsCache, running, after-IsCache, other_contents}

both : (b : Bool) (o : Option Value) → (if b then o else o) ≡ o
both true o = refl
both false o = refl

-- What a method of stripe `k` leaves, where the stripe ends as `Q` says.
abbrev pub Ran :
    {A : Type 0} → StripedCache → ℕ → (A → CacheStripe → Slab → Type 0) → A → StripedCache → Type 0
Ran c k Q a c' =
    IsCache c'
    × ((j : ℕ)
        → j < num_stripes
        → j ≢ k
        → (key : Key)
        → Contents.contents (c'.stripes j) c'.slab key ≡ Contents.contents (c.stripes j) c.slab key)
    × (c'.demotion_queue ≡ (c'.stripes k).demotion_queue)
    × Q a (c'.stripes k) c'.slab

module _ {A : Type 0} (c : StripedCache) (v : IsCache c) (k : ℕ) (h : k < num_stripes)
    (Q : A → CacheStripe → Slab → Type 0) where
  lift :
      {r : Option ((A × CacheStripe) × Slab)}
      → Yields (λ x u. IsStripe (elsewhere c.slab v.families k) x.1 u × Q x.0 x.1 u) r
      → Yields (Ran c k Q) (returned c k r)
  lift (yields {a} {s} (w, q)) = yields (
    after-IsCache c v k h a.1 s w,
    other_contents c v k h a.1 s w,
    ap (λ z. z.demotion_queue) (sym (update_self c.stripes k a.1)),
    subst (λ z. Q a.0 z s) (sym (update_self c.stripes k a.1)) q,
  )

  -- A method of a stripe as a method of the cache.
  pub on_stripe_lem :
      (op : CacheStripe → Cmd (A × CacheStripe))
      → Yields
          (λ x u. IsStripe (elsewhere c.slab v.families k) x.1 u × Q x.0 x.1 u)
          (op (lent c k) c.slab)
      → Yields (Ran c k Q) (on_stripe k op c)
  on_stripe_lem op y = lift y

module _ (xxh32 xxh64 : Key → ℕ → ℕ) where
  pub route-lt : (key : Key) → route xxh32 xxh64 key < num_stripes
  unfolding route
  route-lt key = omega arith

  -- The value that the cache holds for a key: that of the stripe the key is routed to.
  abbrev pub held : StripedCache → Key → Option Value
  held c key = Contents.contents (c.stripes (route xxh32 xxh64 key)) c.slab key

module _ (xxh32 xxh64 : Key → ℕ → ℕ) (c : StripedCache) where
  -- What holds for the keys of the stripe that ran, and for the others, holds for all.
  everywhere :
      (k : ℕ) (c' : StripedCache) (f : Key → Option Value → Option Value)
      → ((j : ℕ)
          → j < num_stripes
          → j ≢ k
          → (key : Key)
          → Contents.contents (c'.stripes j) c'.slab key
            ≡ Contents.contents (c.stripes j) c.slab key)
      → ((key : Key)
          → Contents.contents (c'.stripes k) c'.slab key
            ≡ f key (Contents.contents (c.stripes k) c.slab key))
      → (key : Key)
      → held xxh32 xxh64 c' key ≡ (
          if k == route xxh32 xxh64 key
          then f key (held xxh32 xxh64 c key)
          else held xxh32 xxh64 c key)
  everywhere k c' f others here key = elim (Bool-cases (k == route xxh32 xxh64 key)) [
    | inl e ↦ rw e (
        subst
          (λ j.
            Contents.contents (c'.stripes j) c'.slab key
            ≡ f key (Contents.contents (c.stripes j) c.slab key))
          (eq_of_== k _ e) (here key))
    | inr e ↦ rw e (
        others (route xxh32 xxh64 key) (route-lt xxh32 xxh64 key) (λ p. ne_of_== k _ e (sym p)) key)
  ]

  -- A lookup never faults and returns the value that the cache holds for the key; it keeps the
  -- invariant and what the cache holds for every key.
  pub get-held :
      (key : Key)
      → IsCache c
      → Yields
          (λ r c'.
            (r ≡ held xxh32 xxh64 c key)
            × IsCache c'
            × ((k : Key) → held xxh32 xxh64 c' k ≡ held xxh32 xxh64 c k))
          (get xxh32 xxh64 key c)
  unfolding get
  get-held key v =
      let k = route xxh32 xxh64 key in
      Yields.mono
        (on_stripe_lem c v k (route-lt xxh32 xxh64 key)
          (λ r s u.
            (r ≡ held xxh32 xxh64 c key)
            × ((j : Key) → Contents.contents s u j ≡ Contents.contents (c.stripes k) c.slab j))
          (λ s. Stripe.get xxh32 s key)
          (Yields.mono
            (get-contents (elsewhere c.slab v.families k) xxh32 (lent c k) c.slab key
              (running c v k (route-lt xxh32 xxh64 key)))
            λ r u (e, w, same, _, _). (w, (e, same))))
        λ r c' (w, others, _, (e, same)). (
          e,
          w,
          λ j.
              everywhere k c' (λ _ o. o) others same j
              ∙ both (k == route xxh32 xxh64 j) (held xxh32 xxh64 c j),
        )

  -- A change at one key is a change in its stripe only.
  routed :
      (key : Key) (new : Option Value) (j : Key)
      → (if route xxh32 xxh64 key == route xxh32 xxh64 j
          then (if str_eq key j then new else held xxh32 xxh64 c j)
          else held xxh32 xxh64 c j)
        ≡ (if str_eq key j then new else held xxh32 xxh64 c j)
  routed key new j = elim (Bool-cases (str_eq key j)) [
    | inl p ↦
        rw
          (
            p,
            ap (λ i. route xxh32 xxh64 key == route xxh32 xxh64 i) (sym (eq_of_str_eq key j p))
                ∙ ==_self (route xxh32 xxh64 key),
          )
          refl
    | inr p ↦ rw p (both (route xxh32 xxh64 key == route xxh32 xxh64 j) (held xxh32 xxh64 c j))
  ]

  -- A removal never faults and returns whether the cache held the key; it keeps the invariant, and
  -- afterwards the cache holds nothing for the key and for every other key what it held.
  pub remove-held :
      (key : Key)
      → IsCache c
      → Yields
          (λ r c'.
            (r ≡ is_some (held xxh32 xxh64 c key))
            × IsCache c'
            × ((k : Key)
                → held xxh32 xxh64 c' k ≡ (if str_eq key k then none else held xxh32 xxh64 c k)))
          (remove xxh32 xxh64 key c)
  unfolding remove
  remove-held key v =
      let k = route xxh32 xxh64 key in
      Yields.mono
        (on_stripe_lem c v k (route-lt xxh32 xxh64 key)
          (λ r s u.
            (r ≡ is_some (held xxh32 xxh64 c key))
            × ((j : Key)
                → Contents.contents s u j
                  ≡ (if str_eq key j then none else Contents.contents (c.stripes k) c.slab j)))
          (λ s. Stripe.remove s key)
          (Yields.mono
            (remove-contents (elsewhere c.slab v.families k) (lent c k) c.slab key
              (running c v k (route-lt xxh32 xxh64 key)))
            λ r u (e, w, same, _). (w, (e, same))))
        λ r c' (w, others, _, (e, same)). (
          e,
          w,
          λ j.
              everywhere k c' (λ i o. if str_eq key i then none else o) others same j
              ∙ routed key none j,
        )

  -- What `put` leaves: the new value among the old ones, except that at most one key is lost, and
  -- that only in the stripe that the key is routed to.
  pub record Stored (key : Key) (value : Value) (c' : StripedCache) : Type 0 where
    pub cache : IsCache c'
    pub lost : Option Key
    pub kept :
        (k : Key)
        → held xxh32 xxh64 c' k ≡ (
            if route xxh32 xxh64 key == route xxh32 xxh64 k
            then less lost k (if str_eq key k then some value else held xxh32 xxh64 c k)
            else held xxh32 xxh64 c k)

  -- A `put` never faults and its admission loop ends; it returns whether a new entry was made,
  -- which is so exactly if the cache held nothing for the key and the slab had a free slot; it keeps
  -- the invariant, and stores the new value beside the old ones, except that at most one key of the
  -- same stripe, which may be the new one, is lost.
  pub put-held :
      (key : Key) (value : Value)
      → IsCache c
      → Yields
          (λ r c'.
            (r ≡ (if is_some (held xxh32 xxh64 c key) then false else ltb 0 c.slab.free_count))
            × Stored key value c')
          (put xxh32 xxh64 key value c)
  unfolding put
  put-held key value v =
      let k = route xxh32 xxh64 key in
      Yields.mono
        (on_stripe_lem c v k (route-lt xxh32 xxh64 key)
          (λ r s u.
            (r ≡ (if is_some (held xxh32 xxh64 c key) then false else ltb 0 c.slab.free_count))
            × (lost : Option Key) × ((j : Key)
                → Contents.contents s u j
                  ≡ less lost j (
                      if str_eq key j
                      then some value
                      else Contents.contents (c.stripes k) c.slab j)))
          (λ s. Stripe.put xxh32 s key value)
          (Yields.mono
            (put_lem (elsewhere c.slab v.families k) xxh32 (lent c k) c.slab key value
              (running c v k (route-lt xxh32 xxh64 key)))
            λ r u (e, w). (w.stripe, (e, w.lost, w.kept))))
        λ r c' (w, others, _, (e, lost, kept)). (
          e,
          record {
            cache = w;
            lost = lost;
            kept = λ j.
                everywhere k c' (λ i o. less lost i (if str_eq key i then some value else o)) others
                  kept j;
          },
        )
