-- ===== src/Stripe/Get.antt =====
-- `CacheStripe::get`.
use walde.Base.{ℕ, ◌≡◌, refl, sym, ap, ◌∙◌, Option, none, some}
use walde.Base.Arith.{add64}
use walde.Types.{Key, Value}
use walde.Slab.{Slab, ◌>>=◌}
use walde.Slab.Yields
use walde.Slab.Yields.{Yields, yields, along}
use walde.Lru.Steps.{node_lem}
use walde.Sketch.{increment}
use walde.Stripe.Lists.{Outside}
use walde.Stripe.{CacheStripe, get}
use walde.Stripe.Contents.{IsStripe-objects, IsStripe, contents, value_at, found-lt, touch-IsStripe}

-- How a lookup is counted.
abbrev pub Counted : Option Value → CacheStripe → CacheStripe → Type 0
Counted none s s' = (s'.hits ≡ s.hits) × (s'.misses ≡ add64 s.misses 1)
Counted (some _) s s' = (s'.hits ≡ add64 s.hits 1) × (s'.misses ≡ s.misses)

module _ (out : Outside) (xxh32 : Key → ℕ → ℕ) (s : CacheStripe) (t : Slab) (key : Key) where
  GetDone : Option Value × CacheStripe → Slab → Type 0
  GetDone r u =
      (r.0 ≡ contents s t key)
      × IsStripe out r.1 u
      × ((k : Key) → contents r.1 u k ≡ contents s t k)
      × Counted r.0 s r.1
      × (r.1.demotion_queue ≡ s.demotion_queue)

  get_at :
      (o : Option ℕ) → s.index_map key ≡ o → IsStripe out s t → Yields GetDone (get xxh32 s key t)
  unfolding get GetDone
  get_at none e v =
      rw (get, e)
        (yields (
          ap (value_at t) (sym e),
          IsStripe-objects s.hits (add64 s.misses 1) s.ops_since_decay s.cms v,
          (λ k. refl),
          (refl, refl),
          refl,
        ))
  get_at (some i) e v =
      let v' = IsStripe-objects s.hits s.misses s.ops_since_decay (increment xxh32 key s.cms) v in
      rw (get, e, node_lem i t (found-lt v key i e), ◌>>=◌)
        (Yields.bind (touch-IsStripe key i v' e) λ s' u (w, same, object, cap).
          let e' = ap (λ z. z.index_map key) object ∙ e in
          rw (node_lem i u (rw cap (found-lt v key i e)), ◌>>=◌)
            (yields (
              ap (value_at u) (sym e') ∙ same key,
              IsStripe-objects (add64 s'.hits 1) s'.misses s'.ops_since_decay s'.cms w,
              same,
              (ap (λ z. add64 z.hits 1) object, ap (λ z. z.misses) object),
              ap (λ z. z.demotion_queue) object,
            )))

  -- A lookup that respects the invariant returns the value that is stored for the key, or nothing
  -- if there is none; it keeps the invariant, the value stored for every key and the demotion
  -- queue, and counts a hit or a miss.
  pub get-contents :
      IsStripe out s t
      → Yields
          (λ r u.
            (r.0 ≡ contents s t key)
            × IsStripe out r.1 u
            × ((k : Key) → contents r.1 u k ≡ contents s t k)
            × Counted r.0 s r.1
            × (r.1.demotion_queue ≡ s.demotion_queue))
          (get xxh32 s key t)
  unfolding GetDone
  get-contents v = get_at (s.index_map key) refl v
