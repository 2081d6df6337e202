-- ===== src/Striped/Kept.antt =====
-- A relation between keys and values that holds for every entry of the cache and of its demotion
-- queue, through the methods of `StripedCache`.
use walde.Base.{
  ℕ, ◌<◌, ◌≡◌, sym, ap, ◌∙◌, subst, Bool, true, false, Option, none, some, inl, inr, Bool-cases,
  ◌==◌, eq_of_==, ne_of_==, if◌then◌else◌, str_eq, eq_of_str_eq, ◌⊎◌, ◌≢◌,
}
use walde.Types.{Key, Value, num_stripes}
use walde.Slab.Yields
use walde.Slab.Yields.{Yields, yields}
use walde.Queue.{DemotionQueue}
use walde.Queue.Kept.{QueueHolds, try_push-QueueHolds}
use walde.Stripe
use walde.Stripe.Contents
use walde.Stripe.Admit.{less}
use walde.Stripe.Get.{get-contents}
use walde.Stripe.Remove.{remove-contents}
use walde.Stripe.Write.{put_lem}
use walde.Stripe.Fed.{Fed, unfed, fed}
use walde.Striped.{StripedCache, lent, route, get, put, remove}
use walde.Striped.Invariant.{elsewhere, IsCache, running}
use walde.Striped.Methods.{on_stripe_lem, route-lt, held}

abbrev pub MaybeHolds : (Key → Value → Type 0) → Option DemotionQueue → Type 0
MaybeHolds Ok none = Unit
MaybeHolds Ok (some q) = QueueHolds Ok q

-- Pushes of entries that are `Ok`.
pub Fed-MaybeHolds :
    {Ok : Key → Value → Type 0} {f : Key → Option Value} {q r : Option DemotionQueue}
    → ((k : Key) (w : Value) → f k ≡ some w → Ok k w)
    → Fed f q r
    → MaybeHolds Ok q
    → MaybeHolds Ok r
Fed-MaybeHolds h unfed v = v
Fed-MaybeHolds h (fed item b e) v =
    try_push-QueueHolds (Fed-MaybeHolds h b v) item (h item.key item.value e)

-- Every entry of every stripe and every item of the demotion queue is `Ok`.
pub record Keeps (Ok : Key → Value → Type 0) (c : StripedCache) : Type 0 where
  pub entries :
      (j : ℕ)
      → j < num_stripes
      → (k : Key) (w : Value) → Contents.contents (c.stripes j) c.slab k ≡ some w
      → Ok k w
  pub queue : MaybeHolds Ok c.demotion_queue

-- A value that is left after a loss was there before it.
pub of_less :
    (lost : Option Key) (k : Key) (o : Option Value) (w : Value)
    → less lost k o ≡ some w
    → o ≡ some w
of_less none k o w e = e
of_less (some j) k o w e = elim (Bool-cases (str_eq j k)) [
  | inl p ↦ absurd (let q = ap (λ b. if b then none else o) p in cc)
  | inr p ↦ sym (ap (λ b. if b then none else o) p) ∙ e
]

-- What `put` leaves in the first level, where a key may be lost in the key's stripe.
pub of_stored :
    (same_stripe : Bool) (lost : Option Key) (key k : Key) (value w : Value) (o : Option Value)
    → (if same_stripe then less lost k (if str_eq key k then some value else o) else o) ≡ some w
    → (o ≡ some w) ⊎ ((key ≡ k) × (some value ≡ some w))
of_stored false lost key k value w o e = inl e
of_stored true lost key k value w o e =
    let f = of_less lost k (if str_eq key k then some value else o) w e in
    elim (Bool-cases (str_eq key k)) [
      | inl p ↦ inr (eq_of_str_eq key k p, sym (ap (λ b. if b then some value else o) p) ∙ f)
      | inr p ↦ inl (sym (ap (λ b. if b then some value else o) p) ∙ f)
    ]

module _ (Ok : Key → Value → Type 0) (xxh32 xxh64 : Key → ℕ → ℕ) (c : StripedCache)
    (key : Key) where
  -- What is left of the cache after stripe `k` has run.
  Keeps-after :
      (k : ℕ) (c' : StripedCache)
      → Keeps Ok c
      → ((j : ℕ)
          → j < num_stripes
          → j ≢ k
          → (i : Key)
          → Contents.contents (c'.stripes j) c'.slab i ≡ Contents.contents (c.stripes j) c.slab i)
      → ((i : Key) (w : Value) → Contents.contents (c'.stripes k) c'.slab i ≡ some w → Ok i w)
      → MaybeHolds Ok c'.demotion_queue
      → Keeps Ok c'
  Keeps-after k c' v others here q = record {
    entries = λ j l i w e. elim (Bool-cases (k == j)) [
      | inl p ↦ here i w (
          subst (λ n. Contents.contents (c'.stripes n) c'.slab i ≡ some w) (sym (eq_of_== k j p)) e)
      | inr p ↦ v.entries j l i w (sym (others j l (λ r. ne_of_== k j p (sym r)) i) ∙ e)
    ];
    queue = q;
  }

  abbrev at : ℕ
  at = route xxh32 xxh64 key

  -- A value that the cache holds for a key is `Ok`.
  pub Keeps-held : (w : Value) → Keeps Ok c → held xxh32 xxh64 c key ≡ some w → Ok key w
  Keeps-held w v e = v.entries at (route-lt xxh32 xxh64 key) key w e

  -- A lookup adds nothing.
  pub get-Keeps : IsCache c → Keeps Ok c → Yields (λ r c'. Keeps Ok c') (get xxh32 xxh64 key c)
  unfolding get
  get-Keeps v w =
      Yields.mono
        (on_stripe_lem c v at (route-lt xxh32 xxh64 key)
          (λ r s u.
            ((j : Key) → Contents.contents s u j ≡ Contents.contents (c.stripes at) c.slab j)
            × (s.demotion_queue ≡ c.demotion_queue))
          (λ s. Stripe.get xxh32 s key)
          (Yields.mono
            (get-contents (elsewhere c.slab v.families at) xxh32 (lent c at) c.slab key
              (running c v at (route-lt xxh32 xxh64 key)))
            λ r u (_, x, same, _, q). (x, (same, q))))
        λ r c' (_, others, back, (same, q)).
          Keeps-after at c' w others
            (λ i x e. w.entries at (route-lt xxh32 xxh64 key) i x (sym (same i) ∙ e))
            (subst (MaybeHolds Ok) (sym (back ∙ q)) w.queue)

  -- A removal adds nothing.
  pub remove-Keeps :
      IsCache c → Keeps Ok c → Yields (λ r c'. Keeps Ok c') (remove xxh32 xxh64 key c)
  unfolding remove
  remove-Keeps v w =
      Yields.mono
        (on_stripe_lem c v at (route-lt xxh32 xxh64 key)
          (λ r s u.
            ((j : Key)
              → Contents.contents s u j
                ≡ (if str_eq key j then none else Contents.contents (c.stripes at) c.slab j))
            × (s.demotion_queue ≡ c.demotion_queue))
          (λ s. Stripe.remove s key)
          (Yields.mono
            (remove-contents (elsewhere c.slab v.families at) (lent c at) c.slab key
              (running c v at (route-lt xxh32 xxh64 key)))
            λ r u (_, x, same, q). (x, (same, q))))
        λ r c' (_, others, back, (same, q)).
          Keeps-after at c' w others
            (λ i x e.
              w.entries at (route-lt xxh32 xxh64 key) i x
                (of_remaining (str_eq key i) _ x (sym (same i) ∙ e)))
            (subst (MaybeHolds Ok) (sym (back ∙ q)) w.queue)
    where
      of_remaining :
          (d : Bool) (o : Option Value) (x : Value) → (if d then none else o) ≡ some x → o ≡ some x
      of_remaining true o x e = absurd cc
      of_remaining false o x e = e

  -- A `put` of an entry that is `Ok` adds that entry to the cache, and to the demotion queue none but
  -- entries of the cache.
  pub put-Keeps :
      (value : Value)
      → IsCache c
      → Keeps Ok c
      → Ok key value
      → Yields (λ r c'. Keeps Ok c') (put xxh32 xxh64 key value c)
  unfolding put
  put-Keeps value v w ok =
      Yields.mono
        (on_stripe_lem c v at (route-lt xxh32 xxh64 key)
          (λ r s u.
            ((lost : Option Key) × ((j : Key)
                → Contents.contents s u j
                  ≡ less lost j (
                      if str_eq key j
                      then some value
                      else Contents.contents (c.stripes at) c.slab j)))
            × Fed
                (λ j.
                  if str_eq key j then some value else Contents.contents (c.stripes at) c.slab j)
                c.demotion_queue s.demotion_queue)
          (λ s. Stripe.put xxh32 s key value)
          (Yields.mono
            (put_lem (elsewhere c.slab v.families at) xxh32 (lent c at) c.slab key value
              (running c v at (route-lt xxh32 xxh64 key)))
            λ r u (_, x). (x.stripe, ((x.lost, x.kept), x.fed))))
        λ r c' (_, others, back, ((lost, kept), q)).
          Keeps-after at c' w others (λ i x e. written lost i x (sym (kept i) ∙ e))
            (subst (MaybeHolds Ok) (sym back) (Fed-MaybeHolds (written none) q w.queue))
    where
      written :
          (lost : Option Key) (i : Key) (x : Value)
          → less lost i
              (if str_eq key i then some value else Contents.contents (c.stripes at) c.slab i)
            ≡ some x
          → Ok i x
      written lost i x e = elim (of_stored true lost key i value x _ e) [
        | inl p ↦ w.entries at (route-lt xxh32 xxh64 key) i x p
        | inr (p, q) ↦
            let z : value ≡ x = cc in subst (λ y. Ok i y) z (subst (λ j. Ok j value) p ok)
      ]
