-- ===== src/Stripe/Write.antt =====
-- `CacheStripe::put` on all its branches: a resident key, a new key, a slab without a free slot.
use walde.Base.{
  ℕ, ◌≡◌, refl, sym, ap, ◌∙◌, subst, Bool, false, Option, none, some, arith, str_eq, eq_of_str_eq,
  if◌then◌else◌, ltb, lt_of_ltb, le_of_ltb, inl, inr, Bool-cases,
}
use walde.Types.{Key, Value}
use walde.Slab.{Slab}
use walde.Slab.Yields
use walde.Slab.Yields.{Yields, yields}
use walde.Stripe.{CacheStripe, put}
use walde.Stripe.Lists.{Outside}
use walde.Stripe.Contents.{IsStripe, contents, value_at}
use walde.Stripe.Remove.{is_some}
use walde.Stripe.Overwrite.{put-overwrite}
use walde.Stripe.Admit.{less}
use walde.Queue.{DemotionQueue}
use walde.Stripe.Fed.{Fed, unfed}
use walde.Stripe.Put.{put-insert, put-full}

-- The invariant holds, and the new value is stored among the old ones, except that at most one key
-- is lost.
pub record Written (out : Outside) (s : CacheStripe) (t : Slab) (key : Key) (value : Value)
    (s' : CacheStripe) (u : Slab) : Type 0 where
  pub stripe : IsStripe out s' u
  pub lost : Option Key
  pub kept :
      (k : Key)
      → contents s' u k ≡ less lost k (if str_eq key k then some value else contents s t k)
  pub fed :
      Fed
        (λ k. if str_eq key k then some value else contents s t k)
        s.demotion_queue
        s'.demotion_queue

module _ (out : Outside) (xxh32 : Key → ℕ → ℕ) (s : CacheStripe) (t : Slab) (key : Key)
    (value : Value) where
  -- A key that nothing was stored for is lost.
  not_stored :
      s.index_map key ≡ none
      → (k : Key)
      → contents s t k ≡ less (some key) k (if str_eq key k then some value else contents s t k)
  not_stored e k = elim (Bool-cases (str_eq key k)) [
    | inl p ↦
        rw p (ap (λ j. value_at t (s.index_map j)) (sym (eq_of_str_eq key k p)) ∙ ap (value_at t) e)
    | inr p ↦ rw p refl
  ]

  same :
      {q : Option DemotionQueue} {f : Key → Option Value}
      → q ≡ s.demotion_queue
      → Fed f s.demotion_queue q
  same {f} e = subst (Fed f s.demotion_queue) (sym e) unfed

  -- What `put` returns: whether a new entry was made.
  abbrev pub makes_entry : Bool
  makes_entry = if is_some (contents s t key) then false else ltb 0 t.free_count

  put_at :
      (o : Option ℕ)
      → s.index_map key ≡ o
      → IsStripe out s t
      → Yields
          (λ r u.
            (r.0 ≡ (if is_some (value_at t o) then false else ltb 0 t.free_count))
            × Written out s t key value r.1 u)
          (put xxh32 s key value t)
  put_at (some i) e v =
      Yields.mono (put-overwrite out xxh32 s t key value i v e)
        λ r u (b, w, k, q). (b, record { stripe = w; lost = none; kept = k; fed = same q })
  put_at none e v = elim (Bool-cases (ltb 0 t.free_count)) [
    | inl p ↦ rw p (
        Yields.mono (put-insert out xxh32 s t key value v e (lt_of_ltb 0 _ p)) λ r u (b, w).
          (b, record { stripe = w.stripe; lost = w.lost; kept = w.kept; fed = w.fed }))
    | inr p ↦ rw p (
        Yields.mono (put-full out xxh32 s t key value v e (let h = le_of_ltb 0 _ p in omega arith))
          λ r u (b, w, k, q). (
            b,
            record { stripe = w; lost = some key; kept = λ j. k j ∙ not_stored e j; fed = same q },
          ))
  ]

  -- `put` on every branch.
  pub put_lem :
      IsStripe out s t
      → Yields
          (λ r u. (r.0 ≡ makes_entry) × Written out s t key value r.1 u)
          (put xxh32 s key value t)
  put_lem v = put_at (s.index_map key) refl v
