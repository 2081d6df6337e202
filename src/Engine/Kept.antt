-- ===== src/Engine/Kept.antt =====
-- A relation between keys and values that holds for every entry of the two levels, of the demotion
-- queue and of the backend.
use walde.Base.{
  ℕ, ◌≡◌, ◌⊎◌, sym, ap, ◌∙◌, subst, Option, none, some, [], ◌∷◌, inl, inr, Bool-cases, ◌==◌,
  if◌then◌else◌, length, leb, str_eq, eq_of_str_eq,
}
use walde.Types.{Key, Value}
use walde.Queue.{DemotionItem, DemotionQueue, try_pop_batch}
use walde.Queue.Kept.{AllItems, try_pop_batch-QueueHolds}
use walde.Stripe.Remove.{is_some}
use walde.Striped.{set_demotion_queue}
use walde.Striped.Kept.{Keeps, MaybeHolds}
use walde.L2.Recency.{Entries, lookup, without, drop_oldest, insert_latest}
use walde.L2.Stripes.{recent}
use walde.L2.Once.{Once, IsL2-Once, lookup-without}
use walde.Engine.{CacheEngine, L2Stripes, get_l2_stripe_index, l2_put}
use walde.Engine.Levels.{l2_held, l2_index-lt}
use walde.Engine.Lookup.{IsEngine}
use walde.Engine.Init.{IsCache-queue}
use walde.Engine.Batch.{l2_put_lem}

drop_oldest-lookup :
    (k : Key) (w : Value) (es : Entries) → lookup k (drop_oldest es) ≡ some w → lookup k es ≡ some w
drop_oldest-lookup k w [] e = e
drop_oldest-lookup k w (x ∷ []) e = absurd cc
drop_oldest-lookup k w ((j, v) ∷ f ∷ es) e = elim (Bool-cases (str_eq k j)) [
  | inl p ↦ rw p (sym (ap (λ b. if b then some v else lookup k (drop_oldest (f ∷ es))) p) ∙ e)
  | inr p ↦ rw p (
      drop_oldest-lookup k w (f ∷ es)
        (sym (ap (λ b. if b then some v else lookup k (drop_oldest (f ∷ es))) p) ∙ e))
]

without-lookup :
    (key k : Key) (w : Value) (es : Entries)
    → Once es
    → lookup k (without key es) ≡ some w
    → lookup k es ≡ some w
without-lookup key k w es o e =
    let q = sym (lookup-without key k es o) ∙ e in
    elim (Bool-cases (str_eq key k)) [
      | inl p ↦ absurd (let r = sym (ap (λ b. if b then none else lookup k es) p) ∙ q in cc)
      | inr p ↦ sym (ap (λ b. if b then none else lookup k es) p) ∙ q
    ]

-- An entry after an insertion is the new one or an old one.
insert_latest-lookup :
    (capacity : ℕ) (key k : Key) (v w : Value) (es : Entries)
    → Once es
    → lookup k (insert_latest capacity key v es) ≡ some w
    → (lookup k es ≡ some w) ⊎ ((key ≡ k) × (v ≡ w))
unfolding insert_latest
insert_latest-lookup capacity key k v w es o = elim (Bool-cases (is_some (lookup key es))) [
  | inl p ↦ rw p (in_front (without key es) (without-lookup key k w es o))
  | inr p ↦ elim (Bool-cases (leb capacity (length es))) [
    | inl q ↦ rw (p, q) (in_front (drop_oldest es) (drop_oldest-lookup k w es))
    | inr q ↦ rw (p, q) (in_front es (λ e. e))
  ]
]
  where
    in_front :
        (fs : Entries)
        → (lookup k fs ≡ some w → lookup k es ≡ some w)
        → (if str_eq k key then some v else lookup k fs) ≡ some w
        → (lookup k es ≡ some w) ⊎ ((key ≡ k) × (v ≡ w))
    in_front fs h e = elim (Bool-cases (str_eq k key)) [
      | inl p ↦
          let q = sym (ap (λ b. if b then some v else lookup k fs) p) ∙ e in
          inr (sym (eq_of_str_eq k key p), cc)
      | inr p ↦ inl (h (sym (ap (λ b. if b then some v else lookup k fs) p) ∙ e))
    ]

module _ (Ok : Key → Value → Type 0) (xxh32 xxh64 : Key → ℕ → ℕ) {S : Type 0}
    (stored : S → Key → Option Value) where
  -- The invariant of the engine, and every entry of its parts is `Ok`.
  pub record EngineKeeps (e : CacheEngine S) : Type 0 where
    pub valid : IsEngine e
    pub first : Keeps Ok e.l1
    pub second : (k : Key) (w : Value) → l2_held xxh32 xxh64 e.l2_stripes k ≡ some w → Ok k w
    pub below : (k : Key) (w : Value) → stored e.backend k ≡ some w → Ok k w

  module _ (e : CacheEngine S) (v : EngineKeeps e) where
    -- The drainer takes a batch.
    pub pop-EngineKeeps :
        (q : DemotionQueue)
        → e.l1.demotion_queue ≡ some q
        → AllItems Ok (try_pop_batch q [] 64).1
          × EngineKeeps (record e { l1 = set_demotion_queue (some (try_pop_batch q [] 64).2) e.l1 })
    pop-EngineKeeps q p =
        let (batch, rest) = try_pop_batch-QueueHolds (subst (MaybeHolds Ok) p v.first.queue) 64 in
        (
          batch,
          record {
            valid = record {
              l1 = IsCache-queue e.l1 (some (try_pop_batch q [] 64).2) v.valid.l1;
              l2 = v.valid.l2;
              room = v.valid.room;
            };
            first = record { entries = v.first.entries; queue = rest };
            second = v.second;
            below = v.below;
          },
        )

    -- The drainer inserts an item, which never faults.
    pub l2_put-EngineKeeps :
        (item : DemotionItem)
        → Ok item.key item.value
        → (l2 : L2Stripes) × (l2_put xxh32 xxh64 e.l2_capacity_per_stripe item e.l2_stripes
            ≡ some l2)
          × EngineKeeps (record e { l2_stripes = l2 })
    l2_put-EngineKeeps item ok =
        let (l2, p, w, q) =
          l2_put_lem xxh32 xxh64 e.l2_capacity_per_stripe item e.l2_stripes v.valid.room
            v.valid.l2 in
        (
          l2,
          p,
          record {
            valid = record { l1 = v.valid.l1; l2 = w; room = v.valid.room };
            first = v.first;
            second = λ k x f.
                inserted k x (sym (ap (lookup k) (q (get_l2_stripe_index xxh32 xxh64 k))) ∙ f);
            below = v.below;
          },
        )
      where
        inserted :
            (k : Key) (x : Value)
            → lookup k (
                if get_l2_stripe_index xxh32 xxh64 item.key == get_l2_stripe_index xxh32 xxh64 k
                then insert_latest e.l2_capacity_per_stripe item.key item.value
                    (recent (e.l2_stripes (get_l2_stripe_index xxh32 xxh64 k)))
                else recent (e.l2_stripes (get_l2_stripe_index xxh32 xxh64 k)))
              ≡ some x
            → Ok k x
        inserted k x =
            let j = get_l2_stripe_index xxh32 xxh64 k in
            elim (Bool-cases (get_l2_stripe_index xxh32 xxh64 item.key == j)) [
              | inl p ↦ rw p λ f.
                  elim (insert_latest-lookup e.l2_capacity_per_stripe item.key k item.value x
                    (recent (e.l2_stripes j)) (IsL2-Once (v.valid.l2 j (l2_index-lt xxh32 xxh64 k)))
                    f) [
                      | inl old ↦ v.second k x old
                      | inr (same, new) ↦
                          subst (λ z. Ok k z) new (subst (λ z. Ok z item.value) same ok)
                    ]
              | inr p ↦ rw p λ f. v.second k x f
            ]
