-- ===== src/Engine/Batch.antt =====
-- `l2_put_batch`: each stripe of the second level takes its items in order.
use walde.Base.{
  ℕ, ◌<◌, ◌≡◌, refl, sym, ap, ◌∙◌, none, some, List, [], ◌∷◌, ◌++◌, inl, inr, Bool-cases,
  Option-cases, ◌==◌, eq_of_==, if◌then◌else◌, update,
}
use walde.Types.{Key}
use walde.Queue.{DemotionItem}
use walde.L2.Recency.{Entries, insert_latest}
use walde.L2.Stripes.{recent}
use walde.L2.Insert.{put_in-latest}
use walde.Engine.{L2Stripes, get_l2_stripe_index, l2_put, l2_put_batch}
use walde.Engine.Levels.{IsLevel, l2_index-lt, update-IsLevel}

module _ (xxh32 xxh64 : Key → ℕ → ℕ) (capacity : ℕ) where
  -- The items of a batch that belong to stripe `i`, inserted in order.
  pub absorb : ℕ → List DemotionItem → Entries → Entries
  absorb i [] es = es
  absorb i (item ∷ items) es = absorb i items (
      if get_l2_stripe_index xxh32 xxh64 item.key == i
      then insert_latest capacity item.key item.value es
      else es)

  -- The second level after one item.
  pub l2_put_lem :
      (item : DemotionItem) (l2 : L2Stripes)
      → 0 < capacity
      → IsLevel capacity l2
      → (l2' : L2Stripes) × (l2_put xxh32 xxh64 capacity item l2 ≡ some l2')
        × IsLevel capacity l2'
        × ((i : ℕ)
            → recent (l2' i) ≡ (
                if get_l2_stripe_index xxh32 xxh64 item.key == i
                then insert_latest capacity item.key item.value (recent (l2 i))
                else recent (l2 i)))
  unfolding l2_put
  l2_put_lem item l2 room v =
      let j = get_l2_stripe_index xxh32 xxh64 item.key in
      let (s, e, q, w) = put_in-latest (v j (l2_index-lt xxh32 xxh64 item.key)) item room in
      (
        update l2 j s,
        rw (l2_put, e) refl,
        update-IsLevel capacity l2 j s v w,
        λ i. elim (Bool-cases (j == i)) [
          | inl p ↦ rw p (
              q
              ∙ ap (λ n. insert_latest capacity item.key item.value (recent (l2 n)))
                  (eq_of_== j i p))
          | inr p ↦ rw p refl
        ],
      )

  -- A batch never faults and keeps the invariant of every stripe; afterwards each stripe holds its
  -- former entries with the items of the batch that belong to it inserted one after the other.
  pub l2_put_batch-absorb :
      (items : List DemotionItem) (l2 : L2Stripes)
      → 0 < capacity
      → IsLevel capacity l2
      → (l2' : L2Stripes) × (l2_put_batch xxh32 xxh64 capacity items l2 ≡ some l2')
        × IsLevel capacity l2'
        × ((i : ℕ) → recent (l2' i) ≡ absorb i items (recent (l2 i)))
  unfolding l2_put_batch absorb
  l2_put_batch-absorb [] l2 room v = (l2, refl, v, λ i. refl)
  l2_put_batch-absorb (item ∷ items) l2 room v =
      let (m, e, w, p) = l2_put_lem item l2 room v in
      let (l2', f, u, q) = l2_put_batch-absorb items m room w in
      (l2', rw (l2_put_batch, e) f, u, λ i. q i ∙ ap (absorb i items) (p i))

  -- Two batches in a row are one batch.
  pub l2_put_batch-append :
      (xs ys : List DemotionItem) (l2 m : L2Stripes)
      → l2_put_batch xxh32 xxh64 capacity xs l2 ≡ some m
      → l2_put_batch xxh32 xxh64 capacity (xs ++ ys) l2 ≡ l2_put_batch xxh32 xxh64 capacity ys m
  unfolding l2_put_batch
  l2_put_batch-append [] ys l2 m e =
      ap (λ z. elim z [ none ↦ none | some n ↦ l2_put_batch xxh32 xxh64 capacity ys n ]) e
  l2_put_batch-append (item ∷ xs) ys l2 m e =
      elim (Option-cases (l2_put xxh32 xxh64 capacity item l2)) [
        | inl p ↦ absurd (let q = stops item xs l2 p in cc)
        | inr (n, p) ↦
            goes item (xs ++ ys) l2 n p
            ∙ l2_put_batch-append xs ys n m (sym (goes item xs l2 n p) ∙ e)
      ]
    where
      stops :
          (item : DemotionItem) (xs : List DemotionItem) (l2 : L2Stripes)
          → l2_put xxh32 xxh64 capacity item l2 ≡ none
          → l2_put_batch xxh32 xxh64 capacity (item ∷ xs) l2 ≡ none
      stops item xs l2 p = rw (l2_put_batch, p) refl

      goes :
          (item : DemotionItem) (xs : List DemotionItem) (l2 n : L2Stripes)
          → l2_put xxh32 xxh64 capacity item l2 ≡ some n
          → l2_put_batch xxh32 xxh64 capacity (item ∷ xs) l2
            ≡ l2_put_batch xxh32 xxh64 capacity xs n
      goes item xs l2 n p = rw (l2_put_batch, p) refl
