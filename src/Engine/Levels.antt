-- ===== src/Engine/Levels.antt =====
-- The second level over all its stripes, as a map from keys to values.
use walde.Base.{
  ℕ, ◌<◌, ◌≡◌, refl, sym, ap, ◌∙◌, Option, none, some, arith, inl, inr, Bool-cases, ◌==◌, eq_of_==,
  ==_self, update, if◌then◌else◌, str_eq, eq_of_str_eq,
}
use walde.Types.{Key, Value}
use walde.Slab.Yields
use walde.Slab.Yields.{Yields, yields}
use walde.L2.{L2Stripe}
use walde.L2.Recency.{lookup, without}
use walde.L2.Stripes.{IsL2, recent, get_in-lookup, remove_in-without}
use walde.L2.Once.{IsL2-Once, lookup-without}
use walde.Engine.{num_l2_stripes, L2Stripes, get_l2_stripe_index, l2_get, l2_remove}

abbrev pub IsLevel : ℕ → L2Stripes → Type 0
IsLevel capacity l2 = (i : ℕ) → i < num_l2_stripes → IsL2 capacity (l2 i)

pub update-IsLevel :
    (capacity : ℕ) (l2 : L2Stripes) (i : ℕ) (s : L2Stripe)
    → IsLevel capacity l2
    → IsL2 capacity s
    → IsLevel capacity (update l2 i s)
update-IsLevel capacity l2 i s v w j h = elim (Bool-cases (i == j)) [
  | inl e ↦ rw e w
  | inr e ↦ rw e (v j h)
]

module _ (xxh32 xxh64 : Key → ℕ → ℕ) where
  pub l2_index-lt : (key : Key) → get_l2_stripe_index xxh32 xxh64 key < num_l2_stripes
  unfolding get_l2_stripe_index
  l2_index-lt key = omega arith

  -- The value that the second level holds for a key.
  abbrev pub l2_held : L2Stripes → Key → Option Value
  l2_held l2 key = lookup key (recent (l2 (get_l2_stripe_index xxh32 xxh64 key)))

  module _ (capacity : ℕ) (l2 : L2Stripes) (v : IsLevel capacity l2) (key : Key) where
    -- An entry taken out of its stripe is gone, and every other key keeps its entry.
    taken :
        (s : L2Stripe) (k : Key)
        → recent s ≡ without key (recent (l2 (get_l2_stripe_index xxh32 xxh64 key)))
        → l2_held (update l2 (get_l2_stripe_index xxh32 xxh64 key) s) k
          ≡ (if str_eq key k then none else l2_held l2 k)
    taken s k e =
        let i = get_l2_stripe_index xxh32 xxh64 key in
        let j = get_l2_stripe_index xxh32 xxh64 k in
        let here =
          ap (lookup k) e
          ∙ lookup-without key k (recent (l2 i)) (IsL2-Once (v i (l2_index-lt key))) in
        elim (Bool-cases (i == j)) [
          | inl p ↦ rw p (
              here
              ∙ ap (λ n. if str_eq key k then none else lookup k (recent (l2 n))) (eq_of_== i j p))
          | inr p ↦ elim (Bool-cases (str_eq key k)) [
            | inl q ↦
                let w =
                  ap (λ z. i == get_l2_stripe_index xxh32 xxh64 z) (sym (eq_of_str_eq key k q))
                  ∙ ==_self i in
                absurd cc
            | inr q ↦ rw (p, q) refl
          ]
        ]

    pub l2_get_lem :
        Yields
          (λ r l2'.
            (r ≡ l2_held l2 key)
            × IsLevel capacity l2'
            × ((k : Key) → l2_held l2' k ≡ (if str_eq key k then none else l2_held l2 k)))
          (l2_get xxh32 xxh64 key l2)
    unfolding l2_get
    l2_get_lem =
        let i = get_l2_stripe_index xxh32 xxh64 key in
        let (r, s, e, (p, q, w)) = Yields.outcome (get_in-lookup (v i (l2_index-lt key)) key) in
        rw (l2_get, e) (yields (p, update-IsLevel capacity l2 i s v w, λ k. taken s k q))

    pub l2_remove_lem :
        (l2' : L2Stripes) × (l2_remove xxh32 xxh64 key l2 ≡ some l2')
        × IsLevel capacity l2'
        × ((k : Key) → l2_held l2' k ≡ (if str_eq key k then none else l2_held l2 k))
    unfolding l2_remove
    l2_remove_lem =
        let i = get_l2_stripe_index xxh32 xxh64 key in
        let (s, e, q, w) = remove_in-without (v i (l2_index-lt key)) key in
        (
          update l2 i s,
          rw (l2_remove, e) refl,
          update-IsLevel capacity l2 i s v w,
          λ k. taken s k q,
        )
