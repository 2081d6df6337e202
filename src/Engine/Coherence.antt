-- ===== src/Engine/Coherence.antt =====
-- Lookups while the values of both levels are those of the backend.
use walde.Base.{
  ◌≡◌, ℕ, sym, ap, ◌∙◌, subst, Bool, true, false, Option, none, some, inl, inr, Option-cases,
  if◌then◌else◌, str_eq,
}
use walde.Types.{Key, Value}
use walde.Slab.Yields
use walde.Slab.Yields.{Yields, yields}
use walde.Stripe.Remove.{is_some}
use walde.Striped.Methods.{held}
use walde.Backend.{StorageBackend, IsStore}
use walde.Engine.{CacheEngine, get}
use walde.Engine.Levels.{l2_held}
use walde.Engine.Lookup.{IsEngine, or_else, answer, get-answer}

module _ (xxh32 xxh64 : Key → ℕ → ℕ) {S : Type 0} (b : StorageBackend S)
    (stored : S → Key → Option Value) (store : IsStore b stored) where
  -- Each value in a level is the backend's value for its key.
  pub record IsCoherent (e : CacheEngine S) : Type 0 where
    pub first :
        (k : Key) (w : Value) → held xxh32 xxh64 e.l1 k ≡ some w → stored e.backend k ≡ some w
    pub second :
        (k : Key) (w : Value)
        → l2_held xxh32 xxh64 e.l2_stripes k ≡ some w
        → stored e.backend k ≡ some w

  answer-stored :
      (e : CacheEngine S) (key : Key)
      → IsCoherent e
      → answer xxh32 xxh64 b stored store e key ≡ stored e.backend key
  answer-stored e key c =
      let below = l2_held xxh32 xxh64 e.l2_stripes key in
      let last = stored e.backend key in
      elim (Option-cases (held xxh32 xxh64 e.l1 key)) [
        | inr (w, p) ↦ ap (λ o. or_else o (or_else below last)) p ∙ sym (c.first key w p)
        | inl p ↦ ap (λ o. or_else o (or_else below last)) p ∙ elim (Option-cases below) [
          | inr (w, q) ↦ ap (λ o. or_else o last) q ∙ sym (c.second key w q)
          | inl q ↦ ap (λ o. or_else o last) q
        ]
      ]

  of_remaining :
      (c : Bool) (d : Bool) (o : Option Value) (w : Value)
      → (if c then o else if d then none else o) ≡ some w
      → o ≡ some w
  of_remaining true d o w e = e
  of_remaining false true o w e = absurd cc
  of_remaining false false o w e = e

  -- While both levels agree with the backend, a lookup never faults, returns exactly what the backend
  -- stores for the key, and leaves levels that agree with the backend, whose contents do not change.
  pub get-IsCoherent :
      (key : Key) (e : CacheEngine S)
      → IsEngine e
      → IsCoherent e
      → Yields
          (λ r e'.
            (r ≡ stored e.backend key)
            × IsEngine e'
            × IsCoherent e'
            × ((k : Key) → stored e'.backend k ≡ stored e.backend k))
          (get xxh32 xxh64 b key e)
  get-IsCoherent key e v c =
      Yields.mono (get-answer xxh32 xxh64 b stored store key e v) λ r e' (p, l). (
        p ∙ answer-stored e key c,
        l.valid,
        record {
          first = λ k w q. l.backend k ∙ elim (l.brought k w q) [
            | inl old ↦ c.first k w old
            | inr (same, new) ↦
                subst (λ j. stored e.backend j ≡ some w) same
                  (sym (answer-stored e key c) ∙ sym p ∙ new)
          ];
          second = λ k w q.
              l.backend k
              ∙ c.second k w (
                  of_remaining (is_some (held xxh32 xxh64 e.l1 key)) (str_eq key k)
                    (l2_held xxh32 xxh64 e.l2_stripes k) w (sym (l.second k) ∙ q));
        },
        l.backend,
      )
