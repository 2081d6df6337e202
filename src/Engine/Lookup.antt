-- ===== src/Engine/Lookup.antt =====
-- `CacheEngine::get` against the order of its three sources, and what it leaves in each of them.
use walde.Base.{
  ℕ, ◌<◌, ◌≡◌, ◌⊎◌, refl, sym, ap, ◌∙◌, subst, Option, none, some, inl, inr, if◌then◌else◌, str_eq,
}
use walde.Types.{Key, Value}
use walde.Slab.{and_then}
use walde.Slab.Yields
use walde.Slab.Yields.{Yields, yields}
use walde.Stripe.Remove.{is_some}
use walde.Striped.{StripedCache}
use walde.Striped.Invariant.{IsCache}
use walde.Striped.Kept.{of_stored}
use walde.Striped.Methods.{held, get-held, put-held}
use walde.Backend.{StorageBackend, IsStore}
use walde.Engine.{
  CacheEngine, L2Stripes, Call, with_l1, with_l2, rescue, from_backend, from_l2, from_l1, get,
}
use walde.Engine.Levels.{IsLevel, l2_held, l2_get_lem}

-- The invariant of the engine.
pub record IsEngine {S : Type 0} (e : CacheEngine S) : Type 0 where
  pub l1 : IsCache e.l1
  pub l2 : IsLevel e.l2_capacity_per_stripe e.l2_stripes
  pub room : 0 < e.l2_capacity_per_stripe

abbrev pub or_else : Option Value → Option Value → Option Value
or_else (some v) o = some v
or_else none o = o

-- A value is a value of before, or the one brought in for `key`.
abbrev pub Brought : Key → Option Value → (Key → Option Value) → (Key → Option Value) → Type 0
Brought key r old new =
    (k : Key) (w : Value) → new k ≡ some w → (old k ≡ some w) ⊎ ((key ≡ k) × (r ≡ some w))

-- An operation of the first level and then the rest of a call.
pub l1_bind :
    {S A B : Type 0} {P : A → StripedCache → Type 0} {Q : B → CacheEngine S → Type 0}
    (e : CacheEngine S) {r : Option (A × StripedCache)} (k : A → Call S B)
    → Yields P r
    → ((a : A) (l1 : StripedCache) → P a l1 → Yields Q (k a (record e { l1 = l1 })))
    → Yields Q (and_then (with_l1 e r) k)
l1_bind e k (yields {a} {s} p) next = next a s p

-- The same for the second level.
pub l2_bind :
    {S A B : Type 0} {P : A → L2Stripes → Type 0} {Q : B → CacheEngine S → Type 0}
    (e : CacheEngine S) {r : Option (A × L2Stripes)} (k : A → Call S B)
    → Yields P r
    → ((a : A) (l2 : L2Stripes) → P a l2 → Yields Q (k a (record e { l2_stripes = l2 })))
    → Yields Q (and_then (with_l2 e r) k)
l2_bind e k (yields {a} {s} p) next = next a s p

module _ (xxh32 xxh64 : Key → ℕ → ℕ) {S : Type 0} (b : StorageBackend S)
    (stored : S → Key → Option Value) (store : IsStore b stored) where
  -- The first of the three sources that has the key.
  abbrev pub answer : CacheEngine S → Key → Option Value
  answer e key =
      or_else (held xxh32 xxh64 e.l1 key)
        (or_else (l2_held xxh32 xxh64 e.l2_stripes key) (stored e.backend key))

  -- What the second level holds for `k` after a lookup of `key` that found `o` in the first one.
  abbrev pub remaining : CacheEngine S → Key → Key → Option Value → Option Value
  remaining e key k o =
      if is_some o
      then l2_held xxh32 xxh64 e.l2_stripes k
      else if str_eq key k
      then none
      else l2_held xxh32 xxh64 e.l2_stripes k

  -- What a lookup that answers `r` leaves.
  pub record Looked (e : CacheEngine S) (key : Key) (r : Option Value) (e' : CacheEngine S)
      : Type 0 where
    pub valid : IsEngine e'
    pub brought : Brought key r (held xxh32 xxh64 e.l1) (held xxh32 xxh64 e'.l1)
    pub second :
        (k : Key)
        → l2_held xxh32 xxh64 e'.l2_stripes k ≡ remaining e key k (held xxh32 xxh64 e.l1 key)
    pub backend : (k : Key) → stored e'.backend k ≡ stored e.backend k

  module _ (key : Key) where
    -- The first level takes a value that was found below it.
    rescue_lem :
        (e : CacheEngine S) (value : Value)
        → IsEngine e
        → Yields
            (λ r e'.
              (r ≡ some value)
              × IsEngine e'
              × Brought key (some value) (held xxh32 xxh64 e.l1) (held xxh32 xxh64 e'.l1)
              × (e'.l2_stripes ≡ e.l2_stripes)
              × (e'.backend ≡ e.backend))
            (rescue xxh32 xxh64 b key value e)
    rescue_lem e value v =
        l1_bind e (λ _ e'. some (some value, e')) (put-held xxh32 xxh64 e.l1 key value v.l1)
          λ _ l1 (_, st). yields (
            refl,
            record { l1 = st.cache; l2 = v.l2; room = v.room },
            (λ k w p. of_stored _ st.lost key k value w _ (sym (st.kept k) ∙ p)),
            refl,
            refl,
          )

    -- Values that are brought in after a step that changed nothing.
    Brought-after :
        (r : Option Value) (f g h : Key → Option Value)
        → ((k : Key) → g k ≡ f k)
        → Brought key r g h
        → Brought key r f h
    Brought-after r f g h same new k w e = elim (new k w e) [
      | inl p ↦ inl (sym (same k) ∙ p)
      | inr p ↦ inr p
    ]

    -- A value found below the first level, by a step that left the first level as it was.
    rescued :
        (e e0 : CacheEngine S) (value : Value)
        → IsEngine e
        → ((k : Key) → held xxh32 xxh64 e.l1 k ≡ held xxh32 xxh64 e0.l1 k)
        → ((k : Key)
            → l2_held xxh32 xxh64 e.l2_stripes k ≡ remaining e0 key k (held xxh32 xxh64 e0.l1 key))
        → ((k : Key) → stored e.backend k ≡ stored e0.backend k)
        → Yields
            (λ r e'. (r ≡ some value) × Looked e0 key (some value) e')
            (rescue xxh32 xxh64 b key value e)
    rescued e e0 value v same second back =
        Yields.mono (rescue_lem e value v) λ r e' (p, w, new, l2, s). (
          p,
          record {
            valid = w;
            brought =
                Brought-after (some value) (held xxh32 xxh64 e0.l1) (held xxh32 xxh64 e.l1)
                  (held xxh32 xxh64 e'.l1) same new;
            second = λ k. ap (λ z. l2_held xxh32 xxh64 z k) l2 ∙ second k;
            backend = λ k. ap (λ z. stored z k) s ∙ back k;
          },
        )

    module _ (e : CacheEngine S) (v : IsEngine e) where
      -- The three ways to find the key, and the miss.
      answer_below :
          held xxh32 xxh64 e.l1 key ≡ none
          → answer e key ≡ or_else (l2_held xxh32 xxh64 e.l2_stripes key) (stored e.backend key)
      answer_below p =
          ap
            (λ o. or_else o (or_else (l2_held xxh32 xxh64 e.l2_stripes key) (stored e.backend key)))
            p

      answer_last :
          held xxh32 xxh64 e.l1 key ≡ none
          → l2_held xxh32 xxh64 e.l2_stripes key ≡ none
          → answer e key ≡ stored e.backend key
      answer_last p q = answer_below p ∙ ap (λ o. or_else o (stored e.backend key)) q

      -- The second level has been searched and the backend is next.
      from_backend_lem :
          (e2 : CacheEngine S) (o : Option Value)
          → o ≡ stored e.backend key
          → held xxh32 xxh64 e.l1 key ≡ none
          → l2_held xxh32 xxh64 e.l2_stripes key ≡ none
          → IsEngine e2
          → ((k : Key) → held xxh32 xxh64 e2.l1 k ≡ held xxh32 xxh64 e.l1 k)
          → ((k : Key)
              → l2_held xxh32 xxh64 e2.l2_stripes k ≡ remaining e key k (held xxh32 xxh64 e.l1 key))
          → ((k : Key) → stored e2.backend k ≡ stored e.backend k)
          → Yields
              (λ r e'. (r ≡ answer e key) × Looked e key r e')
              (from_backend xxh32 xxh64 b key o e2)
      from_backend_lem e2 none p h1 h2 w same second back = yields (
        p ∙ sym (answer_last h1 h2),
        record {
          valid = w;
          brought = λ k x d. inl (sym (same k) ∙ d);
          second = second;
          backend = back;
        },
      )
      from_backend_lem e2 (some value) p h1 h2 w same second back =
          Yields.mono (rescued e2 e value w same second back) λ r e' (q, l).
            (q ∙ p ∙ sym (answer_last h1 h2), subst (λ z. Looked e key z e') (sym q) l)

      -- A lookup never faults and answers with the value of the first level, else of the second, else
      -- of the backend; it keeps the invariant, brings nothing but the answer into the first level,
      -- takes the key out of the second level unless the first one has it, and leaves the rest of the
      -- second level and the backend's contents as they were.
      pub get-answer :
          Yields (λ r e'. (r ≡ answer e key) × Looked e key r e') (get xxh32 xxh64 b key e)
      unfolding get
      get-answer =
          l1_bind e (from_l1 xxh32 xxh64 b key) (get-held xxh32 xxh64 e.l1 key v.l1)
            λ r l1 (p, w, same). at_l1 r l1 p w same
        where
          at_l2 :
              (l1 : StripedCache) (r : Option Value) (l2 : L2Stripes)
              → held xxh32 xxh64 e.l1 key ≡ none
              → IsCache l1
              → ((k : Key) → held xxh32 xxh64 l1 k ≡ held xxh32 xxh64 e.l1 k)
              → r ≡ l2_held xxh32 xxh64 e.l2_stripes key
              → IsLevel e.l2_capacity_per_stripe l2
              → ((k : Key)
                  → l2_held xxh32 xxh64 l2 k
                    ≡ (if str_eq key k then none else l2_held xxh32 xxh64 e.l2_stripes k))
              → Yields
                  (λ r e'. (r ≡ answer e key) × Looked e key r e')
                  (from_l2 xxh32 xxh64 b key r (record e { l1 = l1; l2_stripes = l2 }))
          at_l2 l1 (some value) l2 h w same q w2 taken =
              Yields.mono
                (rescued (record e { l1 = l1; l2_stripes = l2 }) e value
                  (record { l1 = w; l2 = w2; room = v.room }) same
                  (λ k. taken k ∙ sym (ap (remaining e key k) h)) (λ k. refl))
                λ r e' (p, l). (
                  p ∙ ap (λ o. or_else o (stored e.backend key)) q ∙ sym (answer_below h),
                  subst (λ z. Looked e key z e') (sym p) l,
                )
          at_l2 l1 none l2 h w same q w2 taken =
              from_backend_lem
                (record e { l1 = l1; l2_stripes = l2; backend = (b.get key e.backend).1 })
                (b.get key e.backend).0 (store.got key e.backend) h (sym q)
                (record { l1 = w; l2 = w2; room = v.room }) same
                (λ k. taken k ∙ sym (ap (remaining e key k) h)) (store.get_keeps key e.backend)

          at_l1 :
              (r : Option Value) (l1 : StripedCache)
              → r ≡ held xxh32 xxh64 e.l1 key
              → IsCache l1
              → ((k : Key) → held xxh32 xxh64 l1 k ≡ held xxh32 xxh64 e.l1 k)
              → Yields
                  (λ r e'. (r ≡ answer e key) × Looked e key r e')
                  (from_l1 xxh32 xxh64 b key r (record e { l1 = l1 }))
          at_l1 (some value) l1 p w same = yields (
            ap
                (λ o.
                  or_else o (or_else (l2_held xxh32 xxh64 e.l2_stripes key) (stored e.backend key)))
                p,
            record {
              valid = record { l1 = w; l2 = v.l2; room = v.room };
              brought = λ k x d. inl (sym (same k) ∙ d);
              second = λ k. ap (remaining e key k) p;
              backend = λ k. refl;
            },
          )
          at_l1 none l1 p w same =
              l2_bind (record e { l1 = l1 }) (from_l2 xxh32 xxh64 b key)
                (l2_get_lem xxh32 xxh64 e.l2_capacity_per_stripe e.l2_stripes v.l2 key)
                λ r l2 (q, w2, taken). at_l2 l1 r l2 (sym p) w same q w2 taken
