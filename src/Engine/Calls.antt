-- ===== src/Engine/Calls.antt =====
-- `CacheEngine::put` and `remove`, and lookups while the levels agree with the backend.
use walde.Base.{
  ℕ, ◌<◌, ◌≡◌, refl, sym, ap, ◌∙◌, subst, Bool, true, false, ◌||◌, Option, none, some, ◌==◌,
  ==_self, ltb, if◌then◌else◌, str_eq, str_eq_self,
}
use walde.Types.{Key, Value}
use walde.Slab.Yields.{Yields, yields}
use walde.Stripe.Admit.{less}
use walde.Stripe.Remove.{is_some}
use walde.Striped.{StripedCache, route}
use walde.Striped.Methods
use walde.Striped.Methods.{held, put-held, remove-held}
use walde.Backend.{StorageBackend, IsStore}
use walde.Engine.{CacheEngine, with_l1, put, remove}
use walde.Engine.Levels.{IsLevel, l2_held, l2_remove_lem}
use walde.Engine.Lookup.{IsEngine, or_else, answer, l1_bind}

module _ (xxh32 xxh64 : Key → ℕ → ℕ) {S : Type 0} (b : StorageBackend S)
    (stored : S → Key → Option Value) (store : IsStore b stored) (e : CacheEngine S) where
  -- What `put` leaves: the backend has the value; the first level has it beside its old values,
  -- except that at most one key of the same stripe is lost; the second level is as it was.
  pub record WrittenThrough (key : Key) (value : Value) (e' : CacheEngine S) : Type 0 where
    pub valid : IsEngine e'
    pub lost : Option Key
    pub first :
        (k : Key)
        → held xxh32 xxh64 e'.l1 k ≡ (
            if route xxh32 xxh64 key == route xxh32 xxh64 k
            then less lost k (if str_eq key k then some value else held xxh32 xxh64 e.l1 k)
            else held xxh32 xxh64 e.l1 k)
    pub second : e'.l2_stripes ≡ e.l2_stripes
    pub backend :
        (k : Key) → stored e'.backend k ≡ (if str_eq key k then some value else stored e.backend k)
    pub next :
        answer xxh32 xxh64 b stored store e' key
        ≡ or_else
            (less lost key (some value))
            (or_else (l2_held xxh32 xxh64 e.l2_stripes key) (some value))

  -- A `put` never faults, keeps the invariant and writes through to the backend. The next lookup of
  -- the key answers with the new value if the key was not lost from the first level; otherwise it
  -- answers with what the second level already held for the key, which `put` does not touch, and
  -- with the new value if the second level held nothing.
  pub put-answer :
      (key : Key) (value : Value)
      → IsEngine e
      → Yields
          (λ r e'.
            (r
              ≡ (if is_some (held xxh32 xxh64 e.l1 key) then false else ltb 0 e.l1.slab.free_count))
            × WrittenThrough key value e')
          (put xxh32 xxh64 b key value e)
  unfolding put
  put-answer key value v =
      lift (record e { backend = (b.put key value e.backend).1 }) refl refl refl
        (store.put_stores key value e.backend) (put-held xxh32 xxh64 e.l1 key value v.l1)
    where
      lift :
          (e1 : CacheEngine S)
          → e1.l2_stripes ≡ e.l2_stripes
          → e1.l2_capacity_per_stripe ≡ e.l2_capacity_per_stripe
          → e1.l1 ≡ e.l1
          → ((k : Key)
              → stored e1.backend k ≡ (if str_eq key k then some value else stored e.backend k))
          → {r : Option (Bool × StripedCache)}
          → Yields
              (λ r c.
                (r ≡ (
                  if is_some (held xxh32 xxh64 e.l1 key)
                  then false
                  else ltb 0 e.l1.slab.free_count))
                × Methods.Stored xxh32 xxh64 e.l1 key value c)
              r
          → Yields
              (λ r e'.
                (r ≡ (
                  if is_some (held xxh32 xxh64 e.l1 key)
                  then false
                  else ltb 0 e.l1.slab.free_count))
                × WrittenThrough key value e')
              (with_l1 e1 r)
      lift e1 l2 size l1 back (yields {s} (p, st)) = yields (
        p,
        record {
          valid = record {
            l1 = st.cache;
            l2 =
                subst (λ n. IsLevel n e1.l2_stripes) (sym size)
                  (subst (IsLevel e.l2_capacity_per_stripe) (sym l2) v.l2);
            room = subst (λ n. 0 < n) (sym size) v.room;
          };
          lost = st.lost;
          first = st.kept;
          second = l2;
          backend = back;
          next =
              let here =
                st.kept key
                ∙ ap
                    (λ c.
                      if c
                      then less st.lost key
                          (if str_eq key key then some value else held xxh32 xxh64 e.l1 key)
                      else held xxh32 xxh64 e.l1 key)
                    (==_self (route xxh32 xxh64 key))
                ∙ ap (λ c. less st.lost key (if c then some value else held xxh32 xxh64 e.l1 key))
                    (str_eq_self key) in
              let down =
                back key
                ∙ ap (λ c. if c then some value else stored e.backend key) (str_eq_self key) in
              ap
                (λ o.
                  or_else o
                    (or_else (l2_held xxh32 xxh64 e1.l2_stripes key) (stored e1.backend key)))
                here
              ∙ ap
                  (λ z.
                    or_else (less st.lost key (some value))
                      (or_else (l2_held xxh32 xxh64 z key) (stored e1.backend key)))
                  l2
              ∙ ap
                  (λ z.
                    or_else (less st.lost key (some value))
                      (or_else (l2_held xxh32 xxh64 e.l2_stripes key) z))
                  down;
        },
      )

  -- A removal never faults, keeps the invariant, returns whether the first level or the backend had
  -- the key, and takes it out of all three sources: a lookup of the key then misses, and a lookup of
  -- another key answers as before.
  pub remove-answer :
      (key : Key)
      → IsEngine e
      → Yields
          (λ r e'.
            (r ≡ (is_some (held xxh32 xxh64 e.l1 key) || is_some (stored e.backend key)))
            × IsEngine e'
            × ((k : Key)
                → answer xxh32 xxh64 b stored store e' k
                  ≡ (if str_eq key k then none else answer xxh32 xxh64 b stored store e k)))
          (remove xxh32 xxh64 b key e)
  unfolding remove
  remove-answer key v = l1_bind e _ (remove-held xxh32 xxh64 e.l1 key v.l1) λ r l1 (p, w, first).
      let (l2, q, w2, second) =
        l2_remove_lem xxh32 xxh64 e.l2_capacity_per_stripe e.l2_stripes v.l2 key in
      rw q (
        yields (
          ap (λ o. o || (b.remove key e.backend).0) p
              ∙ ap (λ o. is_some (held xxh32 xxh64 e.l1 key) || o) (store.removed key e.backend),
          record { l1 = w; l2 = w2; room = v.room },
          λ k.
              ap
                (λ o.
                  or_else o
                    (or_else (l2_held xxh32 xxh64 l2 k) (stored (b.remove key e.backend).1 k)))
                (first k)
              ∙ ap
                  (λ o.
                    or_else (if str_eq key k then none else held xxh32 xxh64 e.l1 k)
                      (or_else o (stored (b.remove key e.backend).1 k)))
                  (second k)
              ∙ ap
                  (λ o.
                    or_else (if str_eq key k then none else held xxh32 xxh64 e.l1 k) (
                      or_else (if str_eq key k then none else l2_held xxh32 xxh64 e.l2_stripes k)
                        o))
                  (store.remove_erases key e.backend k)
              ∙ all_erased (str_eq key k) (held xxh32 xxh64 e.l1 k)
                  (l2_held xxh32 xxh64 e.l2_stripes k) (stored e.backend k),
        ))
    where
      all_erased :
          (c : Bool) (x y z : Option Value)
          → or_else
              (if c then none else x)
              (or_else (if c then none else y) (if c then none else z))
            ≡ (if c then none else or_else x (or_else y z))
      all_erased true x y z = refl
      all_erased false x y z = refl
