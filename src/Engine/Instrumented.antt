-- ===== src/Engine/Instrumented.antt =====
-- `CacheEngine::get` as it runs with a `LatencyBreakdown`, of which the path is kept here. The source has
-- its own code for the backend in this case. The stripes' branches with a breakdown are in
-- Stripe/Instrumented; here a stripe does what they do beside the breakdown.
use walde.Base.{ℕ, ◌≡◌, refl, ap, ◌∙◌, Option, none, some}
use walde.Types.{Key, Value}
use walde.Slab.{and_then}
use walde.Slab.Yields
use walde.Slab.Yields.{Yields, yields}
use walde.Striped
use walde.Striped.{StripedCache}
use walde.Striped.Methods.{held, get-held, put-held}
use walde.Backend.{StorageBackend, IsStore}
use walde.Latency.{HitPath}
use walde.Engine.{CacheEngine, Call, on_l1, on_l2, on_backend, l2_get}
use walde.Engine.Levels.{l2_held, l2_get_lem}
use walde.Engine.Lookup.{IsEngine, l1_bind, l2_bind}

module _ (xxh32 xxh64 : Key → ℕ → ℕ) {S : Type 0} (b : StorageBackend S) where
  -- The value is put into the first level and the path is set.
  abbrev pub rescue_from : HitPath → Key → Value → Call S (Option Value × HitPath)
  rescue_from path key value e =
      and_then (on_l1 (Striped.put xxh32 xxh64 key value) e) λ _ e'. some ((some value, path), e')

  abbrev pub backend_path : Key → Option Value → Call S (Option Value × HitPath)
  backend_path key none e = some ((none, HitPath.miss), e)
  backend_path key (some value) e = rescue_from HitPath.backend_hit key value e

  abbrev pub l2_path : Key → Option Value → Call S (Option Value × HitPath)
  l2_path key none e = and_then (on_backend (b.get key) e) (backend_path key)
  l2_path key (some value) e = rescue_from HitPath.l2_hit key value e

  abbrev pub l1_path : Key → Option Value → Call S (Option Value × HitPath)
  l1_path key none e = and_then (on_l2 (l2_get xxh32 xxh64 key) e) (l2_path key)
  l1_path key (some value) e = some ((some value, HitPath.l1_hit), e)

  unfoldable pub get_instrumented : Key → Call S (Option Value × HitPath)
  get_instrumented key e = and_then (on_l1 (Striped.get xxh32 xxh64 key) e) (l1_path key)

  module _ (key : Key) where
    -- The first of the three sources that has the key.
    abbrev pub path_of : (first second third : Option Value) → HitPath
    path_of (some v) second third = HitPath.l1_hit
    path_of none (some v) third = HitPath.l2_hit
    path_of none none (some v) = HitPath.backend_hit
    path_of none none none = HitPath.miss

    module _ (stored : S → Key → Option Value) (store : IsStore b stored) where
      rescue-path :
          (path : HitPath) (value : Value) (e : CacheEngine S)
          → IsEngine e
          → Yields (λ r e'. r.1 ≡ path) (rescue_from path key value e)
      rescue-path path value e v =
          l1_bind e (λ _ e'. some ((some value, path), e'))
            (put-held xxh32 xxh64 e.l1 key value v.l1) λ _ l1 _. yields refl

      at_backend :
          (o : Option Value) (e : CacheEngine S)
          → IsEngine e
          → Yields (λ r e'. r.1 ≡ path_of none none o) (backend_path key o e)
      at_backend none e v = yields refl
      at_backend (some value) e v = rescue-path HitPath.backend_hit value e v

      at_l2 :
          (o : Option Value) (e : CacheEngine S)
          → IsEngine e
          → Yields (λ r e'. r.1 ≡ path_of none o (stored e.backend key)) (l2_path key o e)
      at_l2 (some value) e v = rescue-path HitPath.l2_hit value e v
      at_l2 none e v =
          Yields.mono
            (at_backend (b.get key e.backend).0 (record e { backend = (b.get key e.backend).1 })
              (record { l1 = v.l1; l2 = v.l2; room = v.room }))
            λ r e' p. p ∙ ap (path_of none none) (store.got key e.backend)

      -- An instrumented lookup reports as its path the first of the first level, the second level and
      -- the backend that has the key, or a miss.
      pub get_instrumented-path :
          (e : CacheEngine S)
          → IsEngine e
          → Yields
              (λ r e'.
                r.1
                ≡ path_of
                    (held xxh32 xxh64 e.l1 key)
                    (l2_held xxh32 xxh64 e.l2_stripes key)
                    (stored e.backend key))
              (get_instrumented key e)
      unfolding get_instrumented
      get_instrumented-path e v =
          l1_bind e (l1_path key) (get-held xxh32 xxh64 e.l1 key v.l1) λ o l1 (p, w, _).
            Yields.mono
              (at_l1 o (record e { l1 = l1 }) (record { l1 = w; l2 = v.l2; room = v.room }))
              λ r e' q.
                q
                ∙ ap (λ z. path_of z (l2_held xxh32 xxh64 e.l2_stripes key) (stored e.backend key))
                    p
        where
          at_l1 :
              (o : Option Value) (e1 : CacheEngine S)
              → IsEngine e1
              → Yields
                  (λ r e'.
                    r.1 ≡ path_of o (l2_held xxh32 xxh64 e1.l2_stripes key) (stored e1.backend key))
                  (l1_path key o e1)
          at_l1 (some value) e1 w = yields refl
          at_l1 none e1 w =
              l2_bind e1 (l2_path key)
                (l2_get_lem xxh32 xxh64 e1.l2_capacity_per_stripe e1.l2_stripes w.l2 key)
                λ o l2 (p, u, _).
                  Yields.mono
                    (at_l2 o (record e1 { l2_stripes = l2 })
                      (record { l1 = w.l1; l2 = u; room = w.room }))
                    λ r e' q. q ∙ ap (λ z. path_of none z (stored e1.backend key)) p
