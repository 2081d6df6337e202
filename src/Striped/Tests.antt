-- ===== src/Striped/Tests.antt =====
-- A striped cache with three slots in every stripe, empty and after a first `put`: witnesses.
use walde.Base.{
  ℕ, ◌<◌, ◌+◌, ◌/◌, false, ◌≡◌, Bool, none, some, [], ◌∷◌, map, arith, if◌then◌else◌, ltb, str_eq,
}
use walde.Types.{Key}
use walde.Slab.Yields
use walde.Slab.Yields.{Yields}
use walde.Stripe.Remove.{is_some}
use walde.Striped.{StripedCache, get, put, remove, batch_get}
use walde.Striped.Invariant.{IsCache}
use walde.Striped.Init.{first, init-IsCache}
use walde.Striped.Methods.{held, get-held, remove-held, put-held, Stored}
use walde.Striped.Batch.{batch_get-held}

abbrev hash_row : Key → ℕ → ℕ
hash_row _ row = row

abbrev hash_name : Key → ℕ → ℕ
hash_name key seed = if str_eq key "a" then seed + 5 else seed

-- Shares of 1% and 20%.
abbrev window_part : ℕ → ℕ
window_part n = n / 100

abbrev probation_part : ℕ → ℕ
probation_part n = n / 5

fifth_smaller : (n : ℕ) → 0 < n → probation_part n < n
fifth_smaller n h = omega arith

abbrev blank : StripedCache
blank = first window_part probation_part fifth_smaller 192 (omega arith)

blank_cache-IsCache : IsCache blank
blank_cache-IsCache =
    (init-IsCache window_part probation_part fifth_smaller 192 (omega arith) hash_row hash_name).1

put-held_example :
    Yields
      (λ r c.
        (r ≡ (
          if is_some (held hash_row hash_name blank "a")
          then false
          else ltb 0 blank.slab.free_count))
        × Stored hash_row hash_name blank "a" "1" c)
      (put hash_row hash_name "a" "1" blank)
put-held_example = put-held hash_row hash_name blank "a" "1" blank_cache-IsCache

-- The cache after this `put`.
abbrev stored :
    (r : Bool) × (c : StripedCache) × (put hash_row hash_name "a" "1" blank ≡ some (r, c))
    × IsCache c
stored = Yields.outcome (
    Yields.mono (put-held hash_row hash_name blank "a" "1" blank_cache-IsCache)
      λ r c (_, s). s.cache)

get-held_example :
    Yields
      (λ r c.
        (r ≡ held hash_row hash_name stored.1 "a")
        × IsCache c
        × ((k : Key) → held hash_row hash_name c k ≡ held hash_row hash_name stored.1 k))
      (get hash_row hash_name "a" stored.1)
get-held_example = get-held hash_row hash_name stored.1 "a" stored.3

remove-held_example :
    Yields
      (λ r c.
        (r ≡ is_some (held hash_row hash_name stored.1 "a"))
        × IsCache c
        × ((k : Key)
            → held hash_row hash_name c k
              ≡ (if str_eq "a" k then none else held hash_row hash_name stored.1 k)))
      (remove hash_row hash_name "a" stored.1)
remove-held_example = remove-held hash_row hash_name stored.1 "a" stored.3

batch_get-held_example :
    Yields
      (λ rs c.
        (rs ≡ map (held hash_row hash_name stored.1) ("b" ∷ "a" ∷ "b" ∷ []))
        × IsCache c
        × ((k : Key) → held hash_row hash_name c k ≡ held hash_row hash_name stored.1 k))
      (batch_get hash_row hash_name ("b" ∷ "a" ∷ "b" ∷ []) stored.1)
batch_get-held_example = batch_get-held hash_row hash_name stored.1 ("b" ∷ "a" ∷ "b" ∷ []) stored.3
