-- ===== src/Engine/Tests.antt =====
-- An engine over the store in memory: runs and witnesses.
use walde.Base.{
  ℕ, ◌+◌, ◌<◌, ◌≡◌, ◌||◌, false, Option, none, some, List, [], ◌∷◌, arith, if◌then◌else◌, ltb,
  str_eq, ◌/◌,
}
use walde.Types.{Key, Value}
use walde.Queue.{DemotionItem}
use walde.Slab.Yields
use walde.Slab.Yields.{Yields}
use walde.Stripe.Remove.{is_some}
use walde.Striped.Methods.{held}
use walde.Backend.{InMemoryBackend, in_memory}
use walde.Backend.Store.{in_memory-IsStore}
use walde.Engine.{CacheEngine, get, put, remove}
use walde.Engine.Levels.{l2_held}
use walde.Engine.Instrumented.{get_instrumented, path_of, get_instrumented-path}
use walde.Engine.Lookup.{IsEngine, answer, Looked, get-answer}
use walde.Engine.Calls.{WrittenThrough, put-answer, remove-answer}
use walde.Engine.Coherence.{IsCoherent, get-IsCoherent}
use walde.Engine.Init.{assembled, init-IsEngine}

abbrev hash_row : Key → ℕ → ℕ
hash_row _ row = row

abbrev hash_name : Key → ℕ → ℕ
hash_name key seed = if str_eq key "a" then seed + 5 else seed

abbrev window_part : ℕ → ℕ
window_part n = n / 100

abbrev probation_part : ℕ → ℕ
probation_part n = n / 5

fifth_smaller : (n : ℕ) → 0 < n → probation_part n < n
fifth_smaller n h = omega arith

-- One entry in the backend.
abbrev disk : InMemoryBackend
disk = record {
  store = λ k. if str_eq "a" k then some "1" else none;
  read_count = 0;
  write_count = 1;
}

abbrev engine : CacheEngine InMemoryBackend
engine = assembled window_part probation_part fifth_smaller 192 (omega arith) 32 16 disk

engine-IsEngine : IsEngine engine
engine-IsEngine =
    (init-IsEngine window_part probation_part fifth_smaller 192 (omega arith) 32 16 disk hash_row
      hash_name in_memory (λ s. s.store) in_memory-IsStore).1

engine-IsCoherent : IsCoherent hash_row hash_name in_memory (λ s. s.store) in_memory-IsStore engine
engine-IsCoherent =
    (init-IsEngine window_part probation_part fifth_smaller 192 (omega arith) 32 16 disk hash_row
      hash_name in_memory (λ s. s.store) in_memory-IsStore).2

-- The engine after a lookup that the backend answers.
abbrev warm :
    (r : Option Value) × (e : CacheEngine InMemoryBackend) × (get hash_row hash_name in_memory "a"
        engine
      ≡ some (r, e))
    × Looked hash_row hash_name in_memory (λ s. s.store) in_memory-IsStore engine "a" r e
warm = Yields.outcome (
    Yields.mono
      (get-answer hash_row hash_name in_memory (λ s. s.store) in_memory-IsStore "a" engine
        engine-IsEngine)
      λ r e (_, l). l)

get-answer_example :
    Yields
      (λ r e.
        (r ≡ answer hash_row hash_name in_memory (λ s. s.store) in_memory-IsStore warm.1 "a")
        × Looked hash_row hash_name in_memory (λ s. s.store) in_memory-IsStore warm.1 "a" r e)
      (get hash_row hash_name in_memory "a" warm.1)
get-answer_example =
    get-answer hash_row hash_name in_memory (λ s. s.store) in_memory-IsStore "a" warm.1 warm.3.valid

put-answer_example :
    Yields
      (λ r e.
        (r ≡ (
          if is_some (held hash_row hash_name warm.1.l1 "b")
          then false
          else ltb 0 warm.1.l1.slab.free_count))
        × WrittenThrough hash_row hash_name in_memory
            (λ s. s.store)
            in_memory-IsStore
            warm.1
            "b"
            "2"
            e)
      (put hash_row hash_name in_memory "b" "2" warm.1)
put-answer_example =
    put-answer hash_row hash_name in_memory (λ s. s.store) in_memory-IsStore warm.1 "b" "2"
      warm.3.valid

remove-answer_example :
    Yields
      (λ r e.
        (r
          ≡ (is_some (held hash_row hash_name warm.1.l1 "a") || is_some (warm.1.backend.store "a")))
        × IsEngine e
        × ((k : Key)
            → answer hash_row hash_name in_memory (λ s. s.store) in_memory-IsStore e k ≡ (
                if str_eq "a" k
                then none
                else answer hash_row hash_name in_memory
                    (λ s. s.store)
                    in_memory-IsStore
                    warm.1
                    k)))
      (remove hash_row hash_name in_memory "a" warm.1)
remove-answer_example =
    remove-answer hash_row hash_name in_memory (λ s. s.store) in_memory-IsStore warm.1 "a"
      warm.3.valid

get-IsCoherent_example :
    Yields
      (λ r e.
        (r ≡ some "1")
        × IsEngine e
        × IsCoherent hash_row hash_name in_memory (λ s. s.store) in_memory-IsStore e
        × ((k : Key) → e.backend.store k ≡ disk.store k))
      (get hash_row hash_name in_memory "a" engine)
get-IsCoherent_example =
    get-IsCoherent hash_row hash_name in_memory (λ s. s.store) in_memory-IsStore "a" engine
      engine-IsEngine engine-IsCoherent

abbrev items : List DemotionItem
items =
    record { key = "a"; value = "1"; frequency = 2 }
    ∷ record { key = "b"; value = "2"; frequency = 1 }
    ∷ record { key = "a"; value = "3"; frequency = 2 }
    ∷ []

get_instrumented-path_example :
    Yields
      (λ r e'.
        r.1
        ≡ path_of hash_row hash_name in_memory "a"
            (held hash_row hash_name engine.l1 "a")
            (l2_held hash_row hash_name engine.l2_stripes "a")
            (disk.store "a"))
      (get_instrumented hash_row hash_name in_memory "a" engine)
get_instrumented-path_example =
    get_instrumented-path hash_row hash_name in_memory "a" (λ s. s.store) in_memory-IsStore engine
      engine-IsEngine
