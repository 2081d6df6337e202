-- ===== src/Engine/Threads/Alone.antt =====
-- What a call does whose parts no other thread interrupts.
use walde.Base.{ℕ, ◌≡◌, ap, subst, false, ◌||◌, Option, none, ltb, if◌then◌else◌, str_eq}
use walde.Types.{Key, Value}
use walde.Slab.Yields
use walde.Slab.Yields.{Yields, yields}
use walde.Stripe.Remove.{is_some}
use walde.Striped.Methods.{held}
use walde.Backend.{StorageBackend, IsStore}
use walde.Engine.{CacheEngine}
use walde.Engine.Lookup.{IsEngine, answer, Looked, get-answer}
use walde.Engine.Calls.{WrittenThrough, put-answer, remove-answer}
use walde.Engine.Threads.{Request, Event, first_task, alone}
use walde.Engine.Threads.Advance.{rank}
use walde.Engine.Threads.Calls.{alone-whole}

module _ (xxh32 xxh64 : Key → ℕ → ℕ) {S : Type 0} (b : StorageBackend S)
    (stored : S → Key → Option Value) (store : IsStore b stored) (e : CacheEngine S) where
  -- What the client sees of a request and what the engine is like afterwards.
  abbrev pub Answered : Request → Event → CacheEngine S → Type 0
  Answered (Request.get_of key) ev e' =
      (ev ≡ Event.answers key (answer xxh32 xxh64 b stored store e key))
      × Looked xxh32 xxh64 b stored store e key (answer xxh32 xxh64 b stored store e key) e'
  Answered (Request.put_of key value) ev e' =
      (ev
        ≡ Event.has_put key value
            (if is_some (held xxh32 xxh64 e.l1 key) then false else ltb 0 e.l1.slab.free_count))
      × WrittenThrough xxh32 xxh64 b stored store e key value e'
  Answered (Request.remove_of key) ev e' =
      (ev
        ≡ Event.has_removed key
            (is_some (held xxh32 xxh64 e.l1 key) || is_some (stored e.backend key)))
      × IsEngine e'
      × ((k : Key)
          → answer xxh32 xxh64 b stored store e' k
            ≡ (if str_eq key k then none else answer xxh32 xxh64 b stored store e k))

  -- The parts of a call, run one after the other without a step of another thread between them, end
  -- without a fault. A lookup is answered with the value of the first level, else of the second, else
  -- of the backend, brings nothing but the answer into the first level and takes the key out of the
  -- second unless the first has it. A put tells whether it made a new entry and writes through to the
  -- backend; the first level has the value, and at most one key of the same stripe is lost. A removal
  -- tells whether the first level or the backend had the key, and a lookup of the key would then find
  -- nothing, while lookups of other keys would answer as before. The invariant of the engine is kept.
  pub alone-Answered :
      (req : Request)
      → IsEngine e
      → Yields (Answered req) (alone xxh32 xxh64 b (rank (first_task req)) (first_task req) e)
  alone-Answered (Request.get_of key) v =
      Yields.along (alone-whole xxh32 xxh64 b (Request.get_of key) e) (
        Yields.bind (get-answer xxh32 xxh64 b stored store key e v) λ r e' (p, l).
          yields (
            ap (Event.answers key) p,
            subst (λ z. Looked xxh32 xxh64 b stored store e key z e') p l,
          ))
  alone-Answered (Request.put_of key value) v =
      Yields.along (alone-whole xxh32 xxh64 b (Request.put_of key value) e) (
        Yields.bind (put-answer xxh32 xxh64 b stored store e key value v)
          λ r e' (p, w). yields (ap (Event.has_put key value) p, w))
  alone-Answered (Request.remove_of key) v =
      Yields.along (alone-whole xxh32 xxh64 b (Request.remove_of key) e) (
        Yields.bind (remove-answer xxh32 xxh64 b stored store e key v)
          λ r e' (p, w, h). yields (ap (Event.has_removed key) p, w, h))
