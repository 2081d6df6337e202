-- ===== src/Engine/Threads/Calls.antt =====
-- A call in parts, none of which another thread interrupts, is the call as one step.
use walde.Base.{ℕ, suc, Bool, ◌||◌, Option, none, some, ◌≡◌, refl}
use walde.Types.{Key, Value}
use walde.Slab.{and_then}
use walde.Striped
use walde.Striped.{StripedCache}
use walde.Backend.{StorageBackend}
use walde.Engine.{
  CacheEngine, Call, L2Stripes, with_l1, with_l2, on_backend, get, put, remove, l2_get, l2_remove,
  from_l1, from_l2, from_backend, rescue,
}
use walde.Engine.Threads.{
  Request, Task, Event, first_task, advance, alone, looked, looked_below, was_read, removed_below,
}
use walde.Engine.Threads.Advance.{rank}

module _ (xxh32 xxh64 : Key → ℕ → ℕ) {S : Type 0} (b : StorageBackend S) where
  -- The call as one step, with what the client sees.
  abbrev pub whole : Request → Call S Event
  whole (Request.get_of key) e =
      and_then (get xxh32 xxh64 b key e) λ r e'. some (Event.answers key r, e')
  whole (Request.put_of key value) e =
      and_then (put xxh32 xxh64 b key value e) λ made e'. some (Event.has_put key value made, e')
  whole (Request.remove_of key) e =
      and_then (remove xxh32 xxh64 b key e) λ r e'. some (Event.has_removed key r, e')

  -- The parts that are left after a part.
  abbrev rest : ℕ → Option ((Event × Task) × CacheEngine S) → Option (Event × CacheEngine S)
  rest n r =
      and_then r λ a e'. elim a.1 [ Task.idle ↦ some (a.0, e') | _ ↦ alone xxh32 xxh64 b n a.1 e' ]

  abbrev answer_of : Key → Option (Option Value × CacheEngine S) → Option (Event × CacheEngine S)
  answer_of key r = and_then r λ o e'. some (Event.answers key o, e')

  module _ (key : Key) where
    rescuing_lem :
        (n : ℕ) (value : Value) (e : CacheEngine S)
        → alone xxh32 xxh64 b (suc n) (Task.rescuing key value) e
          ≡ answer_of key (rescue xxh32 xxh64 b key value e)
    unfolding alone advance
    rescuing_lem n value e = at (Striped.put xxh32 xxh64 key value e.l1)
      where
        at :
            (r : Option (Bool × StripedCache))
            → rest n (
                and_then
                  (with_l1 e r)
                  λ _ e'. some ((Event.answers key (some value), Task.idle), e'))
              ≡ answer_of key (and_then (with_l1 e r) λ _ e'. some (some value, e'))
        at none = refl
        at (some (made, l1)) = refl

    reading_lem :
        (n : ℕ) (e : CacheEngine S)
        → alone xxh32 xxh64 b (suc (suc n)) (Task.reading key) e
          ≡ answer_of key (and_then (on_backend (b.get key) e) (from_backend xxh32 xxh64 b key))
    unfolding alone advance
    reading_lem n e = at (b.get key e.backend).0 (b.get key e.backend).1
      where
        at :
            (o : Option Value) (s : S)
            → rest (suc n) (some (was_read key o, record e { backend = s }))
              ≡ answer_of key (from_backend xxh32 xxh64 b key o (record e { backend = s }))
        at none s = refl
        at (some value) s = rescuing_lem n value (record e { backend = s })

    below_lem :
        (n : ℕ) (e : CacheEngine S)
        → alone xxh32 xxh64 b (suc (suc (suc n))) (Task.looking_below key) e
          ≡ answer_of key (
              and_then
                (with_l2 e (l2_get xxh32 xxh64 key e.l2_stripes))
                (from_l2 xxh32 xxh64 b key))
    unfolding alone advance
    below_lem n e = at (l2_get xxh32 xxh64 key e.l2_stripes)
      where
        at :
            (r : Option (Option Value × L2Stripes))
            → rest (suc (suc n)) (and_then (with_l2 e r) λ o e'. some (looked_below key o, e'))
              ≡ answer_of key (and_then (with_l2 e r) (from_l2 xxh32 xxh64 b key))
        at none = refl
        at (some (none, l2)) = reading_lem n (record e { l2_stripes = l2 })
        at (some (some value, l2)) = rescuing_lem (suc n) value (record e { l2_stripes = l2 })

    looking_lem :
        (e : CacheEngine S)
        → alone xxh32 xxh64 b 4 (Task.looking key) e ≡ whole (Request.get_of key) e
    unfolding alone advance get
    looking_lem e = at (Striped.get xxh32 xxh64 key e.l1)
      where
        at :
            (r : Option (Option Value × StripedCache))
            → rest 3 (and_then (with_l1 e r) λ o e'. some (looked key o, e'))
              ≡ answer_of key (and_then (with_l1 e r) (from_l1 xxh32 xxh64 b key))
        at none = refl
        at (some (none, l1)) = below_lem 0 (record e { l1 = l1 })
        at (some (some value, l1)) = refl

    writing_lem :
        (value : Value) (e : CacheEngine S)
        → alone xxh32 xxh64 b 2 (Task.writing key value) e ≡ whole (Request.put_of key value) e
    unfolding alone advance put
    writing_lem value e = at (Striped.put xxh32 xxh64 key value e.l1)
      where
        at :
            (r : Option (Bool × StripedCache))
            → rest 0 (
                and_then
                  (with_l1 (record e { backend = (b.put key value e.backend).1 }) r)
                  λ made e'. some ((Event.has_put key value made, Task.idle), e'))
              ≡ and_then
                  (with_l1 (record e { backend = (b.put key value e.backend).1 }) r)
                  λ made e'. some (Event.has_put key value made, e')
        at none = refl
        at (some (made, l1)) = refl

    removing_lem :
        (e : CacheEngine S)
        → alone xxh32 xxh64 b 3 (Task.removing key) e ≡ whole (Request.remove_of key) e
    unfolding alone advance remove
    removing_lem e = at (Striped.remove xxh32 xxh64 key e.l1)
      where
        -- After the first level.
        below :
            (e1 : CacheEngine S) (in_l1 : Bool) (o : Option L2Stripes)
            → rest 1 (
                and_then
                  (removed_below e1 o)
                  λ _ e'. some ((Event.nothing, Task.erasing key in_l1), e'))
              ≡ and_then
                  (elim o [
                    | none ↦ none
                    | some l2 ↦
                        and_then
                          (on_backend (b.remove key) (record e1 { l2_stripes = l2 }))
                          λ in_backend e2. some (in_l1 || in_backend, e2)
                  ])
                  λ r e'. some (Event.has_removed key r, e')
        below e1 in_l1 none = refl
        below e1 in_l1 (some l2) = refl

        at :
            (r : Option (Bool × StripedCache))
            → rest 2 (
                and_then
                  (with_l1 e r)
                  λ in_l1 e'. some ((Event.nothing, Task.removing_below key in_l1), e'))
              ≡ and_then
                  (and_then (with_l1 e r) λ in_l1 e1.
                    elim (l2_remove xxh32 xxh64 key e1.l2_stripes) [
                      | none ↦ none
                      | some l2 ↦
                          and_then
                            (on_backend (b.remove key) (record e1 { l2_stripes = l2 }))
                            λ in_backend e2. some (in_l1 || in_backend, e2)
                    ])
                  λ r e'. some (Event.has_removed key r, e')
        at none = refl
        at (some (in_l1, l1)) =
            below (record e { l1 = l1 }) in_l1 (l2_remove xxh32 xxh64 key e.l2_stripes)

  -- The parts of a call, run one after the other without a step of another thread between them, are
  -- the call: they leave the same engine and the client sees the same, and they fault where it does.
  pub alone-whole :
      (r : Request) (e : CacheEngine S)
      → alone xxh32 xxh64 b (rank (first_task r)) (first_task r) e ≡ whole r e
  unfolding rank
  alone-whole (Request.get_of key) e = looking_lem key e
  alone-whole (Request.put_of key value) e = writing_lem key value e
  alone-whole (Request.remove_of key) e = removing_lem key e
