-- ===== src/Engine/Threads/Advance.antt =====
-- What one part of a call does: it never faults, brings the call nearer to its end, and adds no value
-- but the one that the call carries.
use walde.Base.{
  ℕ, ◌<◌, ◌≡◌, ◌≢◌, inl, inr, refl, sym, ◌∙◌, subst, Bool, true, false, Option, none, some, arith,
  if◌then◌else◌, str_eq,
}
use walde.Types.{Key, Value}
use walde.Slab.Yields
use walde.Slab.Yields.{Yields, yields}
use walde.Striped.{StripedCache}
use walde.Striped.Invariant.{IsCache}
use walde.Striped
use walde.Striped.Kept.{Keeps, Keeps-held, get-Keeps, put-Keeps, remove-Keeps, of_less, of_stored}
use walde.Striped.Methods.{held, get-held, put-held, remove-held}
use walde.Backend.{StorageBackend, IsStore}
use walde.Engine.{CacheEngine, L2Stripes}
use walde.Engine.Levels.{IsLevel, l2_held, l2_get_lem, l2_remove_lem}
use walde.Engine.Lookup.{l1_bind, l2_bind}
use walde.Engine.Kept.{EngineKeeps}
use walde.Engine.Threads.{Task, Event, looked, looked_below, was_read, advance}

-- How many parts are left at most.
unfoldable pub rank : Task → ℕ
rank Task.idle = 0
rank (Task.looking key) = 4
rank (Task.looking_below key) = 3
rank (Task.reading key) = 2
rank (Task.rescuing key value) = 1
rank (Task.writing key value) = 2
rank (Task.caching key value) = 1
rank (Task.removing key) = 3
rank (Task.removing_below key in_l1) = 2
rank (Task.erasing key in_l1) = 1

-- The parts of a lookup.
abbrev pub is_lookup : Task → Bool
is_lookup (Task.looking key) = true
is_lookup (Task.looking_below key) = true
is_lookup (Task.reading key) = true
is_lookup (Task.rescuing key value) = true
is_lookup Task.idle = true
is_lookup _ = false

module _ (Ok : Key → Value → Type 0) where
  -- The value that a call carries is `Ok`.
  abbrev pub TaskOk : Task → Type 0
  TaskOk (Task.rescuing key value) = Ok key value
  TaskOk (Task.writing key value) = Ok key value
  TaskOk (Task.caching key value) = Ok key value
  TaskOk _ = Unit

  -- The value that a client gets is `Ok`.
  abbrev pub EventOk : Event → Type 0
  EventOk (Event.answers key r) = (w : Value) → r ≡ some w → Ok key w
  EventOk _ = Unit

-- A client that gets no value asked for a key that the backend has none for.
abbrev pub Missing : (Key → Option Value) → Event → Type 0
Missing f (Event.answers key r) = r ≡ none → f key ≡ none
Missing f _ = Unit

module _ (Ok : Key → Value → Type 0) (xxh32 xxh64 : Key → ℕ → ℕ) {S : Type 0} (b : StorageBackend S)
    (stored : S → Key → Option Value) (store : IsStore b stored) where
  -- What a part of a call at `t` leaves.
  pub record Advanced (t : Task) (e : CacheEngine S) (a : Event × Task) (e' : CacheEngine S)
      : Type 0 where
    pub engine : EngineKeeps Ok xxh32 xxh64 stored e'
    pub event : EventOk Ok a.0
    pub task : TaskOk Ok a.1
    pub nearer : rank a.1 < rank t
    pub reads :
        is_lookup t ≡ true
        → (is_lookup a.1 ≡ true)
          × ((k : Key) → stored e'.backend k ≡ stored e.backend k)
          × Missing (stored e.backend) a.0

  module _ (key : Key) (e : CacheEngine S) (v : EngineKeeps Ok xxh32 xxh64 stored e) where
    -- The engine with another first level.
    first_level :
        (l1 : StripedCache)
        → IsCache l1
        → Keeps Ok l1
        → EngineKeeps Ok xxh32 xxh64 stored (record e { l1 = l1 })
    first_level l1 w k = record {
      valid = record { l1 = w; l2 = v.valid.l2; room = v.valid.room };
      first = k;
      second = v.second;
      below = v.below;
    }

    -- The engine with another second level, which holds nothing new.
    second_level :
        (l2 : L2Stripes)
        → IsLevel e.l2_capacity_per_stripe l2
        → ((k : Key)
            → l2_held xxh32 xxh64 l2 k
              ≡ (if str_eq key k then none else l2_held xxh32 xxh64 e.l2_stripes k))
        → EngineKeeps Ok xxh32 xxh64 stored (record e { l2_stripes = l2 })
    second_level l2 w taken = record {
      valid = record { l1 = v.valid.l1; l2 = w; room = v.valid.room };
      first = v.first;
      second = λ k x q. v.second k x (of_taken (str_eq key k) _ x (sym (taken k) ∙ q));
      below = v.below;
    }
      where
        of_taken :
            (d : Bool) (o : Option Value) (x : Value)
            → (if d then none else o) ≡ some x
            → o ≡ some x
        of_taken true o x q = absurd cc
        of_taken false o x q = q

    -- The engine with another state of the backend.
    third_level :
        (s : S)
        → ((k : Key) (w : Value) → stored s k ≡ some w → Ok k w)
        → EngineKeeps Ok xxh32 xxh64 stored (record e { backend = s })
    third_level s h = record {
      valid = record { l1 = v.valid.l1; l2 = v.valid.l2; room = v.valid.room };
      first = v.first;
      second = v.second;
      below = h;
    }

    looking_lem :
        Yields (Advanced (Task.looking key) e) (advance xxh32 xxh64 b (Task.looking key) e)
    unfolding advance rank
    looking_lem =
        l1_bind e (λ a e'. some (looked key a, e'))
          (Yields.both (get-held xxh32 xxh64 e.l1 key v.valid.l1)
            (get-Keeps Ok xxh32 xxh64 e.l1 key v.valid.l1 v.first))
          λ r l1 ((p, w, _), k). found r l1 p (first_level l1 w k)
      where
        found :
            (r : Option Value) (l1 : StripedCache)
            → r ≡ held xxh32 xxh64 e.l1 key
            → EngineKeeps Ok xxh32 xxh64 stored (record e { l1 = l1 })
            → Yields (Advanced (Task.looking key) e) (some (looked key r, record e { l1 = l1 }))
        found (some x) l1 p k = yields record {
          engine = k;
          event = λ w q. Keeps-held Ok xxh32 xxh64 e.l1 key w v.first (sym p ∙ q);
          task = tt;
          nearer = omega arith;
          reads = λ _. (refl, (λ _. refl), λ q. absurd cc);
        }
        found none l1 p k = yields record {
          engine = k;
          event = tt;
          task = tt;
          nearer = omega arith;
          reads = λ _. (refl, (λ _. refl), tt);
        }

    below_lem :
        Yields
          (Advanced (Task.looking_below key) e)
          (advance xxh32 xxh64 b (Task.looking_below key) e)
    unfolding advance rank
    below_lem =
        l2_bind e (λ a e'. some (looked_below key a, e'))
          (l2_get_lem xxh32 xxh64 e.l2_capacity_per_stripe e.l2_stripes v.valid.l2 key)
          λ r l2 (p, w, taken). found r l2 p (second_level l2 w taken)
      where
        found :
            (r : Option Value) (l2 : L2Stripes)
            → r ≡ l2_held xxh32 xxh64 e.l2_stripes key
            → EngineKeeps Ok xxh32 xxh64 stored (record e { l2_stripes = l2 })
            → Yields
                (Advanced (Task.looking_below key) e)
                (some (looked_below key r, record e { l2_stripes = l2 }))
        found (some x) l2 p k = yields record {
          engine = k;
          event = tt;
          task = v.second key x (sym p);
          nearer = omega arith;
          reads = λ _. (refl, (λ _. refl), tt);
        }
        found none l2 p k = yields record {
          engine = k;
          event = tt;
          task = tt;
          nearer = omega arith;
          reads = λ _. (refl, (λ _. refl), tt);
        }

    reading_lem :
        Yields (Advanced (Task.reading key) e) (advance xxh32 xxh64 b (Task.reading key) e)
    unfolding advance rank
    reading_lem = found (b.get key e.backend).0 (store.got key e.backend) (
        third_level (b.get key e.backend).1
          (λ k w q. v.below k w (sym (store.get_keeps key e.backend k) ∙ q)))
      where
        found :
            (r : Option Value)
            → r ≡ stored e.backend key
            → EngineKeeps Ok xxh32 xxh64 stored (record e { backend = (b.get key e.backend).1 })
            → Yields
                (Advanced (Task.reading key) e)
                (some (was_read key r, record e { backend = (b.get key e.backend).1 }))
        found (some x) p k = yields record {
          engine = k;
          event = tt;
          task = v.below key x (sym p);
          nearer = omega arith;
          reads = λ _. (refl, store.get_keeps key e.backend, tt);
        }
        found none p k = yields record {
          engine = k;
          event = λ w q. absurd cc;
          task = tt;
          nearer = omega arith;
          reads = λ _. (refl, store.get_keeps key e.backend, λ _. sym p);
        }

    -- The new value in the first level.
    put_first :
        (value : Value)
        → Ok key value
        → Yields
            (λ r l1. EngineKeeps Ok xxh32 xxh64 stored (record e { l1 = l1 }))
            (Striped.put xxh32 xxh64 key value e.l1)
    put_first value ok =
        Yields.mono
          (Yields.both (put-held xxh32 xxh64 e.l1 key value v.valid.l1)
            (put-Keeps Ok xxh32 xxh64 e.l1 key value v.valid.l1 v.first ok))
          λ r l1 ((_, st), k). first_level l1 st.cache k

    rescuing_lem :
        (value : Value)
        → Ok key value
        → Yields
            (Advanced (Task.rescuing key value) e)
            (advance xxh32 xxh64 b (Task.rescuing key value) e)
    unfolding advance rank
    rescuing_lem value ok =
        l1_bind e (λ a e'. some ((Event.answers key (some value), Task.idle), e'))
          (put_first value ok)
          λ r l1 k. yields record {
            engine = k;
            event = λ w q. let z : value ≡ w = cc in subst (Ok key) z ok;
            task = tt;
            nearer = omega arith;
            reads = λ _. (refl, (λ _. refl), λ q. absurd cc);
          }

    caching_lem :
        (value : Value)
        → Ok key value
        → Yields
            (Advanced (Task.caching key value) e)
            (advance xxh32 xxh64 b (Task.caching key value) e)
    unfolding advance rank
    caching_lem value ok =
        l1_bind e (λ a e'. some ((Event.has_put key value a, Task.idle), e')) (put_first value ok)
          λ r l1 k. yields record {
            engine = k;
            event = tt;
            task = tt;
            nearer = omega arith;
            reads = λ q. absurd cc;
          }

    writing_lem :
        (value : Value)
        → Ok key value
        → Yields
            (Advanced (Task.writing key value) e)
            (advance xxh32 xxh64 b (Task.writing key value) e)
    unfolding advance rank
    writing_lem value ok = yields record {
      engine =
          third_level (b.put key value e.backend).1
            (λ k w q. written k w (sym (store.put_stores key value e.backend k) ∙ q));
      event = tt;
      task = ok;
      nearer = omega arith;
      reads = λ q. absurd cc;
    }
      where
        written :
            (k : Key) (w : Value)
            → (if str_eq key k then some value else stored e.backend k) ≡ some w
            → Ok k w
        written k w q = elim (of_stored true none key k value w _ q) [
          | inl p ↦ v.below k w p
          | inr (p, r) ↦
              let z : value ≡ w = cc in subst (λ y. Ok k y) z (subst (λ j. Ok j value) p ok)
        ]

    removing_lem :
        Yields (Advanced (Task.removing key) e) (advance xxh32 xxh64 b (Task.removing key) e)
    unfolding advance rank
    removing_lem =
        l1_bind e (λ a e'. some ((Event.nothing, Task.removing_below key a), e'))
          (Yields.both (remove-held xxh32 xxh64 e.l1 key v.valid.l1)
            (remove-Keeps Ok xxh32 xxh64 e.l1 key v.valid.l1 v.first))
          λ r l1 ((_, w, _), k). yields record {
            engine = first_level l1 w k;
            event = tt;
            task = tt;
            nearer = omega arith;
            reads = λ q. absurd cc;
          }

    removing_below_lem :
        (in_l1 : Bool)
        → Yields
            (Advanced (Task.removing_below key in_l1) e)
            (advance xxh32 xxh64 b (Task.removing_below key in_l1) e)
    unfolding advance rank
    removing_below_lem in_l1 =
        let (l2, p, w, taken) =
          l2_remove_lem xxh32 xxh64 e.l2_capacity_per_stripe e.l2_stripes v.valid.l2 key in
        rw p (
          yields record {
            engine = second_level l2 w taken;
            event = tt;
            task = tt;
            nearer = omega arith;
            reads = λ q. absurd cc;
          })

    erasing_lem :
        (in_l1 : Bool)
        → Yields
            (Advanced (Task.erasing key in_l1) e)
            (advance xxh32 xxh64 b (Task.erasing key in_l1) e)
    unfolding advance rank
    erasing_lem in_l1 = yields record {
      engine = third_level (b.remove key e.backend).1 (λ k w q.
          v.below k w (of_less (some key) k _ w (sym (store.remove_erases key e.backend k) ∙ q)));
      event = tt;
      task = tt;
      nearer = omega arith;
      reads = λ q. absurd cc;
    }

  -- A thread that is in a call always has its next part: the part neither faults nor waits for another
  -- thread, and brings the call nearer to its end. No part of a call adds a value but the one that the
  -- call carries, and what a client gets is a value of some part of the system for that key. A part of
  -- a lookup leaves what the backend stores, and a client that gets no value asked for a key that the
  -- backend has none for.
  pub advance-Advanced :
      (t : Task) (e : CacheEngine S)
      → EngineKeeps Ok xxh32 xxh64 stored e
      → TaskOk Ok t
      → t ≢ Task.idle
      → Yields (Advanced t e) (advance xxh32 xxh64 b t e)
  advance-Advanced Task.idle e v ok busy = absurd (busy refl)
  advance-Advanced (Task.looking key) e v ok busy = looking_lem key e v
  advance-Advanced (Task.looking_below key) e v ok busy = below_lem key e v
  advance-Advanced (Task.reading key) e v ok busy = reading_lem key e v
  advance-Advanced (Task.rescuing key value) e v ok busy = rescuing_lem key e v value ok
  advance-Advanced (Task.writing key value) e v ok busy = writing_lem key e v value ok
  advance-Advanced (Task.caching key value) e v ok busy = caching_lem key e v value ok
  advance-Advanced (Task.removing key) e v ok busy = removing_lem key e v
  advance-Advanced (Task.removing_below key in_l1) e v ok busy = removing_below_lem key e v in_l1
  advance-Advanced (Task.erasing key in_l1) e v ok busy = erasing_lem key e v in_l1
