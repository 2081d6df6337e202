-- ===== src/Engine/Threads/Start.antt =====
-- Runs of the engine from its construction.
use walde.Base.{
  ℕ, ◌+◌, ◌<◌, ◌≤◌, ◌^◌, ◌≡◌, ◌⊎◌, refl, Option, some, List, [], ◌∷◌, inl, inr, length,
}
use walde.Types.{Key, Value, num_stripes, invalid_index}
use walde.Queue.Init.{init-IsQueue}
use walde.Queue.Kept.{no_items}
use walde.Stripe.{built}
use walde.Backend.{StorageBackend, IsStore}
use walde.Engine.Init.{assembled, init-IsEngine}
use walde.Engine.Threads.{Request, Task, Event, System, Step, Steps}
use walde.Engine.Threads.Safety.{
  AskOk, Asked, here, later, AllAskOk, none_asked, and_asked, SystemKeeps, Step-SystemKeeps,
  Steps-SystemKeeps,
}
use walde.Engine.Threads.Progress.{Alone, ends, rank_bound}
use walde.Engine.Threads.Reads.{AllReads, Step-Reading, Steps-Reading}

-- With what is stored for a client's request, all requests of `evs` are in order.
AllAskOk-weaken :
    {P Q : Key → Value → Type 0} {evs : List Event}
    → ((k : Key) (w : Value) → P k w → Q k w)
    → AllAskOk P evs
    → AllAskOk Q evs
AllAskOk-weaken h none_asked = none_asked
AllAskOk-weaken {P} {Q} h (and_asked {ev} p ps) = and_asked (one ev p) (AllAskOk-weaken h ps)
  where
    one : (ev : Event) → AskOk P ev → AskOk Q ev
    one (Event.asks (Request.put_of key value)) p = h key value p
    one (Event.asks (Request.get_of key)) p = tt
    one (Event.asks (Request.remove_of key)) p = tt
    one (Event.answers key r) p = tt
    one (Event.has_put key value made) p = tt
    one (Event.has_removed key r) p = tt
    one Event.nothing p = tt

-- Every value that a client asks to store is asked for.
every_request : (evs : List Event) → AllAskOk (λ k w. Asked k w evs) evs
every_request [] = none_asked
every_request (ev ∷ evs) = and_asked (one ev) (AllAskOk-weaken (λ k w. later) (every_request evs))
  where
    one : (ev : Event) → AskOk (λ k w. Asked k w (ev ∷ evs)) ev
    one (Event.asks (Request.put_of key value)) = here
    one (Event.asks (Request.get_of key)) = tt
    one (Event.asks (Request.remove_of key)) = tt
    one (Event.answers key r) = tt
    one (Event.has_put key value made) = tt
    one (Event.has_removed key r) = tt
    one Event.nothing = tt

module _ (window_part probation_part : ℕ → ℕ) (smaller : (n : ℕ) → 0 < n → probation_part n < n)
    (total : ℕ) (word : total + num_stripes ≤ invalid_index) {S : Type 0}
    (l2_capacity demotion_queue_size : ℕ) (backend : S) where
  -- The engine that the constructor builds, before any call.
  abbrev pub started : System S
  started = record {
    engine =
        assembled window_part probation_part smaller total word l2_capacity demotion_queue_size
          backend;
    task = λ _. Task.idle;
    carried = [];
  }

  module _ (small : demotion_queue_size ≤ 2 ^ 31) (xxh32 xxh64 : Key → ℕ → ℕ) (b : StorageBackend S)
      (stored : S → Key → Option Value) (store : IsStore b stored) where
    started-SystemKeeps :
        (Ok : Key → Value → Type 0)
        → ((k : Key) (w : Value) → stored backend k ≡ some w → Ok k w)
        → SystemKeeps Ok xxh32 xxh64 b stored store started
    unfolding built
    started-SystemKeeps Ok h =
        let (_, valid, _, _) =
          init-IsEngine window_part probation_part smaller total word l2_capacity
            demotion_queue_size backend xxh32 xxh64 b stored store in
        let (k, queue, _, _) = init-IsQueue demotion_queue_size small in
        record {
          engine = record {
            valid = valid;
            first = record {
              entries = λ j l i w e. absurd cc;
              queue = record { k = k; items = []; queue = queue; all = no_items };
            };
            second = λ i w e. absurd cc;
            below = h;
          };
          tasks = λ _. tt;
          carried = no_items;
        }

    -- In any interleaving of calls and the drainer's steps after construction, a value that a lookup
    -- gives for a key is one that a client asked before to store for that key, or one that the backend
    -- stored for it at the start, if the probation share of every main capacity above 0 is smaller than
    -- it, the total capacity and 64 more slots fit the slab's indices (total + 64 ≤ 2^32 - 1), and the
    -- demotion queue was asked for at most 2^31 slots.
    pub answers-Asked :
        (evs : List Event) (m u : System S) (key : Key) (w : Value)
        → Steps xxh32 xxh64 b started evs m
        → Step xxh32 xxh64 b m (Event.answers key (some w)) u
        → Asked key w evs ⊎ (stored backend key ≡ some w)
    answers-Asked evs m u key w xs x =
        let keeps =
          Steps-SystemKeeps (λ k v. Asked k v evs ⊎ (stored backend k ≡ some v)) xxh32 xxh64 b
            stored store started m evs
            (started-SystemKeeps (λ k v. Asked k v evs ⊎ (stored backend k ≡ some v))
              (λ k v e. inr e))
            (AllAskOk-weaken (λ k v. inl) (every_request evs)) xs in
        (Step-SystemKeeps (λ k v. Asked k v evs ⊎ (stored backend k ≡ some v)) xxh32 xxh64 b stored
            store m u (Event.answers key (some w)) keeps tt x).1
          w refl

    -- While clients only look up, in any interleaving of lookups and the drainer's steps after
    -- construction, a lookup gives exactly what the backend stored for the key at the start, if the
    -- probation share of every main capacity above 0 is smaller than it, the total capacity and 64 more
    -- slots fit the slab's indices (total + 64 ≤ 2^32 - 1), and the demotion queue was asked for at most
    -- 2^31 slots.
    pub answers-stored :
        (evs : List Event) (m u : System S) (key : Key) (r : Option Value)
        → AllReads evs
        → Steps xxh32 xxh64 b started evs m
        → Step xxh32 xxh64 b m (Event.answers key r) u
        → r ≡ stored backend key
    answers-stored evs m u key r reads xs x =
        let v =
          Steps-Reading xxh32 xxh64 b stored store (stored backend) started m evs
            (record {
              keeps = started-SystemKeeps (λ k w. stored backend k ≡ some w) (λ k w e. e);
              backend = λ k. refl;
              lookups = λ _. refl;
            })
            reads xs in
        (Step-Reading xxh32 xxh64 b stored store (stored backend) m u (Event.answers key r) v tt
          x).1

    -- In every state that construction, calls and the drainer's steps lead to, a thread in a call can
    -- end it by at most four steps of its own, whatever the other threads are at: no call waits for
    -- another, and no part of a call faults, if the probation share of every main capacity above 0 is
    -- smaller than it, the total capacity and 64 more slots fit the slab's indices
    -- (total + 64 ≤ 2^32 - 1), and the demotion queue was asked for at most 2^31 slots.
    pub calls-end :
        (evs : List Event) (m : System S) (i : ℕ)
        → Steps xxh32 xxh64 b started evs m
        → (own : List Event) × (u : System S) × Alone xxh32 xxh64 b i m own u
          × (u.task i ≡ Task.idle)
          × (length own ≤ 4)
    calls-end evs m i xs = ends xxh32 xxh64 b stored store 4 i m (rank_bound (m.task i)) (
        Steps-SystemKeeps (λ _ _. Unit) xxh32 xxh64 b stored store started m evs
          (started-SystemKeeps (λ _ _. Unit) (λ _ _ _. tt))
          (AllAskOk-weaken (λ _ _ _. tt) (every_request evs)) xs)
