-- ===== src/Engine/Threads.antt =====
-- src/cache_engine.cpp: calls of `get`, `put` and `remove` on several threads, and the drainer, all
-- at once. A call is cut where it leaves one lock and takes the next: between two cuts it works on a
-- single stripe, on the backend, or on a single stripe of the second level, and that is one step. The
-- drainer pops a batch in one step and inserts each item of it in one.
pub mod Advance
pub mod Safety
pub mod Reads
pub mod Progress
pub mod Calls
pub mod Alone
mod Tests
pub mod Start
use walde.Base.{
  ℕ, zero, suc, ◌==◌, Bool, true, false, ◌||◌, ◌≡◌, Option, none, some, List, [], ◌∷◌, ◌++◌,
  if◌then◌else◌,
}
use walde.Types.{Key, Value}
use walde.Slab.{and_then}
use walde.Queue.{DemotionItem, DemotionQueue, try_pop_batch}
use walde.Striped
use walde.Backend.{StorageBackend}
use walde.Engine.{CacheEngine, L2Stripes, Call, on_l1, on_l2, on_backend, l2_get, l2_put, l2_remove}

-- What a client asks for.
pub data Request : Type 0 where
  get_of : Key → Request
  put_of : Key → Value → Request
  remove_of : Key → Request

-- Where a thread is: in no call, or before the next part of one.
pub data Task : Type 0 where
  idle : Task
  looking looking_below reading : Key → Task
  rescuing writing caching : Key → Value → Task
  removing : Key → Task
  removing_below erasing : Key → Bool → Task

-- What a client sees.
pub data Event : Type 0 where
  asks : Request → Event
  answers : Key → Option Value → Event
  has_put : Key → Value → Bool → Event
  has_removed : Key → Bool → Event
  nothing : Event

abbrev pub first_task : Request → Task
first_task (get_of key) = Task.looking key
first_task (put_of key value) = Task.writing key value
first_task (remove_of key) = Task.removing key

-- What the thread does with the result of a part of the call.
abbrev pub looked : Key → Option Value → Event × Task
looked key (some value) = (Event.answers key (some value), Task.idle)
looked key none = (Event.nothing, Task.looking_below key)

abbrev pub looked_below : Key → Option Value → Event × Task
looked_below key (some value) = (Event.nothing, Task.rescuing key value)
looked_below key none = (Event.nothing, Task.reading key)

abbrev pub was_read : Key → Option Value → Event × Task
was_read key (some value) = (Event.nothing, Task.rescuing key value)
was_read key none = (Event.answers key none, Task.idle)

-- A part of the call, and what follows from its result.
abbrev pub part : {S A : Type 0} → Call S A → (A → Event × Task) → Call S (Event × Task)
part op next e = and_then (op e) λ a e'. some (next a, e')

abbrev pub removed_below :
    {S : Type 0} → CacheEngine S → Option L2Stripes → Option {0} (Unit × CacheEngine S)
removed_below e none = none
removed_below e (some l2) = some (tt, record e { l2_stripes = l2 })

module _ (xxh32 xxh64 : Key → ℕ → ℕ) {S : Type 0} (b : StorageBackend S) where
  -- The next part of a call; none if the thread is in no call, or at a fault.
  unfoldable pub advance : Task → Call S (Event × Task)
  advance Task.idle e = none
  advance (Task.looking key) e = part (on_l1 (Striped.get xxh32 xxh64 key)) (looked key) e
  advance (Task.looking_below key) e = part (on_l2 (l2_get xxh32 xxh64 key)) (looked_below key) e
  advance (Task.reading key) e = part (on_backend (b.get key)) (was_read key) e
  advance (Task.rescuing key value) e =
      part (on_l1 (Striped.put xxh32 xxh64 key value))
        (λ _. (Event.answers key (some value), Task.idle)) e
  advance (Task.writing key value) e =
      part (on_backend (b.put key value)) (λ _. (Event.nothing, Task.caching key value)) e
  advance (Task.caching key value) e =
      part (on_l1 (Striped.put xxh32 xxh64 key value))
        (λ made. (Event.has_put key value made, Task.idle)) e
  advance (Task.removing key) e =
      part (on_l1 (Striped.remove xxh32 xxh64 key))
        (λ in_l1. (Event.nothing, Task.removing_below key in_l1)) e
  advance (Task.removing_below key in_l1) e =
      part (λ e'. removed_below e' (l2_remove xxh32 xxh64 key e'.l2_stripes))
        (λ _. (Event.nothing, Task.erasing key in_l1)) e
  advance (Task.erasing key in_l1) e =
      part (on_backend (b.remove key))
        (λ in_backend. (Event.has_removed key (in_l1 || in_backend), Task.idle)) e

  -- A call that no other thread interrupts: parts until the last one, which says what the client
  -- sees; fuel bounds the parts.
  unfoldable pub alone : ℕ → Task → Call S Event
  unfolding advance
  alone zero t e = none
  alone (suc n) t e =
      and_then (advance t e) λ a e'. elim a.1 [ Task.idle ↦ some (a.0, e') | _ ↦ alone n a.1 e' ]

-- The threads over the engine, and the items of the batch that the drainer has popped and not yet
-- inserted.
pub record System (S : Type 0) : Type 0 where
  pub engine : CacheEngine S
  pub task : ℕ → Task
  pub carried : List DemotionItem

-- A thread is at a task.
abbrev pub at_task : (ℕ → Task) → ℕ → Task → ℕ → Task
at_task f i t j = if i == j then t else f j

-- The queue that the stripes share after it has given a batch to the drainer.
abbrev pub drained : {S : Type 0} → CacheEngine S → DemotionQueue → CacheEngine S
drained e q = record e { l1 = Striped.set_demotion_queue (some (try_pop_batch q [] 64).2) e.l1 }

module _ (xxh32 xxh64 : Key → ℕ → ℕ) {S : Type 0} (b : StorageBackend S) where
  -- A step of the system and what a client sees of it.
  pub data Step : System S → Event → System S → Type 0 where
    begin :
        {s : System S} (i : ℕ) (r : Request)
        → s.task i ≡ Task.idle
        → Step s (Event.asks r) (record s { task = at_task s.task i (first_task r) })
    proceed :
        {s : System S} (i : ℕ) (ev : Event) (t : Task) (e : CacheEngine S)
        → advance xxh32 xxh64 b (s.task i) s.engine ≡ some ((ev, t), e)
        → Step s ev (record s { engine = e; task = at_task s.task i t })
    pop :
        {s : System S} (q : DemotionQueue)
        → s.carried ≡ []
        → s.engine.l1.demotion_queue ≡ some q
        → Step s Event.nothing
            (record s { engine = drained s.engine q; carried = (try_pop_batch q [] 64).1 })
    insert :
        {s : System S} (item : DemotionItem) (items : List DemotionItem) (l2 : L2Stripes)
        → s.carried ≡ item ∷ items
        → l2_put xxh32 xxh64 s.engine.l2_capacity_per_stripe item s.engine.l2_stripes ≡ some l2
        → Step s Event.nothing
            (record s { engine = record s.engine { l2_stripes = l2 }; carried = items })

  -- Steps in a row, with what the clients see, in order.
  pub data Steps : System S → List Event → System S → Type 0 where
    stay : {s : System S} → Steps s [] s
    then :
        {s m u : System S} {ev : Event} {evs : List Event}
        → Step s ev m
        → Steps m evs u
        → Steps s (ev ∷ evs) u
