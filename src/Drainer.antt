-- ===== src/Drainer.antt =====
-- src/demotion_drainer.cpp and include/demotion_drainer.h: the thread that carries demoted entries
-- from the queue to a function that the owner gives. What the thread does between two looks at what it
-- shares with others is one step, and these steps, `stop` and the producers' pushes come in any order.
use walde.Base.{
  ℕ, zero, suc, ◌+◌, Bool, true, false, ◌≡◌, Option, none, some, List, [], ◌∷◌, ◌++◌, ◌==◌, length,
  if◌then◌else◌,
}
use walde.Base.Arith.{add64}
use walde.Queue.{DemotionItem, DemotionQueue, try_push, try_pop_batch}
pub mod Delivery
pub mod Final
mod Tests

-- `InsertFn`, on the state that it works on; `none` is a fault.
abbrev pub InsertFn : Type 0 → Type 0
InsertFn S = List DemotionItem → S → Option S

-- Where the thread is: at the test of the loop, before its pop, before the insertion of a batch of
-- `n` popped items, at the pop of the final drain, before the insertion of a batch there, at the end.
pub data Phase : Type 0 where
  looping popping : Phase
  inserting : ℕ → List DemotionItem → Phase
  draining : Phase
  flushing : List DemotionItem → Phase
  finished : Phase

pub record DemotionDrainer (S : Type 0) : Type 0 where
  pub queue : DemotionQueue
  pub sink : S
  pub running : Bool
  pub drained : ℕ
  pub phase : Phase

-- The constructor: the thread starts.
abbrev pub start : {S : Type 0} → DemotionQueue → S → DemotionDrainer S
start queue sink = record {
  queue = queue;
  sink = sink;
  running = true;
  drained = 0;
  phase = Phase.looping;
}

-- `queue_.try_pop_batch(batch, 64)` after `batch.clear()`
abbrev pub popped : {S : Type 0} → DemotionDrainer S → ℕ × List DemotionItem × DemotionQueue
popped d = try_pop_batch d.queue [] 64

-- The queue has given a batch.
abbrev pub taken : {S : Type 0} → Phase → DemotionDrainer S → DemotionDrainer S
taken next d = record d { queue = (popped d).2; phase = next }

-- `insert_fn_(batch)` left `sink`, and `n` is added to the counter.
abbrev pub inserted : {S : Type 0} → ℕ → S → Phase → DemotionDrainer S → DemotionDrainer S
inserted n sink next d = record d { sink = sink; drained = add64 d.drained n; phase = next }

-- The final drain as a function; fuel bounds the rounds.
unfoldable pub final_drain :
    {S : Type 0} → InsertFn S → ℕ → DemotionDrainer S → Option (DemotionDrainer S)
final_drain insert zero d = none
final_drain insert (suc n) d =
    if (popped d).0 == 0 then some (taken Phase.finished d) else elim (insert (popped d).1 d.sink) [
      | none ↦ none
      | some sink ↦
          final_drain insert n
            (inserted (length (popped d).1) sink Phase.draining (taken Phase.draining d))
    ]

-- A step, with the items that the queue accepts in it.
pub data Step {S : Type 0} (insert : InsertFn S)
    : DemotionDrainer S → List DemotionItem → DemotionDrainer S → Type 0 where
  push :
      {d : DemotionDrainer S} (item : DemotionItem)
      → (try_push d.queue item).0 ≡ true
      → Step insert d (item ∷ []) (record d { queue = (try_push d.queue item).1 })
  refuse :
      {d : DemotionDrainer S} (item : DemotionItem)
      → (try_push d.queue item).0 ≡ false
      → Step insert d [] (record d { queue = (try_push d.queue item).1 })
  enter :
      {d : DemotionDrainer S}
      → d.phase ≡ Phase.looping
      → d.running ≡ true
      → Step insert d [] (record d { phase = Phase.popping })
  leave :
      {d : DemotionDrainer S}
      → d.phase ≡ Phase.looping
      → d.running ≡ false
      → Step insert d [] (record d { phase = Phase.draining })
  pop :
      {d : DemotionDrainer S}
      → d.phase ≡ Phase.popping
      → ((popped d).0 == 0) ≡ false
      → Step insert d [] (taken (Phase.inserting (popped d).0 (popped d).1) d)
  wait :
      {d : DemotionDrainer S}
      → d.phase ≡ Phase.popping
      → ((popped d).0 == 0) ≡ true
      → Step insert d [] (taken Phase.looping d)
  drain :
      {d : DemotionDrainer S} (n : ℕ) (batch : List DemotionItem) (sink : S)
      → d.phase ≡ Phase.inserting n batch
      → insert batch d.sink ≡ some sink
      → Step insert d [] (inserted n sink Phase.looping d)
  stop : {d : DemotionDrainer S} → Step insert d [] (record d { running = false })
  pop_last :
      {d : DemotionDrainer S}
      → d.phase ≡ Phase.draining
      → ((popped d).0 == 0) ≡ false
      → Step insert d [] (taken (Phase.flushing (popped d).1) d)
  flush :
      {d : DemotionDrainer S} (batch : List DemotionItem) (sink : S)
      → d.phase ≡ Phase.flushing batch
      → insert batch d.sink ≡ some sink
      → Step insert d [] (inserted (length batch) sink Phase.draining d)
  finish :
      {d : DemotionDrainer S}
      → d.phase ≡ Phase.draining
      → ((popped d).0 == 0) ≡ true
      → Step insert d [] (taken Phase.finished d)

-- Steps in a row, with all the items that the queue accepts, in order.
pub data Steps {S : Type 0} (insert : InsertFn S)
    : DemotionDrainer S → List DemotionItem → DemotionDrainer S → Type 0 where
  rest : {d : DemotionDrainer S} → Steps insert d [] d
  then :
      {d m e : DemotionDrainer S} {xs ys : List DemotionItem}
      → Step insert d xs m
      → Steps insert m ys e
      → Steps insert d (xs ++ ys) e

-- What the drainer relies on: the function never faults on a good state and leaves a good one, and
-- two batches in a row are one batch.
pub record IsSink {S : Type 0} (insert : InsertFn S) (Good : S → Type 0) : Type 0 where
  pub total :
      (xs : List DemotionItem) (s : S) → Good s → (s' : S) × (insert xs s ≡ some s') × Good s'
  pub nothing : (s : S) → insert [] s ≡ some s
  pub in_a_row :
      (xs ys : List DemotionItem) (s m : S)
      → insert xs s ≡ some m
      → insert (xs ++ ys) s ≡ insert ys m
