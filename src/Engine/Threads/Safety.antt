-- ===== src/Engine/Threads/Safety.antt =====
-- What clients can see while calls and the drainer interleave in any way.
use walde.Base.{
  ℕ, ◌≡◌, ◌≢◌, sym, ap, ◌∙◌, subst, Option, some, List, [], ◌∷◌, inl, inr, Bool-cases, ◌==◌,
}
use walde.Types.{Key, Value}
use walde.Slab.Yields.{Yields, yields}
use walde.Queue.{DemotionItem}
use walde.Queue.Kept.{AllItems, one_more}
use walde.Backend.{StorageBackend, IsStore}
use walde.Engine.{CacheEngine}
use walde.Engine.Kept.{EngineKeeps, pop-EngineKeeps, l2_put-EngineKeeps}
use walde.Engine.Threads.{Request, Task, Event, System, at_task, first_task, advance, Step, Steps}
use walde.Engine.Threads.Advance.{TaskOk, EventOk, Advanced, advance-Advanced}

-- A value that a client asks to store is `Ok`.
abbrev pub AskOk : (Key → Value → Type 0) → Event → Type 0
AskOk Ok (Event.asks (Request.put_of key value)) = Ok key value
AskOk Ok _ = Unit

-- The events contain a request to store the value for the key.
pub data Asked (key : Key) (value : Value) : List Event → Type 0 where
  here : {evs : List Event} → Asked key value (Event.asks (Request.put_of key value) ∷ evs)
  later : {ev : Event} {evs : List Event} → Asked key value evs → Asked key value (ev ∷ evs)

pub data AllAskOk (Ok : Key → Value → Type 0) : List Event → Type 0 where
  none_asked : AllAskOk Ok []
  and_asked :
      {ev : Event} {evs : List Event} → AskOk Ok ev → AllAskOk Ok evs → AllAskOk Ok (ev ∷ evs)

pub at_task-all :
    (P : Task → Type 0) (f : ℕ → Task) (i : ℕ) (t : Task)
    → ((j : ℕ) → P (f j))
    → P t
    → (j : ℕ) → P (at_task f i t j)
at_task-all P f i t h p j = elim (Bool-cases (i == j)) [ inl e ↦ rw e p | inr e ↦ rw e (h j) ]

module _ (Ok : Key → Value → Type 0) (xxh32 xxh64 : Key → ℕ → ℕ) {S : Type 0} (b : StorageBackend S)
    (stored : S → Key → Option Value) (store : IsStore b stored) where
  -- Every value anywhere in the system is `Ok`.
  pub record SystemKeeps (s : System S) : Type 0 where
    pub engine : EngineKeeps Ok xxh32 xxh64 stored s.engine
    pub tasks : (i : ℕ) → TaskOk Ok (s.task i)
    pub carried : AllItems Ok s.carried

  first_task-TaskOk : (r : Request) → AskOk Ok (Event.asks r) → TaskOk Ok (first_task r)
  first_task-TaskOk (Request.get_of key) ok = tt
  first_task-TaskOk (Request.put_of key value) ok = ok
  first_task-TaskOk (Request.remove_of key) ok = tt

  -- What a part of a call is known to leave.
  pub of_advance :
      (t : Task) (e e' : CacheEngine S) (ev : Event) (u : Task)
      → EngineKeeps Ok xxh32 xxh64 stored e
      → TaskOk Ok t
      → advance xxh32 xxh64 b t e ≡ some ((ev, u), e')
      → Advanced Ok xxh32 xxh64 b stored store t e (ev, u) e'
  of_advance t e e' ev u v ok p = at (
      subst (Yields (Advanced Ok xxh32 xxh64 b stored store t e)) p
        (advance-Advanced Ok xxh32 xxh64 b stored store t e v ok (busy t p)))
    where
      busy : (t : Task) → advance xxh32 xxh64 b t e ≡ some ((ev, u), e') → t ≢ Task.idle
      busy t p q =
          absurd (let r = sym (ap (λ z. advance xxh32 xxh64 b z e) q) ∙ p in unfold advance in cc)

      at :
          Yields (Advanced Ok xxh32 xxh64 b stored store t e) (some ((ev, u), e'))
          → Advanced Ok xxh32 xxh64 b stored store t e (ev, u) e'
      at (yields q) = q

  pub Step-SystemKeeps :
      (s u : System S) (ev : Event)
      → SystemKeeps s
      → AskOk Ok ev
      → Step xxh32 xxh64 b s ev u
      → SystemKeeps u × EventOk Ok ev
  Step-SystemKeeps s u ev v ok (Step.begin i r p) = (
    record {
      engine = v.engine;
      tasks = at_task-all (TaskOk Ok) s.task i (first_task r) v.tasks (first_task-TaskOk r ok);
      carried = v.carried;
    },
    tt,
  )
  Step-SystemKeeps s u ev v ok (Step.proceed i _ t e p) =
      let a = of_advance (s.task i) s.engine e ev t v.engine (v.tasks i) p in
      (
        record {
          engine = a.engine;
          tasks = at_task-all (TaskOk Ok) s.task i t v.tasks a.task;
          carried = v.carried;
        },
        a.event,
      )
  Step-SystemKeeps s u ev v ok (Step.pop q p r) =
      let (batch, k) = pop-EngineKeeps Ok xxh32 xxh64 stored s.engine v.engine q r in
      (record { engine = k; tasks = v.tasks; carried = batch }, tt)
  Step-SystemKeeps s u ev v ok (Step.insert item items l2 p r) =
      let (now, rest) = parts (subst (AllItems Ok) p v.carried) in
      let (m, q, k) = l2_put-EngineKeeps Ok xxh32 xxh64 stored s.engine v.engine item now in
      let same : m ≡ l2 = cc in
      (
        record {
          engine =
              subst (λ z. EngineKeeps Ok xxh32 xxh64 stored (record s.engine { l2_stripes = z }))
                same k;
          tasks = v.tasks;
          carried = rest;
        },
        tt,
      )
    where
      parts :
          {item : DemotionItem} {items : List DemotionItem}
          → AllItems Ok (item ∷ items)
          → Ok item.key item.value × AllItems Ok items
      parts (one_more x xs) = (x, xs)

  -- Steps from a state in which every value is `Ok`, with requests to store only such values.
  pub Steps-SystemKeeps :
      (s u : System S) (evs : List Event)
      → SystemKeeps s
      → AllAskOk Ok evs
      → Steps xxh32 xxh64 b s evs u
      → SystemKeeps u
  Steps-SystemKeeps s u evs v ok Steps.stay = v
  Steps-SystemKeeps s u evs v (and_asked p ps) (Steps.then {m} {ev} {evs = rest} x xs) =
      Steps-SystemKeeps m u rest (Step-SystemKeeps s m ev v p x).0 ps xs
