-- ===== src/Engine/Threads/Reads.antt =====
-- Runs in which clients only look up: the levels, the demotion queue and the drainer never change what
-- a client sees.
use walde.Base.{
  ℕ, ◌≡◌, refl, sym, ◌∙◌, true, false, Option, some, List, [], ◌∷◌, inl, inr, Option-cases,
}
use walde.Types.{Key, Value}
use walde.Backend.{StorageBackend, IsStore}
use walde.Engine.Threads.{Request, Event, System, first_task, Step, Steps}
use walde.Engine.Threads.Advance.{is_lookup, Missing, EventOk}
use walde.Engine.Threads.Safety.{AskOk, SystemKeeps, Step-SystemKeeps, of_advance, at_task-all}

-- The request is a lookup, if the event is a request.
abbrev pub IsRead : Event → Type 0
IsRead (Event.asks (Request.get_of key)) = Unit
IsRead (Event.asks _) = true ≡ false
IsRead _ = Unit

pub data AllReads : List Event → Type 0 where
  no_requests : AllReads []
  and_reads : {ev : Event} {evs : List Event} → IsRead ev → AllReads evs → AllReads (ev ∷ evs)

module _ (xxh32 xxh64 : Key → ℕ → ℕ) {S : Type 0} (b : StorageBackend S)
    (stored : S → Key → Option Value) (store : IsStore b stored) (f : Key → Option Value) where
  -- The value that `f` has for a key.
  abbrev pub Of : Key → Value → Type 0
  Of k w = f k ≡ some w

  -- Every value in the system is the value of `f` for its key, the backend stores `f`, and all calls
  -- are lookups.
  pub record Reading (s : System S) : Type 0 where
    pub keeps : SystemKeeps Of xxh32 xxh64 b stored store s
    pub backend : (k : Key) → stored s.engine.backend k ≡ f k
    pub lookups : (i : ℕ) → is_lookup (s.task i) ≡ true

  -- What a client gets is what `f` has.
  abbrev pub Exact : Event → Type 0
  Exact (Event.answers key r) = r ≡ f key
  Exact _ = Unit

  exact :
      (ev : Event) (g : Key → Option Value)
      → ((k : Key) → g k ≡ f k)
      → EventOk Of ev
      → Missing g ev
      → Exact ev
  exact (Event.answers key r) g same ok missing = elim (Option-cases r) [
    | inl p ↦ p ∙ sym (sym (same key) ∙ missing p)
    | inr (w, p) ↦ p ∙ sym (ok w p)
  ]
  exact (Event.asks r) g same ok missing = tt
  exact (Event.has_put key value made) g same ok missing = tt
  exact (Event.has_removed key r) g same ok missing = tt
  exact Event.nothing g same ok missing = tt

  read_ok : (ev : Event) → IsRead ev → AskOk Of ev
  read_ok (Event.asks (Request.get_of key)) p = tt
  read_ok (Event.asks (Request.put_of key value)) p = absurd cc
  read_ok (Event.asks (Request.remove_of key)) p = tt
  read_ok (Event.answers key r) p = tt
  read_ok (Event.has_put key value made) p = tt
  read_ok (Event.has_removed key r) p = tt
  read_ok Event.nothing p = tt

  first_lookup : (r : Request) → IsRead (Event.asks r) → is_lookup (first_task r) ≡ true
  first_lookup (Request.get_of key) p = refl
  first_lookup (Request.put_of key value) p = absurd cc
  first_lookup (Request.remove_of key) p = absurd cc

  pub Step-Reading :
      (s u : System S) (ev : Event)
      → Reading s
      → IsRead ev
      → Step xxh32 xxh64 b s ev u
      → Reading u × Exact ev
  Step-Reading s u ev v ok x =
      let (k, q) =
        Step-SystemKeeps Of xxh32 xxh64 b stored store s u ev v.keeps (read_ok ev ok) x in
      rest s u ev v ok x k q
    where
      rest :
          (s u : System S) (ev : Event)
          → Reading s
          → IsRead ev
          → Step xxh32 xxh64 b s ev u
          → SystemKeeps Of xxh32 xxh64 b stored store u
          → EventOk Of ev
          → Reading u × Exact ev
      rest s u ev v ok (Step.begin i r p) k q = (
        record {
          keeps = k;
          backend = v.backend;
          lookups =
              at_task-all (λ t. is_lookup t ≡ true) s.task i (first_task r) v.lookups
                (first_lookup r ok);
        },
        tt,
      )
      rest s u ev v ok (Step.proceed i _ t e p) k q =
          let a =
            of_advance Of xxh32 xxh64 b stored store (s.task i) s.engine e ev t v.keeps.engine
              (v.keeps.tasks i) p in
          let (l, same, missing) = a.reads (v.lookups i) in
          (
            record {
              keeps = k;
              backend = λ j. same j ∙ v.backend j;
              lookups = at_task-all (λ t. is_lookup t ≡ true) s.task i t v.lookups l;
            },
            exact ev (stored s.engine.backend) v.backend q missing,
          )
      rest s u ev v ok (Step.pop _ _ _) k q =
          (record { keeps = k; backend = v.backend; lookups = v.lookups }, tt)
      rest s u ev v ok (Step.insert _ _ _ _ _) k q =
          (record { keeps = k; backend = v.backend; lookups = v.lookups }, tt)

  pub Steps-Reading :
      (s u : System S) (evs : List Event)
      → Reading s
      → AllReads evs
      → Steps xxh32 xxh64 b s evs u
      → Reading u
  Steps-Reading s u evs v ok Steps.stay = v
  Steps-Reading s u evs v (and_reads p ps) (Steps.then {m} {ev} {evs = rest} x xs) =
      Steps-Reading m u rest (Step-Reading s m ev v p x).0 ps xs
