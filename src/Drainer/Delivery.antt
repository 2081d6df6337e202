-- ===== src/Drainer/Delivery.antt =====
-- What the drainer has handed over at any time.
use walde.Base.{
  ℕ, ◌^◌, ◌<◌, min, Bool, true, false, ◌≡◌, refl, sym, ap, ◌∙◌, subst, some, List, [], ◌∷◌, ◌++◌,
  ◌==◌, eq_of_==, inl, inr, Bool-cases, ltb, lt_of_ltb, le_of_ltb, length, length-append,
  length-take, append-take-drop, take, drop, arith,
}
use mathlib.Core.Path.{ap₂}
use mathlib.Core.List.{append-nil, append_assoc}
use walde.Base.Arith.{add64}
use walde.Queue.{DemotionItem, try_push, threshold}
use walde.Queue.Fifo.{IsQueue, try_push_below, try_push_above}
use walde.Queue.Pop.{try_pop_batch_lem}
use walde.Drainer.{InsertFn, Phase, DemotionDrainer, popped, taken, inserted, Step, Steps, IsSink}

-- The batch that the thread carries.
abbrev pub carried : Phase → List DemotionItem
carried (Phase.inserting n batch) = batch
carried (Phase.flushing batch) = batch
carried _ = []

-- The number that will be counted for it.
abbrev pub IsCounted : Phase → Type 0
IsCounted (Phase.inserting n batch) = n ≡ length batch
IsCounted _ = Unit

-- Of the items `all` that the queue of `d0` held or accepted since: those that are handed over, then
-- those that the thread carries, then those that wait.
pub record Delivered {S : Type 0} (k : ℕ) (insert : InsertFn S) (d0 : DemotionDrainer S)
    (all : List DemotionItem) (d : DemotionDrainer S) : Type 0 where
  pub handed : List DemotionItem
  pub waiting : List DemotionItem
  pub queue : IsQueue k d.queue waiting
  pub order : all ≡ handed ++ (carried d.phase ++ waiting)
  pub sink : insert handed d0.sink ≡ some d.sink
  pub count : d.drained ≡ add64 d0.drained (length handed)
  pub sized : IsCounted d.phase

module _ {S : Type 0} (k : ℕ) (d : DemotionDrainer S) (ws : List DemotionItem)
    (v : IsQueue k d.queue ws) where
  pub popped_lem :
      ((popped d).0 ≡ min 64 (length ws))
      × ((popped d).1 ≡ take 64 ws)
      × IsQueue k (popped d).2 (drop 64 ws)
  popped_lem = try_pop_batch_lem k d.queue ws [] 64 v

  -- An empty batch means an empty queue.
  pub polled : ((popped d).0 == 0) ≡ true → (ws ≡ []) × IsQueue k (popped d).2 []
  polled e = at ws refl
    where
      at : (xs : List DemotionItem) → ws ≡ xs → (ws ≡ []) × IsQueue k (popped d).2 []
      at [] p = (p, subst (λ z. IsQueue k (popped d).2 (drop 64 z)) p popped_lem.2)
      at (x ∷ xs) p =
          let l = ap length p in
          let m = eq_of_== (popped d).0 0 e in
          let n = popped_lem.0 in absurd (omega (arith, l, m, n))

module _ {S : Type 0} (k : ℕ) (insert : InsertFn S) (Good : S → Type 0) (law : IsSink insert Good)
    (d0 : DemotionDrainer S) (all : List DemotionItem) where
  -- A batch taken from the queue.
  take_batch :
      {d : DemotionDrainer S} (next : Phase)
      → Delivered k insert d0 all d
      → carried d.phase ≡ []
      → carried next ≡ (popped d).1
      → IsCounted next
      → Delivered k insert d0 all (taken next d)
  take_batch {d} next w empty new sized =
      let q = popped_lem k d w.waiting w.queue in
      record {
        handed = w.handed;
        waiting = drop 64 w.waiting;
        queue = q.2;
        order =
            w.order
            ∙ ap (λ z. w.handed ++ (z ++ w.waiting)) empty
            ∙ ap (◌++◌ w.handed) (
                sym (append-take-drop 64 w.waiting)
                ∙ ap (λ z. z ++ drop 64 w.waiting) (sym q.1 ∙ sym new));
        sink = w.sink;
        count = w.count;
        sized = sized;
      }

  -- A batch handed over.
  hand_over :
      {d : DemotionDrainer S} (n : ℕ) (s : S) (batch : List DemotionItem) (next : Phase)
      → Delivered k insert d0 all d
      → carried d.phase ≡ batch
      → n ≡ length batch
      → insert batch d.sink ≡ some s
      → carried next ≡ []
      → IsCounted next
      → Delivered k insert d0 all (inserted n s next d)
  hand_over {d} n s batch next w c e p empty sized = record {
    handed = w.handed ++ batch;
    waiting = w.waiting;
    queue = w.queue;
    order =
        w.order
        ∙ ap (λ z. w.handed ++ (z ++ w.waiting)) c
        ∙ sym (append_assoc w.handed batch w.waiting)
        ∙ sym (ap (λ z. (w.handed ++ batch) ++ (z ++ w.waiting)) empty);
    sink = law.in_a_row w.handed batch d0.sink d.sink w.sink ∙ p;
    count = omega (arith, w.count, e, length-append w.handed batch);
    sized = sized;
  }

-- The items accepted in a step are behind all that were accepted before.
module _ {S : Type 0} (k : ℕ) (insert : InsertFn S) (Good : S → Type 0) (law : IsSink insert Good)
    (d0 : DemotionDrainer S) where
  after_push :
      {all : List DemotionItem} {d : DemotionDrainer S} (item : DemotionItem)
      → Delivered k insert d0 all d
      → (try_push d.queue item).0 ≡ true
      → Delivered k insert d0 (all ++ item ∷ []) (record d { queue = (try_push d.queue item).1 })
  after_push {d = d} item w e = elim (Bool-cases (ltb (length w.waiting) (threshold d.queue))) [
    | inl p ↦ record {
      handed = w.handed;
      waiting = w.waiting ++ item ∷ [];
      queue = (try_push_below k d.queue w.waiting w.queue item (lt_of_ltb _ _ p)).1;
      order =
          ap (λ z. z ++ item ∷ []) w.order
          ∙ append_assoc w.handed (carried d.phase ++ w.waiting) (item ∷ [])
          ∙ ap (◌++◌ w.handed) (append_assoc (carried d.phase) w.waiting (item ∷ []));
      sink = w.sink;
      count = w.count;
      sized = w.sized;
    }
    | inr p ↦
        absurd (let q = (try_push_above k d.queue w.waiting w.queue item (le_of_ltb _ _ p)).0 in cc)
  ]

  after_refusal :
      {all : List DemotionItem} {d : DemotionDrainer S} (item : DemotionItem)
      → Delivered k insert d0 all d
      → (try_push d.queue item).0 ≡ false
      → Delivered k insert d0 all (record d { queue = (try_push d.queue item).1 })
  after_refusal {d = d} item w e = elim (Bool-cases (ltb (length w.waiting) (threshold d.queue))) [
    | inl p ↦
        absurd (let q = (try_push_below k d.queue w.waiting w.queue item (lt_of_ltb _ _ p)).0 in cc)
    | inr p ↦ record {
      handed = w.handed;
      waiting = w.waiting;
      queue = (try_push_above k d.queue w.waiting w.queue item (le_of_ltb _ _ p)).1;
      order = w.order;
      sink = w.sink;
      count = w.count;
      sized = w.sized;
    }
  ]

  -- A step that changes only the phase, or the flag.
  moved :
      {all : List DemotionItem} {d : DemotionDrainer S} (next : Phase) (running : Bool)
      → Delivered k insert d0 all d
      → carried next ≡ carried d.phase
      → IsCounted next
      → Delivered k insert d0 all (record d { running = running; phase = next })
  moved {all} next running w same sized = record {
    handed = w.handed;
    waiting = w.waiting;
    queue = w.queue;
    order = w.order ∙ ap (λ z. w.handed ++ (z ++ w.waiting)) (sym same);
    sink = w.sink;
    count = w.count;
    sized = sized;
  }

  -- A step that finds the queue empty.
  found_empty :
      {all : List DemotionItem} {d : DemotionDrainer S} (next : Phase)
      → Delivered k insert d0 all d
      → carried d.phase ≡ []
      → carried next ≡ []
      → IsCounted next
      → ((popped d).0 == 0) ≡ true
      → Delivered k insert d0 all (taken next d)
  found_empty {all} {d} next w before after sized e =
      let (none_waits, q) = polled k d w.waiting w.queue e in
      record {
        handed = w.handed;
        waiting = [];
        queue = q;
        order = w.order ∙ ap₂ (λ y z. w.handed ++ (y ++ z)) (before ∙ sym after) none_waits;
        sink = w.sink;
        count = w.count;
        sized = sized;
      }

  none_accepted :
      {all : List DemotionItem} {d : DemotionDrainer S}
      → Delivered k insert d0 all d
      → Delivered k insert d0 (all ++ []) d
  none_accepted {all} {d} = subst (λ z. Delivered k insert d0 z d) (sym (append-nil all))

  step-Delivered :
      {all xs : List DemotionItem} {d e : DemotionDrainer S}
      → Delivered k insert d0 all d
      → Step insert d xs e
      → Delivered k insert d0 (all ++ xs) e
  step-Delivered w (Step.push item p) = after_push item w p
  step-Delivered w (Step.refuse item p) = none_accepted (after_refusal item w p)
  step-Delivered {d = d} w (Step.enter f r) =
      none_accepted (moved Phase.popping d.running w (sym (ap carried f)) tt)
  step-Delivered {d = d} w (Step.leave f r) =
      none_accepted (moved Phase.draining d.running w (sym (ap carried f)) tt)
  step-Delivered {all} {d = d} w (Step.pop f e) =
      let q = popped_lem k d w.waiting w.queue in
      none_accepted (
        take_batch k insert Good law d0 all (Phase.inserting (popped d).0 (popped d).1) w
          (ap carried f) refl (q.0 ∙ sym (length-take 64 w.waiting) ∙ ap length (sym q.1)))
  step-Delivered w (Step.wait f e) =
      none_accepted (found_empty Phase.looping w (ap carried f) refl tt e)
  step-Delivered {all} w (Step.drain n batch sink f p) = none_accepted (
      hand_over k insert Good law d0 all n sink batch Phase.looping w (ap carried f)
        (subst IsCounted f w.sized) p refl tt)
  step-Delivered {d = d} w Step.stop = none_accepted (moved d.phase false w refl w.sized)
  step-Delivered {all} {d = d} w (Step.pop_last f e) =
      none_accepted
        (take_batch k insert Good law d0 all (Phase.flushing (popped d).1) w (ap carried f) refl tt)
  step-Delivered {all} w (Step.flush batch sink f p) = none_accepted (
      hand_over k insert Good law d0 all (length batch) sink batch Phase.draining w (ap carried f)
        refl p refl tt)
  step-Delivered w (Step.finish f e) =
      none_accepted (found_empty Phase.finished w (ap carried f) refl tt e)

  steps-Delivered :
      {all xs : List DemotionItem} {d e : DemotionDrainer S}
      → Delivered k insert d0 all d
      → Steps insert d xs e
      → Delivered k insert d0 (all ++ xs) e
  steps-Delivered {all} w Steps.rest = none_accepted w
  steps-Delivered {all} {e = e} w (Steps.then {xs} {ys} s t) =
      subst (λ z. Delivered k insert d0 z e) (append_assoc all xs ys)
        (steps-Delivered {all = all ++ xs} (step-Delivered w s) t)

  -- However the steps of a drainer that starts with no batch in hand, `stop` and the producers' pushes
  -- are interleaved: what was handed over, then what the thread carries, then what waits in the queue is
  -- what the queue held at first and then all items that it accepted, in order, none lost and none
  -- twice; the sink is as one batch of all items handed over leaves it, and the counter counts them.
  pub run-Delivered :
      (xs accepted : List DemotionItem) (d : DemotionDrainer S)
      → IsQueue k d0.queue xs
      → d0.phase ≡ Phase.looping
      → d0.drained < 2 ^ 64
      → Steps insert d0 accepted d
      → Delivered k insert d0 (xs ++ accepted) d
  run-Delivered xs accepted d v f small steps =
      steps-Delivered
        (record {
          handed = [];
          waiting = xs;
          queue = v;
          order = sym (ap (λ z. carried z ++ xs) f);
          sink = law.nothing d0.sink;
          count = omega (arith, small);
          sized = subst IsCounted (sym f) tt;
        })
        steps
