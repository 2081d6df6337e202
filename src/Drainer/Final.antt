-- ===== src/Drainer/Final.antt =====
-- The final drain ends and empties the queue.
use walde.Base.{
  ℕ, zero, suc, ◌^◌, ◌<◌, false, ◌≡◌, refl, sym, ap, ◌∙◌, some, List, [], ◌++◌, ◌==◌, ne_of_==, inl,
  inr, Bool-cases, length, length-take, length-drop, append-take-drop, drop, arith,
}
use walde.Base.Arith.{add64}
use walde.Queue.{DemotionItem}
use walde.Queue.Fifo.{IsQueue}
use walde.Drainer.{
  InsertFn, Phase, DemotionDrainer, popped, taken, inserted, final_drain, Step, Steps, IsSink,
}
use walde.Drainer.Delivery.{popped_lem, polled}

module _ {S : Type 0} (k : ℕ) (insert : InsertFn S) (Good : S → Type 0) where
  -- The end of the drain from `d`, whose queue held `xs`.
  pub record Emptied (d : DemotionDrainer S) (xs : List DemotionItem) (e : DemotionDrainer S)
      : Type 0 where
    pub phase : e.phase ≡ Phase.finished
    pub queue : IsQueue k e.queue []
    pub good : Good e.sink
    pub sink : insert xs d.sink ≡ some e.sink
    pub count : e.drained ≡ add64 d.drained (length xs)
    pub reached : d.phase ≡ Phase.draining → Steps insert d [] e

module _ {S : Type 0} (k : ℕ) (insert : InsertFn S) (Good : S → Type 0)
    (law : IsSink insert Good) where
  one_round :
      (d e : DemotionDrainer S) (xs : List DemotionItem) (s : S)
      → IsQueue k d.queue xs
      → ((popped d).0 == 0) ≡ false
      → insert (popped d).1 d.sink ≡ some s
      → Emptied k insert Good
          (inserted (length (popped d).1) s Phase.draining (taken Phase.draining d))
          (drop 64 xs)
          e
      → Emptied k insert Good d xs e
  one_round d e xs s v n p w =
      let q = popped_lem k d xs v in
      record {
        phase = w.phase;
        queue = w.queue;
        good = w.good;
        sink =
            ap (λ z. insert z d.sink)
              (sym (append-take-drop 64 xs) ∙ ap (λ z. z ++ drop 64 xs) (sym q.1))
            ∙ law.in_a_row (popped d).1 (drop 64 xs) d.sink s p
            ∙ w.sink;
        count =
            let l = ap length q.1 ∙ length-take 64 xs in
            omega (arith, w.count, l, length-drop 64 xs);
        reached = λ f.
            Steps.then (Step.pop_last f n)
              (Steps.then (Step.flush (popped d).1 s refl p) (w.reached refl));
      }

  -- With more fuel than items, the final drain never faults and ends: it hands over all items that the
  -- queue holds, in order, counts them and leaves the queue empty, in steps of the drainer alone.
  pub final_drain-Emptied :
      (n : ℕ) (d : DemotionDrainer S) (xs : List DemotionItem)
      → IsQueue k d.queue xs
      → Good d.sink
      → d.drained < 2 ^ 64
      → length xs < n
      → (e : DemotionDrainer S) × (final_drain insert n d ≡ some e) × Emptied k insert Good d xs e
  unfolding final_drain
  final_drain-Emptied zero d xs v g small h = absurd (omega arith)
  final_drain-Emptied (suc n) d xs v g small h = elim (Bool-cases ((popped d).0 == 0)) [
    | inl p ↦
        let (empty, q) = polled k d xs v p in
        (
          taken Phase.finished d,
          rw (final_drain, p) refl,
          record {
            phase = refl;
            queue = q;
            good = g;
            sink = ap (λ z. insert z d.sink) empty ∙ law.nothing d.sink;
            count = omega (arith, small, ap length empty);
            reached = λ f. Steps.then (Step.finish f p) Steps.rest;
          },
        )
    | inr p ↦
        let (s, r, g') = law.total (popped d).1 d.sink g in
        let q = popped_lem k d xs v in
        let some_popped = ne_of_== (popped d).0 0 p in
        let (e, f, w) =
          final_drain-Emptied n
            (inserted (length (popped d).1) s Phase.draining (taken Phase.draining d)) (drop 64 xs)
            q.2 g' (omega arith)
            (let m = q.0 in omega (arith, some_popped, m, length-drop 64 xs)) in
        (e, rw (final_drain, p) (rw r f), one_round d e xs s v p r w)
  ]
