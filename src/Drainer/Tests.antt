-- ===== src/Drainer/Tests.antt =====
-- A drainer between a queue of four and the second level: witnesses.
use walde.Base.{
  ℕ, zero, suc, ◌+◌, ◌≡◌, true, false, refl, some, [], ◌∷◌, arith, if◌then◌else◌, str_eq,
}
use walde.Types.{Key}
use walde.Queue.{DemotionItem, DemotionQueue, empty_item, threshold, try_push}
use walde.Queue.Fifo.{IsQueue}
use walde.L2.{empty_stripe}
use walde.L2.Stripes.{empty_stripe-IsL2}
use walde.Engine.{L2Stripes, l2_put_batch}
use walde.Engine.Levels.{IsLevel}
use walde.Engine.Sink.{l2_put_batch-IsSink}
use walde.Drainer.{DemotionDrainer, Phase, start, InsertFn, final_drain, Step, Steps}
use walde.Drainer.Delivery.{Delivered, run-Delivered}
use walde.Drainer.Final.{Emptied, final_drain-Emptied}

abbrev hash_row : Key → ℕ → ℕ
hash_row _ row = row

abbrev hash_name : Key → ℕ → ℕ
hash_name key seed = if str_eq key "a" then seed + 5 else seed

abbrev item_a : DemotionItem
item_a = record { key = "a"; value = "1"; frequency = 3 }

abbrev item_b : DemotionItem
item_b = record { key = "b"; value = "2"; frequency = 1 }

abbrev queue : DemotionQueue
queue = record {
  capacity = 4;
  mask = 3;
  buffer = λ i. elim i [ zero ↦ item_a | suc _ ↦ empty_item ];
  write_pos = 1;
  read_pos = 0;
  drops = 0;
}

queue-IsQueue : IsQueue 2 queue (item_a ∷ [])
queue-IsQueue = record {
  capacity = refl;
  mask = refl;
  small = omega arith;
  read = omega arith;
  write = refl;
  bound = omega arith;
  items = (refl, tt);
}

-- Two entries to a stripe.
abbrev into_level : InsertFn L2Stripes
into_level = l2_put_batch hash_row hash_name 2

abbrev empty_level : L2Stripes
empty_level _ = empty_stripe

empty-IsLevel : IsLevel 2 empty_level
empty-IsLevel i h = empty_stripe-IsL2 2

abbrev drainer : DemotionDrainer L2Stripes
drainer = start queue empty_level

accepts : (try_push queue item_b).0 ≡ true
unfolding try_push threshold
accepts = refl

-- A producer pushes, then the drainer is told to stop and leaves its loop.
abbrev stopped : DemotionDrainer L2Stripes
stopped = record drainer {
  queue = (try_push queue item_b).1;
  running = false;
  phase = Phase.draining;
}

steps : Steps into_level drainer (item_b ∷ []) stopped
steps =
    Steps.then (Step.push item_b accepts)
      (Steps.then Step.stop (Steps.then (Step.leave refl refl) Steps.rest))

run-Delivered_example : Delivered 2 into_level drainer (item_a ∷ item_b ∷ []) stopped
run-Delivered_example =
    run-Delivered 2 into_level (IsLevel 2) (l2_put_batch-IsSink hash_row hash_name 2 (omega arith))
      drainer (item_a ∷ []) (item_b ∷ []) stopped queue-IsQueue refl (omega arith) steps

final_drain-Emptied_example :
    (e : DemotionDrainer L2Stripes) × (final_drain into_level 2 drainer ≡ some e)
    × Emptied 2 into_level (IsLevel 2) drainer (item_a ∷ []) e
final_drain-Emptied_example =
    final_drain-Emptied 2 into_level (IsLevel 2)
      (l2_put_batch-IsSink hash_row hash_name 2 (omega arith)) 2 drainer (item_a ∷ []) queue-IsQueue
      empty-IsLevel (omega arith) (omega arith)
