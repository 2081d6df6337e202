-- ===== src/Engine/Threads/Tests.antt =====
-- Runs of the system on small inputs.
use walde.Base.{
  ℕ, ◌<◌, ◌+◌, ◌/◌, ◌≤◌, ◌⊎◌, length, false, ◌≡◌, refl, Option, none, some, List, [], ◌∷◌, arith,
  str_eq, if◌then◌else◌,
}
use walde.Types.{Key}
use walde.Striped
use walde.Stripe
use walde.Engine.{CacheEngine}
use walde.Backend.{InMemoryBackend, in_memory}
use walde.Engine.Init.{assembled, init-IsEngine}
use walde.Backend.Store.{in_memory-IsStore}
use walde.Engine.Threads.Advance.{rank}
use walde.Engine.Threads.Safety.{Asked}
use walde.Engine.Threads.Reads.{AllReads, no_requests, and_reads}
use walde.Engine.Threads.Progress.{Alone}
use walde.Slab.Yields.{Yields}
use walde.Engine.Lookup.{IsEngine}
use walde.Engine.Threads.Alone.{Answered, alone-Answered}
use walde.Engine.Threads.Start.{started, answers-Asked, answers-stored, calls-end}
use walde.Engine.Threads.{
  alone, Request, Task, Event, System, at_task, first_task, advance, Step, Steps,
}

abbrev hash_row : Key → ℕ → ℕ
hash_row _ row = row

abbrev hash_name : Key → ℕ → ℕ
hash_name key seed = if str_eq key "a" then seed + 5 else seed

abbrev window_part : ℕ → ℕ
window_part n = n / 100

abbrev probation_part : ℕ → ℕ
probation_part n = n / 5

fifth_smaller : (n : ℕ) → 0 < n → probation_part n < n
fifth_smaller n h = omega arith

-- One entry in the backend.
abbrev disk : InMemoryBackend
disk = record {
  store = λ k. if str_eq "a" k then some "1" else none;
  read_count = 0;
  write_count = 1;
}

abbrev engine : CacheEngine InMemoryBackend
engine = assembled window_part probation_part fifth_smaller 192 (omega arith) 32 16 disk

abbrev outcome :
    Option ((Event × Task) × CacheEngine InMemoryBackend)
    → CacheEngine InMemoryBackend
    → (Event × Task) × CacheEngine InMemoryBackend
outcome none e = ((Event.nothing, Task.idle), e)
outcome (some r) e = r

abbrev left : Task → CacheEngine InMemoryBackend → CacheEngine InMemoryBackend
left t e = (outcome (advance hash_row hash_name in_memory t e) e).1

-- The engine after the parts of a lookup of "a".
unfoldable e1 : CacheEngine InMemoryBackend
unfolding advance
e1 = left (Task.looking "a") engine

unfoldable e2 : CacheEngine InMemoryBackend
unfolding advance
e2 = left (Task.looking_below "a") e1

unfoldable e3 : CacheEngine InMemoryBackend
unfolding advance
e3 = left (Task.reading "a") e2

unfoldable e4 : CacheEngine InMemoryBackend
unfolding advance
e4 = left (Task.rescuing "a" "1") e3

part1 :
    advance hash_row hash_name in_memory (Task.looking "a") engine
    ≡ some ((Event.nothing, Task.looking_below "a"), e1)
unfolding advance e1 Striped.get Stripe.get Stripe.built
part1 = refl

part2 :
    advance hash_row hash_name in_memory (Task.looking_below "a") e1
    ≡ some ((Event.nothing, Task.reading "a"), e2)
unfolding advance e1 e2 Striped.get Stripe.get Stripe.built walde.Engine.l2_get walde.L2.get_in
part2 = refl

part3 :
    advance hash_row hash_name in_memory (Task.reading "a") e2
    ≡ some ((Event.nothing, Task.rescuing "a" "1"), e3)
unfolding advance e1 e2 e3 Striped.get Stripe.get Stripe.built walde.Engine.l2_get walde.L2.get_in
    walde.Backend.get
part3 = refl

part4 :
    advance hash_row hash_name in_memory (Task.rescuing "a" "1") e3
    ≡ some ((Event.answers "a" (some "1"), Task.idle), e4)
unfolding e1 e2 e3 e4 Striped.get Stripe.get Stripe.built walde.Engine.l2_get walde.L2.get_in
    Striped.put Stripe.put Stripe.maybe_decay_cms Stripe.insert walde.Slab.allocate
    walde.Slab.unpack_index walde.Slab.pack walde.Slab.node walde.Slab.set_node
    Stripe.insert_into_window walde.Lru.push_front walde.Lru.set_prev walde.Lru.set_next
    Stripe.admit_loop Stripe.try_admit_from_window walde.Lru.bypass_next walde.Lru.bypass_prev
    walde.Lru.pop_back walde.Lru.remove Stripe.admit Stripe.set_segment Stripe.admission_gate
part4 = refl

-- Thread 0 looks "a" up, part by part.
abbrev s0 : System InMemoryBackend
s0 = started window_part probation_part fifth_smaller 192 (omega arith) 32 16 disk

abbrev with_engine :
    System InMemoryBackend → CacheEngine InMemoryBackend → Task → System InMemoryBackend
with_engine s e t = record s { engine = e; task = at_task s.task 0 t }

abbrev s1 : System InMemoryBackend
s1 = record s0 { task = at_task s0.task 0 (first_task (Request.get_of "a")) }

abbrev s2 : System InMemoryBackend
s2 = with_engine s1 e1 (Task.looking_below "a")

abbrev s3 : System InMemoryBackend
s3 = with_engine s2 e2 (Task.reading "a")

abbrev s4 : System InMemoryBackend
s4 = with_engine s3 e3 (Task.rescuing "a" "1")

abbrev s5 : System InMemoryBackend
s5 = with_engine s4 e4 Task.idle

abbrev seen : List Event
seen = Event.asks (Request.get_of "a") ∷ Event.nothing ∷ Event.nothing ∷ Event.nothing ∷ []

run : Steps hash_row hash_name in_memory s0 seen s4
run = Steps.then (Step.begin {s = s0} 0 (Request.get_of "a") refl) (
    Steps.then (Step.proceed {s = s1} 0 Event.nothing (Task.looking_below "a") e1 part1) (
      Steps.then (Step.proceed {s = s2} 0 Event.nothing (Task.reading "a") e2 part2) (
        Steps.then (Step.proceed {s = s3} 0 Event.nothing (Task.rescuing "a" "1") e3 part3)
          Steps.stay)))

last : Step hash_row hash_name in_memory s4 (Event.answers "a" (some "1")) s5
last = Step.proceed {s = s4} 0 (Event.answers "a" (some "1")) Task.idle e4 part4

reads : AllReads seen
reads = and_reads tt (and_reads tt (and_reads tt (and_reads tt no_requests)))

answers-Asked_example : Asked "a" "1" seen ⊎ (disk.store "a" ≡ some "1")
answers-Asked_example =
    answers-Asked window_part probation_part fifth_smaller 192 (omega arith) 32 16 disk
      (omega arith) hash_row hash_name in_memory (λ s. s.store) in_memory-IsStore seen s4 s5 "a" "1"
      run last

answers-stored_example : some "1" ≡ disk.store "a"
answers-stored_example =
    answers-stored window_part probation_part fifth_smaller 192 (omega arith) 32 16 disk
      (omega arith) hash_row hash_name in_memory (λ s. s.store) in_memory-IsStore seen s4 s5 "a"
      (some "1") reads run last

calls-end_example :
    (own : List Event) × (u : System InMemoryBackend) × Alone hash_row hash_name in_memory 0 s4 own
      u
    × (u.task 0 ≡ Task.idle)
    × (length own ≤ 4)
calls-end_example =
    calls-end window_part probation_part fifth_smaller 192 (omega arith) 32 16 disk (omega arith)
      hash_row hash_name in_memory (λ s. s.store) in_memory-IsStore seen s4 0 run

engine-IsEngine : IsEngine engine
engine-IsEngine =
    (init-IsEngine window_part probation_part fifth_smaller 192 (omega arith) 32 16 disk hash_row
      hash_name in_memory (λ s. s.store) in_memory-IsStore).1

alone-Answered_example :
    Yields
      (Answered hash_row hash_name in_memory
        (λ s. s.store)
        in_memory-IsStore
        engine
        (Request.get_of "a"))
      (alone hash_row hash_name in_memory 4 (Task.looking "a") engine)
unfolding rank
alone-Answered_example =
    alone-Answered hash_row hash_name in_memory (λ s. s.store) in_memory-IsStore engine
      (Request.get_of "a") engine-IsEngine

-- Thread 1 removes "a" after thread 0 has read it from the backend and before it puts it into the
-- first level: the removal is over and "a" is found again.
unfoldable stale : CacheEngine InMemoryBackend
unfolding advance
stale = left (Task.rescuing "a" "1") (
    left (Task.erasing "a" false)
      (left (Task.removing_below "a" false) (left (Task.removing "a") e3)))

found_again :
    (outcome (advance hash_row hash_name in_memory (Task.looking "a") stale) stale).0
    ≡ (Event.answers "a" (some "1"), Task.idle)
unfolding e1 e2 e3 stale Striped.get Stripe.get Stripe.built walde.Engine.l2_get walde.L2.get_in
    Striped.put Stripe.put Stripe.maybe_decay_cms Stripe.insert walde.Slab.allocate
    walde.Slab.unpack_index walde.Slab.pack walde.Slab.node walde.Slab.set_node
    Stripe.insert_into_window walde.Lru.push_front walde.Lru.set_prev walde.Lru.set_next
    Stripe.admit_loop Stripe.try_admit_from_window walde.Lru.bypass_next walde.Lru.bypass_prev
    walde.Lru.pop_back walde.Lru.remove Stripe.admit Stripe.set_segment Stripe.admission_gate
    advance Stripe.remove Striped.remove walde.Engine.l2_remove walde.L2.remove_in
    walde.Backend.remove Stripe.touch Stripe.promote_to_protected Stripe.demote_protected
found_again = refl
