-- ===== src/Engine/Threads/Progress.antt =====
-- A call ends: each part of it is nearer to the end, and needs nothing from other threads.
use walde.Base.{
  ℕ, zero, suc, ◌<◌, ◌≤◌, ◌≡◌, ◌≢◌, ◌⊎◌, refl, sym, subst, Option, some, List, [], ◌∷◌, arith, inl,
  inr, length, ==_self,
}
use walde.Types.{Key, Value}
use walde.Slab.Yields
use walde.Slab.Yields.{Yields}
use walde.Backend.{StorageBackend, IsStore}
use walde.Engine.{CacheEngine}
use walde.Engine.Threads.{Task, Event, System, at_task, advance}
use walde.Engine.Threads.Advance.{rank, TaskOk, advance-Advanced}
use walde.Engine.Threads.Safety.{SystemKeeps, at_task-all}

module _ (xxh32 xxh64 : Key → ℕ → ℕ) {S : Type 0} (b : StorageBackend S) where
  -- Steps of thread `i` only.
  pub data Alone (i : ℕ) : System S → List Event → System S → Type 0 where
    enough : {s : System S} → Alone i s [] s
    more :
        {s u : System S} {evs : List Event} (ev : Event) (t : Task) (e : CacheEngine S)
        → advance xxh32 xxh64 b (s.task i) s.engine ≡ some ((ev, t), e)
        → Alone i (record s { engine = e; task = at_task s.task i t }) evs u
        → Alone i s (ev ∷ evs) u

pub rank_bound : (t : Task) → rank t ≤ 4
unfolding rank
rank_bound Task.idle = omega arith
rank_bound (Task.looking key) = omega arith
rank_bound (Task.looking_below key) = omega arith
rank_bound (Task.reading key) = omega arith
rank_bound (Task.rescuing key value) = omega arith
rank_bound (Task.writing key value) = omega arith
rank_bound (Task.caching key value) = omega arith
rank_bound (Task.removing key) = omega arith
rank_bound (Task.removing_below key in_l1) = omega arith
rank_bound (Task.erasing key in_l1) = omega arith

idle_or_busy : (t : Task) → (t ≡ Task.idle) ⊎ ((t ≢ Task.idle) × (0 < rank t))
unfolding rank
idle_or_busy Task.idle = inl refl
idle_or_busy (Task.looking key) = inr ((λ e. absurd cc), omega arith)
idle_or_busy (Task.looking_below key) = inr ((λ e. absurd cc), omega arith)
idle_or_busy (Task.reading key) = inr ((λ e. absurd cc), omega arith)
idle_or_busy (Task.rescuing key value) = inr ((λ e. absurd cc), omega arith)
idle_or_busy (Task.writing key value) = inr ((λ e. absurd cc), omega arith)
idle_or_busy (Task.caching key value) = inr ((λ e. absurd cc), omega arith)
idle_or_busy (Task.removing key) = inr ((λ e. absurd cc), omega arith)
idle_or_busy (Task.removing_below key in_l1) = inr ((λ e. absurd cc), omega arith)
idle_or_busy (Task.erasing key in_l1) = inr ((λ e. absurd cc), omega arith)

at_task_self : (f : ℕ → Task) (i : ℕ) (t : Task) → at_task f i t i ≡ t
at_task_self f i t = rw (==_self i) refl

module _ (xxh32 xxh64 : Key → ℕ → ℕ) {S : Type 0} (b : StorageBackend S)
    (stored : S → Key → Option Value) (store : IsStore b stored) where
  -- A thread can end its call by as many steps as its rank.
  pub ends :
      (n i : ℕ) (m : System S)
      → rank (m.task i) ≤ n
      → SystemKeeps (λ _ _. Unit) xxh32 xxh64 b stored store m
      → (evs : List Event) × (u : System S) × Alone xxh32 xxh64 b i m evs u
        × (u.task i ≡ Task.idle)
        × (length evs ≤ n)
  ends zero i m h v = elim (idle_or_busy (m.task i)) [
    | inl p ↦ ([], m, enough, p, omega arith)
    | inr (_, q) ↦ absurd (omega arith)
  ]
  ends (suc n) i m h v = elim (idle_or_busy (m.task i)) [
    | inl p ↦ ([], m, enough, p, omega arith)
    | inr (p, q) ↦
        let (a, e, done, x) = Yields.outcome (
          advance-Advanced (λ _ _. Unit) xxh32 xxh64 b stored store (m.task i) m.engine v.engine
            (v.tasks i) p) in
        let (evs, u, rest, idle, short) =
          ends n i (record m { engine = e; task = at_task m.task i a.1 })
            (subst (λ t. rank t ≤ n) (sym (at_task_self m.task i a.1)) (omega (arith, x.nearer)))
            (record {
              engine = x.engine;
              tasks = at_task-all (TaskOk (λ _ _. Unit)) m.task i a.1 v.tasks x.task;
              carried = v.carried;
            }) in
        (a.0 ∷ evs, u, more a.0 a.1 e done rest, idle, omega arith)
  ]
