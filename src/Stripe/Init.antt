-- ===== src/Stripe/Init.antt =====
-- The constructor of `CacheStripe`, and a stripe that holds nothing.
use walde.Base.{
  ℕ, ◌^◌, ◌≤◌, ◌<◌, ◌≡◌, refl, sym, ap, ◌∙◌, max, List, [], ◌∈◌, none, some, arith, leb, leb-true,
  lt_of_leb, inl, inr, Bool-cases,
}
use walde.Base.Arith.{sub32}
use walde.Types.{Segment}
use walde.Sketch
use walde.Slab.{Slab}
use walde.Slab.FreeList.{IsFree}
use walde.Lru.{empty_lru}
use walde.Lru.Links.{IsLru}
use walde.Stripe.{CacheStripe, built, init, window_share}
use walde.Stripe.Lists.{nowhere, lru_of, Family, Lists, resident}
use walde.Stripe.Contents.{Indexed}

abbrev pub no_entries : Family
no_entries _ = []

empty-IsLru : (t : Slab) → IsLru t empty_lru []
empty-IsLru t = record {
  linked = tt;
  head = refl;
  tail = refl;
  size = refl;
  distinct = tt;
  below = tt;
}

-- What the constructor builds.
pub record IsEmpty (s : CacheStripe) : Type 0 where
  pub window : s.window ≡ empty_lru
  pub probation : s.probation ≡ empty_lru
  pub protected : s.protected ≡ empty_lru
  pub index : s.index_map ≡ (λ _. none)
  pub protected_room : 0 < s.protected_capacity

module _ (s : CacheStripe) (t : Slab) (fs : List ℕ) (e : IsEmpty s) (f : IsFree t fs)
    (blank : (i : ℕ) → i ∈ fs → (t.pool i).segment ≡ Segment.free) where
  empties : (g : Segment) → IsLru t (lru_of s g) []
  empties Segment.window = rw e.window (empty-IsLru t)
  empties Segment.probation = rw e.probation (empty-IsLru t)
  empties Segment.protected = rw e.protected (empty-IsLru t)
  empties Segment.free = empty-IsLru t
  empties Segment.l2 = empty-IsLru t

  -- The lists are empty.
  pub Lists-empty : Lists (nowhere t.capacity) t (lru_of s) no_entries fs
  Lists-empty = record {
    sized = refl;
    each = empties;
    tagged = λ g i m. absurd (cc);
    free = f;
    blank = blank;
    unlisted = λ g q. refl;
    outside = λ a o. absurd o;
  }

  pub Indexed-empty : Indexed s.index_map t (resident t no_entries)
  Indexed-empty = record {
    indexed = λ i m. absurd (cc);
    found = λ k i m. absurd (let q = sym (ap (λ h. h k) e.index) ∙ m in cc);
  }

module _ (window_part probation_part : ℕ → ℕ) (smaller : (n : ℕ) → 0 < n → probation_part n < n)
    (capacity : ℕ) (enough : 3 ≤ capacity) (word : capacity < 2 ^ 32) where
  share : ℕ
  share = window_share (window_part capacity) capacity

  main_room : 2 < sub32 capacity share
  unfolding share window_share
  main_room = elim (Bool-cases (leb (sub32 capacity 2) (max 3 (window_part capacity)))) [
    | inl e ↦ rw e (omega arith)
    | inr e ↦ rw e (let h = lt_of_leb _ _ e in omega arith)
  ]

  built-IsEmpty : IsEmpty (built window_part probation_part capacity)
  unfolding built share
  built-IsEmpty = record {
    window = refl;
    probation = refl;
    protected = refl;
    index = refl;
    protected_room =
        omega (arith, main_room, smaller (sub32 capacity share) (omega (arith, main_room)));
  }

  -- The constructor succeeds from capacity 3 on, and the protected segment has room.
  pub init-IsEmpty :
      (init window_part probation_part capacity ≡ some (built window_part probation_part capacity))
      × IsEmpty (built window_part probation_part capacity)
  unfolding init Sketch.init built
  init-IsEmpty = (rw (leb-true 3 capacity enough) refl, built-IsEmpty)
