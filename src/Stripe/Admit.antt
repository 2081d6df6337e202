-- ===== src/Stripe/Admit.antt =====
-- The admission gate: the candidate that left the window is admitted to probation, dropped, or takes
-- the place of the last slot of probation.
use walde.Base.{
  ℕ, ◌+◌, ◌≤◌, ◌<◌, ◌≡◌, ◌≢◌, refl, sym, ap, ◌∙◌, true, false, ◌||◌, List, ◌∷◌, has, length, Option,
  none, some, arith, str_eq, if◌then◌else◌, inl, inr, Bool-cases, ◌==◌,
}
use walde.Base.Arith.{add64}
use walde.Types.{Segment, Key, Value}
use walde.Slab.{Slab, ◌>>=◌}
use walde.Slab.Alloc.{given, deallocate-given}
use walde.Slab.Yields
use walde.Slab.Yields.{Yields, yields}
use walde.Stripe.{CacheStripe, erase_key, admit, reject}
use walde.Stripe.Lists.{Outside, lru_of, Family, put_list, Lists, resident, resident_of_mem}
use walde.Stripe.Steps.{Limbo}
use walde.Stripe.Moves.{Moved, set_segment_lem, file_lem}
use walde.Stripe.Contents.{IsStripe, Indexed, contents, value_at-same, Lists-objects}
use walde.Stripe.Fed.{Fed, unfed}
use walde.Stripe.Slots.{Lists-given, given-others, Indexed-erase, value_at-erase}

-- A stripe whose candidate is in no list.
pub record Held (out : Outside) (s : CacheStripe) (t : Slab) (i : ℕ) : Type 0 where
  pub family : Family
  pub unused : List ℕ
  pub lists : Lists out t (lru_of s) family unused
  pub limbo : Limbo out t family unused i
  pub index : Indexed s.index_map t (λ a. (i == a) || resident t family a)
  pub window_bound : length (family Segment.window) ≤ s.window_capacity
  pub main_bound :
      length (family Segment.probation) + length (family Segment.protected) ≤ s.main_capacity
  pub protected_bound : length (family Segment.protected) ≤ s.protected_capacity
  pub protected_room : 0 < s.protected_capacity

-- What is stored once a key is lost.
abbrev pub less : Option Key → Key → Option Value → Option Value
less none k v = v
less (some j) k v = if str_eq j k then none else v

-- The invariant holds again, and at most one key is lost.
pub record Settled (out : Outside) (s : CacheStripe) (t : Slab) (s' : CacheStripe) (u : Slab)
    : Type 0 where
  pub stripe : IsStripe out s' u
  pub lost : Option Key
  pub kept : (k : Key) → contents s' u k ≡ less lost k (contents s t k)
  pub spared : s.probation.size + s.protected.size < s.main_capacity → lost ≡ none
  pub fed : Fed (contents s t) s.demotion_queue s'.demotion_queue

module _ {out : Outside} (xxh32 : Key → ℕ → ℕ) (s : CacheStripe) (t : Slab) (i : ℕ)
    (v : Held out s t i) where
  reject_gone : resident (given i t) v.family i ≡ false
  reject_gone = v.limbo.unlinked ((given i t).pool i).segment

  reject_live :
      (a : ℕ) → a ≢ i → resident (given i t) v.family a ≡ ((i == a) || resident t v.family a)
  reject_live a ne =
      ap (λ c. has a (v.family c.segment)) (given-others t i a ne) ∙ ground (arith, ne)

  named : s.index_map (t.pool i).key ≡ some i
  named = v.index.indexed i (ground arith)

  -- The candidate is dropped.
  pub reject_lem :
      s.main_capacity ≤ s.probation.size + s.protected.size
      → Yields (Settled out s t) (reject xxh32 s i (t.pool i) t)
  unfolding reject
  reject_lem full =
      rw ((deallocate-given t i v.unused 0 v.limbo.below v.limbo.used v.lists.free).1, ◌>>=◌)
        (yields (record {
          stripe = record {
            family = v.family;
            unused = i ∷ v.unused;
            lists =
                Lists-objects s
                  (record s {
                    index_map = erase_key (t.pool i).key s.index_map;
                    rejections = add64 s.rejections 1;
                  })
                  refl refl refl (Lists-given i v.lists v.limbo);
            index =
                Indexed-erase (t.pool i).key i v.index named reject_gone
                  (λ a ne. (reject_live a ne, ap (λ c. c.key) (given-others t i a ne)));
            window_bound = v.window_bound;
            main_bound = v.main_bound;
            protected_bound = v.protected_bound;
            protected_room = v.protected_room;
          };
          lost = some (t.pool i).key;
          kept =
              value_at-erase (given i t) (t.pool i).key i v.index named
                (λ a ne. ap (λ c. c.value) (given-others t i a ne));
          spared = λ h. absurd (omega (arith, h, full));
          fed = unfed;
        }))

  admitted_live :
      (u : Slab) (ys : Family)
      → Moved i t v.family u ys
      → resident u ys i ≡ true
      → (a : ℕ) → resident u ys a ≡ ((i == a) || resident t v.family a)
  admitted_live u ys m there a = elim (Bool-cases (i == a)) [
    | inl e ↦ rw e (ap (resident u ys) (flip e) ∙ there)
    | inr e ↦ rw e (m.others a (λ p. absurd (ground arith)))
  ]
    where
      flip : (i == a) ≡ true → a ≡ i
      flip e = ground arith

  -- The candidate goes to the front of probation.
  pub admit_lem :
      length (v.family Segment.probation) + length (v.family Segment.protected) < s.main_capacity
      → Yields (Settled out s t) (admit xxh32 s i t)
  unfolding admit
  admit_lem room =
      rw (set_segment_lem i Segment.probation t v.limbo.below, ◌>>=◌)
        (Yields.bind (file_lem s v.family v.unused v.lists Segment.probation refl i v.limbo)
          λ p u (w, m). yields (
            let live = admitted_live u _ m (resident_of_mem w Segment.probation i (ground arith)) in
            record {
              stripe = record {
                family = put_list Segment.probation (i ∷ v.family Segment.probation) v.family;
                unused = v.unused;
                lists =
                    Lists-objects (record s { probation = p })
                      (record s { probation = p; admissions = add64 s.admissions 1 }) refl refl refl
                      w;
                index = record {
                  indexed = λ a h. ap s.index_map (m.key a) ∙ v.index.indexed a (sym (live a) ∙ h);
                  found = λ k a e. let f = v.index.found k a e in (live a ∙ f.0, m.key a ∙ f.1);
                };
                window_bound = v.window_bound;
                main_bound = omega (arith, room);
                protected_bound = v.protected_bound;
                protected_room = v.protected_room;
              };
              lost = none;
              kept = λ k. value_at-same t u m.value (s.index_map k);
              spared = λ _. refl;
              fed = unfed;
            }))
