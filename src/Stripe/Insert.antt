-- ===== src/Stripe/Insert.antt =====
-- `insert_into_window` and `put` of a key that is not resident.
use walde.Base.{
  ℕ, suc, ◌+◌, ◌≤◌, ◌<◌, ◌≡◌, refl, sym, ap, ◌∙◌, true, ◌||◌, List, [], ◌∷◌, ◌++◌, has, length,
  length-append, none, arith, ltb, ltb-false, lt_of_ltb, le_of_ltb, ==_ne, inl, inr, Bool-cases,
  ◌==◌, last_split, has-append,
}
use walde.Types.{Segment, Key, invalid_index}
use walde.Slab.{Slab}
use walde.Slab.Yields
use walde.Slab.Yields.{Yields, yields}
use walde.Lru.{IntrusiveLru}
use walde.Stripe.{CacheStripe, try_admit_from_window, admit_loop}
use walde.Stripe.Lists.{Outside, lru_of, Family, put_list, Lists, resident, resident_of_mem}
use walde.Stripe.Steps.{Limbo}
use walde.Stripe.Moves.{Moved, pull_back_lem}
use walde.Stripe.Contents.{Indexed, contents, value_at-same}
use walde.Stripe.Fed.{unfed, Fed-mono, Within-same}
use walde.Stripe.Admit.{Held, Settled, less}
use walde.Stripe.Replace.{gate_lem}

-- A stripe whose window may hold one entry too many.
pub record Stuffed (out : Outside) (s : CacheStripe) (t : Slab) : Type 0 where
  pub family : Family
  pub unused : List ℕ
  pub lists : Lists out t (lru_of s) family unused
  pub index : Indexed s.index_map t (resident t family)
  pub window_bound : length (family Segment.window) ≤ s.window_capacity + 1
  pub main_bound :
      length (family Segment.probation) + length (family Segment.protected) ≤ s.main_capacity
  pub protected_bound : length (family Segment.protected) ≤ s.protected_capacity
  pub protected_room : 0 < s.protected_capacity

module _ {out : Outside} (xxh32 : Key → ℕ → ℕ) (s : CacheStripe) (t : Slab)
    (v : Stuffed out s t) where
  window_size : s.window.size ≡ length (v.family Segment.window)
  window_size = (v.lists.each Segment.window).size

  -- The last slot of the window goes through the gate.
  try_admit_last :
      (before : List ℕ) (i : ℕ)
      → v.family Segment.window ≡ before ++ i ∷ []
      → Yields (Settled out s t) (try_admit_from_window xxh32 s t)
  unfolding try_admit_from_window
  try_admit_last before i e =
      Yields.bind (pull_back_lem s v.family v.unused v.lists Segment.window refl i before e)
        λ r u (p, w, o, m). rw p (
          rw (==_ne i invalid_index (omega (arith, o.below, w.free.small))) (
            Yields.mono (gate_lem xxh32 (record s { window = r.1 }) u i (held u r.1 w o m))
              λ s' y d. record {
                stripe = d.stripe;
                lost = d.lost;
                kept =
                    λ k. d.kept k ∙ ap (less d.lost k) (value_at-same t u m.value (s.index_map k));
                spared = d.spared;
                fed =
                    Fed-mono
                      (Within-same _ (contents s t)
                        (λ k. value_at-same t u m.value (s.index_map k)))
                      d.fed;
              }))
    where
      held :
          (u : Slab) (l : IntrusiveLru)
          → Lists out u
              (lru_of (record s { window = l }))
              (put_list Segment.window (before ++ []) v.family)
              v.unused
          → Limbo out u (put_list Segment.window (before ++ []) v.family) v.unused i
          → Moved i t v.family u (put_list Segment.window (before ++ []) v.family)
          → Held out (record s { window = l }) u i
      held u l w o m = record {
        family = put_list Segment.window (before ++ []) v.family;
        unused = v.unused;
        lists = w;
        limbo = o;
        index = record {
          indexed = λ a h. ap s.index_map (m.key a) ∙ v.index.indexed a (sym (live a) ∙ h);
          found = λ k a q. let f = v.index.found k a q in (live a ∙ f.0, m.key a ∙ f.1);
        };
        window_bound = omega (
          arith,
          v.window_bound,
          ap length e,
          length-append before [],
          length-append before (i ∷ []),
        );
        main_bound = v.main_bound;
        protected_bound = v.protected_bound;
        protected_room = v.protected_room;
      }
        where
          flip : (a : ℕ) → (i == a) ≡ true → a ≡ i
          flip a q = ground arith

          live :
              (a : ℕ)
              → ((i == a) || resident u (put_list Segment.window (before ++ []) v.family) a)
                ≡ resident t v.family a
          live a = elim (Bool-cases (i == a)) [
            | inl q ↦ rw q (
                sym (
                  ap (resident t v.family) (flip a q)
                  ∙ resident_of_mem v.lists Segment.window i
                      (ap (has i) e ∙ ground (arith, has-append i before (i ∷ [])))))
            | inr q ↦ rw q (m.others a (λ p. absurd (ground arith)))
          ]

  -- The loop ends, with any fuel from two rounds on.
  pub admit_loop_lem : (n : ℕ) → Yields (Settled out s t) (admit_loop xxh32 (suc (suc n)) s t)
  unfolding admit_loop
  admit_loop_lem n = elim (Bool-cases (ltb s.window_capacity s.window.size)) [
    | inl a ↦ rw a (elim (last_split (v.family Segment.window)) [
      | inl e ↦ absurd (omega (arith, lt_of_ltb _ _ a, window_size, ap length e))
      | inr (before, i, e) ↦ Yields.bind (try_admit_last before i e) λ s' u d.
          rw
            (ltb-false s'.window_capacity s'.window.size
              (omega (arith, d.stripe.window_bound, (d.stripe.lists.each Segment.window).size)))
            (yields d)
    ])
    | inr a ↦ rw a (
        yields (record {
          stripe = record {
            family = v.family;
            unused = v.unused;
            lists = v.lists;
            index = v.index;
            window_bound = omega (arith, le_of_ltb _ _ a, window_size);
            main_bound = v.main_bound;
            protected_bound = v.protected_bound;
            protected_room = v.protected_room;
          };
          lost = none;
          kept = λ k. refl;
          spared = λ _. refl;
          fed = unfed;
        }))
  ]
