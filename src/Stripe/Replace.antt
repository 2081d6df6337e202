-- ===== src/Stripe/Replace.antt =====
-- The eviction of the last slot of probation in favour of the candidate.
use walde.Base.{
  ℕ, ◌+◌, ◌≤◌, ◌<◌, ◌≡◌, ◌≢◌, refl, sym, ap, ◌∙◌, subst, Bool, true, false, ◌||◌, List, [], ◌∷◌,
  ◌++◌, ◌∈◌, has, length, length-append, has-append, length-le, AllBelow-append, Distinct-append,
  last_split, last_or, lt_of_mem, ==_ne, eq_true, lt_of_ltb, Option, none, some, arith, str_eq, ltb,
  if◌then◌else◌, inl, inr, Bool-cases, ◌==◌,
}
use walde.Base.Arith.{add64, add32}
use walde.Types.{Segment, Key, invalid_index}
use walde.Slab.{Slab, node, ◌>>=◌}
use walde.Slab.Alloc.{given, deallocate-given}
use walde.Slab.Yields
use walde.Slab.Yields.{Yields, yields}
use walde.Lru.Steps.{node_lem}
use walde.Queue.{DemotionQueue}
use walde.Lru.{IntrusiveLru, is_empty, peek_back}
use walde.Stripe.{CacheStripe, erase_key, reject, replace, demote_victim, admission_gate}
use walde.Stripe.Lists.{
  Outside, lru_of, Family, put_list, Lists, resident, resident_of_mem, absent_of_not_resident,
}
use walde.Stripe.Steps.{Limbo}
use walde.Stripe.Moves.{Moved}
use walde.Stripe.Contents.{contents, value_at, Lists-objects}
use walde.Stripe.Fed.{Fed, Fed-trans, Fed-push, Within, Within-erased}
use walde.Stripe.Slots.{Lists-given, given-others, Indexed-erase, value_at-erase}
use walde.Stripe.Moves.{pull_back_lem}
use walde.Stripe.Admit.{Held, Settled, less, admit_lem, reject_lem}
use walde.Stripe.Lists.{lists_apart}
use walde.Lru.Remove.{last_or-append}
use walde.Sketch.{estimate}

is_protected : Segment → Bool
is_protected Segment.protected = true
is_protected _ = false

-- The victim is gone, there is room in the main segments, and the candidate is still held.
record Evicted (out : Outside) (s : CacheStripe) (t : Slab) (i : ℕ) (s' : CacheStripe) (u : Slab)
    : Type 0 where
  held : Held out s' u i
  room :
      length (held.family Segment.probation) + length (held.family Segment.protected)
      < s'.main_capacity
  victim : Key
  kept : (k : Key) → contents s' u k ≡ (if str_eq victim k then none else contents s t k)
  fed : Fed (contents s t) s.demotion_queue s'.demotion_queue

Evicted-Within :
    {out : Outside} {s s' : CacheStripe} {t u : Slab} {i : ℕ}
    → Evicted out s t i s' u
    → Within (contents s' u) (contents s t)
Evicted-Within {s} {s'} {t} {u} x = Within-erased x.victim (contents s' u) (contents s t) x.kept

-- The last slot `j` of probation goes, and the candidate `i` is still in no list.
module _ {out : Outside} (s : CacheStripe) (t : Slab) (i : ℕ) (v : Held out s t i) (before : List ℕ)
    (j : ℕ) (e : v.family Segment.probation ≡ before ++ j ∷ []) where
  ys : Family
  ys = put_list Segment.probation (before ++ []) v.family

  victim_member : j ∈ v.family Segment.probation
  victim_member = ap (has j) e ∙ ground (arith, has-append j before (j ∷ []))

  apart : i ≢ j
  apart p = absurd (
      let a = v.limbo.unlinked Segment.probation in
      let b = ap (λ c. has c (v.family Segment.probation)) p ∙ victim_member in cc)

  fewer : length (before ++ []) + 1 ≡ length (v.family Segment.probation)
  fewer = omega (arith, ap length e, length-append before [], length-append before (j ∷ []))

  module _ (s' : CacheStripe) (u : Slab) (lists : Lists out u (lru_of s') ys v.unused)
      (o : Limbo out u ys v.unused j) (m : Moved j t v.family u ys) where
    outside : resident u ys i ≡ false
    outside = m.others i apart ∙ v.limbo.unlinked (t.pool i).segment

    still_Limbo : Limbo out (given j u) ys (j ∷ v.unused) i
    unfolding given
    still_Limbo = record {
      below = rw m.capacity v.limbo.below;
      unlinked = λ g. absent_of_not_resident lists g i outside;
      used = ground (arith, v.limbo.used, apart);
      own = v.limbo.own;
    }

    victim_gone : ((i == j) || resident (given j u) ys j) ≡ false
    victim_gone = ground (arith, apart, o.unlinked ((given j u).pool j).segment)

    victim_live :
        (a : ℕ)
        → a ≢ j
        → ((i == a) || resident (given j u) ys a) ≡ ((i == a) || resident t v.family a)
    victim_live a ne =
        ap (λ b. (i == a) || b)
          (ap (λ c. has a (ys c.segment)) (given-others u j a ne) ∙ m.others a ne)

    victim_named : s.index_map (u.pool j).key ≡ some j
    victim_named =
        ap s.index_map (m.key j)
        ∙ v.index.indexed j (
            ap (λ b. (i == j) || b) (resident_of_mem v.lists Segment.probation j victim_member)
            ∙ ground arith)

  -- The item that the victim becomes was held.
  victim_held :
      (p : IntrusiveLru) (u : Slab)
      → Lists out u (lru_of (record s { probation = p })) ys v.unused
      → Limbo out u ys v.unused j
      → Moved j t v.family u ys
      → contents s t (u.pool j).key ≡ some (u.pool j).value
  victim_held p u w o m =
      ap (value_at t) (victim_named (record s { probation = p }) u w o m)
      ∙ ap some (sym (m.value j))

  Evicted-by :
      (d : Option DemotionQueue) (p : IntrusiveLru) (u : Slab)
      → Fed (contents s t) s.demotion_queue d
      → Lists out u (lru_of (record s { probation = p })) ys v.unused
      → Limbo out u ys v.unused j
      → Moved j t v.family u ys
      → Evicted out s t i
          (record s {
            probation = p;
            index_map = erase_key (u.pool j).key s.index_map;
            evictions = add64 s.evictions 1;
            demotion_queue = d;
          })
          (given j u)
  unfolding ys
  Evicted-by d p u f w o m =
      let s1 = record s { probation = p } in
      let named = victim_named s1 u w o m in
      let s2 = record s {
        probation = p;
        index_map = erase_key (u.pool j).key s.index_map;
        evictions = add64 s.evictions 1;
        demotion_queue = d;
      } in
      record {
        held = record {
          family = ys;
          unused = j ∷ v.unused;
          lists = Lists-objects s1 s2 refl refl refl (Lists-given j w o);
          limbo = still_Limbo s1 u w o m;
          index = Indexed-erase (u.pool j).key j v.index named (victim_gone s1 u w o m) (λ a ne.
              (victim_live s1 u w o m a ne, ap (λ c. c.key) (given-others u j a ne) ∙ m.key a));
          window_bound = v.window_bound;
          main_bound = omega (arith, v.main_bound, fewer);
          protected_bound = v.protected_bound;
          protected_room = v.protected_room;
        };
        room = omega (arith, v.main_bound, fewer);
        victim = (u.pool j).key;
        kept =
            value_at-erase (given j u) (u.pool j).key j v.index named
              (λ a ne. ap (λ c. c.value) (given-others u j a ne) ∙ m.value a);
        fed = f;
      }

  -- What `replace` leaves.
  pub replace_lem :
      (xxh32 : Key → ℕ → ℕ)
      → s.main_capacity ≤ s.probation.size + s.protected.size
      → Yields (Settled out s t) (replace xxh32 s i j t)
  unfolding replace demote_victim ys
  replace_lem xxh32 full =
      Yields.bind (pull_back_lem s v.family v.unused v.lists Segment.probation refl j before e)
        λ r u (_, w, o, m).
          rw (node_lem j u o.below, ◌>>=◌)
            (rw ((deallocate-given u j v.unused 0 o.below o.used w.free).1, ◌>>=◌)
              (let x =
                  Evicted-by _ r.1 u
                    (Fed-push s.demotion_queue
                      (record {
                        key = (u.pool j).key;
                        value = (u.pool j).value;
                        frequency = estimate xxh32 s.cms (u.pool j).key;
                      })
                      (victim_held r.1 u w o m))
                    w o m in
                Yields.mono (admit_lem xxh32 _ _ i x.held x.room) λ s' y d. record {
                  stripe = d.stripe;
                  lost = some x.victim;
                  kept = λ k.
                      d.kept k
                      ∙ ap
                          (λ l.
                            less l k
                              (value_at (given j u) (erase_key (u.pool j).key s.index_map k)))
                          (d.spared (
                            omega (
                              arith,
                              v.main_bound,
                              fewer,
                              (w.each Segment.probation).size,
                              (w.each Segment.protected).size,
                            )))
                      ∙ x.kept k;
                  spared = λ h. absurd (omega (arith, h, full));
                  fed = Fed-trans (Evicted-Within x) x.fed d.fed;
                }))

module _ {out : Outside} (xxh32 : Key → ℕ → ℕ) (s : CacheStripe) (t : Slab) (i : ℕ)
    (v : Held out s t i) where
  main_size :
      (s.probation.size ≡ length (v.family Segment.probation))
      × (s.protected.size ≡ length (v.family Segment.protected))
      × (length (v.family Segment.probation ++ v.family Segment.protected) ≤ t.capacity)
      × (length (v.family Segment.probation ++ v.family Segment.protected)
          ≡ length (v.family Segment.probation) + length (v.family Segment.protected))
  main_size =
      let p = v.lists.each Segment.probation in
      let q = v.lists.each Segment.protected in
      (
        p.size,
        q.size,
        length-le t.capacity _ (AllBelow-append t.capacity _ _ p.below q.below) (
            Distinct-append _ _ p.distinct q.distinct (
              lists_apart v.lists Segment.protected Segment.probation
                (λ e. absurd (let k = ap is_protected e in cc)))),
        length-append (v.family Segment.probation) (v.family Segment.protected),
      )

  -- The gate settles the candidate, on every branch.
  pub gate_lem : Yields (Settled out s t) (admission_gate xxh32 s i t)
  unfolding admission_gate
  gate_lem =
      rw (node_lem i t v.limbo.below, ◌>>=◌)
        (elim (Bool-cases (ltb (add32 s.probation.size s.protected.size) s.main_capacity)) [
          | inl a ↦ rw a (admit_lem xxh32 s t i v (free a))
          | inr a ↦ rw a (crowded (full a))
        ])
    where
      exact : add32 s.probation.size s.protected.size ≡ s.probation.size + s.protected.size
      exact = omega (arith, main_size, v.lists.free.small)

      le_of : (a b : ℕ) → ltb a b ≡ false → b ≤ a
      le_of a b h = ground arith

      free :
          ltb (add32 s.probation.size s.protected.size) s.main_capacity ≡ true
          → length (v.family Segment.probation) + length (v.family Segment.protected)
            < s.main_capacity
      free a = omega (arith, lt_of_ltb _ _ a, exact, main_size)

      full :
          ltb (add32 s.probation.size s.protected.size) s.main_capacity ≡ false
          → s.main_capacity ≤ s.probation.size + s.protected.size
      full a = omega (arith, le_of _ _ a, exact)

      crowded :
          s.main_capacity ≤ s.probation.size + s.protected.size
          → Yields (Settled out s t) (
              (if is_empty s.probation then reject xxh32 s i (t.pool i) else (do
                victim ← node (peek_back s.probation)
                if ltb (estimate xxh32 s.cms victim.key) (estimate xxh32 s.cms (t.pool i).key)
                    then replace xxh32 s i (peek_back s.probation)
                    else reject xxh32 s i (t.pool i)))
                t)
      crowded crowd = elim (last_split (v.family Segment.probation)) [
        | inl e ↦
            rw (eq_true s.probation.size 0 (main_size.0 ∙ ap length e))
              (reject_lem xxh32 s t i v crowd)
        | inr (before, j, e) ↦
            rw
              (==_ne s.probation.size 0
                (omega (arith, main_size.0, ap length e, length-append before (j ∷ []))))
              (last_of before (
                subst (λ x. v.family Segment.probation ≡ before ++ x ∷ [])
                  (sym (
                    (v.lists.each Segment.probation).tail
                    ∙ ap (last_or invalid_index) e
                    ∙ last_or-append invalid_index before j []))
                  e))
      ]
        where
          last_of :
              (before : List ℕ)
              → v.family Segment.probation ≡ before ++ peek_back s.probation ∷ []
              → Yields (Settled out s t) (
                  (do
                    victim ← node (peek_back s.probation)
                    if ltb (estimate xxh32 s.cms victim.key) (estimate xxh32 s.cms (t.pool i).key)
                        then replace xxh32 s i (peek_back s.probation)
                        else reject xxh32 s i (t.pool i))
                    t)
          last_of before e =
              let j = peek_back s.probation in
              rw
                (
                  node_lem j t (
                      lt_of_mem t.capacity j _ (v.lists.each Segment.probation).below
                        (victim_member s t i v before j e)),
                  ◌>>=◌,
                )
                (elim (Bool-cases (
                  ltb (estimate xxh32 s.cms (t.pool j).key)
                    (estimate xxh32 s.cms (t.pool i).key))) [
                      | inl a ↦ rw a (replace_lem s t i v before j e xxh32 crowd)
                      | inr a ↦ rw a (reject_lem xxh32 s t i v crowd)
                    ])
