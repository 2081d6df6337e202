-- ===== src/Stripe/Moves.antt =====
-- A node on its way from one list of a stripe to another: which nodes stay resident.
use mathlib.Core.List.{append-nil}
use walde.Base.{
  ℕ, ◌<◌, ◌≡◌, ◌≢◌, refl, sym, ap, ◌∙◌, subst, true, List, [], ◌∷◌, ◌++◌, ◌∈◌, ◌∉◌, has, arith, inl,
  inr, Bool-cases, some, has-append, has-insert, Distinct-split, Distinct, lt_of_mem, ◌==◌, update,
  update_ne, update_self,
}
use walde.Types.{Segment}
use walde.Slab.{Slab, ◌>>=◌}
use walde.Slab.Yields
use walde.Slab.Yields.{Yields, yields, along}
use walde.Lru
use walde.Lru.{push_front, pop_back}
use walde.Lru.Links.{IsLru, Relinked}
use walde.Lru.Ends.{pop_back-append}
use walde.Lru.Steps.{repool, node_lem, set_node_lem}
use walde.Stripe.{CacheStripe, set_segment}
use walde.Stripe.Lists.{
  Outside, Segment-discrete, lru_of, with_lru, is_listed, Family, put_list, put_list_self,
  put_list_ne, Lists, lists_apart, resident, free_not_resident, resident_of_mem,
}
use walde.Stripe.Steps.{Limbo, Lists-Limbo, Lists-step, take_out_lem, put_in_lem, insert_absent}

-- All nodes but `i` stay resident, or not, and all keep their keys and values.
pub record Moved (i : ℕ) (t : Slab) (xs : Family) (u : Slab) (ys : Family) : Type 0 where
  pub capacity : u.capacity ≡ t.capacity
  pub others : (a : ℕ) → a ≢ i → resident u ys a ≡ resident t xs a
  pub key : (a : ℕ) → (u.pool a).key ≡ (t.pool a).key
  pub value : (a : ℕ) → (u.pool a).value ≡ (t.pool a).value

pub Moved-trans :
    (i : ℕ) {t u w : Slab} {xs ys zs : Family}
    → Moved i t xs u ys
    → Moved i u ys w zs
    → Moved i t xs w zs
Moved-trans i p q = record {
  capacity = q.capacity ∙ p.capacity;
  others = λ a ne. q.others a ne ∙ p.others a ne;
  key = λ a. q.key a ∙ p.key a;
  value = λ a. q.value a ∙ p.value a;
}

module _ {t u : Slab} (g : Segment) (q : is_listed g ≡ true) (xs : Family) (ys zs : List ℕ)
    (r : Relinked zs t u) where
  -- Which nodes are resident once the list of `g` has become `ys`.
  pub resident-step :
      (a : ℕ)
      → ((t.pool a).segment ≡ g → has a ys ≡ has a (xs g))
      → resident u (put_list g ys xs) a ≡ resident t xs a
  resident-step a same = rw (r.segment a) (elim (Segment-discrete (t.pool a).segment g) [
    | yes e ↦
        ap (λ h. has a (put_list g ys xs h)) e
        ∙ ap (has a) (put_list_self g ys xs q)
        ∙ same e
        ∙ ap (λ h. has a (xs h)) (sym e)
    | no ne ↦ ap (has a) (put_list_ne g _ ys xs ne)
  ])

  pub Moved-step :
      (i : ℕ) → ((a : ℕ) → a ≢ i → has a ys ≡ has a (xs g)) → Moved i t xs u (put_list g ys xs)
  Moved-step i same = record {
    capacity = r.capacity;
    others = λ a ne. resident-step a (λ _. same a ne);
    key = r.key;
    value = r.value;
  }

-- The node as it is filed under a segment.
abbrev pub tagged_pool : Slab → ℕ → Segment → Slab
tagged_pool t i g = repool t (update t.pool i (record (t.pool i) { segment = g }))

pub set_segment_lem :
    (i : ℕ) (g : Segment) (t : Slab)
    → i < t.capacity
    → set_segment i g t ≡ some (tt, tagged_pool t i g)
unfolding set_segment
set_segment_lem i g t h = rw (node_lem i t h, ◌>>=◌) (set_node_lem i _ t h)

pub Moved-tagged :
    (t : Slab) (xs : Family) (i : ℕ) (g : Segment) → Moved i t xs (tagged_pool t i g) xs
Moved-tagged t xs i g = record {
  capacity = refl;
  others = λ a ne. ap (λ c. has a (xs c.segment)) (update_ne t.pool i a _ (λ e. ne (sym e)));
  key = λ a. elim (Bool-cases (i == a)) [ inl e ↦ ground arith | inr e ↦ rw e ];
  value = λ a. elim (Bool-cases (i == a)) [ inl e ↦ ground arith | inr e ↦ rw e ];
}

module _ {out : Outside} {t : Slab} (s : CacheStripe) (xs : Family) (fs : List ℕ)
    (v : Lists out t (lru_of s) xs fs) (g : Segment) (q : is_listed g ≡ true) (i : ℕ) where
  -- A node in limbo is filed under a segment and goes to the front of its list.
  pub file_lem :
      Limbo out t xs fs i
      → Yields
          (λ l u.
            Lists out u (lru_of (with_lru s g l)) (put_list g (i ∷ xs g) xs) fs
            × Moved i t xs u (put_list g (i ∷ xs g) xs))
          (push_front (lru_of s g) i (tagged_pool t i g))
  file_lem o =
      Yields.mono
        (put_in_lem s xs fs (Lists-Limbo i (record (t.pool i) { segment = g }) v o) g q i
          (record { below = o.below; unlinked = o.unlinked; used = o.used; own = o.own })
          (ap (λ c. c.segment) (update_self t.pool i _)))
        λ l u (w, r). (
          w,
          Moved-trans i (Moved-tagged t xs i g)
              (Moved-step g q xs (i ∷ xs g) (i ∷ xs g) r i (λ a ne. ground arith)),
        )

  module _ (before after : List ℕ) (e : xs g ≡ before ++ i ∷ after) where
    member : i ∈ xs g
    member = ap (has i) e ∙ ground (arith, has-append i before (i ∷ after))

    gone : (h : Segment) → i ∉ put_list g (before ++ after) xs h
    gone h = elim (Segment-discrete h g) [
      | yes p ↦
          ap (λ h. has i (put_list g (before ++ after) xs h)) p
          ∙ ap (has i) (put_list_self g _ xs q)
          ∙ away
      | no ne ↦ ap (has i) (put_list_ne g h _ xs ne) ∙ elsewhere h ne
    ]
      where
        away : i ∉ (before ++ after)
        away =
            let d = Distinct-split before (i ∷ after) (subst Distinct e (v.each g).distinct) in
            ground (arith, has-append i before after, d.2 i, d.1.0)

        elsewhere : (h : Segment) → h ≢ g → i ∉ xs h
        elsewhere h ne = elim (Bool-cases (has i (xs h))) [
          | inl m ↦ absurd (let k = lists_apart v g h ne i m in let m' = member in cc)
          | inr m ↦ m
        ]

    in_use : i ∉ fs
    in_use = elim (Bool-cases (has i fs)) [
      | inl m ↦
          absurd (let k = free_not_resident v i m in let m' = resident_of_mem v g i member in cc)
      | inr m ↦ m
    ]

    pulled :
        {u : Slab}
        → Relinked (xs g) t u
        → Limbo out u (put_list g (before ++ after) xs) fs i
          × Moved i t xs u (put_list g (before ++ after) xs)
    pulled r = (
      record {
        below =
            subst (λ c. i < c) (sym r.capacity)
              (lt_of_mem t.capacity i (xs g) (v.each g).below member);
        unlinked = gone;
        used = in_use;
        own = λ f. absurd (let k = (v.outside i f).1 g in let m = member in cc);
      },
      Moved-step g q xs (before ++ after) (xs g) r i (λ a ne.
          ground (arith, has-append a before (i ∷ after), has-append a before after)
          ∙ ap (has a) (sym e)),
    )

    -- A node is taken out of its list, and is in limbo.
    pub pull_lem :
        Yields
          (λ l u.
            Lists out u (lru_of (with_lru s g l)) (put_list g (before ++ after) xs) fs
            × Limbo out u (put_list g (before ++ after) xs) fs i
            × Moved i t xs u (put_list g (before ++ after) xs))
          (Lru.remove (lru_of s g) i t)
    pull_lem =
        Yields.mono (take_out_lem s xs fs v g q i before after e)
          λ l u (w, r). (w, (pulled r).0, (pulled r).1)

-- The last node of a list is taken out, and is in limbo.
pub pull_back_lem :
    {out : Outside} {t : Slab} (s : CacheStripe) (xs : Family) (fs : List ℕ)
    (v : Lists out t (lru_of s) xs fs) (g : Segment) (q : is_listed g ≡ true) (i : ℕ)
    (before : List ℕ) (e : xs g ≡ before ++ i ∷ [])
    → Yields
        (λ r u.
          (r.0 ≡ i)
          × Lists out u (lru_of (with_lru s g r.1)) (put_list g (before ++ []) xs) fs
          × Limbo out u (put_list g (before ++ []) xs) fs i
          × Moved i t xs u (put_list g (before ++ []) xs))
        (pop_back (lru_of s g) t)
pull_back_lem {t} s xs fs v g q i before e =
    Yields.mono
      (pop_back-append t (lru_of s g) i before v.free.small
        (subst (IsLru t (lru_of s g)) e (v.each g)))
      λ (j, l) u (p, lru, r).
        let r' : Relinked (xs g) t u = subst (λ zs. Relinked zs t u) (sym e) r in
        let (o, m) = pulled s xs fs v g q i before [] e r' in
        (
          p,
          Lists-step s g l xs fs (before ++ []) (xs g) v q
              (subst (IsLru u l) (sym (append-nil before)) lru) r' (lists_apart v g)
              (λ a k. v.tagged g a (ap (has a) e ∙ has-insert i a before [] k))
              (λ a f.
                let k = (v.outside a f).1 g in
                (k, insert_absent i a before [] (sym (ap (has a) e) ∙ k))),
          o,
          m,
        )
