-- ===== src/Stripe/Touch.antt =====
-- `promote_to_protected` and `touch`: what a hit does to the lists of a stripe.
use walde.Base.{
  ℕ, ◌+◌, ◌≤◌, ◌<◌, ◌≡◌, refl, sym, ap, ◌∙◌, true, List, ◌∷◌, ◌++◌, ◌∈◌, length, has, arith,
  has-append, length-append, member_split, lt_of_mem,
}
use walde.Types.{Segment}
use walde.Slab.{Slab, ◌>>=◌}
use walde.Slab.Yields
use walde.Slab.Yields.{Yields, yields, along}
use walde.Lru.{IntrusiveLru}
use walde.Lru.Steps.{node_lem}
use walde.Stripe.{CacheStripe, promote_to_protected, touch}
use walde.Stripe.Lists.{Outside, lru_of, Family, put_list, Lists, resident, resident_of_mem}
use walde.Stripe.Steps.{to_front_lem}
use walde.Stripe.Moves.{Moved, Moved-trans, resident-step, set_segment_lem, file_lem, pull_lem}
use walde.Stripe.Demote.{
  Touched, Demoted, arrived, demote_protected_lem, Touched-Moved, Limbo-Touched,
}

-- The outcome of a step on the lists.
pub record Rearranged (out : Outside) (s : CacheStripe) (t : Slab) (xs : Family) (fs : List ℕ)
    (s' : CacheStripe) (u : Slab) : Type 0 where
  pub family : Family
  pub touched : Touched out s t xs fs s' u family

module _ {out : Outside} (s : CacheStripe) (t : Slab) (xs : Family) (fs : List ℕ)
    (v : Lists out t (lru_of s) xs fs) (i : ℕ) where
  promoted_lem :
      (before after : List ℕ) (p m : IntrusiveLru) (s' : CacheStripe) (u x y : Slab)
      → xs Segment.probation ≡ before ++ i ∷ after
      → length (xs Segment.protected) ≤ s.protected_capacity
      → Moved i t xs u (put_list Segment.probation (before ++ after) xs)
      → (d : Demoted out
          (record s { probation = p })
          u
          (put_list Segment.probation (before ++ after) xs)
          fs
          s'
          x)
      → (let zs = put_list Segment.protected (i ∷ d.family Segment.protected) d.family in
          Lists out y (lru_of (record s' { protected = m })) zs fs
          → Moved i x d.family y zs
          → Rearranged out s t xs fs (record s' { protected = m }) y)
  promoted_lem before after p m s' u x y e h m1 d w k = record {
    family = put_list Segment.protected (i ∷ d.family Segment.protected) d.family;
    touched = record {
      lists = w;
      object =
          ap {A = CacheStripe} {B = CacheStripe} (λ z. record z { protected = m }) d.touched.object;
      capacity = all.capacity;
      resident =
          arrived i all
            (resident_of_mem v Segment.probation i
              (ap (has i) e ∙ ground (arith, has-append i before (i ∷ after))))
            (resident_of_mem w Segment.protected i (ground arith));
      key = all.key;
      value = all.value;
      window_size = d.touched.window_size;
      main_size = omega (arith, d.touched.main_size, sizes);
      protected_size = λ _. omega (arith, d.room);
    };
  }
    where
      all : Moved i t xs y (put_list Segment.protected (i ∷ d.family Segment.protected) d.family)
      all = Moved-trans i m1 (Moved-trans i (Touched-Moved i d.touched) k)

      sizes :
          (length (before ++ after) ≡ length before + length after)
          × (length (xs Segment.probation) ≡ length before + length after + 1)
      sizes = (
        length-append before after,
        ap length e ∙ omega (arith, length-append before (i ∷ after)),
      )

  promote_to_protected_lem :
      i ∈ xs Segment.probation
      → 0 < s.protected_capacity
      → length (xs Segment.protected) ≤ s.protected_capacity
      → Yields (Rearranged out s t xs fs) (promote_to_protected s i t)
  unfolding promote_to_protected
  promote_to_protected_lem m some_room h =
      let (before, after, e) = member_split i (xs Segment.probation) m in
      rw
        (
          node_lem i t
              (lt_of_mem t.capacity i (xs Segment.probation) (v.each Segment.probation).below m),
          ◌>>=◌,
        )
        (Yields.bind (pull_lem s xs fs v Segment.probation refl i before after e)
          λ p u (w1, o1, m1).
            Yields.bind (demote_protected_lem (record s { probation = p }) u _ fs w1 some_room h)
              λ s' x d.
                let o2 = Limbo-Touched i d.touched o1 in
                rw (set_segment_lem i Segment.protected x o2.below, ◌>>=◌)
                  (Yields.bind (file_lem s' d.family fs d.touched.lists Segment.protected refl i o2)
                    λ q y (w, k). yields (promoted_lem before after p q s' u x y e h m1 d w k)))

  same_members :
      (g : Segment) (before after : List ℕ)
      → xs g ≡ before ++ i ∷ after
      → (a : ℕ) → has a (i ∷ (before ++ after)) ≡ has a (xs g)
  same_members g before after e a =
      ground (arith, has-append a before (i ∷ after), has-append a before after)
      ∙ ap (has a) (sym e)

  length-front :
      (g : Segment) (before after : List ℕ)
      → xs g ≡ before ++ i ∷ after
      → length (i ∷ (before ++ after)) ≡ length (xs g)
  length-front g before after e =
      omega (arith, length-append before after, length-append before (i ∷ after))
      ∙ sym (ap length e)

  touch_in :
      (g : Segment)
      → i ∈ xs g
      → 0 < s.protected_capacity
      → length (xs Segment.protected) ≤ s.protected_capacity
      → Yields (Rearranged out s t xs fs) (touch s i g t)
  unfolding touch
  touch_in Segment.window m some_room h =
      let (before, after, e) = member_split i (xs Segment.window) m in
      Yields.bind (to_front_lem s xs fs v Segment.window refl i before after e) λ l u (w, r).
        yields (record {
          family = put_list Segment.window (i ∷ (before ++ after)) xs;
          touched = record {
            lists = w;
            object = refl;
            capacity = r.capacity;
            resident = λ a.
                resident-step Segment.window refl xs _ (xs Segment.window) r a
                  (λ _. same_members Segment.window before after e a);
            key = r.key;
            value = r.value;
            window_size = length-front Segment.window before after e;
            main_size = refl;
            protected_size = λ k. k;
          };
        })
  touch_in Segment.probation m some_room h = promote_to_protected_lem m some_room h
  touch_in Segment.protected m some_room h =
      let (before, after, e) = member_split i (xs Segment.protected) m in
      Yields.bind (to_front_lem s xs fs v Segment.protected refl i before after e) λ l u (w, r).
        yields (record {
          family = put_list Segment.protected (i ∷ (before ++ after)) xs;
          touched = record {
            lists = w;
            object = refl;
            capacity = r.capacity;
            resident = λ a.
                resident-step Segment.protected refl xs _ (xs Segment.protected) r a
                  (λ _. same_members Segment.protected before after e a);
            key = r.key;
            value = r.value;
            window_size = refl;
            main_size =
                ap (λ n. length (xs Segment.probation) + n)
                  (length-front Segment.protected before after e);
            protected_size = λ k. omega (arith, k, length-front Segment.protected before after e);
          };
        })
  touch_in Segment.free m some_room h =
      absurd (let e = v.unlisted Segment.free refl in let k = sym (ap (has i) e) ∙ m in cc)
  touch_in Segment.l2 m some_room h =
      absurd (let e = v.unlisted Segment.l2 refl in let k = sym (ap (has i) e) ∙ m in cc)

  -- A hit: no assertion fails, whichever segment the node is in, and the lists are rearranged.
  pub touch_lem :
      resident t xs i ≡ true
      → 0 < s.protected_capacity
      → length (xs Segment.protected) ≤ s.protected_capacity
      → Yields (Rearranged out s t xs fs) (touch s i (t.pool i).segment t)
  touch_lem m some_room h = touch_in (t.pool i).segment m some_room h
