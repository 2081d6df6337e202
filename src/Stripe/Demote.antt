-- ===== src/Stripe/Demote.antt =====
-- `demote_protected` makes room in the protected segment.
use walde.Base.{
  ℕ, ◌+◌, ◌≤◌, ◌<◌, ◌≡◌, refl, sym, ap, ◌∙◌, subst, true, false, List, [], ◌∷◌, ◌++◌, length, has,
  arith, inl, inr, Bool-cases, has-append, length-append, leb, leb-true, ==_ne, ◌==◌, last_split,
}
use walde.Types.{Segment, invalid_index}
use walde.Slab.{Slab, ◌>>=◌}
use walde.Slab.Yields
use walde.Slab.Yields.{Yields, yields, along}
use walde.Lru.{IntrusiveLru}
use walde.Stripe.{CacheStripe, demote_protected, refile}
use walde.Stripe.Lists.{
  Outside, lru_of, Family, put_list, Lists, resident, resident_of_mem, absent_of_not_resident,
}
use walde.Stripe.Steps.{Limbo}
use walde.Stripe.Moves.{Moved, Moved-trans, set_segment_lem, file_lem, pull_back_lem}

-- The stripe with its lists replaced.
abbrev pub with_lists : CacheStripe → CacheStripe → CacheStripe
with_lists s s' = record s {
  window = s'.window;
  probation = s'.probation;
  protected = s'.protected;
}

-- The lists are rearranged: the same nodes are resident, with the same keys and values, in the
-- window as many as before, and in the main segments as many; nothing else of the stripe changes.
pub record Touched (out : Outside) (s : CacheStripe) (t : Slab) (xs : Family) (fs : List ℕ)
    (s' : CacheStripe) (u : Slab) (ys : Family) : Type 0 where
  pub lists : Lists out u (lru_of s') ys fs
  pub object : s' ≡ with_lists s s'
  pub capacity : u.capacity ≡ t.capacity
  pub resident : (a : ℕ) → resident u ys a ≡ resident t xs a
  pub key : (a : ℕ) → (u.pool a).key ≡ (t.pool a).key
  pub value : (a : ℕ) → (u.pool a).value ≡ (t.pool a).value
  pub window_size : length (ys Segment.window) ≡ length (xs Segment.window)
  pub main_size :
      length (ys Segment.probation) + length (ys Segment.protected)
      ≡ length (xs Segment.probation) + length (xs Segment.protected)
  pub protected_size :
      length (xs Segment.protected) ≤ s.protected_capacity
      → length (ys Segment.protected) ≤ s.protected_capacity

-- The lists after one more step on the same stripe.
pub Touched-refl :
    {out : Outside} (s : CacheStripe) (t : Slab) (xs : Family) (fs : List ℕ)
    → Lists out t (lru_of s) xs fs
    → Touched out s t xs fs s t xs
Touched-refl s t xs fs v = record {
  lists = v;
  object = refl;
  capacity = refl;
  resident = λ a. refl;
  key = λ a. refl;
  value = λ a. refl;
  window_size = refl;
  main_size = refl;
  protected_size = λ h. h;
}

-- The outcome of `demote_protected`: there is room in the protected segment.
pub record Demoted (out : Outside) (s : CacheStripe) (t : Slab) (xs : Family) (fs : List ℕ)
    (s' : CacheStripe) (u : Slab) : Type 0 where
  pub family : Family
  pub touched : Touched out s t xs fs s' u family
  pub room : length (family Segment.protected) < s.protected_capacity

-- A node that was resident, went on its way and has arrived: all residents are as before.
pub arrived :
    {t u : Slab} {xs ys : Family} (i : ℕ)
    → Moved i t xs u ys
    → resident t xs i ≡ true
    → resident u ys i ≡ true
    → (a : ℕ) → resident u ys a ≡ resident t xs a
arrived {t} {u} {xs} {ys} i m here there a = elim (Bool-cases (i == a)) [
  | inl e ↦ ap (resident u ys) (flip e) ∙ there ∙ sym here ∙ ap (resident t xs) (sym (flip e))
  | inr e ↦ m.others a (λ p. absurd (ground arith))
]
  where
    flip : (i == a) ≡ true → a ≡ i
    flip e = ground arith

module _ {out : Outside} (s : CacheStripe) (t : Slab) (xs : Family) (fs : List ℕ)
    (v : Lists out t (lru_of s) xs fs) where
  demoted_lem :
      (before : List ℕ) (j : ℕ) (l m : IntrusiveLru) (u : Slab)
      → xs Segment.protected ≡ before ++ j ∷ []
      → length (xs Segment.protected) ≤ s.protected_capacity
      → (let ys = put_list Segment.protected (before ++ []) xs in
          let zs = put_list Segment.probation (j ∷ xs Segment.probation) ys in
          Lists out u (lru_of (record s { protected = l; probation = m })) zs fs
          → Moved j t xs u zs
          → Demoted out s t xs fs (record s { protected = l; probation = m }) u)
  demoted_lem before j l m u e h w k = record {
    family =
        put_list Segment.probation (j ∷ xs Segment.probation)
          (put_list Segment.protected (before ++ []) xs);
    touched = record {
      lists = w;
      object = refl;
      capacity = k.capacity;
      resident =
          arrived j k
            (resident_of_mem v Segment.protected j
              (ap (has j) e ∙ ground (arith, has-append j before (j ∷ []))))
            (resident_of_mem w Segment.probation j (ground arith));
      key = k.key;
      value = k.value;
      window_size = refl;
      main_size = omega (arith, sizes);
      protected_size = λ _. omega (arith, sizes, h);
    };
    room = omega (arith, sizes, h);
  }
    where
      sizes :
          (length (before ++ []) ≡ length before)
          × (length (xs Segment.protected) ≡ length before + 1)
      sizes = (
        omega (arith, length-append before []),
        ap length e ∙ omega (arith, length-append before (j ∷ [])),
      )

  demote_full :
      (before : List ℕ) (j : ℕ)
      → xs Segment.protected ≡ before ++ j ∷ []
      → s.protected_capacity ≤ s.protected.size
      → length (xs Segment.protected) ≤ s.protected_capacity
      → Yields (Demoted out s t xs fs) (demote_protected s t)
  unfolding demote_protected refile
  demote_full before j e full h = rw (leb-true s.protected_capacity s.protected.size full) (
      Yields.bind (pull_back_lem s xs fs v Segment.protected refl j before e)
        λ (j', l) u (p, w, o, m). rw p (
          rw
            (
              ==_ne j invalid_index (omega (arith, o.below, w.free.small)),
              set_segment_lem j Segment.probation u o.below,
              ◌>>=◌,
            )
            (Yields.bind (file_lem (record s { protected = l }) _ fs w Segment.probation refl j o)
              λ m' x (w', k). yields (demoted_lem before j l m' x e h w' (Moved-trans j m k)))))

  -- Makes room.
  pub demote_protected_lem :
      0 < s.protected_capacity
      → length (xs Segment.protected) ≤ s.protected_capacity
      → Yields (Demoted out s t xs fs) (demote_protected s t)
  demote_protected_lem some_room h = elim (Bool-cases (leb s.protected_capacity s.protected.size)) [
    | inl e ↦ elim (last_split (xs Segment.protected)) [
      | inl p ↦ absurd (omega (arith, full e, size, ap length p))
      | inr (before, j, p) ↦ demote_full before j p (full e) h
    ]
    | inr e ↦
        unfold demote_protected in
        rw e (
          yields (record {
            family = xs;
            touched = Touched-refl s t xs fs v;
            room = omega (arith, free e, size);
          }))
  ]
    where
      size : s.protected.size ≡ length (xs Segment.protected)
      size = (v.each Segment.protected).size

      full :
          leb s.protected_capacity s.protected.size ≡ true → s.protected_capacity ≤ s.protected.size
      full e = ground arith

      free :
          leb s.protected_capacity s.protected.size ≡ false
          → s.protected.size < s.protected_capacity
      free e = ground arith

pub Touched-Moved :
    {out : Outside} {s s' : CacheStripe} {t u : Slab} {xs ys : Family} {fs : List ℕ} (i : ℕ)
    → Touched out s t xs fs s' u ys
    → Moved i t xs u ys
Touched-Moved i d = record {
  capacity = d.capacity;
  others = λ a _. d.resident a;
  key = d.key;
  value = d.value;
}

-- A node in limbo stays there.
pub Limbo-Touched :
    {out : Outside} {s s' : CacheStripe} {t u : Slab} {xs ys : Family} {fs : List ℕ} (i : ℕ)
    → Touched out s t xs fs s' u ys
    → Limbo out t xs fs i
    → Limbo out u ys fs i
Limbo-Touched {t} i d o = record {
  below = subst (λ c. i < c) (sym d.capacity) o.below;
  unlinked = λ g. absent_of_not_resident d.lists g i (d.resident i ∙ o.unlinked (t.pool i).segment);
  used = o.used;
  own = o.own;
}
