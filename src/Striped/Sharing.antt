-- ===== src/Striped/Sharing.antt =====
-- Stripes that share a slab: what one of them does leaves the lists of the others alone.
use walde.Base.{
  ℕ, ◌<◌, ◌≤◌, ◌+◌, ◌≡◌, refl, sym, ap, ◌∙◌, subst, true, List, ◌∈◌, ◌∉◌, has, length, Option, none,
  some, AllBelow,
}
use walde.Types.{Segment, Key, invalid_index}
use walde.Slab.{Slab}
use walde.Lru.{IntrusiveLru}
use walde.Lru.Links.{Linked-frame}
use walde.Queue.{DemotionQueue}
use walde.Stripe.{CacheStripe}
use walde.Stripe.Lists.{Outside, nowhere, lru_of, Family, Lists, resident}
use walde.Stripe.Contents.{IsStripe, Indexed, contents, value_at, Lists-objects}

-- The same lists seen with other users of the slab.
pub Lists-outside :
    {o : Outside} {t : Slab} {L : Segment → IntrusiveLru} {xs : Family} {fs : List ℕ} (p : Outside)
    → t.capacity ≡ p.capacity
    → ((a : ℕ) → p.foreign a → (t.pool a ≡ p.nodes a) × ((g : Segment) → a ∉ xs g) × (a ∉ fs))
    → Lists o t L xs fs
    → Lists p t L xs fs
Lists-outside p sized outside v = record {
  sized = sized;
  each = v.each;
  tagged = v.tagged;
  free = v.free;
  blank = v.blank;
  unlisted = v.unlisted;
  outside = outside;
}

-- One stripe's part of the slab, for itself.
pub record Part (s : CacheStripe) (t : Slab) (xs : Family) (fs : List ℕ) : Type 0 where
  pub lists : Lists (nowhere t.capacity) t (lru_of s) xs fs
  pub index : Indexed s.index_map t (resident t xs)
  pub window_bound : length (xs Segment.window) ≤ s.window_capacity
  pub main_bound : length (xs Segment.probation) + length (xs Segment.protected) ≤ s.main_capacity
  pub protected_bound : length (xs Segment.protected) ≤ s.protected_capacity
  pub protected_room : 0 < s.protected_capacity

pub Part-of :
    {out : Outside} {s : CacheStripe} {t : Slab} (v : IsStripe out s t) → Part s t v.family v.unused
Part-of {out} {s} {t} v = record {
  lists = Lists-outside (nowhere t.capacity) refl (λ a f. absurd f) v.lists;
  index = v.index;
  window_bound = v.window_bound;
  main_bound = v.main_bound;
  protected_bound = v.protected_bound;
  protected_room = v.protected_room;
}

-- The part as an invariant of the stripe with a queue lent to it.
pub IsStripe-Part :
    {s : CacheStripe} {t : Slab} {xs : Family} {fs : List ℕ} (q : Option DemotionQueue)
    (out : Outside)
    → t.capacity ≡ out.capacity
    → ((a : ℕ) → out.foreign a → (t.pool a ≡ out.nodes a) × ((g : Segment) → a ∉ xs g) × (a ∉ fs))
    → Part s t xs fs
    → IsStripe out (record s { demotion_queue = q }) t
IsStripe-Part {s} {t} {xs} {fs} q out sized outside v = record {
  family = xs;
  unused = fs;
  lists =
      Lists-objects s (record s { demotion_queue = q }) refl refl refl
        (Lists-outside out sized outside v.lists);
  index = v.index;
  window_bound = v.window_bound;
  main_bound = v.main_bound;
  protected_bound = v.protected_bound;
  protected_room = v.protected_room;
}

-- A stripe that did not run: the nodes in its lists are as they were.
module _ {s : CacheStripe} {t : Slab} {xs : Family} {fs : List ℕ} (v : Part s t xs fs) (u : Slab)
    (gs : List ℕ) (sized : u.capacity ≡ t.capacity)
    (same : (g : Segment) (a : ℕ) → a ∈ xs g → u.pool a ≡ t.pool a) where
  frame_resident : (a : ℕ) → resident t xs a ≡ true → u.pool a ≡ t.pool a
  frame_resident a m = same (t.pool a).segment a m

  -- The other way round.
  frame_resident_after : (a : ℕ) → resident u xs a ≡ true → u.pool a ≡ t.pool a
  frame_resident_after a m = same (u.pool a).segment a m

  pub Part-frame :
      {out : Outside} {L : Segment → IntrusiveLru} {ys : Family}
      → Lists out u L ys gs
      → Part s u xs gs
  Part-frame w = record {
    lists = record {
      sized = refl;
      each = λ g.
          let lru = v.lists.each g in
          record {
            linked =
                Linked-frame u.pool t.pool invalid_index invalid_index (xs g) (same g) lru.linked;
            head = lru.head;
            tail = lru.tail;
            size = lru.size;
            distinct = lru.distinct;
            below = subst (λ n. AllBelow n (xs g)) (sym sized) lru.below;
          };
      tagged = λ g i m. ap (λ c. c.segment) (same g i m) ∙ v.lists.tagged g i m;
      free = w.free;
      blank = w.blank;
      unlisted = v.lists.unlisted;
      outside = λ a f. absurd f;
    };
    index = record {
      indexed = λ i m.
          let e = frame_resident_after i m in
          ap (λ c. s.index_map c.key) e
          ∙ v.index.indexed i (sym (ap (λ c. has i (xs c.segment)) e) ∙ m);
      found = λ k i e.
          let f = v.index.found k i e in
          let q = frame_resident i f.0 in
          (ap (λ c. has i (xs c.segment)) q ∙ f.0, ap (λ c. c.key) q ∙ f.1);
    };
    window_bound = v.window_bound;
    main_bound = v.main_bound;
    protected_bound = v.protected_bound;
    protected_room = v.protected_room;
  }

  pub contents-frame : (k : Key) → contents s u k ≡ contents s t k
  contents-frame k = at (s.index_map k) refl
    where
      at : (o : Option ℕ) → s.index_map k ≡ o → value_at u o ≡ value_at t o
      at none e = refl
      at (some i) e = ap (λ c. some c.value) (frame_resident i (v.index.found k i e).0)
