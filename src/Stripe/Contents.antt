-- ===== src/Stripe/Contents.antt =====
-- What a stripe holds, as a map from keys to values, and the invariant that ties its index map,
-- its lists, its counts and the free list together.
use walde.Base.{
  ℕ, ◌+◌, ◌≤◌, ◌<◌, ◌≡◌, refl, sym, ap, ◌∙◌, subst, Bool, true, List, Option, none, some, arith,
  length, fun_ext, lt_of_mem,
}
use walde.Types.{Segment, Key, Value}
use walde.Slab.{Slab}
use walde.Sketch.{CountMinSketch}
use walde.Stripe.{CacheStripe, IndexMap, touch}
use walde.Stripe.Lists.{Outside, lru_of, Family, Lists, resident}
use walde.Stripe.Demote.{Touched, with_lists}
use walde.Stripe.Touch.{touch_lem}
use walde.Slab.Yields
use walde.Slab.Yields.{Yields, yields}

abbrev pub value_at : Slab → Option ℕ → Option Value
value_at t none = none
value_at t (some i) = some (t.pool i).value

pub value_at-same :
    (t u : Slab)
    → ((a : ℕ) → (u.pool a).value ≡ (t.pool a).value)
    → (o : Option ℕ) → value_at u o ≡ value_at t o
value_at-same t u same none = refl
value_at-same t u same (some i) = ap some (same i)

-- The value that is stored for a key.
abbrev pub contents : CacheStripe → Slab → Key → Option Value
contents s t k = value_at t (s.index_map k)

-- The map names the nodes that are live by their keys.
pub record Indexed (m : IndexMap) (t : Slab) (live : ℕ → Bool) : Type 0 where
  pub indexed : (i : ℕ) → live i ≡ true → m (t.pool i).key ≡ some i
  pub found : (k : Key) (i : ℕ) → m k ≡ some i → (live i ≡ true) × ((t.pool i).key ≡ k)

-- The index map names the resident nodes, and each list keeps to its capacity.
pub record IsStripe (out : Outside) (s : CacheStripe) (t : Slab) : Type 0 where
  pub family : Family
  pub unused : List ℕ
  pub lists : Lists out t (lru_of s) family unused
  pub index : Indexed s.index_map t (resident t family)
  pub window_bound : length (family Segment.window) ≤ s.window_capacity
  pub main_bound :
      length (family Segment.probation) + length (family Segment.protected) ≤ s.main_capacity
  pub protected_bound : length (family Segment.protected) ≤ s.protected_capacity
  pub protected_room : 0 < s.protected_capacity

-- The lists belong to every stripe with the same list objects.
pub Lists-objects :
    {out : Outside} {t : Slab} {xs : Family} {fs : List ℕ} (s s' : CacheStripe)
    → s'.window ≡ s.window
    → s'.probation ≡ s.probation
    → s'.protected ≡ s.protected
    → Lists out t (lru_of s) xs fs
    → Lists out t (lru_of s') xs fs
Lists-objects {out} {t} {xs} {fs} s s' a b c v =
    subst (λ L. Lists out t L xs fs) (sym (fun_ext same)) v
  where
    same : (g : Segment) → lru_of s' g ≡ lru_of s g
    same Segment.window = a
    same Segment.probation = b
    same Segment.protected = c
    same Segment.free = refl
    same Segment.l2 = refl

module _ {out : Outside} {s s' : CacheStripe} {t u : Slab} {ys : Family} (v : IsStripe out s t)
    (d : Touched out s t v.family v.unused s' u ys) where
  same_map : s'.index_map ≡ s.index_map
  same_map = ap (λ z. z.index_map) d.object

  -- Rearranging the lists keeps the invariant.
  pub IsStripe-Touched : IsStripe out s' u
  IsStripe-Touched = record {
    family = ys;
    unused = v.unused;
    lists = d.lists;
    index = record {
      indexed = λ i m.
          ap (λ f. f (u.pool i).key) same_map
          ∙ ap s.index_map (d.key i)
          ∙ v.index.indexed i (sym (d.resident i) ∙ m);
      found = λ k i e.
          let f = v.index.found k i (sym (ap (λ f. f k) same_map) ∙ e) in
          (d.resident i ∙ f.0, d.key i ∙ f.1);
    };
    window_bound =
        omega (arith, d.window_size, v.window_bound, ap (λ z. z.window_capacity) d.object);
    main_bound = omega (arith, d.main_size, v.main_bound, ap (λ z. z.main_capacity) d.object);
    protected_bound =
        omega (arith, d.protected_size v.protected_bound, ap (λ z. z.protected_capacity) d.object);
    protected_room = omega (arith, v.protected_room, ap (λ z. z.protected_capacity) d.object);
  }

  -- And it keeps what the stripe holds.
  pub contents-Touched : (k : Key) → contents s' u k ≡ contents s t k
  contents-Touched k =
      ap (λ f. value_at u (f k)) same_map ∙ value_at-same t u d.value (s.index_map k)

-- An entry that the map names lies in the pool.
pub found-lt :
    {out : Outside} {s : CacheStripe} {t : Slab} (v : IsStripe out s t) (k : Key) (i : ℕ)
    → s.index_map k ≡ some i
    → i < t.capacity
found-lt {s} {t} v k i e =
    let g = (t.pool i).segment in
    lt_of_mem t.capacity i (v.family g) (v.lists.each g).below (v.index.found k i e).0

-- The invariant and the contents are kept, and only the list objects of the stripe change.
abbrev pub Hit : Outside → CacheStripe → Slab → CacheStripe → Slab → Type 0
Hit out s t s' u =
    IsStripe out s' u
    × ((j : Key) → contents s' u j ≡ contents s t j)
    × (s' ≡ with_lists s s')
    × (u.capacity ≡ t.capacity)

-- A hit on an entry keeps the invariant and the contents, and changes the list objects only.
pub touch-IsStripe :
    {out : Outside} {s : CacheStripe} {t : Slab} (k : Key) (i : ℕ)
    → IsStripe out s t
    → s.index_map k ≡ some i
    → Yields (Hit out s t) (touch s i (t.pool i).segment t)
touch-IsStripe {s} {t} k i v e =
    Yields.mono
      (touch_lem s t v.family v.unused v.lists i (v.index.found k i e).0 v.protected_room
        v.protected_bound)
      λ s' u d. (
        IsStripe-Touched v d.touched,
        contents-Touched v d.touched,
        d.touched.object,
        d.touched.capacity,
      )

-- The stripe with other counters and another sketch.
pub IsStripe-objects :
    {out : Outside} {s : CacheStripe} {t : Slab} (h m o : ℕ) (c : CountMinSketch)
    → IsStripe out s t
    → IsStripe out (record s { hits = h; misses = m; ops_since_decay = o; cms = c }) t
IsStripe-objects {s} h m o c v = record {
  family = v.family;
  unused = v.unused;
  lists =
      Lists-objects s (record s { hits = h; misses = m; ops_since_decay = o; cms = c }) refl refl
        refl v.lists;
  index = v.index;
  window_bound = v.window_bound;
  main_bound = v.main_bound;
  protected_bound = v.protected_bound;
  protected_room = v.protected_room;
}
