-- ===== src/Stripe/Steps.antt =====
-- What one list operation, one write to a node or one call of the allocator does to the three
-- lists of a stripe.
use walde.Base.{
  ℕ, ◌<◌, ◌≡◌, ◌≢◌, sym, ap, ◌∙◌, subst, true, List, ◌∷◌, ◌++◌, ◌∈◌, ◌∉◌, Disjoint, has, arith, inl,
  inr, Bool-cases, update, update_ne, ne_of_mem, has-append, has-insert,
}
use walde.Types.{Segment, CacheNode, invalid_index}
use walde.Slab.{Slab}
use walde.Slab.Yields
use walde.Slab.Yields.{Yields, yields, along}
use walde.Lru
use walde.Lru.{IntrusiveLru, push_front, move_to_front}
use walde.Lru.Links.{IsLru, Relinked, Linked-same}
use walde.Lru.Frame.{IsLru-frame, IsFree-frame}
use walde.Lru.Push.{push_front_lem}
use walde.Lru.Remove.{remove_lem}
use walde.Lru.Ends.{move_to_front_lem}
use walde.Stripe.{CacheStripe}
use walde.Stripe.Lists.{
  Outside, Segment-discrete, lru_of, with_lru, is_listed, Family, put_list, lru_of-with_lru_self,
  put_list_self, lru_of-with_lru, put_list_ne, Lists, lists_apart,
}

-- A node that is in no list and not free.
pub record Limbo (out : Outside) (t : Slab) (xs : Family) (fs : List ℕ) (i : ℕ) : Type 0 where
  pub below : i < t.capacity
  pub unlinked : (g : Segment) → i ∉ xs g
  pub used : i ∉ fs
  pub own : ¬ out.foreign i

step_absent :
    (g : Segment) (xs : Family) (ys : List ℕ)
    → is_listed g ≡ true
    → (a : ℕ) → ((h : Segment) → a ∉ xs h)
    → a ∉ ys
    → (h : Segment) → a ∉ put_list g ys xs h
step_absent g xs ys q a o m h = elim (Segment-discrete h g) [
  | yes e ↦ ap (λ h. has a (put_list g ys xs h)) e ∙ ap (has a) (put_list_self g ys xs q) ∙ m
  | no ne ↦ ap (has a) (put_list_ne g h ys xs ne) ∙ o h
]

module _ {out : Outside} {t : Slab} (s : CacheStripe) (g : Segment) (l : IntrusiveLru) (xs : Family)
    (fs ys zs : List ℕ) where
  step_each :
      {u : Slab}
      → Lists out t (lru_of s) xs fs
      → is_listed g ≡ true
      → IsLru u l ys
      → Relinked zs t u
      → ((h : Segment) → h ≢ g → Disjoint (xs h) zs)
      → (h : Segment) → IsLru u (lru_of (with_lru s g l) h) (put_list g ys xs h)
  step_each {u} v q lru r apart h = elim (Segment-discrete h g) [
    | yes e ↦
        subst (λ h. IsLru u (lru_of (with_lru s g l) h) (put_list g ys xs h)) (sym e)
          (rw (lru_of-with_lru_self s g l q, put_list_self g ys xs q) lru)
    | no ne ↦
        rw (lru_of-with_lru s g h l ne, put_list_ne g h ys xs ne)
          (IsLru-frame (xs h) zs r (apart h ne) (v.each h))
  ]

  step_tagged :
      Lists out t (lru_of s) xs fs
      → is_listed g ≡ true
      → ((i : ℕ) → i ∈ ys → (t.pool i).segment ≡ g)
      → (h : Segment) (i : ℕ) → i ∈ put_list g ys xs h
      → (t.pool i).segment ≡ h
  step_tagged v q tag h i m = elim (Segment-discrete h g) [
    | yes e ↦
        tag i (
          ap (has i) (sym (put_list_self g ys xs q))
          ∙ ap (λ h. has i (put_list g ys xs h)) (sym e)
          ∙ m)
        ∙ sym e
    | no ne ↦ v.tagged h i (ap (has i) (sym (put_list_ne g h ys xs ne)) ∙ m)
  ]

  -- An operation on the list of `g`.
  pub Lists-step :
      {u : Slab}
      → Lists out t (lru_of s) xs fs
      → is_listed g ≡ true
      → IsLru u l ys
      → Relinked zs t u
      → ((h : Segment) → h ≢ g → Disjoint (xs h) zs)
      → ((i : ℕ) → i ∈ ys → (t.pool i).segment ≡ g)
      → ((a : ℕ) → out.foreign a → (a ∉ zs) × (a ∉ ys))
      → Lists out u (lru_of (with_lru s g l)) (put_list g ys xs) fs
  Lists-step v q lru r apart tag away = record {
    each = step_each v q lru r apart;
    sized = r.capacity ∙ v.sized;
    tagged = λ h i m. r.segment i ∙ step_tagged v q tag h i m;
    free = IsFree-frame zs fs r v.free;
    blank = λ i m. r.segment i ∙ v.blank i m;
    unlisted = λ h o.
        put_list_ne g h ys xs
          (λ e. absurd (let k = sym q ∙ ap is_listed (sym e) ∙ o in ground (arith, k)))
        ∙ v.unlisted h o;
    outside = λ a f. (
      r.outside a (away a f).0 ∙ (v.outside a f).0,
      λ h. step_absent g xs ys q a ((v.outside a f).1) (away a f).1 h,
      (v.outside a f).2,
    );
  }

-- Writes outside the lists: only the links and the segment of a node in a list count.
pub Lists-same :
    {out : Outside} {t : Slab} {L : Segment → IntrusiveLru} {xs : Family} {fs : List ℕ}
    (h : ℕ → CacheNode)
    → Lists out t L xs fs
    → ((g : Segment) (i : ℕ)
        → i ∈ xs g
        → ((h i).prev ≡ (t.pool i).prev)
          × ((h i).next ≡ (t.pool i).next)
          × ((h i).segment ≡ (t.pool i).segment))
    → ((i : ℕ) → i ∈ fs → (h i).segment ≡ (t.pool i).segment)
    → ((a : ℕ) → out.foreign a → h a ≡ t.pool a)
    → Lists out (record t { pool = h }) L xs fs
Lists-same {t} {L} {xs} {fs} h v same kept alien = record {
  each = λ g.
      let lru = v.each g in
      record {
        linked =
            Linked-same h t.pool invalid_index invalid_index (xs g)
              (λ a m. ((same g a m).0, (same g a m).1)) lru.linked;
        head = lru.head;
        tail = lru.tail;
        size = lru.size;
        distinct = lru.distinct;
        below = lru.below;
      };
  sized = v.sized;
  tagged = λ g i m. (same g i m).2 ∙ v.tagged g i m;
  free =
      let f = v.free in
      record {
        chain = f.chain;
        distinct = f.distinct;
        below = f.below;
        count = f.count;
        small = f.small;
      };
  blank = λ i m. kept i m ∙ v.blank i m;
  unlisted = v.unlisted;
  outside = λ a f. let (p, m, n) = v.outside a f in (alien a f ∙ p, m, n);
}

-- A write to a node in limbo.
pub Lists-Limbo :
    {out : Outside} {t : Slab} {L : Segment → IntrusiveLru} {xs : Family} {fs : List ℕ} (i : ℕ)
    (n : CacheNode)
    → Lists out t L xs fs
    → Limbo out t xs fs i
    → Lists out (record t { pool = update t.pool i n }) L xs fs
Lists-Limbo {out} {t} {L} {xs} {fs} i n v o =
    Lists-same (update t.pool i n) v
      (λ g a m.
        let e = kept a (ne_of_mem a i (xs g) m (o.unlinked g)) in
        (ap (λ c. c.prev) e, ap (λ c. c.next) e, ap (λ c. c.segment) e))
      (λ a m. ap (λ c. c.segment) (kept a (ne_of_mem a i fs m o.used)))
      (λ a f. kept a (λ p. o.own (subst out.foreign p f)))
  where
    kept : (a : ℕ) → a ≢ i → update t.pool i n a ≡ t.pool a
    kept a ne = update_ne t.pool i a n (λ e. ne (sym e))

pub insert_absent :
    (i a : ℕ) (before after : List ℕ) → a ∉ (before ++ i ∷ after) → a ∉ (before ++ after)
insert_absent i a before after m =
    ground (arith, m, has-append a before (i ∷ after), has-append a before after)

front_absent :
    (i a : ℕ) (before after : List ℕ) → a ∉ (before ++ i ∷ after) → a ∉ (i ∷ (before ++ after))
front_absent i a before after m =
    ground (arith, m, has-append a before (i ∷ after), has-append a before after)

front : (i a : ℕ) (before after : List ℕ) → a ∈ (i ∷ (before ++ after)) → a ∈ (before ++ i ∷ after)
front i a before after m =
    ground (arith, has-append a before (i ∷ after), has-append a before after)

module _ {out : Outside} {t : Slab} (s : CacheStripe) (xs : Family) (fs : List ℕ)
    (v : Lists out t (lru_of s) xs fs) (g : Segment) (q : is_listed g ≡ true) (i : ℕ) where
  -- A node moves to the front of its list.
  pub to_front_lem :
      (before after : List ℕ)
      → xs g ≡ before ++ i ∷ after
      → Yields
          (λ l u.
            Lists out u (lru_of (with_lru s g l)) (put_list g (i ∷ (before ++ after)) xs) fs
            × Relinked (xs g) t u)
          (move_to_front (lru_of s g) i t)
  to_front_lem before after e =
      Yields.mono
        (move_to_front_lem t (lru_of s g) i before after v.free.small
          (subst (IsLru t (lru_of s g)) e (v.each g)))
        λ l u (lru, r).
          let r' : Relinked (xs g) t u = subst (λ zs. Relinked zs t u) (sym e) r in
          (
            Lists-step s g l xs fs (i ∷ (before ++ after)) (xs g) v q lru r' (lists_apart v g)
                (λ a m. v.tagged g a (ap (has a) e ∙ front i a before after m))
                (λ a f.
                  let m = (v.outside a f).1 g in
                  (m, front_absent i a before after (sym (ap (has a) e) ∙ m))),
            r',
          )

  -- A node is taken out of its list.
  pub take_out_lem :
      (before after : List ℕ)
      → xs g ≡ before ++ i ∷ after
      → Yields
          (λ l u.
            Lists out u (lru_of (with_lru s g l)) (put_list g (before ++ after) xs) fs
            × Relinked (xs g) t u)
          (Lru.remove (lru_of s g) i t)
  take_out_lem before after e =
      Yields.mono
        (remove_lem t (lru_of s g) i before after (subst (IsLru t (lru_of s g)) e (v.each g))
          v.free.small)
        λ l u (lru, r).
          let r' : Relinked (xs g) t u = subst (λ zs. Relinked zs t u) (sym e) r in
          (
            Lists-step s g l xs fs (before ++ after) (xs g) v q lru r' (lists_apart v g)
                (λ a m. v.tagged g a (ap (has a) e ∙ has-insert i a before after m))
                (λ a f.
                  let m = (v.outside a f).1 g in
                  (m, insert_absent i a before after (sym (ap (has a) e) ∙ m))),
            r',
          )

  -- A node in limbo that carries the segment goes to the front of its list.
  pub put_in_lem :
      Limbo out t xs fs i
      → (t.pool i).segment ≡ g
      → Yields
          (λ l u.
            Lists out u (lru_of (with_lru s g l)) (put_list g (i ∷ xs g) xs) fs
            × Relinked (i ∷ xs g) t u)
          (push_front (lru_of s g) i t)
  put_in_lem o tag =
      Yields.mono
        (push_front_lem t (lru_of s g) i (xs g) v.free.small (v.each g) o.below (o.unlinked g))
        λ l u (lru, r). (
          Lists-step s g l xs fs (i ∷ xs g) (i ∷ xs g) v q lru r
              (λ h ne a m.
                ground (arith, lists_apart v g h ne a m, ne_of_mem a i (xs h) m (o.unlinked h)))
              (λ a m. elim (Bool-cases (has a (xs g))) [
                | inl n ↦ v.tagged g a n
                | inr n ↦ ap (λ j. (t.pool j).segment) (eq a m n) ∙ tag
              ])
              (λ a f. (apart a f, apart a f)),
          r,
        )
    where
      apart : (a : ℕ) → out.foreign a → a ∉ (i ∷ xs g)
      apart a f =
          let m = (v.outside a f).1 g in
          let ne : a ≢ i = λ p. o.own (subst out.foreign p f) in ground (arith, m, ne)

      eq : (a : ℕ) → a ∈ (i ∷ xs g) → a ∉ xs g → a ≡ i
      eq a m n = ground arith
