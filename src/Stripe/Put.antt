-- ===== src/Stripe/Put.antt =====
-- `CacheStripe::put` of a key that is not resident.
use walde.Base.{
  ℕ, suc, ◌+◌, ◌<◌, ◌≡◌, ◌≢◌, refl, sym, ap, ◌∙◌, subst, true, false, List, [], ◌∷◌, has, length,
  Option, none, some, arith, str_eq, ==_ne, if◌then◌else◌, update, update_self, update_ne,
}
use walde.Types.{Segment, Key, Value, invalid_index}
use walde.Slab.{Slab, ◌>>=◌}
use walde.Slab.Yields
use walde.Slab.Yields.{Yields, yields, along}
use walde.Slab.FreeList.{IsFree}
use walde.Slab.Alloc.{taken, allocate-taken, allocate-nil}
use walde.Lru.{IntrusiveLru}
use walde.Lru.Links.{Relinked}
use walde.Lru.Steps.{repool, node_lem, set_node_lem}
use walde.Sketch.{increment}
use walde.Stripe.{
  CacheStripe, insert_key, insert, insert_into_window, admit_loop, maybe_decay_cms, put,
}
use walde.Stripe.Lists.{
  Outside, lru_of, put_list, Lists, resident, resident_of_mem, free_not_resident,
}
use walde.Stripe.Steps.{Limbo, Lists-Limbo, put_in_lem}
use walde.Stripe.Moves.{Moved-step}
use walde.Stripe.Contents.{IsStripe, contents, value_at, Lists-objects, IsStripe-objects}
use walde.Stripe.Admit.{less}
use walde.Stripe.Fill.{Lists-taken, Limbo-taken, Indexed-insert, value_at-insert}
use walde.Stripe.Overwrite.{
  decayed-IsStripe, decayed-index_map, decayed-demotion_queue, decayed_main,
}
use walde.Stripe.Fed.{Fed, Fed-same, Fed-mono, Within-same}
use walde.Stripe.Insert.{Stuffed, admit_loop_lem}

-- The invariant holds, and the new value is stored among the old ones, except that at most one key
-- is lost, and none while the main segments have room.
pub record Stored (out : Outside) (s : CacheStripe) (t : Slab) (key : Key) (value : Value)
    (s' : CacheStripe) (u : Slab) : Type 0 where
  pub stripe : IsStripe out s' u
  pub lost : Option Key
  pub kept :
      (k : Key)
      → contents s' u k ≡ less lost k (if str_eq key k then some value else contents s t k)
  pub spared : s.probation.size + s.protected.size < s.main_capacity → lost ≡ none
  pub fed :
      Fed
        (λ k. if str_eq key k then some value else contents s t k)
        s.demotion_queue
        s'.demotion_queue

-- The slab once the entry is written to slot `i`.
filled : Slab → ℕ → Key → Value → Slab
filled t i key value = repool (taken i t) (
    update (taken i t).pool i
      (record ((taken i t).pool i) { key = key; value = value; segment = Segment.window }))

module _ {out : Outside} (xxh32 : Key → ℕ → ℕ) (s : CacheStripe) (t : Slab) (key : Key)
    (value : Value) (v : IsStripe out s t) (new : s.index_map key ≡ none) where
  -- No free slot: nothing is stored.
  insert-full : v.unused ≡ [] → insert xxh32 s key value t ≡ some ((false, s), t)
  unfolding insert
  insert-full e = rw (allocate-nil t (subst (IsFree t) e v.lists.free), ◌>>=◌) refl

  module _ (i : ℕ) (fs : List ℕ) (e : v.unused ≡ i ∷ fs) where
    lists : Lists out t (lru_of s) v.family (i ∷ fs)
    lists = subst (Lists out t (lru_of s) v.family) e v.lists

    filled_node :
        (filled t i key value).pool i
        ≡ record ((taken i t).pool i) { key = key; value = value; segment = Segment.window }
    unfolding filled
    filled_node = update_self (taken i t).pool i _

    filled_other : (a : ℕ) → a ≢ i → (filled t i key value).pool a ≡ t.pool a
    unfolding filled taken
    filled_other a ne =
        update_ne (taken i t).pool i a _ (λ p. ne (sym p))
        ∙ update_ne t.pool i a _ (λ p. ne (sym p))

    filled-Lists : Lists out (filled t i key value) (lru_of s) v.family fs
    unfolding filled
    filled-Lists = Lists-Limbo i _ (Lists-taken i lists) (Limbo-taken i lists)

    filled-Limbo : Limbo out (filled t i key value) v.family fs i
    unfolding filled
    filled-Limbo =
        let o = Limbo-taken i lists in
        record { below = o.below; unlinked = o.unlinked; used = o.used; own = o.own }

    off : resident t v.family i ≡ false
    off = free_not_resident lists i (ground arith)

    module _ (l : IntrusiveLru) (u : Slab)
        (w : Lists out u
          (lru_of (record s { index_map = insert_key key i s.index_map; window = l }))
          (put_list Segment.window (i ∷ v.family Segment.window) v.family)
          fs)
        (r : Relinked (i ∷ v.family Segment.window) (filled t i key value) u) where
      live :
          (a : ℕ)
          → a ≢ i
          → resident u (put_list Segment.window (i ∷ v.family Segment.window) v.family) a
            ≡ resident t v.family a
      live a ne =
          (Moved-step Segment.window refl v.family (i ∷ v.family Segment.window)
              (i ∷ v.family Segment.window) r i (λ b n. ground arith)).others
            a ne
          ∙ ap (λ c. has a (v.family c.segment)) (filled_other a ne)

      stuffed : Stuffed out (record s { index_map = insert_key key i s.index_map; window = l }) u
      stuffed = record {
        family = put_list Segment.window (i ∷ v.family Segment.window) v.family;
        unused = fs;
        lists = w;
        index =
            Indexed-insert v.index i off key new u _ (r.key i ∙ ap (λ c. c.key) filled_node)
              (resident_of_mem w Segment.window i (ground arith))
              (λ a ne. (live a ne, r.key a ∙ ap (λ c. c.key) (filled_other a ne)));
        window_bound = omega (arith, v.window_bound);
        main_bound = v.main_bound;
        protected_bound = v.protected_bound;
        protected_room = v.protected_room;
      }

      inserted :
          (k : Key)
          → value_at u (insert_key key i s.index_map k)
            ≡ (if str_eq key k then some value else contents s t k)
      inserted =
          value_at-insert v.index i off key new u value (r.value i ∙ ap (λ c. c.value) filled_node)
            (λ a ne. r.value a ∙ ap (λ c. c.value) (filled_other a ne))

      rounds : l.size + 1 ≡ suc (suc (length (v.family Segment.window)))
      rounds = omega (arith, (w.each Segment.window).size)

    insert-free :
        Yields (λ x u. (x.0 ≡ true) × Stored out s t key value x.1 u) (insert xxh32 s key value t)
    unfolding insert insert_into_window filled
    insert-free =
        let o = Limbo-taken i lists in
        rw ((allocate-taken t i fs 0 lists.free).1, ◌>>=◌)
          (rw (==_ne i invalid_index (omega (arith, lists.free.below.0, lists.free.small))) (
            rw (node_lem i (taken i t) o.below, ◌>>=◌)
              (rw
                (
                  set_node_lem i
                      (record ((taken i t).pool i) {
                        key = key;
                        value = value;
                        segment = Segment.window;
                      })
                      (taken i t) o.below,
                  ◌>>=◌,
                )
                (Yields.bind
                  (Yields.bind
                    (put_in_lem (record s { index_map = insert_key key i s.index_map }) v.family fs
                      (Lists-objects s (record s { index_map = insert_key key i s.index_map }) refl
                        refl refl filled-Lists)
                      Segment.window refl i filled-Limbo (ap (λ c. c.segment) filled_node))
                    λ l u (w, r).
                      subst
                        (λ k. Yields (Stored out s t key value) (
                          admit_loop xxh32 k
                            (record s { index_map = insert_key key i s.index_map; window = l }) u))
                        (sym (rounds l u w r))
                        (Yields.mono
                          (admit_loop_lem xxh32 _ u (stuffed l u w r)
                            (length (v.family Segment.window)))
                          λ s' y d. record {
                            stripe = d.stripe;
                            lost = d.lost;
                            kept = λ k. d.kept k ∙ ap (less d.lost k) (inserted l u w r k);
                            spared = d.spared;
                            fed = Fed-mono (Within-same _ _ (inserted l u w r)) d.fed;
                          }))
                  λ s' y d. yields (refl, d)))))

module _ (out : Outside) (xxh32 : Key → ℕ → ℕ) (s : CacheStripe) (t : Slab) (key : Key)
    (value : Value) where
  -- The stripe once `put` has counted the key.
  counted : CacheStripe
  counted = maybe_decay_cms (record s { cms = increment xxh32 key s.cms })

  counted-IsStripe : IsStripe out s t → IsStripe out counted t
  unfolding counted
  counted-IsStripe v =
      decayed-IsStripe
        (IsStripe-objects s.hits s.misses s.ops_since_decay (increment xxh32 key s.cms) v)

  counted_map : counted.index_map ≡ s.index_map
  unfolding counted
  counted_map = decayed-index_map (record s { cms = increment xxh32 key s.cms })

  counted_queue : counted.demotion_queue ≡ s.demotion_queue
  unfolding counted
  counted_queue = decayed-demotion_queue (record s { cms = increment xxh32 key s.cms })

  put_step : s.index_map key ≡ none → put xxh32 s key value t ≡ insert xxh32 counted key value t
  unfolding put counted
  put_step e =
      rw
        (
          put,
          ap (λ f. f key) (decayed-index_map (record s { cms = increment xxh32 key s.cms })) ∙ e,
        )
        refl

  -- A `put` of a key that is not resident, while the slab has a free slot, returns `true` and keeps
  -- the invariant; afterwards the new value is stored for the key and every other key keeps its
  -- value, except that at most one key, which may be the new one, is lost, and none while the main
  -- segments have room. What is pushed to the demotion queue are entries that the stripe held or the
  -- new one.
  pub put-insert :
      IsStripe out s t
      → s.index_map key ≡ none
      → 0 < t.free_count
      → Yields (λ r u. (r.0 ≡ true) × Stored out s t key value r.1 u) (put xxh32 s key value t)
  unfolding counted
  put-insert v e some_free =
      let v' = counted-IsStripe v in along (put_step e) (split v' v'.unused refl)
    where
      split :
          (v' : IsStripe out counted t) (us : List ℕ)
          → v'.unused ≡ us
          → Yields
              (λ r u. (r.0 ≡ true) × Stored out s t key value r.1 u)
              (insert xxh32 counted key value t)
      split v' [] p = absurd (omega (arith, some_free, v'.lists.free.count, ap length p))
      split v' (i ∷ fs) p =
          Yields.mono
            (insert-free xxh32 counted t key value v' (ap (λ f. f key) counted_map ∙ e) i fs p)
            λ r u (q, d). (
              q,
              record {
                stripe = d.stripe;
                lost = d.lost;
                kept = λ k.
                    d.kept k
                    ∙ ap
                        (λ f. less d.lost k (if str_eq key k then some value else value_at t (f k)))
                        counted_map;
                spared = λ h. d.spared (
                    let m = decayed_main (record s { cms = increment xxh32 key s.cms }) in
                    omega (arith, h, ap (λ l. l.size) m.0, ap (λ l. l.size) m.1, m.2));
                fed = Fed-same counted_queue (
                    Fed-mono
                      (Within-same _ _ λ k.
                        ap (λ f. if str_eq key k then some value else value_at t (f k)) counted_map)
                      d.fed);
              },
            )

  -- Without a free slot a `put` of a key that is not resident returns `false`, and keeps the invariant,
  -- the value stored for every key and the demotion queue.
  pub put-full :
      IsStripe out s t
      → s.index_map key ≡ none
      → t.free_count ≡ 0
      → Yields
          (λ r u.
            (r.0 ≡ false)
            × IsStripe out r.1 u
            × ((k : Key) → contents r.1 u k ≡ contents s t k)
            × (r.1.demotion_queue ≡ s.demotion_queue))
          (put xxh32 s key value t)
  put-full v e none_free =
      let v' = counted-IsStripe v in
      along
        (put_step e
          ∙ insert-full xxh32 counted t key value v' (ap (λ f. f key) counted_map ∙ e)
              (empty v' v'.unused refl))
        (yields (refl, v', (λ k. ap (λ f. value_at t (f k)) counted_map), counted_queue))
    where
      empty : (v' : IsStripe out counted t) (us : List ℕ) → v'.unused ≡ us → v'.unused ≡ []
      empty v' [] p = p
      empty v' (i ∷ fs) p = absurd (omega (arith, none_free, v'.lists.free.count, ap length p))
