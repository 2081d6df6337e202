-- ===== src/Stripe/Overwrite.antt =====
-- `CacheStripe::put` of a key that is resident.
use walde.Base.{
  ℕ, ◌≡◌, ◌≢◌, refl, sym, ap, has, ◌∙◌, subst, false, Option, none, some, arith, leb, str_eq,
  eq_of_str_eq, str_eq_self, if◌then◌else◌, inl, inr, Bool-cases, ◌==◌, update, update_self,
  update_ne,
}
use walde.Types.{CacheNode, Key, Value}
use walde.Slab.{Slab, ◌>>=◌}
use walde.Slab.Yields
use walde.Slab.Yields.{Yields, yields, along}
use walde.Lru.Steps.{node_lem, set_node_lem, repool}
use walde.Base.Arith.{add64}
use walde.Sketch.{increment, decay}
use walde.Stripe.Lists.{Outside, resident_not_foreign}
use walde.Stripe.{CacheStripe, put, overwrite, touch, maybe_decay_cms}
use walde.Stripe.Steps.{Lists-same}
use walde.Stripe.Contents.{
  IsStripe, contents, value_at, found-lt, Hit, touch-IsStripe, IsStripe-objects,
}

-- The slab once a value is stored in slot `i`.
abbrev stored : Slab → ℕ → Value → Slab
stored t i value = repool t (update t.pool i (record (t.pool i) { value = value }))

-- The write changes the value of one node.
module _ (t : Slab) (i : ℕ) (value : Value) where
  stored_other : (a : ℕ) → a ≢ i → (stored t i value).pool a ≡ t.pool a
  stored_other a ne = update_ne t.pool i a _ (λ e. ne (sym e))

  stored_value : (stored t i value).pool i ≡ record (t.pool i) { value = value }
  stored_value = update_self t.pool i _

  stored_node :
      (a : ℕ)
      → ((stored t i value).pool a)
        ≡ (record (t.pool a) { value = ((stored t i value).pool a).value })
  stored_node a = elim (Bool-cases (i == a)) [
    | inl e ↦ rw e (
        ap {A = ℕ} {B = CacheNode} (λ b. record (t.pool b) { value = value }) {x = i} {y = a}
          (ground arith))
    | inr e ↦ rw e refl
  ]

module _ {out : Outside} {s : CacheStripe} {t : Slab} (i : ℕ) (value : Value) where
  stored-IsStripe :
      (key : Key) → IsStripe out s t → s.index_map key ≡ some i → IsStripe out s (stored t i value)
  stored-IsStripe key v at_i = record {
    family = v.family;
    unused = v.unused;
    lists =
        Lists-same (stored t i value).pool v.lists
          (λ g a m.
            let e = stored_node t i value a in
            (ap (λ c. c.prev) e, ap (λ c. c.next) e, ap (λ c. c.segment) e))
          (λ a m. ap (λ c. c.segment) (stored_node t i value a))
          (λ a f. stored_other t i value a (λ p.
            (resident_not_foreign v.lists i (v.index.found key i at_i).0) (subst out.foreign p f)));
    index = record {
      indexed = λ a m.
          let n = stored_node t i value a in
          ap (λ c. s.index_map c.key) n
          ∙ v.index.indexed a (sym (ap (λ c. has a (v.family c.segment)) n) ∙ m);
      found = λ k a e.
          let n = stored_node t i value a in
          let f = v.index.found k a e in
          (ap (λ c. has a (v.family c.segment)) n ∙ f.0, ap (λ c. c.key) n ∙ f.1);
    };
    window_bound = v.window_bound;
    main_bound = v.main_bound;
    protected_bound = v.protected_bound;
    protected_room = v.protected_room;
  }

  stored-contents :
      (key : Key)
      → IsStripe out s t
      → s.index_map key ≡ some i
      → (k : Key)
      → contents s (stored t i value) k ≡ (if str_eq key k then some value else contents s t k)
  stored-contents key v e k = elim (Bool-cases (str_eq key k)) [
    | inl p ↦ rw p (
        ap (λ j. value_at (stored t i value) (s.index_map j)) (sym (eq_of_str_eq key k p))
        ∙ ap (value_at (stored t i value)) e
        ∙ ap (λ c. some c.value) (stored_value t i value))
    | inr p ↦ rw p (at (s.index_map k) refl p)
  ]
    where
      at :
          (o : Option ℕ)
          → s.index_map k ≡ o
          → str_eq key k ≡ false
          → value_at (stored t i value) o ≡ value_at t o
      at none q p = refl
      at (some a) q p =
          ap (λ c. some c.value)
            (stored_other t i value a (λ r.
              let same_key =
                sym (v.index.found key i e).1
                ∙ ap (λ b. (t.pool b).key) (sym r)
                ∙ (v.index.found k a q).1 in
              let self = sym (str_eq_self key) ∙ ap (str_eq key) same_key ∙ p in absurd (cc)))

  overwrite_lem :
      (xxh32 : Key → ℕ → ℕ) (key : Key)
      → IsStripe out s t
      → s.index_map key ≡ some i
      → Yields
          (λ r u.
            (r.0 ≡ false)
            × IsStripe out r.1 u
            × ((k : Key) → contents r.1 u k ≡ (if str_eq key k then some value else contents s t k))
            × (r.1.demotion_queue ≡ s.demotion_queue))
          (overwrite xxh32 s i value t)
  unfolding overwrite
  overwrite_lem xxh32 key v e =
      let h = found-lt v key i e in
      rw (node_lem i t h, ◌>>=◌)
        (rw (set_node_lem i (record (t.pool i) { value = value }) t h, ◌>>=◌)
          (Yields.bind
            (subst
              (λ c. Yields (Hit out s (stored t i value)) (touch s i c.segment (stored t i value)))
              (stored_value t i value) (touch-IsStripe key i (stored-IsStripe key v e) e))
            λ s' u (w, same, object, _). yields (
              refl,
              w,
              (λ k. same k ∙ stored-contents key v e k),
              ap (λ z. z.demotion_queue) object,
            )))

-- Aging leaves all but the sketch alone.
pub decayed-IsStripe :
    {out : Outside} {s : CacheStripe} {t : Slab}
    → IsStripe out s t
    → IsStripe out (maybe_decay_cms s) t
unfolding maybe_decay_cms
decayed-IsStripe {s} v = elim (Bool-cases (leb s.decay_interval (add64 s.ops_since_decay 1))) [
  | inl e ↦ rw e (IsStripe-objects s.hits s.misses 0 (decay s.cms) v)
  | inr e ↦ rw e (IsStripe-objects s.hits s.misses (add64 s.ops_since_decay 1) s.cms v)
]

pub decayed-index_map : (s : CacheStripe) → (maybe_decay_cms s).index_map ≡ s.index_map
unfolding maybe_decay_cms
decayed-index_map s = elim (Bool-cases (leb s.decay_interval (add64 s.ops_since_decay 1))) [
  | inl e ↦ rw e refl
  | inr e ↦ rw e refl
]

pub decayed-demotion_queue :
    (s : CacheStripe) → (maybe_decay_cms s).demotion_queue ≡ s.demotion_queue
unfolding maybe_decay_cms
decayed-demotion_queue s = elim (Bool-cases (leb s.decay_interval (add64 s.ops_since_decay 1))) [
  | inl e ↦ rw e refl
  | inr e ↦ rw e refl
]

pub decayed_main :
    (s : CacheStripe)
    → ((maybe_decay_cms s).probation ≡ s.probation)
      × ((maybe_decay_cms s).protected ≡ s.protected)
      × ((maybe_decay_cms s).main_capacity ≡ s.main_capacity)
unfolding maybe_decay_cms
decayed_main s = elim (Bool-cases (leb s.decay_interval (add64 s.ops_since_decay 1))) [
  | inl e ↦ rw e (refl, refl, refl)
  | inr e ↦ rw e (refl, refl, refl)
]

module _ (out : Outside) (xxh32 : Key → ℕ → ℕ) (s : CacheStripe) (t : Slab) (key : Key)
    (value : Value) where
  -- A `put` of a key that is resident respects the invariant and returns `false`; afterwards the new
  -- value is stored for the key and every other key keeps its value: nothing is evicted, and the
  -- demotion queue is as it was.
  pub put-overwrite :
      (i : ℕ)
      → IsStripe out s t
      → s.index_map key ≡ some i
      → Yields
          (λ r u.
            (r.0 ≡ false)
            × IsStripe out r.1 u
            × ((k : Key) → contents r.1 u k ≡ (if str_eq key k then some value else contents s t k))
            × (r.1.demotion_queue ≡ s.demotion_queue))
          (put xxh32 s key value t)
  unfolding put
  put-overwrite i v e =
      let counted = record s { cms = increment xxh32 key s.cms } in
      let v' =
        decayed-IsStripe
          (IsStripe-objects s.hits s.misses s.ops_since_decay (increment xxh32 key s.cms) v) in
      let e' = ap (λ f. f key) (decayed-index_map counted) ∙ e in
      rw (put, e')
        (Yields.mono (overwrite_lem i value xxh32 key v' e') λ r u (p, w, c, q). (
          p,
          w,
          (λ k.
              c k
              ∙ ap (λ f. if str_eq key k then some value else value_at t (f k))
                  (decayed-index_map counted)),
          q ∙ decayed-demotion_queue counted,
        ))
