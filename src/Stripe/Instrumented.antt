-- ===== src/Stripe/Instrumented.antt =====
-- The branches of `CacheStripe::get` and `put` that run with a `LatencyBreakdown`: the source writes the
-- whole method out a second time, between timers. What the timers measure is given; the times that
-- `insert_into_window` adds up, which both branches call, are left out.
use walde.Base.{
  ℕ, ◌≡◌, refl, ap, ◌∙◌, Bool, true, false, Option, none, some, inl, inr, Bool-cases, Option-cases,
  ◌==◌, if◌then◌else◌,
}
use walde.Base.Arith.{add64}
use walde.Types.{invalid_index, Key, Value, Segment}
use walde.Slab.{Slab, Cmd, pure, ◌>>=◌, ◌>>◌, and_then, node, set_node, allocate}
use walde.Sketch.{increment}
use walde.Latency.{LatencyBreakdown}
use walde.Lru.{move_to_front}
use walde.Stripe
use walde.Stripe.{
  CacheStripe, promote_to_protected, maybe_decay_cms, insert_key, insert_into_window, touch,
  overwrite, insert,
}
use walde.Stripe.Overwrite.{decayed-index_map}

-- The result, the breakdown and the stripe.
abbrev pub Timed : Type 0 → Type 0
Timed A = Cmd ((A × LatencyBreakdown) × CacheStripe)

-- The `switch` of the instrumented branches.
unfoldable pub switch : CacheStripe → ℕ → Segment → Cmd CacheStripe
switch s idx Segment.window = do l ← move_to_front s.window idx; pure (record s { window = l })
switch s idx Segment.probation = promote_to_protected s idx
switch s idx Segment.protected = do
  l ← move_to_front s.protected idx
  pure (record s { protected = l })
switch s idx Segment.free = pure s
switch s idx Segment.l2 = pure s

-- `measured` is what the timers say.
module _ (xxh32 : Key → ℕ → ℕ) (measured : LatencyBreakdown) where
  abbrev pub looked_up : LatencyBreakdown → LatencyBreakdown
  looked_up bd = record bd { lock_wait_ns = measured.lock_wait_ns; lookup_ns = measured.lookup_ns }

  abbrev pub allocated : LatencyBreakdown → LatencyBreakdown
  allocated bd = record (looked_up bd) { slab_ns = measured.slab_ns }

  unfoldable pub get_instrumented : CacheStripe → Key → LatencyBreakdown → Timed (Option Value)
  unfolding switch
  get_instrumented s key bd = elim (s.index_map key) [
    | none ↦ pure ((none, looked_up bd), record s { misses = add64 s.misses 1 })
    | some idx ↦ do
      n ← node idx
      s' ← switch (record s { cms = increment xxh32 key s.cms }) idx n.segment
      m ← node idx
      pure ((some m.value, looked_up bd), record s' { hits = add64 s'.hits 1 })
  ]

  unfoldable pub overwrite_instrumented : CacheStripe → ℕ → Value → LatencyBreakdown → Timed Bool
  unfolding switch
  overwrite_instrumented s idx value bd = do
    n ← node idx
    set_node idx (record n { value = value })
    s' ← switch s idx n.segment
    pure ((false, looked_up bd), s')

  unfoldable pub insert_instrumented : CacheStripe → Key → Value → LatencyBreakdown → Timed Bool
  insert_instrumented s key value bd = do
    idx ← allocate
    if idx == invalid_index then pure ((false, allocated bd), s) else do
      n ← node idx
      set_node idx (record n { key = key; value = value; segment = Segment.window })
      s' ← insert_into_window xxh32 (record s { index_map = insert_key key idx s.index_map }) idx
      pure ((true, allocated bd), s')

  unfoldable pub put_instrumented : CacheStripe → Key → Value → LatencyBreakdown → Timed Bool
  unfolding overwrite_instrumented insert_instrumented
  put_instrumented s key value bd =
      let counted = maybe_decay_cms (record s { cms = increment xxh32 key s.cms }) in
      elim (counted.index_map key) [
        | none ↦ insert_instrumented counted key value bd
        | some idx ↦ overwrite_instrumented counted idx value bd
      ]

-- A result with a breakdown beside it.
abbrev pub beside :
    {A : Type 0}
    → LatencyBreakdown
    → Option ((A × CacheStripe) × Slab)
    → Option (((A × LatencyBreakdown) × CacheStripe) × Slab)
beside bd none = none
beside bd (some ((a, s), t)) = some (((a, bd), s), t)

-- Whether the index has a slot for the key.
abbrev pub is_indexed : Option ℕ → Bool
is_indexed none = false
is_indexed (some idx) = true

-- The breakdown goes past the first part of a command.
beside_then :
    {A B : Type 0} (bd : LatencyBreakdown) (r : Option (A × Slab))
    (k : A → Slab → Option ((B × CacheStripe) × Slab))
    (k' : A → Slab → Option (((B × LatencyBreakdown) × CacheStripe) × Slab))
    → ((a : A) (t : Slab) → k' a t ≡ beside bd (k a t))
    → and_then r k' ≡ beside bd (and_then r k)
beside_then bd none k k' h = refl
beside_then bd (some (a, t)) k k' h = h a t

switch-touch : (s : CacheStripe) (idx : ℕ) (g : Segment) → switch s idx g ≡ touch s idx g
unfolding switch touch
switch-touch s idx Segment.window = refl
switch-touch s idx Segment.probation = refl
switch-touch s idx Segment.protected = refl
switch-touch s idx Segment.free = refl
switch-touch s idx Segment.l2 = refl

module _ (xxh32 : Key → ℕ → ℕ) (measured : LatencyBreakdown) (key : Key)
    (bd : LatencyBreakdown) where
  get_lem :
      (s : CacheStripe) (t : Slab)
      → get_instrumented xxh32 measured s key bd t
        ≡ beside (looked_up xxh32 measured bd) (Stripe.get xxh32 s key t)
  unfolding get_instrumented Stripe.get
  get_lem s t = elim (Option-cases (s.index_map key)) [
    | inl e ↦ rw (get_instrumented, Stripe.get, e) refl
    | inr (idx, e) ↦
        rw (get_instrumented, Stripe.get, e)
          (beside_then _ (node idx t) _ _ λ n t1.
            let s1 = record s { cms = increment xxh32 key s.cms } in
            ap
              (λ c. and_then (c t1) λ s' t2. and_then (node idx t2) λ m t3. some (
                ((some m.value, looked_up xxh32 measured bd), record s' { hits = add64 s'.hits 1 }),
                t3,
              ))
              (switch-touch s1 idx n.segment)
            ∙ beside_then _ (touch s1 idx n.segment t1) _ _
                λ s' t2. beside_then _ (node idx t2) _ _ λ m t3. refl)
  ]

  overwrite_lem :
      (s : CacheStripe) (idx : ℕ) (value : Value) (t : Slab)
      → overwrite_instrumented xxh32 measured s idx value bd t
        ≡ beside (looked_up xxh32 measured bd) (overwrite xxh32 s idx value t)
  unfolding overwrite_instrumented overwrite
  overwrite_lem s idx value t = beside_then _ (node idx t) _ _ λ n t1.
      beside_then _ (set_node idx (record n { value = value }) t1) _ _ λ _ t2.
        ap (λ c. and_then (c t2) λ s' t3. some (((false, looked_up xxh32 measured bd), s'), t3))
          (switch-touch s idx n.segment)
        ∙ beside_then _ (touch s idx n.segment t2) _ _ λ s' t3. refl

  insert_lem :
      (s : CacheStripe) (value : Value) (t : Slab)
      → insert_instrumented xxh32 measured s key value bd t
        ≡ beside (allocated xxh32 measured bd) (insert xxh32 s key value t)
  unfolding insert_instrumented insert
  insert_lem s value t = beside_then _ (allocate t) _ _ λ idx t1.
      elim (Bool-cases (idx == invalid_index)) [
        | inl e ↦ rw e refl
        | inr e ↦ rw e (
            beside_then _ (node idx t1) _ _ λ n t2.
              beside_then _
                (set_node idx (record n { key = key; value = value; segment = Segment.window }) t2)
                _ _
                λ _ t3.
                  beside_then _
                    (insert_into_window xxh32
                      (record s { index_map = insert_key key idx s.index_map }) idx t3)
                    _ _ λ s' t4. refl)
      ]

  put_lem :
      (s : CacheStripe) (value : Value) (t : Slab)
      → put_instrumented xxh32 measured s key value bd t
        ≡ beside
            (if is_indexed (s.index_map key)
              then looked_up xxh32 measured bd
              else allocated xxh32 measured bd)
            (Stripe.put xxh32 s key value t)
  unfolding put_instrumented Stripe.put
  put_lem s value t =
      let counted = record s { cms = increment xxh32 key s.cms } in
      let kept = ap (λ f. f key) (decayed-index_map counted) in
      elim (Option-cases (s.index_map key)) [
        | inl e ↦
            rw (put_instrumented, Stripe.put, kept ∙ e)
              (rw e (insert_lem (maybe_decay_cms counted) value t))
        | inr (idx, e) ↦
            rw (put_instrumented, Stripe.put, kept ∙ e)
              (rw e (overwrite_lem (maybe_decay_cms counted) idx value t))
      ]

  -- The instrumented branches of `get` and `put` do to the stripe and the slab what the plain ones do,
  -- return the same and fault alike. Beside that they report the measured wait for the lock and time of
  -- the lookup, and `put` the measured time of the slab for a key that was not resident; they leave the
  -- other fields of the breakdown, where the times that the admission of a new entry adds are left out.
  pub get_put_instrumented :
      (s : CacheStripe) (value : Value) (t : Slab)
      → (get_instrumented xxh32 measured s key bd t
          ≡ beside
              (record bd { lock_wait_ns = measured.lock_wait_ns; lookup_ns = measured.lookup_ns })
              (Stripe.get xxh32 s key t))
        × (put_instrumented xxh32 measured s key value bd t
            ≡ beside
                (record bd {
                  lock_wait_ns = measured.lock_wait_ns;
                  lookup_ns = measured.lookup_ns;
                  slab_ns = if is_indexed (s.index_map key) then bd.slab_ns else measured.slab_ns;
                })
                (Stripe.put xxh32 s key value t))
  get_put_instrumented s value t = (
    get_lem s t,
    put_lem s value t
        ∙ ap (λ b. beside b (Stripe.put xxh32 s key value t)) (fields (s.index_map key)),
  )
    where
      fields :
          (o : Option ℕ)
          → (if is_indexed o then looked_up xxh32 measured bd else allocated xxh32 measured bd)
            ≡ record bd {
              lock_wait_ns = measured.lock_wait_ns;
              lookup_ns = measured.lookup_ns;
              slab_ns = if is_indexed o then bd.slab_ns else measured.slab_ns;
            }
      fields none = refl
      fields (some i) = refl
