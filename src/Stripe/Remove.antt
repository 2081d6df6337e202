-- ===== src/Stripe/Remove.antt =====
-- `CacheStripe::remove`.
use walde.Base.{
  ℕ, ◌≤◌, ◌≡◌, ◌≢◌, refl, sym, ap, ◌∙◌, Bool, true, false, List, ◌∷◌, ◌++◌, ◌∈◌, has, length,
  length-append, Option, none, some, arith, str_eq, eq_of_str_eq, if◌then◌else◌, member_split, inl,
  inr, Bool-cases,
}
use walde.Types.{Segment, Key, Value}
use walde.Slab.{Slab, ◌>>=◌}
use walde.Slab.Alloc.{given, deallocate-given}
use walde.Slab.Yields
use walde.Slab.Yields.{Yields, yields, along}
use walde.Lru.Steps.{node_lem}
use walde.Stripe.{CacheStripe, erase_key, remove, unlink}
use walde.Stripe.Lists.{Outside, lru_of, Family, put_list, Lists, resident}
use walde.Stripe.Steps.{Limbo}
use walde.Stripe.Moves.{Moved, pull_lem}
use walde.Stripe.Demote.{with_lists}
use walde.Stripe.Contents.{IsStripe, contents, value_at, found-lt, Lists-objects}
use walde.Stripe.Slots.{Lists-given, given-others, Indexed-erase, value_at-erase}

abbrev pub is_some : Option Value → Bool
is_some none = false
is_some (some _) = true

-- A node is out of the list that its segment names, and the lists are no longer than before.
record Pulled (out : Outside) (s : CacheStripe) (t : Slab) (xs : Family) (fs : List ℕ) (i : ℕ)
    (s' : CacheStripe) (u : Slab) : Type 0 where
  family : Family
  lists : Lists out u (lru_of s') family fs
  limbo : Limbo out u family fs i
  moved : Moved i t xs u family
  object : s' ≡ with_lists s s'
  window_size : length (family Segment.window) ≤ length (xs Segment.window)
  probation_size : length (family Segment.probation) ≤ length (xs Segment.probation)
  protected_size : length (family Segment.protected) ≤ length (xs Segment.protected)

shorter :
    (i : ℕ) (xs before after : List ℕ)
    → xs ≡ before ++ i ∷ after
    → length (before ++ after) ≤ length xs
shorter i xs before after e =
    omega (arith, ap length e, length-append before (i ∷ after), length-append before after)

module _ {out : Outside} (s : CacheStripe) (t : Slab) (xs : Family) (fs : List ℕ)
    (v : Lists out t (lru_of s) xs fs) (i : ℕ) where
  unlink_in : (g : Segment) → i ∈ xs g → Yields (Pulled out s t xs fs i) (unlink s i g t)
  unfolding unlink
  unlink_in Segment.window m =
      let (before, after, e) = member_split i (xs Segment.window) m in
      Yields.bind (pull_lem s xs fs v Segment.window refl i before after e) λ l u (w, o, k).
        yields (record {
          family = put_list Segment.window (before ++ after) xs;
          lists = w;
          limbo = o;
          moved = k;
          object = refl;
          window_size = shorter i (xs Segment.window) before after e;
          probation_size = omega arith;
          protected_size = omega arith;
        })
  unlink_in Segment.probation m =
      let (before, after, e) = member_split i (xs Segment.probation) m in
      Yields.bind (pull_lem s xs fs v Segment.probation refl i before after e) λ l u (w, o, k).
        yields (record {
          family = put_list Segment.probation (before ++ after) xs;
          lists = w;
          limbo = o;
          moved = k;
          object = refl;
          window_size = omega arith;
          probation_size = shorter i (xs Segment.probation) before after e;
          protected_size = omega arith;
        })
  unlink_in Segment.protected m =
      let (before, after, e) = member_split i (xs Segment.protected) m in
      Yields.bind (pull_lem s xs fs v Segment.protected refl i before after e) λ l u (w, o, k).
        yields (record {
          family = put_list Segment.protected (before ++ after) xs;
          lists = w;
          limbo = o;
          moved = k;
          object = refl;
          window_size = omega arith;
          probation_size = omega arith;
          protected_size = shorter i (xs Segment.protected) before after e;
        })
  unlink_in Segment.free m =
      absurd (let e = v.unlisted Segment.free refl in let k = sym (ap (has i) e) ∙ m in cc)
  unlink_in Segment.l2 m =
      absurd (let e = v.unlisted Segment.l2 refl in let k = sym (ap (has i) e) ∙ m in cc)

module _ (out : Outside) (s : CacheStripe) (t : Slab) (key : Key) where
  -- The slot is back in the free list and the key is erased.
  erased-IsStripe :
      (i : ℕ) (s' : CacheStripe) (u : Slab) (v : IsStripe out s t)
      → s.index_map key ≡ some i
      → Pulled out s t v.family v.unused i s' u
      → IsStripe out (record s' { index_map = erase_key key s'.index_map }) (given i u)
  erased-IsStripe i s' u v e p = record {
    family = p.family;
    unused = i ∷ v.unused;
    lists =
        Lists-objects s' (record s' { index_map = erase_key key s'.index_map }) refl refl refl
          (Lists-given i p.lists p.limbo);
    index = rw (ap (λ z. z.index_map) p.object) (
        Indexed-erase key i v.index e (gone)
          (λ a ne. (live a ne, ap (λ c. c.key) (given-others u i a ne) ∙ p.moved.key a)));
    window_bound =
        omega (arith, v.window_bound, p.window_size, ap (λ z. z.window_capacity) p.object);
    main_bound = omega (
      arith,
      v.main_bound,
      p.probation_size,
      p.protected_size,
      ap (λ z. z.main_capacity) p.object,
    );
    protected_bound =
        omega (arith, v.protected_bound, p.protected_size, ap (λ z. z.protected_capacity) p.object);
    protected_room = omega (arith, v.protected_room, ap (λ z. z.protected_capacity) p.object);
  }
    where
      gone : resident (given i u) p.family i ≡ false
      gone = p.limbo.unlinked ((given i u).pool i).segment

      live : (a : ℕ) → a ≢ i → resident (given i u) p.family a ≡ resident t v.family a
      live a ne = ap (λ c. has a (p.family c.segment)) (given-others u i a ne) ∙ p.moved.others a ne

  -- What a removal leaves behind.
  RemoveDone : Bool × CacheStripe → Slab → Type 0
  RemoveDone r u =
      (r.0 ≡ is_some (contents s t key))
      × IsStripe out r.1 u
      × ((k : Key) → contents r.1 u k ≡ (if str_eq key k then none else contents s t k))
      × (r.1.demotion_queue ≡ s.demotion_queue)

  erased-contents :
      (i : ℕ) (s' : CacheStripe) (u : Slab) (v : IsStripe out s t)
      → s.index_map key ≡ some i
      → Pulled out s t v.family v.unused i s' u
      → (k : Key)
      → value_at (given i u) (erase_key key s'.index_map k)
        ≡ (if str_eq key k then none else contents s t k)
  erased-contents i s' u v e p k = rw (ap (λ z. z.index_map) p.object) (
      value_at-erase (given i u) key i v.index e
        (λ a ne. ap (λ c. c.value) (given-others u i a ne) ∙ p.moved.value a) k)

  absent :
      s.index_map key ≡ none
      → (k : Key) → contents s t k ≡ (if str_eq key k then none else contents s t k)
  absent e k = elim (Bool-cases (str_eq key k)) [
    | inl p ↦
        rw p (ap (λ j. value_at t (s.index_map j)) (sym (eq_of_str_eq key k p)) ∙ ap (value_at t) e)
    | inr p ↦ rw p refl
  ]

  remove_at :
      (o : Option ℕ) → s.index_map key ≡ o → IsStripe out s t → Yields RemoveDone (remove s key t)
  unfolding remove RemoveDone
  remove_at none e v =
      rw (remove, e) (yields (ap (λ o. is_some (value_at t o)) (sym e), v, absent e, refl))
  remove_at (some i) e v =
      rw (remove, e, node_lem i t (found-lt v key i e), ◌>>=◌)
        (Yields.bind
          (unlink_in s t v.family v.unused v.lists i (t.pool i).segment (v.index.found key i e).0)
          λ s' u p.
            rw ((deallocate-given u i v.unused 0 p.limbo.below p.limbo.used p.lists.free).1, ◌>>=◌)
              (yields (
                ap (λ o. is_some (value_at t o)) (sym e),
                erased-IsStripe i s' u v e p,
                erased-contents i s' u v e p,
                ap (λ z. z.demotion_queue) p.object,
              )))

  -- A removal that respects the invariant returns whether the key was stored; it keeps the
  -- invariant and the demotion queue, and afterwards nothing is stored for the key and every other
  -- key keeps its value.
  pub remove-contents :
      IsStripe out s t
      → Yields
          (λ r u.
            (r.0 ≡ is_some (contents s t key))
            × IsStripe out r.1 u
            × ((k : Key) → contents r.1 u k ≡ (if str_eq key k then none else contents s t k))
            × (r.1.demotion_queue ≡ s.demotion_queue))
          (remove s key t)
  unfolding RemoveDone
  remove-contents v = remove_at (s.index_map key) refl v
