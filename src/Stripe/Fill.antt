-- ===== src/Stripe/Fill.antt =====
-- A free slot is taken for a new entry.
use walde.Base.{
  ℕ, ◌≡◌, ◌≢◌, refl, sym, ap, ◌∙◌, Bool, true, false, List, ◌∷◌, ◌∈◌, ◌∉◌, Option, none, some,
  arith, inl, inr, Bool-cases, ◌==◌, str_eq, eq_of_str_eq, str_eq_self, if◌then◌else◌, update,
  update_ne, ne_of_mem,
}
use walde.Types.{Segment, CacheNode, Key, Value, reset_node}
use walde.Slab.{Slab}
use walde.Slab.Alloc.{taken, taken-IsFree}
use walde.Lru.{IntrusiveLru}
use walde.Stripe.{IndexMap, insert_key}
use walde.Stripe.Lists.{Outside, Family, Lists, free_not_resident, absent_of_not_resident}
use walde.Stripe.Steps.{Limbo, Lists-same}
use walde.Stripe.Slots.{Lists-refree, some_inj}
use walde.Stripe.Contents.{Indexed, value_at}

-- The entry that is written to the slot.
abbrev pub entry : Key → Value → CacheNode
entry k v = record reset_node { key = k; value = v; segment = Segment.window }

module _ {out : Outside} {t : Slab} {L : Segment → IntrusiveLru} {xs : Family} {fs : List ℕ} (i : ℕ)
    (v : Lists out t L xs (i ∷ fs)) where
  absent : (g : Segment) → i ∉ xs g
  absent g = absent_of_not_resident v g i (free_not_resident v i (ground arith))

  other_node : (n : CacheNode) (a : ℕ) → a ≢ i → update t.pool i n a ≡ t.pool a
  other_node n a ne = update_ne t.pool i a n (λ e. ne (sym e))

  -- The free list gives up its head.
  pub Lists-taken : Lists out (taken i t) L xs fs
  unfolding taken
  Lists-taken =
      Lists-refree refl refl (taken-IsFree t i fs v.free) (λ a m. blank a (ground arith))
        (λ a f. let n = (v.outside a f).2 in ground (arith, n))
        (Lists-same (update t.pool i reset_node) v
          (λ g a m.
            let e = other_node reset_node a (ne_of_mem a i (xs g) m (absent g)) in
            (ap (λ c. c.prev) e, ap (λ c. c.next) e, ap (λ c. c.segment) e))
          (λ a m. blank a m ∙ sym (v.blank a m))
          (λ a f.
            other_node reset_node a (let n = (v.outside a f).2 in λ p. absurd (ground (arith, n)))))
    where
      blank : (a : ℕ) → a ∈ (i ∷ fs) → (update t.pool i reset_node a).segment ≡ Segment.free
      blank a m = elim (Bool-cases (i == a)) [ inl e ↦ rw e | inr e ↦ rw e (v.blank a m) ]

  pub Limbo-taken : Limbo out (taken i t) xs fs i
  unfolding taken
  Limbo-taken = record {
    below = v.free.below.0;
    unlinked = absent;
    used = v.free.distinct.0;
    own = λ f. absurd (let n = (v.outside i f).2 in ground (arith, n));
  }

module _ {m : IndexMap} {t : Slab} {live : ℕ → Bool} (x : Indexed m t live) (i : ℕ)
    (off : live i ≡ false) (k : Key) (new : m k ≡ none) where
  -- The entry is added to the map.
  pub Indexed-insert :
      (u : Slab) (alive : ℕ → Bool)
      → (u.pool i).key ≡ k
      → alive i ≡ true
      → ((a : ℕ) → a ≢ i → (alive a ≡ live a) × ((u.pool a).key ≡ (t.pool a).key))
      → Indexed (insert_key k i m) u alive
  Indexed-insert u alive at_i on same = record { indexed = names; found = finds }
    where
      apart : (a : ℕ) → live a ≡ true → a ≢ i
      apart a h p = absurd (let q = ap live p in cc)

      flip : (a : ℕ) → (i == a) ≡ true → a ≡ i
      flip a e = ground arith

      here :
          (j : Key) (b : Bool) → str_eq k j ≡ b → insert_key k i m j ≡ (if b then some i else m j)
      here j b p = ap (λ c. if c then some i else m j) p

      old : (a : ℕ) → alive a ≡ true → a ≢ i → m (u.pool a).key ≡ some a
      old a h ne = let (p, q) = same a ne in ap m q ∙ x.indexed a (sym p ∙ h)

      names : (a : ℕ) → alive a ≡ true → insert_key k i m (u.pool a).key ≡ some a
      names a h = elim (Bool-cases (i == a)) [
        | inl e ↦
            let f = flip a e in
            ap (λ b. insert_key k i m (u.pool b).key) f
            ∙ ap (insert_key k i m) at_i
            ∙ here k true (str_eq_self k)
            ∙ ap some (sym f)
        | inr e ↦
            let o = old a h (λ p. absurd (ground arith)) in
            elim (Bool-cases (str_eq k (u.pool a).key)) [
              | inl p ↦ absurd (let q = sym new ∙ ap m (eq_of_str_eq k _ p) ∙ o in cc)
              | inr p ↦ here (u.pool a).key false p ∙ o
            ]
      ]

      finds :
          (j : Key) (a : ℕ) → insert_key k i m j ≡ some a → (alive a ≡ true) × ((u.pool a).key ≡ j)
      finds j a h = elim (Bool-cases (str_eq k j)) [
        | inl p ↦
            let f : i ≡ a = some_inj (sym (here j true p) ∙ h) in
            (ap alive (sym f) ∙ on, ap (λ b. (u.pool b).key) (sym f) ∙ at_i ∙ eq_of_str_eq k j p)
        | inr p ↦
            let f = x.found j a (sym (here j false p) ∙ h) in
            let (q, r) = same a (apart a f.0) in (q ∙ f.0, r ∙ f.1)
      ]

  pub value_at-insert :
      (u : Slab) (value : Value)
      → (u.pool i).value ≡ value
      → ((a : ℕ) → a ≢ i → (u.pool a).value ≡ (t.pool a).value)
      → (j : Key)
      → value_at u (insert_key k i m j) ≡ (if str_eq k j then some value else value_at t (m j))
  value_at-insert u value at_i same j = elim (Bool-cases (str_eq k j)) [
    | inl p ↦ rw p (ap some at_i)
    | inr p ↦ rw p (old (m j) refl)
  ]
    where
      old : (o : Option ℕ) → m j ≡ o → value_at u o ≡ value_at t o
      old none q = refl
      old (some a) q =
          ap some (same a (λ r. absurd (let f = (x.found j a q).0 in let g = ap live r in cc)))
