-- ===== src/Stripe/Slots.antt =====
-- What the allocator does to the lists of a stripe, and what the index map does as slots come and go.
use walde.Base.{
  ℕ, ◌≡◌, ◌≢◌, refl, sym, ap, ◌∙◌, subst, Bool, true, false, List, ◌∷◌, ◌∈◌, ◌∉◌, Option, none,
  some, arith, inl, inr, Bool-cases, ◌==◌, str_eq, eq_of_str_eq, str_eq_self, if◌then◌else◌, update,
  update_ne,
}
use walde.Types.{Segment, Key, reset_node}
use walde.Slab.{Slab}
use walde.Slab.FreeList.{IsFree}
use walde.Slab.Alloc.{given, given-IsFree}
use walde.Lru.{IntrusiveLru}
use walde.Stripe.{IndexMap, erase_key}
use walde.Stripe.Lists.{Outside, Family, Lists}
use walde.Stripe.Steps.{Limbo, Lists-Limbo}
use walde.Stripe.Contents.{Indexed, value_at}

pub some_inj : {a b : ℕ} → some a ≡ some b → a ≡ b
some_inj e = cc

-- The lists do not depend on the free list.
pub Lists-refree :
    {out : Outside} {t u : Slab} {L : Segment → IntrusiveLru} {xs : Family} {fs gs : List ℕ}
    → u.pool ≡ t.pool
    → u.capacity ≡ t.capacity
    → IsFree u gs
    → ((i : ℕ) → i ∈ gs → (t.pool i).segment ≡ Segment.free)
    → ((a : ℕ) → out.foreign a → a ∉ gs)
    → Lists out t L xs fs
    → Lists out u L xs gs
Lists-refree {t} {u} {L} {xs} p c f blank away v = record {
  each = λ g.
      let lru = v.each g in
      record {
        linked = rw p lru.linked;
        head = lru.head;
        tail = lru.tail;
        size = lru.size;
        distinct = lru.distinct;
        below = rw c lru.below;
      };
  sized = c ∙ v.sized;
  tagged = λ g i m. ap (λ h. (h i).segment) p ∙ v.tagged g i m;
  free = f;
  blank = λ i m. ap (λ h. (h i).segment) p ∙ blank i m;
  unlisted = v.unlisted;
  outside = λ a m. let (e, n, _) = v.outside a m in (ap (λ h. h a) p ∙ e, n, away a m);
}

-- A slot in limbo is given back.
pub Lists-given :
    {out : Outside} {t : Slab} {L : Segment → IntrusiveLru} {xs : Family} {fs : List ℕ} (i : ℕ)
    → Lists out t L xs fs
    → Limbo out t xs fs i
    → Lists out (given i t) L xs (i ∷ fs)
unfolding given
Lists-given {out} {t} {L} {xs} {fs} i v o =
    Lists-refree refl refl (given-IsFree t i fs o.below o.used v.free) blank away
      (Lists-Limbo i reset_node v o)
  where
    away : (a : ℕ) → out.foreign a → a ∉ (i ∷ fs)
    away a f =
        let n = (v.outside a f).2 in
        let ne : a ≢ i = λ p. o.own (subst out.foreign p f) in ground (arith, n, ne)

    blank : (a : ℕ) → a ∈ (i ∷ fs) → (update t.pool i reset_node a).segment ≡ Segment.free
    blank a m = elim (Bool-cases (i == a)) [
      | inl e ↦ rw e
      | inr e ↦ rw e (v.blank a (ground arith))
    ]

pub given-others : (t : Slab) (i a : ℕ) → a ≢ i → (given i t).pool a ≡ t.pool a
unfolding given
given-others t i a ne = update_ne t.pool i a reset_node (λ e. ne (sym e))

module _ {m : IndexMap} {t u : Slab} {live alive : ℕ → Bool} (k : Key) (i : ℕ) where
  -- The entry of a slot that leaves is erased, and no other.
  pub Indexed-erase :
      Indexed m t live
      → m k ≡ some i
      → alive i ≡ false
      → ((a : ℕ) → a ≢ i → (alive a ≡ live a) × ((u.pool a).key ≡ (t.pool a).key))
      → Indexed (erase_key k m) u alive
  Indexed-erase x e gone same = record { indexed = kept; found = still }
    where
      apart : (a : ℕ) → alive a ≡ true → a ≢ i
      apart a h p = absurd (let g = ap alive p in cc)

      old : (a : ℕ) → alive a ≡ true → m (u.pool a).key ≡ some a
      old a h = let (p, q) = same a (apart a h) in ap m q ∙ x.indexed a (sym p ∙ h)

      kept : (a : ℕ) → alive a ≡ true → erase_key k m (u.pool a).key ≡ some a
      kept a h = elim (Bool-cases (str_eq k (u.pool a).key)) [
        | inl p ↦
            absurd (
              apart a h (let q = eq_of_str_eq k _ p in some_inj (sym (old a h) ∙ ap m (sym q) ∙ e)))
        | inr p ↦ rw p (old a h)
      ]

      erased : (j : Key) (b : Bool) → str_eq k j ≡ b → erase_key k m j ≡ (if b then none else m j)
      erased j b p = ap (λ c. if c then none else m j) p

      other : (a : ℕ) (j : Key) → (t.pool a).key ≡ j → str_eq k j ≡ false → a ≢ i
      other a j f p q =
          let same_key = sym (x.found k i e).1 ∙ ap (λ b. (t.pool b).key) (sym q) ∙ f in
          let self = sym (str_eq_self k) ∙ ap (str_eq k) same_key ∙ p in absurd (cc)

      still : (j : Key) (a : ℕ) → erase_key k m j ≡ some a → (alive a ≡ true) × ((u.pool a).key ≡ j)
      still j a h = elim (Bool-cases (str_eq k j)) [
        | inl p ↦ absurd (let h' = sym (erased j true p) ∙ h in cc)
        | inr p ↦
            let f = x.found j a (sym (erased j false p) ∙ h) in
            let (q, r) = same a (other a j f.1 p) in (q ∙ f.0, r ∙ f.1)
      ]

module _ {m : IndexMap} {t : Slab} {live : ℕ → Bool} (u : Slab) (k : Key) (i : ℕ) where
  -- What is stored afterwards: nothing for the key, and for the others what was stored before.
  pub value_at-erase :
      Indexed m t live
      → m k ≡ some i
      → ((a : ℕ) → a ≢ i → (u.pool a).value ≡ (t.pool a).value)
      → (j : Key) → value_at u (erase_key k m j) ≡ (if str_eq k j then none else value_at t (m j))
  value_at-erase x e same j = elim (Bool-cases (str_eq k j)) [
    | inl p ↦ rw p refl
    | inr p ↦ rw p (at (m j) refl p)
  ]
    where
      at : (o : Option ℕ) → m j ≡ o → str_eq k j ≡ false → value_at u (m j) ≡ value_at t (m j)
      at none q p = rw q refl
      at (some a) q p = rw q (
          ap some (
            same a (λ r.
              let same_key =
                sym (x.found k i e).1 ∙ ap (λ b. (t.pool b).key) (sym r) ∙ (x.found j a q).1 in
              let self = sym (str_eq_self k) ∙ ap (str_eq k) same_key ∙ p in absurd (cc))))
