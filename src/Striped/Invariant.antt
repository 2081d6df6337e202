-- ===== src/Striped/Invariant.antt =====
-- The invariant of the whole cache: what a method of one stripe does to the rest.
use walde.Base.{
  ℕ, ◌<◌, ◌≡◌, ◌≢◌, refl, sym, ◌∙◌, List, ◌∈◌, ◌∉◌, has, inl, inr, Bool-cases, ◌==◌, eq_of_==,
  ne_of_==, update,
}
use walde.Types.{Segment, Key, num_stripes}
use walde.Slab.{Slab}
use walde.Stripe.{CacheStripe}
use walde.Stripe.Lists.{Outside, Family, resident_of_mem, free_not_resident}
use walde.Stripe.Contents.{IsStripe}
use walde.Stripe.Contents
use walde.Striped.{StripedCache, lent}
use walde.Striped.Sharing.{Part, Part-of, IsStripe-Part, Part-frame, contents-frame}

-- The slots in the lists of the other stripes.
abbrev pub elsewhere : Slab → (ℕ → Family) → ℕ → Outside
elsewhere t families k = record {
  capacity = t.capacity;
  foreign = λ a. (j : ℕ) × (j < num_stripes) × (j ≢ k) × (g : Segment) × (a ∈ families j g);
  nodes = t.pool;
}

-- Every stripe is well formed over the one slab, and no two of them share a slot.
pub record IsCache (c : StripedCache) : Type 0 where
  pub families : ℕ → Family
  pub unused : List ℕ
  pub part : (i : ℕ) → i < num_stripes → Part (c.stripes i) c.slab (families i) unused
  pub apart :
      (i j : ℕ)
      → i < num_stripes
      → j < num_stripes
      → i ≢ j
      → (g h : Segment) (a : ℕ) → a ∈ families i g
      → a ∉ families j h

module _ (c : StripedCache) (v : IsCache c) (k : ℕ) (h : k < num_stripes) where
  out : Outside
  out = elsewhere c.slab v.families k

  -- The stripe that runs.
  pub running : IsStripe (elsewhere c.slab v.families k) (lent c k) c.slab
  running =
      IsStripe-Part c.demotion_queue (elsewhere c.slab v.families k) refl
        (λ a (j, l, ne, g, m). (refl, (λ x. v.apart j k l h ne g x a m), not_free j l g a m))
        (v.part k h)
    where
      not_free :
          (j : ℕ) → j < num_stripes → (g : Segment) (a : ℕ) → a ∈ v.families j g → a ∉ v.unused
      not_free j l g a m = elim (Bool-cases (has a v.unused)) [
        | inl f ↦ absurd (
            let p = v.part j l in
            let x = free_not_resident p.lists a f in let y = resident_of_mem p.lists g a m in cc)
        | inr f ↦ f
      ]

  module _ (s : CacheStripe) (u : Slab) (w : IsStripe (elsewhere c.slab v.families k) s u) where
    after : StripedCache
    after = record { stripes = update c.stripes k s; slab = u; demotion_queue = s.demotion_queue }

    untouched :
        (j : ℕ)
        → j < num_stripes
        → j ≢ k
        → (g : Segment) (a : ℕ) → a ∈ v.families j g
        → u.pool a ≡ c.slab.pool a
    untouched j l ne g a m = (w.lists.outside a (j, l, ne, g, m)).0

    -- The slots of the stripe that ran and of another.
    away :
        (j : ℕ)
        → j < num_stripes
        → j ≢ k
        → (g x : Segment) (a : ℕ) → a ∈ v.families j g
        → a ∉ w.family x
    away j l ne g x a m = (w.lists.outside a (j, l, ne, g, m)).1 x

    parts :
        (i : ℕ)
        → i < num_stripes
        → Part (update c.stripes k s i) u (update v.families k w.family i) w.unused
    parts i l = elim (Bool-cases (k == i)) [
      | inl e ↦ rw e (Part-of w)
      | inr e ↦
          let ne : i ≢ k = λ p. ne_of_== k i e (sym p) in
          rw e (Part-frame (v.part i l) u w.unused w.lists.sized (untouched i l ne) w.lists)
    ]

    aparts :
        (i j : ℕ)
        → i < num_stripes
        → j < num_stripes
        → i ≢ j
        → (g x : Segment) (a : ℕ) → a ∈ update v.families k w.family i g
        → a ∉ update v.families k w.family j x
    aparts i j l n ne g x a = elim (Bool-cases (k == i)) [
      | inl p ↦ elim (Bool-cases (k == j)) [
        | inl q ↦ absurd (ne (sym (eq_of_== k i p) ∙ eq_of_== k j q))
        | inr q ↦
            rw (p, q)
              (λ m. elim (Bool-cases (has a (v.families j x))) [
                | inl f ↦ absurd (let y = away j n (λ r. ne_of_== k j q (sym r)) x g a f in cc)
                | inr f ↦ f
              ])
      ]
      | inr p ↦ elim (Bool-cases (k == j)) [
        | inl q ↦ rw (p, q) (λ m. away i l (λ r. ne_of_== k i p (sym r)) g x a m)
        | inr q ↦ rw (p, q) (λ m. v.apart i j l n ne g x a m)
      ]
    ]

    pub after-IsCache :
        IsCache
          (record { stripes = update c.stripes k s; slab = u; demotion_queue = s.demotion_queue })
    after-IsCache = record {
      families = update v.families k w.family;
      unused = w.unused;
      part = parts;
      apart = aparts;
    }

    -- The other stripes hold what they held.
    pub other_contents :
        (j : ℕ)
        → j < num_stripes
        → j ≢ k
        → (key : Key)
        → Contents.contents (update c.stripes k s j) u key
          ≡ Contents.contents (c.stripes j) c.slab key
    other_contents j l ne key = elim (Bool-cases (k == j)) [
      | inl e ↦ absurd (ne (sym (eq_of_== k j e)))
      | inr e ↦ rw e (contents-frame (v.part j l) u w.unused w.lists.sized (untouched j l ne) key)
    ]
