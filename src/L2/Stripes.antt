-- ===== src/L2/Stripes.antt =====
-- The operations on one stripe of the second level against its entries by recency.
use walde.Base.{
  ℕ, suc, ◌-◌, ◌<◌, ◌≤◌, ◌≡◌, ◌≢◌, refl, sym, ap, ◌∙◌, subst, true, false, none, some, [], ◌∷◌,
  arith, inl, inr, Bool-cases, Option-cases, if◌then◌else◌, length, str_eq, str_eq_self,
}
use walde.Base.Arith.{add64}
use walde.Types.{Key}
use walde.Slab.Yields.{Yields, yields}
use walde.Stripe.{erase_key}
use walde.L2.{L2Node, L2Stripe, empty_stripe, deref, erase, get_in, remove_in}
use walde.L2.Nodes.{
  Each, Unique, Each-erase, deref-erase_ne, deref-erase_self, Unique-erase, length-erase,
  Each-erase_key,
}
use walde.L2.Recency.{Entries, lookup, without, entries, lookup-absent, lookup-deref}

-- The list and the map agree, and the list is within the capacity.
pub record IsL2 (capacity : ℕ) (s : L2Stripe) : Type 0 where
  pub indexed : Each (λ a n. s.map n.key ≡ some a) s.list
  pub found :
      (k : Key) (it : ℕ)
      → s.map k ≡ some it
      → (n : L2Node) × (deref it s.list ≡ some n) × (n.key ≡ k)
  pub unique : Unique s.list
  pub young : Each (λ a n. a < s.next) s.list
  pub size : s.map_size ≡ length s.list
  pub bound : length s.list ≤ capacity

abbrev pub recent : L2Stripe → Entries
recent s = entries s.list

pub empty_stripe-IsL2 : (capacity : ℕ) → IsL2 capacity empty_stripe
empty_stripe-IsL2 capacity = record {
  indexed = tt;
  found = λ k it e. absurd cc;
  unique = tt;
  young = tt;
  size = refl;
  bound = omega arith;
}

-- The counters are free to change.
IsL2-counters :
    (capacity hits misses : ℕ) (s : L2Stripe)
    → IsL2 capacity s
    → IsL2 capacity (record s { hits = hits; misses = misses })
IsL2-counters capacity hits misses s v = record {
  indexed = v.indexed;
  found = v.found;
  unique = v.unique;
  young = v.young;
  size = v.size;
  bound = v.bound;
}

-- A stripe without the node that `key` points to.
abbrev pub gone : Key → ℕ → L2Stripe → L2Stripe
gone key it s = record s {
  list = erase it s.list;
  map = erase_key key s.map;
  map_size = s.map_size - 1;
}

module _ {capacity : ℕ} {s : L2Stripe} (v : IsL2 capacity s) (key : Key) where
  pub gone-IsL2 :
      (it : ℕ)
      → s.map key ≡ some it
      → (suc (length (erase it s.list)) ≡ length s.list) × IsL2 capacity (gone key it s)
  gone-IsL2 it e =
      let f = v.found key it e in
      let l = length-erase it f.0 s.list f.1 in
      (
        l,
        record {
          indexed =
              Each-erase_key s.map key it (erase it s.list) e (deref-erase_self it s.list v.unique)
                (Each-erase (λ a n. s.map n.key ≡ some a) it s.list v.indexed);
          found = λ k a p. elim (Bool-cases (str_eq key k)) [
            | inl q ↦ absurd (let w = ap (λ b. if b then none else s.map k) q in cc)
            | inr q ↦
                let r : s.map k ≡ some a = sym (ap (λ b. if b then none else s.map k) q) ∙ p in
                let g = v.found k a r in
                (g.0, deref-erase_ne it a s.list (other k a r q) ∙ g.1, g.2)
          ];
          unique = Unique-erase it s.list v.unique;
          young = Each-erase (λ a n. a < s.next) it s.list v.young;
          size = omega (arith, l, v.size);
          bound = omega (arith, l, v.bound);
        },
      )
    where
      other : (k : Key) (a : ℕ) → s.map k ≡ some a → str_eq key k ≡ false → a ≢ it
      other k a r q same =
          let f = v.found key it e in
          let g = v.found k a r in
          let d : deref it s.list ≡ some g.0 = ap (λ i. deref i s.list) (sym same) ∙ g.1 in
          let d' = f.1 in
          let n : f.0 ≡ g.0 = cc in
          let w : str_eq key k ≡ true =
            subst (λ j. str_eq key j ≡ true) (sym f.2 ∙ ap (λ z. z.key) n ∙ g.2)
              (str_eq_self key) in
          absurd cc

  gone-recent : (it : ℕ) → s.map key ≡ some it → recent (gone key it s) ≡ without key (recent s)
  gone-recent it e =
      let f = v.found key it e in (lookup-deref s.map key it f.0 s.list e f.2 f.1 v.indexed).1

  without-absent : (es : Entries) → lookup key es ≡ none → without key es ≡ es
  without-absent [] e = refl
  without-absent ((j, w) ∷ es) e = elim (Bool-cases (str_eq key j)) [
    | inl p ↦ absurd (let q = ap (λ b. if b then some w else lookup key es) p in cc)
    | inr p ↦ rw p (
        ap (◌∷◌ (j, w))
          (without-absent es (sym (ap (λ b. if b then some w else lookup key es) p) ∙ e)))
  ]

  -- A lookup dereferences no dangling iterator; it returns the entry of the key and takes it out, so
  -- that the entries of all other keys stay in their order; it keeps the invariant.
  pub get_in-lookup :
      Yields
        (λ r s'.
          (r ≡ lookup key (recent s)) × (recent s' ≡ without key (recent s)) × IsL2 capacity s')
        (get_in key s)
  unfolding get_in
  get_in-lookup = elim (Option-cases (s.map key)) [
    | inl e ↦
        let l = lookup-absent s.map key s.list e v.indexed in
        rw (get_in, e)
          (yields (
            sym l,
            sym (without-absent (recent s) l),
            IsL2-counters capacity s.hits (add64 s.misses 1) s v,
          ))
    | inr (it, e) ↦
        let f = v.found key it e in
        let l = lookup-deref s.map key it f.0 s.list e f.2 f.1 v.indexed in
        rw (get_in, e)
          (rw (f.1) (
            yields (
              sym l.0,
              l.1,
              IsL2-counters capacity (add64 s.hits 1) s.misses (gone key it s) (gone-IsL2 it e).1,
            )))
  ]

  -- A removal dereferences no dangling iterator, takes out the entry of the key, if there is one, and
  -- keeps the invariant.
  pub remove_in-without :
      (s' : L2Stripe) × (remove_in key s ≡ some s')
      × (recent s' ≡ without key (recent s))
      × IsL2 capacity s'
  unfolding remove_in
  remove_in-without = elim (Option-cases (s.map key)) [
    | inl e ↦ (
      s,
      rw (remove_in, e) refl,
      sym (without-absent (recent s) (lookup-absent s.map key s.list e v.indexed)),
      v,
    )
    | inr (it, e) ↦
        let f = v.found key it e in
        (gone key it s, rw (remove_in, e) (rw (f.1) refl), gone-recent it e, (gone-IsL2 it e).1)
  ]
