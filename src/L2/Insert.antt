-- ===== src/L2/Insert.antt =====
-- An insertion into a stripe of the second level.
use walde.Base.{
  ℕ, ◌<◌, ◌≡◌, refl, sym, ap, ◌∙◌, subst, true, none, some, [], ◌∷◌, arith, inl, inr, Bool-cases,
  Option-cases, leb, le_of_leb, lt_of_leb, if◌then◌else◌, length, length-map, str_eq, str_eq_self,
  eq_of_str_eq, ==_self, ==_ne, ◌==◌, eq_of_==, ne_of_==,
}
use walde.Types.{Key}
use walde.Queue.{DemotionItem}
use walde.Stripe.{erase_key}
use walde.L2.{
  L2Node, NodeList, L2Stripe, deref, erase, back, pop_back, push_new, erased_size, drop_last,
  put_in,
}
use walde.L2.Nodes.{
  Each-mono, Each-erase, Each-deref, deref-erase_ne, deref-erase_self, Unique-erase, length-erase,
  Each-fresh, deref_here, deref_there, back-deref, pop_back-erase,
}
use walde.L2.Recency.{insert_latest, entries, lookup-absent, lookup-deref, pop_back-entries}
use walde.L2.Stripes.{IsL2, recent, gone, gone-IsL2}

back-some : (xs : NodeList) → 0 < length xs → (a : ℕ) × (n : L2Node) × (back xs ≡ some (a, n))
back-some [] h = absurd (omega arith)
back-some (x ∷ []) h = (x.0, x.1, refl)
back-some (x ∷ y ∷ xs) h = back-some (y ∷ xs) (omega arith)

module _ {capacity : ℕ} {s : L2Stripe} (v : IsL2 capacity s) (item : DemotionItem) where
  -- A new node in front.
  push_new-IsL2 : s.map item.key ≡ none → length s.list < capacity → IsL2 capacity (push_new item s)
  push_new-IsL2 e room = record {
    indexed = (
      ap (λ b. if b then some s.next else s.map item.key) (str_eq_self item.key),
      Each-mono s.list
          (λ a n i. elim (Bool-cases (str_eq item.key n.key)) [
            | inl q ↦ absurd (let w = ap s.map (eq_of_str_eq item.key n.key q) in cc)
            | inr q ↦ rw q i
          ])
          v.indexed,
    );
    found = λ k it p. elim (Bool-cases (str_eq item.key k)) [
      | inl q ↦
          let w = ap (λ b. if b then some s.next else s.map k) q in
          let i : s.next ≡ it = cc in
          (
            record { key = item.key; value = item.value },
            deref_here it s.next _ s.list (subst (λ j. (s.next == j) ≡ true) i (==_self s.next)),
            eq_of_str_eq item.key k q,
          )
      | inr q ↦
          let r : s.map k ≡ some it = sym (ap (λ b. if b then some s.next else s.map k) q) ∙ p in
          let f = v.found k it r in
          let l = Each-deref (λ a n. a < s.next) it f.0 s.list v.young f.1 in
          (
            f.0,
            deref_there it s.next _ s.list (==_ne s.next it (λ z. absurd (omega (arith, l, z))))
                ∙ f.1,
            f.2,
          )
    ];
    unique = (Each-fresh s.next s.list v.young, v.unique);
    young = (omega arith, Each-mono s.list (λ a n l. omega arith) v.young);
    size = omega (arith, v.size);
    bound = omega arith;
  }

module _ {capacity : ℕ} {s : L2Stripe} (v : IsL2 capacity s) (item : DemotionItem) where
  -- A node moved to the front with a new value.
  abbrev moved : ℕ → L2Node → L2Stripe
  moved it n = record s { list = (it, record n { value = item.value }) ∷ erase it s.list }

  moved-IsL2 :
      (it : ℕ) (n : L2Node)
      → s.map item.key ≡ some it
      → deref it s.list ≡ some n
      → n.key ≡ item.key
      → IsL2 capacity (moved it n)
  moved-IsL2 it n e d same =
      let l = length-erase it n s.list d in
      record {
        indexed = (ap s.map same ∙ e, Each-erase (λ a n. s.map n.key ≡ some a) it s.list v.indexed);
        found = λ k a p. elim (Bool-cases (it == a)) [
          | inl q ↦
              let g = v.found k a p in
              let w = ap (λ i. deref i s.list) (eq_of_== it a q) in
              let h = g.1 in
              let o : n ≡ g.0 = cc in
              (
                record n { value = item.value },
                deref_here a it _ (erase it s.list) q,
                ap (λ z. z.key) o ∙ g.2,
              )
          | inr q ↦
              let g = v.found k a p in
              (
                g.0,
                deref_there a it _ (erase it s.list) q
                    ∙ deref-erase_ne it a s.list (λ z. ne_of_== it a q (sym z))
                    ∙ g.1,
                g.2,
              )
        ];
        unique = (deref-erase_self it s.list v.unique, Unique-erase it s.list v.unique);
        young = (
          Each-deref (λ a n. a < s.next) it n s.list v.young d,
          Each-erase (λ a n. a < s.next) it s.list v.young,
        );
        size = omega (arith, l, v.size);
        bound = omega (arith, l, v.bound);
      }

  -- The last node gives way: it is erased with its key.
  drop_last-gone :
      (a : ℕ) (n : L2Node)
      → back s.list ≡ some (a, n)
      → (s.map n.key ≡ some a)
        × (drop_last s ≡ some (gone n.key a s))
        × (entries (erase a s.list) ≡ entries (pop_back s.list))
  unfolding drop_last
  drop_last-gone a n e =
      let d = back-deref a n s.list v.unique e in
      let i = Each-deref (λ a n. s.map n.key ≡ some a) a n s.list v.indexed d in
      let p = pop_back-erase a n s.list v.unique e in
      (i, rw (drop_last, e) (rw (erased_size, i, p) refl), ap entries (sym p))

  full : leb capacity s.map_size ≡ leb capacity (length (recent s))
  full = ap (leb capacity) (v.size ∙ sym (length-map (λ x. (x.1.key, x.1.value)) s.list))

  absent : (key : Key) → s.map item.key ≡ none → erase_key key s.map item.key ≡ none
  absent key e = elim (Bool-cases (str_eq key item.key)) [ inl q ↦ rw q refl | inr q ↦ rw q e ]

  -- An insertion dereferences no dangling iterator and drops no node of an empty list; it keeps the
  -- invariant and puts the entry in front of the others, where an entry of the same key, or else the
  -- oldest entry of a full stripe, is taken out.
  pub put_in-latest :
      0 < capacity
      → (s' : L2Stripe) × (put_in capacity item s ≡ some s')
        × (recent s' ≡ insert_latest capacity item.key item.value (recent s))
        × IsL2 capacity s'
  unfolding put_in insert_latest
  put_in-latest room = elim (Option-cases (s.map item.key)) [
    | inr (it, e) ↦
        let f = v.found item.key it e in
        let l = lookup-deref s.map item.key it f.0 s.list e f.2 f.1 v.indexed in
        (
          moved it f.0,
          rw (put_in, e) (rw (f.1) refl),
          rw (insert_latest, l.0)
              (ap (λ k. (k, item.value) ∷ entries (erase it s.list)) f.2
                ∙ ap (◌∷◌ (item.key, item.value)) l.1),
          moved-IsL2 it f.0 e f.1 f.2,
        )
    | inl e ↦
        let l = lookup-absent s.map item.key s.list e v.indexed in
        elim (Bool-cases (leb capacity s.map_size)) [
          | inl q ↦
              let (a, n, b) = back-some s.list (
                let z = v.size in let y = le_of_leb capacity s.map_size q in omega (arith, z, y)) in
              let (i, d, p) = drop_last-gone a n b in
              let (w, g) = gone-IsL2 v n.key a i in
              (
                push_new item (gone n.key a s),
                rw (put_in, e) (rw (q, d) refl),
                rw (insert_latest, l)
                    (rw (sym full ∙ q)
                      (ap (◌∷◌ (item.key, item.value)) (p ∙ pop_back-entries s.list))),
                push_new-IsL2 g item (absent n.key e) (let b = v.bound in omega (arith, w, b)),
              )
          | inr q ↦ (
            push_new item s,
            rw (put_in, e) (rw q refl),
            rw (insert_latest, l) (rw (sym full ∙ q) refl),
            push_new-IsL2 v item e
                (let z = v.size in let y = lt_of_leb capacity s.map_size q in omega (arith, z, y)),
          )
        ]
  ]
