-- ===== src/L2/Once.antt =====
-- In a stripe of the second level no key stands twice, so that a lookup sees what was erased.
use walde.Base.{
  ℕ, ◌≡◌, refl, sym, ap, ◌∙◌, none, some, [], ◌∷◌, inl, inr, Bool-cases, ◌==◌, ==_self,
  if◌then◌else◌, str_eq, eq_of_str_eq,
}
use walde.Types.{Key}
use walde.Stripe.{IndexMap}
use walde.L2.{NodeList, L2Stripe, deref}
use walde.L2.Nodes.{Each, Unique, deref_here, deref_there}
use walde.L2.Recency.{Entries, lookup, without, entries}
use walde.L2.Stripes.{IsL2, recent}

abbrev pub Once : Entries → Type 0
Once [] = Unit
Once ((k, v) ∷ es) = (lookup k es ≡ none) × Once es

-- A key whose iterator is not in the list has no entry.
lookup-outside :
    (m : IndexMap) (k : Key) (it : ℕ) (xs : NodeList)
    → m k ≡ some it
    → deref it xs ≡ none
    → Each (λ a n. m n.key ≡ some a) xs
    → lookup k (entries xs) ≡ none
lookup-outside m k it [] e d h = refl
lookup-outside m k it ((a, n) ∷ xs) e d h = elim (Bool-cases (a == it)) [
  | inl p ↦ absurd (let q = deref_here it a n xs p in cc)
  | inr p ↦ elim (Bool-cases (str_eq k n.key)) [
    | inl q ↦
        let w = ap m (eq_of_str_eq k n.key q) in
        let h0 = h.0 in
        let same : it ≡ a = cc in absurd (let r = ap (λ j. a == j) same ∙ ==_self a in cc)
    | inr q ↦ rw q (lookup-outside m k it xs e (sym (deref_there it a n xs p) ∙ d) h.1)
  ]
]

Once-entries :
    (m : IndexMap) (xs : NodeList)
    → Unique xs
    → Each (λ a n. m n.key ≡ some a) xs
    → Once (entries xs)
Once-entries m [] u h = tt
Once-entries m ((a, n) ∷ xs) u h =
    (lookup-outside m n.key a xs h.0 u.0 h.1, Once-entries m xs u.1 h.1)

pub IsL2-Once : {capacity : ℕ} {s : L2Stripe} → IsL2 capacity s → Once (recent s)
IsL2-Once {s = s} v = Once-entries s.map s.list v.unique v.indexed

pub lookup-without :
    (key k : Key) (es : Entries)
    → Once es
    → lookup k (without key es) ≡ (if str_eq key k then none else lookup k es)
lookup-without key k [] o = elim (Bool-cases (str_eq key k)) [
  | inl p ↦ rw p refl
  | inr p ↦ rw p refl
]
lookup-without key k ((j, v) ∷ es) o = elim (Bool-cases (str_eq key j)) [
  | inl p ↦ rw p (elim (Bool-cases (str_eq key k)) [
    | inl q ↦ rw q (ap (λ i. lookup i es) (sym (eq_of_str_eq key k q) ∙ eq_of_str_eq key j p) ∙ o.0)
    | inr q ↦ elim (Bool-cases (str_eq k j)) [
      | inl r ↦ absurd (let w = ap (str_eq key) (eq_of_str_eq k j r) in cc)
      | inr r ↦ rw (q, r) refl
    ]
  ])
  | inr p ↦ rw p (elim (Bool-cases (str_eq k j)) [
    | inl r ↦ elim (Bool-cases (str_eq key k)) [
      | inl q ↦ absurd (let w = ap (str_eq key) (eq_of_str_eq k j r) in cc)
      | inr q ↦ rw (r, q) refl
    ]
    | inr r ↦ rw r (lookup-without key k es o.1)
  ])
]
