-- ===== src/L2/Recency.antt =====
-- What a stripe of the second level stands for: its entries by recency, as an association list, with
-- the operations of an exclusive least-recently-used cache on it.
use walde.Base.{
  ℕ, ◌≡◌, refl, sym, ap, ◌∙◌, false, Option, none, some, List, [], ◌∷◌, map, inl, inr, Bool-cases,
  ◌==◌, ne_of_==, leb, if◌then◌else◌, length, str_eq, str_eq_self, eq_of_str_eq,
}
use walde.Types.{Key, Value}
use walde.Stripe.{IndexMap}
use walde.Stripe.Remove.{is_some}
use walde.L2.{L2Node, NodeList, deref, erase, pop_back}
use walde.L2.Nodes.{Each, deref_here, deref_there}

abbrev pub Entries : Type 0
Entries = List (Key × Value)

abbrev pub lookup : Key → Entries → Option Value
lookup k [] = none
lookup k ((j, v) ∷ es) = if str_eq k j then some v else lookup k es

abbrev pub without : Key → Entries → Entries
without k [] = []
without k ((j, v) ∷ es) = if str_eq k j then es else (j, v) ∷ without k es

abbrev pub drop_oldest : Entries → Entries
drop_oldest [] = []
drop_oldest (e ∷ []) = []
drop_oldest (e ∷ f ∷ es) = e ∷ drop_oldest (f ∷ es)

-- An insertion: the latest entry is in front, and the oldest makes room for a new one.
unfoldable pub insert_latest : ℕ → Key → Value → Entries → Entries
insert_latest capacity k v es =
    if is_some (lookup k es)
    then (k, v) ∷ without k es
    else if leb capacity (length es)
    then (k, v) ∷ drop_oldest es
    else (k, v) ∷ es

abbrev pub entries : NodeList → Entries
entries = map (λ x. (x.1.key, x.1.value))

-- The node that an iterator of the map points to is the entry that a lookup finds.
module _ (m : IndexMap) (k : Key) where
  pub lookup-absent :
      (xs : NodeList)
      → m k ≡ none
      → Each (λ a n. m n.key ≡ some a) xs
      → lookup k (entries xs) ≡ none
  lookup-absent [] e h = refl
  lookup-absent ((a, n) ∷ xs) e h = elim (Bool-cases (str_eq k n.key)) [
    | inl p ↦ absurd (let q = ap m (eq_of_str_eq k n.key p) in let i = h.0 in cc)
    | inr p ↦ rw p (lookup-absent xs e h.1)
  ]

  -- Only the node at `it` has the key.
  other_key :
      (it a : ℕ) (n : L2Node)
      → m k ≡ some it
      → m n.key ≡ some a
      → (a == it) ≡ false
      → str_eq k n.key ≡ false
  other_key it a n e i p = elim (Bool-cases (str_eq k n.key)) [
    | inl q ↦
        let r = ap m (eq_of_str_eq k n.key q) in
        let same : a ≡ it = cc in absurd (ne_of_== a it p same)
    | inr q ↦ q
  ]

  pub lookup-deref :
      (it : ℕ) (n : L2Node) (xs : NodeList)
      → m k ≡ some it
      → n.key ≡ k
      → deref it xs ≡ some n
      → Each (λ a n. m n.key ≡ some a) xs
      → (lookup k (entries xs) ≡ some n.value) × (entries (erase it xs) ≡ without k (entries xs))
  lookup-deref it n [] e same d h = absurd cc
  lookup-deref it n ((a, o) ∷ xs) e same d h = elim (Bool-cases (a == it)) [
    | inl p ↦
        let q = deref_here it a o xs p in
        let r : o ≡ n = cc in
        let w = ap (λ z. str_eq k z.key) r ∙ ap (str_eq k) same ∙ str_eq_self k in
        (
          ap (λ b. if b then some o.value else lookup k (entries xs)) w ∙ ap (λ z. some z.value) r,
          rw p (
              sym
                (ap (λ b. if b then entries xs else (o.key, o.value) ∷ without k (entries xs)) w)),
        )
    | inr p ↦
        let w = other_key it a o e h.0 p in
        let ih = lookup-deref it n xs e same (sym (deref_there it a o xs p) ∙ d) h.1 in
        (rw w (ih.0), rw (p, w) (ap (◌∷◌ (o.key, o.value)) ih.1))
  ]

pub pop_back-entries : (xs : NodeList) → entries (pop_back xs) ≡ drop_oldest (entries xs)
pop_back-entries [] = refl
pop_back-entries (x ∷ []) = refl
pop_back-entries (x ∷ y ∷ xs) = ap (◌∷◌ (x.1.key, x.1.value)) (pop_back-entries (y ∷ xs))
