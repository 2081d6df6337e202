-- ===== src/L2/Nodes.antt =====
-- The node list of a stripe of the second level: addresses, iterators and what erasing one leaves.
use walde.Base.{
  ℕ, suc, ◌<◌, ◌≡◌, ◌≢◌, refl, sym, ap, ◌∙◌, subst, true, false, none, some, [], ◌∷◌, arith, inl,
  inr, Bool-cases, ◌==◌, eq_of_==, ne_of_==, ==_self, ==_ne, if◌then◌else◌, length, str_eq,
  eq_of_str_eq,
}
use walde.Types.{Key}
use walde.Stripe.{IndexMap, erase_key}
use walde.L2.{L2Node, NodeList, deref, erase, back, pop_back}

-- Every node of a list, with its address.
abbrev pub Each : (ℕ → L2Node → Type 0) → NodeList → Type 0
Each P [] = Unit
Each P ((a, n) ∷ xs) = P a n × Each P xs

-- No address twice.
abbrev pub Unique : NodeList → Type 0
Unique [] = Unit
Unique ((a, n) ∷ xs) = (deref a xs ≡ none) × Unique xs

pub Each-mono :
    {P Q : ℕ → L2Node → Type 0} (xs : NodeList)
    → ((a : ℕ) (n : L2Node) → P a n → Q a n)
    → Each P xs
    → Each Q xs
Each-mono [] f h = tt
Each-mono ((a, n) ∷ xs) f h = (f a n h.0, Each-mono xs f h.1)

pub Each-erase :
    (P : ℕ → L2Node → Type 0) (it : ℕ) (xs : NodeList) → Each P xs → Each P (erase it xs)
Each-erase P it [] h = tt
Each-erase P it ((a, n) ∷ xs) h = elim (Bool-cases (a == it)) [
  | inl e ↦ rw e (h.1)
  | inr e ↦ rw e (h.0, Each-erase P it xs h.1)
]

pub deref_here :
    (it a : ℕ) (n : L2Node) (xs : NodeList) → (a == it) ≡ true → deref it ((a, n) ∷ xs) ≡ some n
deref_here it a n xs e = ap (λ b. if b then some n else deref it xs) e

pub deref_there :
    (it a : ℕ) (n : L2Node) (xs : NodeList)
    → (a == it) ≡ false
    → deref it ((a, n) ∷ xs) ≡ deref it xs
deref_there it a n xs e = ap (λ b. if b then some n else deref it xs) e

pub Each-deref :
    (P : ℕ → L2Node → Type 0) (it : ℕ) (n : L2Node) (xs : NodeList)
    → Each P xs
    → deref it xs ≡ some n
    → P it n
Each-deref P it n [] h e = absurd cc
Each-deref P it n ((a, m) ∷ xs) h e = elim (Bool-cases (a == it)) [
  | inl p ↦
      let d = deref_here it a m xs p in
      let q : m ≡ n = cc in subst (λ x. P x n) (eq_of_== a it p) (subst (P a) q h.0)
  | inr p ↦ Each-deref P it n xs h.1 (sym (deref_there it a m xs p) ∙ e)
]

pub deref-erase_ne : (it a : ℕ) (xs : NodeList) → a ≢ it → deref a (erase it xs) ≡ deref a xs
deref-erase_ne it a [] ne = refl
deref-erase_ne it a ((b, n) ∷ xs) ne = elim (Bool-cases (b == it)) [
  | inl e ↦ rw e (sym (deref_there a b n xs (==_ne b a (λ p. ne (sym p ∙ eq_of_== b it e)))))
  | inr e ↦ rw e (ap (λ o. if b == a then some n else o) (deref-erase_ne it a xs ne))
]

-- What is not in a list is not in it after an erasure.
deref-erase-none : (it a : ℕ) (xs : NodeList) → deref a xs ≡ none → deref a (erase it xs) ≡ none
deref-erase-none it a [] e = refl
deref-erase-none it a ((b, n) ∷ xs) e = elim (Bool-cases (b == a)) [
  | inl p ↦ absurd (let d = deref_here a b n xs p in cc)
  | inr p ↦
      let rest : deref a xs ≡ none = sym (deref_there a b n xs p) ∙ e in
      elim (Bool-cases (b == it)) [
        | inl q ↦ rw q rest
        | inr q ↦ rw (q, p) (deref-erase-none it a xs rest)
      ]
]

pub Unique-erase : (it : ℕ) (xs : NodeList) → Unique xs → Unique (erase it xs)
Unique-erase it [] u = tt
Unique-erase it ((a, n) ∷ xs) u = elim (Bool-cases (a == it)) [
  | inl e ↦ rw e (u.1)
  | inr e ↦ rw e (deref-erase-none it a xs u.0, Unique-erase it xs u.1)
]

pub deref-erase_self : (it : ℕ) (xs : NodeList) → Unique xs → deref it (erase it xs) ≡ none
deref-erase_self it [] u = refl
deref-erase_self it ((a, n) ∷ xs) u = elim (Bool-cases (a == it)) [
  | inl e ↦ rw e (ap (λ j. deref j xs) (sym (eq_of_== a it e)) ∙ u.0)
  | inr e ↦ rw (e, e) (deref-erase_self it xs u.1)
]

pub length-erase :
    (it : ℕ) (n : L2Node) (xs : NodeList)
    → deref it xs ≡ some n
    → suc (length (erase it xs)) ≡ length xs
length-erase it n [] e = absurd cc
length-erase it n ((a, m) ∷ xs) e = elim (Bool-cases (a == it)) [
  | inl p ↦ rw p refl
  | inr p ↦ rw p (ap suc (length-erase it n xs (sym (deref_there it a m xs p) ∙ e)))
]

-- Addresses that were never given out.
pub Each-fresh : (next : ℕ) (xs : NodeList) → Each (λ a n. a < next) xs → deref next xs ≡ none
Each-fresh next [] h = refl
Each-fresh next ((a, n) ∷ xs) h =
    rw (==_ne a next (let l = h.0 in λ p. absurd (omega (arith, l, p)))) (Each-fresh next xs h.1)

-- The nodes other than the one that `key` points to stay indexed without the key.
pub Each-erase_key :
    (m : IndexMap) (key : Key) (it : ℕ) (xs : NodeList)
    → m key ≡ some it
    → deref it xs ≡ none
    → Each (λ a n. m n.key ≡ some a) xs
    → Each (λ a n. erase_key key m n.key ≡ some a) xs
Each-erase_key m key it [] e d h = tt
Each-erase_key m key it ((a, n) ∷ xs) e d h = elim (Bool-cases (a == it)) [
  | inl p ↦ absurd (let q = deref_here it a n xs p in cc)
  | inr p ↦ (
    elim (Bool-cases (str_eq key n.key)) [
      | inl q ↦
          let i = ap m (eq_of_str_eq key n.key q) in
          let h0 = h.0 in let same : a ≡ it = cc in absurd (ne_of_== a it p same)
      | inr q ↦ rw q (h.0)
    ],
    Each-erase_key m key it xs e (sym (deref_there it a n xs p) ∙ d) h.1,
  )
]

-- The last node, by its address.
pub back-deref :
    (a : ℕ) (n : L2Node) (xs : NodeList) → Unique xs → back xs ≡ some (a, n) → deref a xs ≡ some n
back-deref a n [] u e = absurd cc
back-deref a n ((b, m) ∷ []) u e =
    let p : b ≡ a = cc in
    let q : m ≡ n = cc in
    deref_here a b m [] (subst (λ j. (b == j) ≡ true) p (==_self b)) ∙ ap some q
back-deref a n ((b, m) ∷ y ∷ xs) u e =
    let d = back-deref a n (y ∷ xs) u.1 e in
    deref_there a b m (y ∷ xs)
      (==_ne b a (λ p. let w = u.0 in let v = ap (λ j. deref j (y ∷ xs)) p in absurd cc))
    ∙ d

pub pop_back-erase :
    (a : ℕ) (n : L2Node) (xs : NodeList)
    → Unique xs
    → back xs ≡ some (a, n)
    → pop_back xs ≡ erase a xs
pop_back-erase a n [] u e = refl
pop_back-erase a n ((b, m) ∷ []) u e =
    let p : b ≡ a = cc in
    sym (ap (λ c. if c then [] else (b, m) ∷ []) (subst (λ j. (b == j) ≡ true) p (==_self b)))
pop_back-erase a n ((b, m) ∷ y ∷ xs) u e =
    let d = back-deref a n (y ∷ xs) u.1 e in
    let f = ==_ne b a (λ p. let w = u.0 in let v = ap (λ j. deref j (y ∷ xs)) p in absurd cc) in
    ap (◌∷◌ (b, m)) (pop_back-erase a n (y ∷ xs) u.1 e)
    ∙ sym (ap (λ c. if c then y ∷ xs else (b, m) ∷ erase a (y ∷ xs)) f)
