-- ===== src/Base/Index.antt =====
-- Lists of slab indices: membership, distinctness, first and last element, and stores that are
-- functions of an index.
use Prim.Native.Nat.{ℕ, zero, suc, ◌<◌, ◌≤◌}
use mathlib.Core.Path.{◌≡◌, refl}
use mathlib.Core.Logic.{◌≢◌, inl, inr}
use mathlib.Core.List.{List, [], ◌∷◌, ◌++◌}
use mathlib.Core.Bool.{Bool, true, false, ◌||◌}
use native.Mathlib.Omega.{arith}
use walde.Base.Tests.{◌==◌, if◌then◌else◌, Bool-cases, ==_self, ==_ne}
use walde.Base.Lists.{length}

-- A store with one entry replaced.
abbrev pub update {ℓ} : {A : Type ℓ} → (ℕ → A) → ℕ → A → ℕ → A
update f i a j = if i == j then a else f j

pub update_self {ℓ} : {A : Type ℓ} (f : ℕ → A) (i : ℕ) (a : A) → update f i a i ≡ a
update_self f i a = rw (==_self i)

pub update_ne {ℓ} : {A : Type ℓ} (f : ℕ → A) (i j : ℕ) (a : A) → i ≢ j → update f i a j ≡ f j
update_ne f i j a h = rw (==_ne i j h)

abbrev pub has : ℕ → List ℕ → Bool
has a [] = false
has a (x ∷ xs) = (a == x) || has a xs

infix 40 ◌∈◌ ◌∉◌
abbrev pub ◌∈◌ : ℕ → List ℕ → Type 0
a ∈ xs = has a xs ≡ true

abbrev pub ◌∉◌ : ℕ → List ℕ → Type 0
a ∉ xs = has a xs ≡ false

abbrev pub Distinct : List ℕ → Type 0
Distinct [] = Unit
Distinct (x ∷ xs) = (x ∉ xs) × Distinct xs

abbrev pub AllBelow : ℕ → List ℕ → Type 0
AllBelow n [] = Unit
AllBelow n (x ∷ xs) = (x < n) × AllBelow n xs

abbrev pub Disjoint : List ℕ → List ℕ → Type 0
Disjoint xs ys = (a : ℕ) → a ∈ xs → a ∉ ys

abbrev pub head_or : ℕ → List ℕ → ℕ
head_or d [] = d
head_or d (x ∷ _) = x

abbrev pub last_or : ℕ → List ℕ → ℕ
last_or d [] = d
last_or d (x ∷ xs) = last_or x xs

pub has-append : (a : ℕ) (xs ys : List ℕ) → has a (xs ++ ys) ≡ (has a xs || has a ys)
has-append a [] ys = refl
has-append a (x ∷ xs) ys = ground (arith, has-append a xs ys)

pub has-last_or : (x : ℕ) (xs : List ℕ) → last_or x xs ∈ (x ∷ xs)
has-last_or x [] = ground arith
has-last_or x (y ∷ ys) = ground (arith, has-last_or y ys)

pub ne_of_mem : (a b : ℕ) (xs : List ℕ) → a ∈ xs → b ∉ xs → a ≢ b
ne_of_mem a b xs m o e = ground arith

pub lt_of_mem : (n a : ℕ) (xs : List ℕ) → AllBelow n xs → a ∈ xs → a < n
lt_of_mem n a [] h m = absurd (cc)
lt_of_mem n a (x ∷ xs) h m = ground (arith, lt_of_mem n a xs)

pub last_or-lt : (n x : ℕ) (xs : List ℕ) → AllBelow n (x ∷ xs) → last_or x xs < n
last_or-lt n x [] h = h.0
last_or-lt n x (y ∷ ys) h = last_or-lt n y ys h.1

pub AllBelow-append :
    (n : ℕ) (xs ys : List ℕ) → AllBelow n xs → AllBelow n ys → AllBelow n (xs ++ ys)
AllBelow-append n [] ys h k = k
AllBelow-append n (x ∷ xs) ys h k = (h.0, AllBelow-append n xs ys h.1 k)

pub AllBelow-split :
    (n : ℕ) (xs ys : List ℕ) → AllBelow n (xs ++ ys) → AllBelow n xs × AllBelow n ys
AllBelow-split n [] ys h = (tt, h)
AllBelow-split n (x ∷ xs) ys h = let (p, q) = AllBelow-split n xs ys h.1 in ((h.0, p), q)

pub Distinct-append :
    (xs ys : List ℕ) → Distinct xs → Distinct ys → Disjoint xs ys → Distinct (xs ++ ys)
Distinct-append [] ys h k apart = k
Distinct-append (x ∷ xs) ys h k apart = (
  ground (arith, has-append x xs ys, apart x),
  Distinct-append xs ys h.1 k (λ a m. apart a (ground arith)),
)

pub Distinct-split :
    (xs ys : List ℕ) → Distinct (xs ++ ys) → Distinct xs × Distinct ys × Disjoint xs ys
Distinct-split [] ys h = (tt, h, λ a m. absurd (cc))
Distinct-split (x ∷ xs) ys h =
    let (p, q, apart) = Distinct-split xs ys h.1 in
    ((ground (arith, has-append x xs ys), p), q, λ a m. ground (arith, apart a, has-append x xs ys))

-- The list less its first `a`.
pub delete : ℕ → List ℕ → List ℕ
delete a [] = []
delete a (x ∷ xs) = if a == x then xs else x ∷ delete a xs

length-delete : (a : ℕ) (xs : List ℕ) → a ∈ xs → length xs ≡ suc (length (delete a xs))
unfolding delete
length-delete a [] m = absurd (cc)
length-delete a (x ∷ xs) m = ground (arith, length-delete a xs)

has-delete : (a b : ℕ) (xs : List ℕ) → b ∉ xs → b ∉ delete a xs
unfolding delete
has-delete a b [] m = refl
has-delete a b (x ∷ xs) m = ground (arith, has-delete a b xs)

Distinct-delete : (a : ℕ) (xs : List ℕ) → Distinct xs → Distinct (delete a xs)
unfolding delete
Distinct-delete a [] d = tt
Distinct-delete a (x ∷ xs) d = elim (Bool-cases (a == x)) [
  | inl e ↦ rw e d.1
  | inr e ↦ rw e (has-delete a x xs d.0, Distinct-delete a xs d.1)
]

AllBelow-absent : (n : ℕ) (xs : List ℕ) → AllBelow (suc n) xs → n ∉ xs → AllBelow n xs
AllBelow-absent n [] h m = tt
AllBelow-absent n (x ∷ xs) h m = (ground arith, AllBelow-absent n xs h.1 (ground arith))

AllBelow-delete :
    (n : ℕ) (xs : List ℕ) → AllBelow (suc n) xs → Distinct xs → AllBelow n (delete n xs)
unfolding delete
AllBelow-delete n [] h d = tt
AllBelow-delete n (x ∷ xs) h d = elim (Bool-cases (n == x)) [
  | inl e ↦ rw e (AllBelow-absent n xs h.1 (ground arith))
  | inr e ↦ rw e (ground arith, AllBelow-delete n xs h.1 d.1)
]

-- Distinct numbers below `n` are at most `n`.
pub length-le : (n : ℕ) (xs : List ℕ) → AllBelow n xs → Distinct xs → length xs ≤ n
length-le zero [] h d = omega arith
length-le zero (x ∷ xs) h d = absurd (omega arith)
length-le (suc n) xs h d = elim (Bool-cases (has n xs)) [
  | inl m ↦ omega (
    arith,
    length-delete n xs m,
    length-le n (delete n xs) (AllBelow-delete n xs h d) (Distinct-delete n xs d),
  )
  | inr m ↦ omega (arith, length-le n xs (AllBelow-absent n xs h m) d)
]
