-- ===== src/Base/Splits.antt =====
-- Lists taken apart: around a member, and at the last element.
use Prim.Native.Nat.{ℕ}
use mathlib.Core.Path.{◌≡◌, refl, ap}
use mathlib.Core.Logic.{inl, inr, ◌⊎◌}
use mathlib.Core.List.{List, [], ◌∷◌, ◌++◌}
use native.Mathlib.Omega.{arith}
use walde.Base.Tests.{◌==◌, Bool-cases}
use walde.Base.Index.{◌∈◌, has-append}

pub member_split :
    (i : ℕ) (xs : List ℕ)
    → i ∈ xs
    → (before : List ℕ) × (after : List ℕ) × (xs ≡ before ++ i ∷ after)
member_split i [] m = absurd (cc)
member_split i (x ∷ xs) m = elim (Bool-cases (i == x)) [
  | inl e ↦ ([], xs, ap (λ y. y ∷ xs) {x = x} {y = i} (ground arith))
  | inr e ↦ let (b, a, p) = member_split i xs (ground arith) in (x ∷ b, a, ap (◌∷◌ x) p)
]

pub last_split : (xs : List ℕ) → (xs ≡ []) ⊎ (before : List ℕ) × (j : ℕ) × (xs ≡ before ++ j ∷ [])
last_split [] = inl refl
last_split (x ∷ xs) = elim (last_split xs) [
  | inl e ↦ inr ([], x, ap (◌∷◌ x) e)
  | inr (b, j, e) ↦ inr (x ∷ b, j, ap (◌∷◌ x) e)
]

pub has-insert :
    (i a : ℕ) (before after : List ℕ) → a ∈ (before ++ after) → a ∈ (before ++ i ∷ after)
has-insert i a before after m =
    ground (arith, has-append a before (i ∷ after), has-append a before after)
