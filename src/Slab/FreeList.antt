-- ===== src/Slab/FreeList.antt =====
-- The free list of the slab: the indices that `free_next_` leads through from the head word.
use walde.Base.{
  ℕ, zero, suc, ◌+◌, ◌-◌, ◌≤◌, ◌<◌, ◌≡◌, refl, List, [], ◌∷◌, ◌∉◌, Distinct, AllBelow, length,
  update, ltb, if◌then◌else◌, arith, length-le,
}
use walde.Types.{invalid_index}
use walde.Slab.{Slab, unpack_index}

abbrev pub Chain : (ℕ → ℕ) → ℕ → List ℕ → Type 0
Chain next p [] = p ≡ invalid_index
Chain next p (x ∷ xs) = (p ≡ x) × Chain next (next x) xs

-- `fs` is the free list of `s`, next slot to be handed out first.
pub record IsFree (s : Slab) (fs : List ℕ) : Type 0 where
  pub chain : Chain s.free_next (unpack_index s.head) fs
  pub distinct : Distinct fs
  pub below : AllBelow s.capacity fs
  pub count : s.free_count ≡ length fs
  pub small : s.capacity ≤ invalid_index

-- Links outside the list do not matter.
pub Chain-update :
    (next : ℕ → ℕ) (i v p : ℕ) (xs : List ℕ)
    → i ∉ xs
    → Chain next p xs
    → Chain (update next i v) p xs
Chain-update next i v p [] out c = c
Chain-update next i v p (x ∷ xs) out c = (c.0, ground (arith, Chain-update next i v (next x) xs))

pub Chain-le :
    (next : ℕ → ℕ) (n p : ℕ) (xs : List ℕ)
    → Chain next p xs
    → AllBelow n xs
    → n ≤ invalid_index
    → p ≤ invalid_index
Chain-le next n p [] c h k = omega arith
Chain-le next n p (x ∷ xs) c h k = omega arith

-- `available()` never exceeds the capacity.
pub available-le-capacity : {s : Slab} {fs : List ℕ} → IsFree s fs → s.free_count ≤ s.capacity
available-le-capacity {s} {fs} f =
    omega (arith, length-le s.capacity fs f.below f.distinct, f.count)

unfoldable pub up_from : ℕ → ℕ → List ℕ
up_from i zero = []
up_from i (suc n) = i ∷ up_from (i + 1) n

pub up_from-below : (i n k : ℕ) → i + n ≤ k → AllBelow k (up_from i n)
unfolding up_from
up_from-below i zero k h = tt
up_from-below i (suc n) k h = (omega arith, up_from-below (i + 1) n k (omega arith))

up_from-absent : (a i n : ℕ) → a < i → a ∉ up_from i n
unfolding up_from
up_from-absent a i zero h = refl
up_from-absent a i (suc n) h = ground (arith, up_from-absent a (i + 1) n)

pub up_from-Distinct : (i n : ℕ) → Distinct (up_from i n)
unfolding up_from
up_from-Distinct i zero = tt
up_from-Distinct i (suc n) = (up_from-absent i (i + 1) n (omega arith), up_from-Distinct (i + 1) n)

pub length-up_from : (i n : ℕ) → length (up_from i n) ≡ n
unfolding up_from
length-up_from i zero = refl
length-up_from i (suc n) = omega (arith, length-up_from (i + 1) n)

-- The links that the constructor writes.
pub up_from-Chain :
    (cap i n : ℕ)
    → i + suc n ≡ cap
    → Chain (λ j. if ltb j (cap - 1) then j + 1 else invalid_index) i (up_from i (suc n))
unfolding up_from
up_from-Chain cap i zero h = (refl, ground arith)
up_from-Chain cap i (suc n) h = (refl, ground (arith, up_from-Chain cap (i + 1) n (omega arith)))
