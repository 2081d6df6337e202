-- ===== src/Slab/Yields.antt =====
-- Total correctness of a command, on the slab or on another state: no assertion fails, no access
-- leaves the pool, and the result and the new state meet a postcondition.
use walde.Base.{Option, some, ◌≡◌, subst, sym}
use walde.Slab.{and_then}

pub data Yields {A S : Type 0} (P : A → S → Type 0) : Option (A × S) → Type 0 where
  yields : {a : A} {s : S} → P a s → Yields P (some (a, s))

module _ {A S : Type 0} {P : A → S → Type 0} where
  pub bind :
      {B : Type 0} {Q : B → S → Type 0} {r : Option (A × S)} {k : A → S → Option (B × S)}
      → Yields P r
      → ((a : A) (s : S) → P a s → Yields Q (k a s))
      → Yields Q (and_then r k)
  bind (yields p) next = next _ _ p

  pub mono :
      {Q : A → S → Type 0} {r : Option (A × S)}
      → Yields P r
      → ((a : A) (s : S) → P a s → Q a s)
      → Yields Q r
  mono (yields p) weaken = yields (weaken _ _ p)

  -- Two postconditions of the same command.
  pub both :
      {Q : A → S → Type 0} {r : Option (A × S)}
      → Yields P r
      → Yields Q r
      → Yields (λ a s. P a s × Q a s) r
  both {Q} (yields {a} {s} p) y = yields (p, at y)
    where
      at : Yields Q (some (a, s)) → Q a s
      at (yields q) = q

  pub along : {r q : Option (A × S)} → q ≡ r → Yields P r → Yields P q
  along e y = subst (Yields P) (sym e) y

  -- The outcome that a command is known to yield.
  pub outcome : {r : Option (A × S)} → Yields P r → (a : A) × (s : S) × (r ≡ some (a, s)) × P a s
  outcome (yields {a} {s} p) = (a, s, λ i. some (a, s), p)
