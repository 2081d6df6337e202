-- ===== src/Trace/Text.antt =====
-- Texts without blanks under the searches of a text and under `trim`.
use walde.Base.{
  ℕ, zero, suc, ◌+◌, ◌-◌, ◌≡◌, refl, ap, ◌∙◌, Bool, true, false, not, ◌||◌, none, some, [], ◌∷◌,
  ◌++◌, length, length-append, take, inl, inr, Bool-cases, ◌==◌, if◌then◌else◌, arith,
}
use walde.Trace.{Text, is_blank, no_space, find_first, find_last, trim}

-- Each character passes a test.
abbrev pub AllOf : (ℕ → Bool) → Text → Type 0
AllOf p [] = Unit
AllOf p (c ∷ s) = (p c ≡ true) × AllOf p s

-- A text that is not empty and has no white space.
abbrev pub IsWord : Text → Type 0
IsWord [] = ⊥
IsWord (c ∷ s) = AllOf no_space (c ∷ s)

not_blank : (c : ℕ) → no_space c ≡ true → is_blank c ≡ false
not_blank c e = elim (Bool-cases (is_blank c)) [
  | inl p ↦ absurd (let q = ap (λ b. not (b || (c == 13 || c == 10))) p in cc)
  | inr p ↦ p
]

pub find_first-none : (p : ℕ → Bool) (s : Text) → AllOf (λ c. not (p c)) s → find_first p s ≡ none
find_first-none p [] h = refl
find_first-none p (c ∷ s) h = rw (off (p c) h.0) (rw (find_first-none p s h.1) refl)
  where
    off : (b : Bool) → not b ≡ true → b ≡ false
    off true e = absurd cc
    off false e = refl

AllOf-mono :
    (p q : ℕ → Bool) (s : Text) → ((c : ℕ) → p c ≡ true → q c ≡ true) → AllOf p s → AllOf q s
AllOf-mono p q [] f h = tt
AllOf-mono p q (c ∷ s) f h = (f c h.0, AllOf-mono p q s f h.1)

pub find_first-blank : (s : Text) → AllOf no_space s → find_first is_blank s ≡ none
find_first-blank s h =
    find_first-none is_blank s
      (AllOf-mono no_space (λ c. not (is_blank c)) s (λ c e. ap not (not_blank c e)) h)

-- The last character of a text that ends in a word.
find_last-word :
    (c : ℕ) (s : Text) → AllOf no_space (c ∷ s) → find_last no_space (c ∷ s) ≡ some (length s)
find_last-word c [] h = rw (h.0) refl
find_last-word c (d ∷ s) h = rw (find_last-word d s h.1) refl

find_last-append :
    (p : ℕ → Bool) (w s : Text) (i : ℕ)
    → find_last p s ≡ some i
    → find_last p (w ++ s) ≡ some (length w + i)
find_last-append p [] s i e = e ∙ ap some {x = i} {y = 0 + i} (omega arith)
find_last-append p (c ∷ w) s i e =
    rw (find_last-append p w s i e)
      (ap some {x = suc (length w + i)} {y = suc (length w) + i} (omega arith))

take-length : (s : Text) (n : ℕ) → n ≡ length s → take n s ≡ s
take-length [] zero e = refl
take-length [] (suc n) e = refl
take-length (c ∷ s) zero e = absurd (omega (arith, e))
take-length (c ∷ s) (suc n) e = ap (◌∷◌ c) (take-length s n (omega (arith, e)))

first_here : (a : ℕ) (s : Text) → no_space a ≡ true → find_first no_space (a ∷ s) ≡ some 0
first_here a s e =
    ap
      (λ b.
        if b then some 0 else elim (find_first no_space s) [ none ↦ none | some i ↦ some (suc i) ])
      e

trim_whole :
    (s : Text) (i : ℕ)
    → find_first no_space s ≡ some 0
    → find_last no_space s ≡ some i
    → suc i ≡ length s
    → trim s ≡ s
unfolding trim
trim_whole s i f l e = rw (trim, f) (rw l (take-length s (i - 0 + 1) (omega (arith, e))))

-- A text that starts with no white space and ends in a word stays whole.
pub trim-append :
    (a : ℕ) (w : Text) (c : ℕ) (s : Text)
    → no_space a ≡ true
    → AllOf no_space (c ∷ s)
    → trim ((a ∷ w) ++ (c ∷ s)) ≡ (a ∷ w) ++ (c ∷ s)
trim-append a w c s e h =
    trim_whole ((a ∷ w) ++ (c ∷ s)) (length (a ∷ w) + length s) (first_here a (w ++ (c ∷ s)) e)
      (find_last-append no_space (a ∷ w) (c ∷ s) (length s) (find_last-word c s h))
      (let n = length-append (a ∷ w) (c ∷ s) in omega (arith, n))

pub trim-IsWord : (s : Text) → IsWord s → trim s ≡ s
trim-IsWord [] h = absurd h
trim-IsWord (c ∷ s) h =
    trim_whole (c ∷ s) (length s) (first_here c s h.0) (find_last-word c s h) refl
