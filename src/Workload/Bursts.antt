-- ===== src/Workload/Bursts.antt =====
-- Bursts of scans, and how many calls of `next` an operation takes.
use walde.Base.{
  ℕ, zero, suc, ◌+◌, ◌-◌, ◌^◌, ◌<◌, ◌≡◌, refl, sym, ap, ◌∙◌, subst, Bool, true, false, not, ◌&&◌,
  Bool-cases, inl, inr, none, some, List, [], ◌∷◌, length, ltb, ltb-true, ltb-false, arith,
  if◌then◌else◌,
}
use walde.Base.Arith.{add32, add64}
use walde.Workload.{
  Doubles, Engine64, WorkloadOp, WorkloadGenerator, scan_op, counted, scan, begin_scan, zipf_op,
  next, generate_batch,
}

module _ {G D : Type 0} (d : Doubles D) (r : Engine64 G D) where
  -- The operations of a burst: sequential keys, from the last to the first.
  pub burst : ℕ → ℕ → List WorkloadOp
  burst offset zero = []
  burst offset (suc n) = scan_op d r (add32 offset n) ∷ burst offset n

  next-scan :
      (f n : ℕ) (g : WorkloadGenerator G D)
      → g.scan_remaining ≡ suc n
      → next d r (suc f) g ≡ some (scan d r (counted d r g))
  unfolding next
  next-scan f n g e = rw (ltb-true 0 g.scan_remaining (omega (arith, e))) refl

  -- The generator in a burst.
  abbrev pub within : WorkloadGenerator G D → ℕ → ℕ → WorkloadGenerator G D
  within g remaining ops = record g { scan_remaining = remaining; ops_generated = ops }

  within-burst :
      (f : ℕ) (g : WorkloadGenerator G D) (n ops : ℕ)
      → ops < 2 ^ 64
      → generate_batch d r (suc f) n (within g n ops)
        ≡ some (burst g.scan_offset n, within g 0 (add64 ops n))
  unfolding generate_batch burst
  within-burst f g zero ops h =
      ap (λ o. some ([], within g 0 o)) {x = ops} {y = add64 ops 0} (omega arith)
  within-burst f g (suc n) ops h =
      let less : suc n - 1 ≡ n = omega arith in
      let first =
        next-scan f n (within g (suc n) ops) refl
        ∙ ap (λ m. some (scan_op d r (add32 g.scan_offset m), within g m (add64 ops 1))) less in
      rw first (
        rw (within-burst f g n (add64 ops 1) (omega arith)) (
          ap (λ o. some (burst g.scan_offset (suc n), within g 0 o)) {x = add64 (add64 ops 1) n}
            {y = add64 ops (suc n)} (omega arith)))

  -- The rest of a burst comes whole: a batch of as many operations as are to come is all sequential
  -- reads of the burst, in descending order; no random number is drawn, each is counted once, and the
  -- burst is over.
  pub generate_batch-burst :
      (f : ℕ) (g : WorkloadGenerator G D)
      → g.ops_generated < 2 ^ 64
      → generate_batch d r (suc f) g.scan_remaining g
        ≡ some (
          burst g.scan_offset g.scan_remaining,
          within g 0 (add64 g.ops_generated g.scan_remaining),
        )
  generate_batch-burst f g h = within-burst f g g.scan_remaining g.ops_generated h

  -- Whether the next operation begins a burst.
  abbrev pub begins : WorkloadGenerator G D → Bool
  begins g = not (ltb 0 g.scan_remaining) && d.less (r.draw g.rng).0 g.actual_scan_prob

  -- The next operation and what it leaves, if bursts are not empty: in a burst its next key; at the
  -- start of one its last key, after two draws, and counted twice; otherwise an operation of the Zipf
  -- distribution.
  abbrev pub step : WorkloadGenerator G D → WorkloadOp × WorkloadGenerator G D
  step g =
      if ltb 0 g.scan_remaining
      then scan d r (counted d r g)
      else if d.less (r.draw g.rng).0 g.actual_scan_prob
      then scan d r (counted d r (begin_scan d r (counted d r g)))
      else zipf_op d r (counted d r g)

  -- If bursts are not empty, `next` returns after at most one call of itself.
  pub next-step :
      (f : ℕ) (g : WorkloadGenerator G D)
      → 0 < g.config.scan_length
      → next d r (suc (suc f)) g ≡ some (step g)
  unfolding next
  next-step f g h = elim (Bool-cases (ltb 0 g.scan_remaining)) [
    | inl p ↦ rw p refl
    | inr p ↦ elim (Bool-cases (d.less (r.draw g.rng).0 g.actual_scan_prob)) [
      | inl q ↦ rw (p, q, ltb-true 0 g.config.scan_length h) refl
      | inr q ↦ rw (p, q) refl
    ]
  ]

  -- If bursts are empty and every draw begins one, `next` never returns, however deep the recursion.
  pub next-stuck :
      (f : ℕ) (g : WorkloadGenerator G D)
      → g.config.scan_length ≡ 0
      → g.scan_remaining ≡ 0
      → ((u : G) → d.less (r.draw u).0 g.actual_scan_prob ≡ true)
      → next d r f g ≡ none
  unfolding next
  next-stuck zero g e z always = refl
  next-stuck (suc f) g e z always =
      rw (ltb-false 0 g.scan_remaining (omega (arith, z)), always g.rng)
        (next-stuck f (begin_scan d r (counted d r g)) e e always)

  -- No step changes the configuration.
  step-config : (g : WorkloadGenerator G D) → (step g).1.config ≡ g.config
  unfolding zipf_op
  step-config g = elim (Bool-cases (ltb 0 g.scan_remaining)) [
    | inl p ↦ rw p refl
    | inr p ↦ elim (Bool-cases (d.less (r.draw g.rng).0 g.actual_scan_prob)) [
      | inl q ↦ rw (p, q) refl
      | inr q ↦ rw (p, q) refl
    ]
  ]

  -- The operations of `n` steps.
  pub steps : ℕ → WorkloadGenerator G D → List WorkloadOp × WorkloadGenerator G D
  steps zero g = ([], g)
  steps (suc n) g = ((step g).0 ∷ (steps n (step g).1).0, (steps n (step g).1).1)

  -- How many of them begin a burst.
  pub begun : ℕ → WorkloadGenerator G D → ℕ
  begun zero g = 0
  begun (suc n) g = (if begins g then 1 else 0) + begun n (step g).1

  step-ops :
      (g : WorkloadGenerator G D)
      → (step g).1.ops_generated ≡ add64 g.ops_generated (if begins g then 2 else 1)
  unfolding zipf_op
  step-ops g = elim (Bool-cases (ltb 0 g.scan_remaining)) [
    | inl p ↦ rw p refl
    | inr p ↦ elim (Bool-cases (d.less (r.draw g.rng).0 g.actual_scan_prob)) [
      | inl q ↦ rw (p, q) (omega arith)
      | inr q ↦ rw (p, q) refl
    ]
  ]

  -- If bursts are not empty, a batch of `n` operations ends and gives `n` operations, each the next one
  -- of the generator; they are counted as `n` and one more for each burst that begins among them.
  pub generate_batch-steps :
      (f n : ℕ) (g : WorkloadGenerator G D)
      → 0 < g.config.scan_length
      → g.ops_generated < 2 ^ 64
      → (generate_batch d r (suc (suc f)) n g ≡ some (steps n g))
        × (length (steps n g).0 ≡ n)
        × ((steps n g).1.ops_generated ≡ add64 g.ops_generated (n + begun n g))
  unfolding generate_batch steps begun
  generate_batch-steps f zero g h w = (refl, refl, omega arith)
  generate_batch-steps f (suc n) g h w =
      let ops = step-ops g in
      let (e, l, c) =
        generate_batch-steps f n (step g).1 (subst (λ k. 0 < k.scan_length) (sym (step-config g)) h)
          (omega (arith, ops)) in
      (rw (next-step f g h) (rw e refl), ap suc l, counts (begins g) ops c)
    where
      counts :
          (b : Bool)
          → (step g).1.ops_generated ≡ add64 g.ops_generated (if b then 2 else 1)
          → (steps n (step g).1).1.ops_generated
            ≡ add64 (step g).1.ops_generated (n + begun n (step g).1)
          → (steps n (step g).1).1.ops_generated
            ≡ add64 g.ops_generated (suc n + ((if b then 1 else 0) + begun n (step g).1))
      counts true p q = omega (arith, p, q)
      counts false p q = omega (arith, p, q)
