-- ===== src/Workload.antt =====
-- src/workload_generator.cpp and include/workload_generator.h: keys by a Zipf distribution and mixed
-- operations with bursts of scans. The type `double` and the random number engine are parameters; what
-- the generator does between two random numbers is written out.
use Prim.Native.String.{◌++◌}
use walde.Base.{
  ℕ, zero, suc, ◌+◌, ◌-◌, ◌/◌, ◌%◌, ◌^◌, Bool, true, false, not, ◌&&◌, Option, none, some, List, [],
  ◌∷◌, String, ltb, ◌==◌, if◌then◌else◌,
}
use walde.Base.Arith.{add32, add64}
use walde.Types.{Key, Value}
use walde.Slab.{and_then}
pub mod Zipf
pub mod Bursts
mod Tests

-- The operations of `double` that the generator uses; `to_u32` is the cast to `uint32_t`.
pub record Doubles (D : Type 0) : Type 0 where
  pub of_nat : ℕ → D
  pub add : D → D → D
  pub sub : D → D → D
  pub mul : D → D → D
  pub div : D → D → D
  pub pow : D → D → D
  pub less : D → D → Bool
  pub to_u32 : D → ℕ

-- `std::mt19937_64`, and a draw of `uniform_real_distribution` on [0, 1).
pub record Engine64 (G D : Type 0) : Type 0 where
  pub seeded : ℕ → G
  pub draw : G → D × G

-- `std::to_string`; fuel bounds the digits, and a 64-bit word has at most twenty.
abbrev pub digit : ℕ → String
digit n =
    if ltb n 1
    then "0"
    else if ltb n 2
    then "1"
    else if ltb n 3
    then "2"
    else if ltb n 4
    then "3"
    else if ltb n 5
    then "4"
    else if ltb n 6
    then "5"
    else if ltb n 7
    then "6"
    else if ltb n 8
    then "7"
    else if ltb n 9
    then "8"
    else "9"

unfoldable pub decimal : ℕ → ℕ → String
decimal zero n = ""
decimal (suc f) n =
    let front = decimal f (n / 10) in if ltb n 10 then digit n else front ++ digit (n % 10)

unfoldable pub to_string : ℕ → String
unfolding decimal
to_string n = decimal 20 n

pub data OpKind : Type 0 where
  get_op put_op : OpKind

pub record WorkloadOp : Type 0 where
  pub type : OpKind
  pub key : Key
  pub value : Value

pub record ZipfianGenerator (G D : Type 0) : Type 0 where
  pub num_keys : ℕ
  pub alpha : D
  pub rng : G
  pub cdf : List D

pub record Config (D : Type 0) : Type 0 where
  pub num_keys : ℕ
  pub zipf_alpha : D
  pub write_ratio : D
  pub scan_probability : D
  pub scan_length : ℕ
  pub seed : ℕ

pub record WorkloadGenerator (G D : Type 0) : Type 0 where
  pub config : Config D
  pub zipf : ZipfianGenerator G D
  pub rng : G
  pub actual_scan_prob : D
  pub scan_remaining : ℕ
  pub scan_offset : ℕ
  pub ops_generated : ℕ

module _ {G D : Type 0} (d : Doubles D) (r : Engine64 G D) where
  -- The loop of the harmonic number, with `n` rounds left, from `i` on.
  unfoldable pub harmonic : D → ℕ → ℕ → D → D
  harmonic alpha zero i sum = sum
  harmonic alpha (suc n) i sum =
      harmonic alpha n (i + 1) (d.add sum (d.div (d.of_nat 1) (d.pow (d.of_nat i) alpha)))

  -- The loop that fills the table, with `n` entries left, from entry `i` on.
  unfoldable pub cdf_from : D → D → ℕ → ℕ → D → List D
  cdf_from alpha h zero i cumulative = []
  cdf_from alpha h (suc n) i cumulative =
      let next = d.add cumulative (d.div (d.div (d.of_nat 1) (d.pow (d.of_nat (i + 1)) alpha)) h) in
      next ∷ cdf_from alpha h n (i + 1) next

  -- `cdf_[num_keys - 1] = 1.0`; without an entry it is out of bounds.
  unfoldable pub set_last : List D → Option (List D)
  set_last [] = none
  set_last (x ∷ []) = some (d.of_nat 1 ∷ [])
  set_last (x ∷ y ∷ ys) = elim (set_last (y ∷ ys)) [ none ↦ none | some zs ↦ some (x ∷ zs) ]

  -- Past the loop of the harmonic number.
  abbrev pub filled : ℕ → D → ℕ → Option (List D) → Option (ZipfianGenerator G D)
  filled num_keys alpha seed none = none
  filled num_keys alpha seed (some cdf) =
      some (record { num_keys = num_keys; alpha = alpha; rng = r.seeded seed; cdf = cdf })

  -- For the largest word the first loop, `i <= num_keys`, does not end.
  unfoldable pub init_zipf : ℕ → D → ℕ → Option (ZipfianGenerator G D)
  unfolding harmonic cdf_from set_last
  init_zipf num_keys alpha seed =
      if num_keys == 2 ^ 32 - 1
      then none
      else filled num_keys alpha seed (
          set_last
            (cdf_from alpha (harmonic alpha num_keys 1 (d.of_nat 0)) num_keys 0 (d.of_nat 0)))

  -- `std::lower_bound`: the first entry that is not less.
  unfoldable pub lower_bound : List D → D → ℕ
  lower_bound [] u = 0
  lower_bound (x ∷ xs) u = if d.less x u then suc (lower_bound xs u) else 0

  unfoldable pub next_index : ZipfianGenerator G D → ℕ × ZipfianGenerator G D
  unfolding lower_bound
  next_index z = (lower_bound z.cdf (r.draw z.rng).0 % 2 ^ 32, record z { rng = (r.draw z.rng).1 })

  unfoldable pub next_key : ZipfianGenerator G D → Key × ZipfianGenerator G D
  unfolding next_index to_string
  next_key z = ("key_" ++ to_string (next_index z).0, (next_index z).1)

  unfoldable pub init : Config D → Option (WorkloadGenerator G D)
  unfolding init_zipf
  init config = elim (init_zipf config.num_keys config.zipf_alpha config.seed) [
    | none ↦ none
    | some zipf ↦ some (record {
      config = config;
      zipf = zipf;
      rng = r.seeded (add64 config.seed 1);
      actual_scan_prob =
          if d.less (d.of_nat 0) config.scan_probability
            && d.less config.scan_probability (d.of_nat 1)
          then d.div config.scan_probability (
              d.add
                (d.mul (d.of_nat config.scan_length) (d.sub (d.of_nat 1) config.scan_probability))
                config.scan_probability)
          else config.scan_probability;
      scan_remaining = 0;
      scan_offset = 0;
      ops_generated = 0;
    })
  ]

  abbrev pub scan_op : ℕ → WorkloadOp
  unfolding to_string
  scan_op n = record { type = OpKind.get_op; key = "scan_" ++ to_string n; value = "" }

  abbrev pub counted : WorkloadGenerator G D → WorkloadGenerator G D
  counted g = record g { ops_generated = add64 g.ops_generated 1 }

  -- The next operation of a burst.
  abbrev pub scan : WorkloadGenerator G D → WorkloadOp × WorkloadGenerator G D
  scan g = (
    scan_op (add32 g.scan_offset (g.scan_remaining - 1)),
    record g { scan_remaining = g.scan_remaining - 1 },
  )

  -- A burst begins, after the draw that decided it.
  abbrev pub begin_scan : WorkloadGenerator G D → WorkloadGenerator G D
  begin_scan g =
      let g' = record g { rng = (r.draw g.rng).1 } in
      record g' {
        scan_remaining = g.config.scan_length;
        scan_offset =
            d.to_u32 (d.mul (d.mul (r.draw g'.rng).0 (d.of_nat g.config.num_keys)) (d.of_nat 10));
        rng = (r.draw g'.rng).1;
      }

  -- The normal operation, after the draw that decided it.
  unfoldable pub zipf_op : WorkloadGenerator G D → WorkloadOp × WorkloadGenerator G D
  unfolding next_key to_string
  zipf_op g =
      let g' = record g { rng = (r.draw g.rng).1; zipf = (next_key g.zipf).1 } in
      let u = r.draw g'.rng in
      (
        if d.less u.0 g.config.write_ratio
            then record {
              type = OpKind.put_op;
              key = (next_key g.zipf).0;
              value = "val_" ++ to_string g.ops_generated;
            }
            else record { type = OpKind.get_op; key = (next_key g.zipf).0; value = "" },
        record g' { rng = u.1 },
      )

  -- `next`; fuel bounds the calls.
  unfoldable pub next : ℕ → WorkloadGenerator G D → Option (WorkloadOp × WorkloadGenerator G D)
  unfolding zipf_op
  next zero g = none
  next (suc n) g =
      let g1 = counted g in
      let first = next n (begin_scan g1) in
      if ltb 0 g1.scan_remaining
      then some (scan g1)
      else if d.less (r.draw g1.rng).0 g1.actual_scan_prob
      then first
      else some (zipf_op g1)

  -- The loop of `generate_batch`; every call of `next` has the same fuel.
  unfoldable pub generate_batch :
      ℕ → ℕ → WorkloadGenerator G D → Option (List WorkloadOp × WorkloadGenerator G D)
  unfolding next
  generate_batch fuel zero g = some ([], g)
  generate_batch fuel (suc n) g =
      and_then (next fuel g)
        λ op g'. and_then (generate_batch fuel n g') λ ops g''. some (op ∷ ops, g'')
