-- ===== src/Workload/Tests.antt =====
-- A generator with numbers for `double`, whose random numbers are 0, 1 and 2 in turn.
use walde.Base.{ℕ, ◌+◌, ◌-◌, ◌*◌, ◌/◌, ◌%◌, ◌^◌, ◌<◌, ◌≡◌, refl, some, [], ◌∷◌, length, ltb, arith}
use walde.Base.Arith.{add64}
use walde.Workload.{
  Doubles, Engine64, ZipfianGenerator, WorkloadGenerator, to_string, next_index, generate_batch,
}
use walde.Workload.Zipf.{IsZipf, next_index-lt}
use walde.Workload.Bursts.{burst, within, steps, begun, generate_batch-burst, generate_batch-steps}

test_to_string : (to_string 0 ≡ "0") × (to_string 7 ≡ "7") × (to_string 4096 ≡ "4096")
unfolding to_string
test_to_string = (refl, refl, refl)

abbrev numbers : Doubles ℕ
numbers = record {
  of_nat = λ n. n;
  add = λ a b. a + b;
  sub = λ a b. a - b;
  mul = λ a b. a * b;
  div = λ a b. a / b;
  pow = λ a b. a ^ b;
  less = ltb;
  to_u32 = λ n. n;
}

abbrev turns : Engine64 ℕ ℕ
turns = record { seeded = λ n. n; draw = λ n. (n % 3, n + 1) }

abbrev zipf : ZipfianGenerator ℕ ℕ
zipf = record { num_keys = 2; alpha = 1; rng = 3; cdf = 0 ∷ 1 ∷ [] }

zipf-IsZipf : IsZipf numbers turns zipf
zipf-IsZipf = record { sized = refl; word = omega arith; last = refl }

next_index-lt_example :
    ((next_index numbers turns zipf).0 < 2) × IsZipf numbers turns (next_index numbers turns zipf).1
next_index-lt_example = next_index-lt numbers turns zipf zipf-IsZipf refl

abbrev generator : WorkloadGenerator ℕ ℕ
generator = record {
  config = record {
    num_keys = 2;
    zipf_alpha = 1;
    write_ratio = 1;
    scan_probability = 1;
    scan_length = 3;
    seed = 3;
  };
  zipf = zipf;
  rng = 3;
  actual_scan_prob = 1;
  scan_remaining = 2;
  scan_offset = 40;
  ops_generated = 5;
}

generate_batch-burst_example :
    generate_batch numbers turns 1 2 generator
    ≡ some (burst numbers turns 40 2, within numbers turns generator 0 (add64 5 2))
generate_batch-burst_example = generate_batch-burst numbers turns 0 generator (omega arith)

generate_batch-steps_example :
    (generate_batch numbers turns 2 4 generator ≡ some (steps numbers turns 4 generator))
    × (length (steps numbers turns 4 generator).0 ≡ 4)
    × ((steps numbers turns 4 generator).1.ops_generated
        ≡ add64 5 (4 + begun numbers turns 4 generator))
generate_batch-steps_example =
    generate_batch-steps numbers turns 0 4 generator (omega arith) (omega arith)
