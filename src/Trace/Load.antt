-- ===== src/Trace/Load.antt =====
-- `load_trace_file` against the list of the operations of a file.
use walde.Base.{
  ℕ, zero, suc, ◌+◌, ◌<◌, ◌≤◌, ◌≡◌, refl, sym, ap, ◌∙◌, true, false, ◌&&◌, Option, none, some, List,
  [], ◌∷◌, ◌++◌, length, length-append, take, inl, inr, Bool-cases, Option-cases, leb, le_of_leb,
  lt_of_leb, ltb-true, ltb-false, arith,
}
use mathlib.Core.List.{append-nil, append_assoc}
use walde.Trace.{
  Text, TraceOp, TraceReader, open_reader, read_line, next_in, next, is_enough, load_loop,
  load_trace_file,
}
use walde.Trace.Count.{Left, read_line-Taken, next_in-Left}

-- The operations of the lines, one after the other.
unfoldable pub operations : List Text → TraceReader → List TraceOp
operations [] r = []
operations (line ∷ lines) r =
    let p = read_line line (record r { stream = lines }) in
    let rest = operations lines p.1 in elim p.0 [ none ↦ rest | some op ↦ op ∷ rest ]

-- What `next` gives of them.
abbrev Gives : List TraceOp → Option TraceOp → TraceReader → Type 0
Gives ops none r = ops ≡ []
Gives ops (some op) r = ops ≡ op ∷ operations r.stream r

next_in-operations :
    (lines : List Text) (r : TraceReader)
    → Gives (operations lines r) (next_in lines r).0 (next_in lines r).1
unfolding next_in operations
next_in-operations [] r = refl
next_in-operations (line ∷ lines) r =
    let r0 = record r { stream = lines } in
    let t = read_line-Taken line r0 in
    elim (Option-cases (read_line line r0).0) [
      | inl e ↦ rw (next_in, operations, e) (next_in-operations lines (read_line line r0).1)
      | inr (op, e) ↦
          rw (next_in, operations, e)
            (ap (λ z. op ∷ operations z (read_line line r0).1) (sym t.stream))
    ]

-- The first `max_ops` operations, or all if `max_ops` is 0.
abbrev pub limited : ℕ → List TraceOp → List TraceOp
limited zero ops = ops
limited (suc n) ops = take (suc n) ops

-- What is still wanted after `ops`.
abbrev Below : ℕ → ℕ → Type 0
Below zero n = Unit
Below (suc m) n = n < suc m

take-append : (n : ℕ) (xs ys : List TraceOp) → n ≤ length xs → take n (xs ++ ys) ≡ take n xs
take-append zero xs ys h = refl
take-append (suc n) [] ys h = absurd (omega arith)
take-append (suc n) (x ∷ xs) ys h = ap (◌∷◌ x) (take-append n xs ys (omega arith))

take-all : (n : ℕ) (xs : List TraceOp) → length xs ≤ n → take n xs ≡ xs
take-all zero [] h = refl
take-all zero (x ∷ xs) h = absurd (omega arith)
take-all (suc n) [] h = refl
take-all (suc n) (x ∷ xs) h = ap (◌∷◌ x) (take-all n xs (omega arith))

Below-of_not_enough : (max_ops k : ℕ) → is_enough max_ops k ≡ false → Below max_ops k
Below-of_not_enough zero k e = tt
Below-of_not_enough (suc m) k e =
    lt_of_leb (suc m) k (sym (ap (λ b. b && leb (suc m) k) (ltb-true 0 (suc m) (omega arith))) ∙ e)

-- Nothing is cut off while fewer than the limit are there.
limited-Below :
    (max_ops : ℕ) (ops : List TraceOp) → Below max_ops (length ops) → limited max_ops ops ≡ ops
limited-Below zero ops h = refl
limited-Below (suc m) ops h = take-all (suc m) ops (omega arith)

limited-enough :
    (max_ops : ℕ) (ops : List TraceOp) (op : TraceOp) (rest : List TraceOp)
    → Below max_ops (length ops)
    → is_enough max_ops (length (ops ++ op ∷ [])) ≡ true
    → limited max_ops ((ops ++ op ∷ []) ++ rest) ≡ ops ++ op ∷ []
limited-enough zero ops op rest h e =
    absurd
      (let z = ap (λ b. b && leb 0 (length (ops ++ op ∷ []))) (ltb-false 0 0 (omega arith)) in cc)
limited-enough (suc m) ops op rest h e =
    let z =
      ap (λ b. b && leb (suc m) (length (ops ++ op ∷ []))) (ltb-true 0 (suc m) (omega arith)) in
    let l = le_of_leb (suc m) (length (ops ++ op ∷ [])) (sym z ∙ e) in
    let n = length-append ops (op ∷ []) in
    take-append (suc m) (ops ++ op ∷ []) rest l
    ∙ take-all (suc m) (ops ++ op ∷ []) (omega (arith, n))

load_loop-limited :
    (n max_ops : ℕ) (ops : List TraceOp) (r : TraceReader)
    → length r.stream < n
    → Below max_ops (length ops)
    → load_loop n max_ops ops r ≡ some (limited max_ops (ops ++ operations r.stream r))
unfolding load_loop next
load_loop-limited zero max_ops ops r h w = absurd (omega arith)
load_loop-limited (suc n) max_ops ops r h w =
    at (load_loop-limited n max_ops) (next_in r.stream r).0 refl (next_in-operations r.stream r)
      (next_in-Left r.stream r)
  where
    at :
        ((ops' : List TraceOp) (r' : TraceReader)
          → length r'.stream < n
          → Below max_ops (length ops')
          → load_loop n max_ops ops' r' ≡ some (limited max_ops (ops' ++ operations r'.stream r')))
        → (o : Option TraceOp) → (next_in r.stream r).0 ≡ o
        → Gives (operations r.stream r) o (next_in r.stream r).1
        → Left r.stream o (next_in r.stream r).1
        → load_loop (suc n) max_ops ops r ≡ some (limited max_ops (ops ++ operations r.stream r))
    at ih none e g l =
        rw (load_loop, next, e)
          (ap some (
            sym (
              ap (λ z. limited max_ops (ops ++ z)) g
              ∙ ap (limited max_ops) (append-nil ops)
              ∙ limited-Below max_ops ops w)))
    at ih (some op) e g l =
        let r' = (next_in r.stream r).1 in
        let ops' = ops ++ op ∷ [] in
        let all : ops ++ operations r.stream r ≡ ops' ++ operations r'.stream r' =
          ap (◌++◌ ops) g ∙ sym (append_assoc ops (op ∷ []) (operations r'.stream r')) in
        elim (Bool-cases (is_enough max_ops (length ops'))) [
          | inl p ↦
              rw (load_loop, next, e)
                (rw p (
                  ap some (
                    sym (
                      ap (limited max_ops) all
                      ∙ limited-enough max_ops ops op (operations r'.stream r') w p))))
          | inr p ↦
              rw (load_loop, next, e)
                (rw p (
                  ih ops' r' (omega arith) (Below-of_not_enough max_ops (length ops') p)
                  ∙ ap (λ z. some (limited max_ops z)) (sym all)))
        ]

-- Loading always ends and gives the operations of all lines, one after the other, or the first
-- `max_ops` of them if `max_ops` is not 0; a file that does not open gives none.
pub load_trace_file-operations :
    (file : Option (List Text)) (max_ops : ℕ)
    → load_trace_file file max_ops
      ≡ some (elim file [
        | none ↦ []
        | some lines ↦ limited max_ops (operations lines (open_reader lines))
      ])
unfolding load_trace_file
load_trace_file-operations none max_ops = refl
load_trace_file-operations (some lines) max_ops =
    load_loop-limited (length lines + 1) max_ops [] (open_reader lines) (omega arith)
      (at_first max_ops)
  where
    at_first : (m : ℕ) → Below m 0
    at_first zero = tt
    at_first (suc m) = omega arith
