-- ===== src/Trace/Stream.antt =====
-- `stream_trace_file` against `load_trace_file`.
use walde.Base.{
  ℕ, zero, suc, ◌+◌, ◌-◌, ◌^◌, ◌<◌, ◌≡◌, ◌∙◌, ap, refl, sym, Option, none, some, List, [], ◌∷◌,
  ◌++◌, length, length-append, inl, inr, Bool-cases, Option-cases, arith,
}
use walde.Base.Arith.{add64}
use walde.Trace.Load.{operations, limited, load_trace_file-operations}
use walde.Trace.{
  Text, TraceOp, TraceReader, open_reader, next, is_enough, load_loop, load_trace_file, stream_loop,
  stream_trace_file,
}

-- The lines of a file, if it opens.
abbrev pub lines_of : Option (List Text) → List Text
lines_of none = []
lines_of (some lines) = lines

-- The operations of a file that are wanted.
abbrev pub wanted : Option (List Text) → ℕ → List TraceOp
wanted none max_ops = []
wanted (some lines) max_ops = limited max_ops (operations lines (open_reader lines))

wanted_lem :
    (file : Option (List Text)) (max_ops : ℕ)
    → elim file [ none ↦ [] | some lines ↦ limited max_ops (operations lines (open_reader lines)) ]
      ≡ wanted file max_ops
wanted_lem none max_ops = refl
wanted_lem (some lines) max_ops = refl

module _ {S : Type 0} (fn : TraceOp → S → S) where
  -- The function applied to the operations, one after the other.
  unfoldable pub each : List TraceOp → S → S
  each [] s = s
  each (op ∷ ops) s = each ops (fn op s)

  each-snoc :
      (ops : List TraceOp) (op : TraceOp) (s : S) → each (ops ++ op ∷ []) s ≡ fn op (each ops s)
  unfolding each
  each-snoc [] op s = refl
  each-snoc (x ∷ ops) op s = each-snoc ops op (fn x s)

  -- What streaming makes of the operations that are loaded.
  abbrev pub streamed : S → Option (List TraceOp) → Option (ℕ × S)
  streamed s none = none
  streamed s (some ops) = some (length ops, each ops s)

  stream_loop-streamed :
      (n max_ops : ℕ) (ops : List TraceOp) (s : S) (r : TraceReader)
      → length ops + n < 2 ^ 64
      → stream_loop fn n max_ops (length ops) (each ops s) r
        ≡ streamed s (load_loop n max_ops ops r)
  unfolding stream_loop load_loop
  stream_loop-streamed zero max_ops ops s r h = refl
  stream_loop-streamed (suc n) max_ops ops s r h = elim (Option-cases (next r).0) [
    | inl e ↦ rw (stream_loop, load_loop, e) refl
    | inr (op, e) ↦
        let ops' = ops ++ op ∷ [] in
        let count : add64 (length ops) 1 ≡ length ops' =
          omega (arith, length-append ops (op ∷ [])) in
        let state = sym (each-snoc ops op s) in
        rw (stream_loop, load_loop, e)
          (rw (count, state)
            (elim (Bool-cases (is_enough max_ops (length ops'))) [
              | inl p ↦ rw p refl
              | inr p ↦ rw p (
                  stream_loop-streamed n max_ops ops' s (next r).1
                    (omega (arith, length-append ops (op ∷ []))))
            ]))
  ]

  -- Loading and streaming always end, for a file of fewer than 2^64 - 1 lines: loading gives the
  -- operations of all lines in order, or the first `max_ops` of them if `max_ops` is not 0, and none if
  -- the file does not open; streaming applies the function to exactly these, in order, and returns their
  -- number.
  pub stream_trace_file-load :
      (file : Option (List Text)) (max_ops : ℕ) (s : S)
      → length (lines_of file) < 2 ^ 64 - 1
      → (load_trace_file file max_ops ≡ some (wanted file max_ops))
        × (stream_trace_file fn file max_ops s
            ≡ some (length (wanted file max_ops), each (wanted file max_ops) s))
  stream_trace_file-load file max_ops s h =
      let e = load_trace_file-operations file max_ops ∙ ap some (wanted_lem file max_ops) in
      (e, streams file h ∙ ap (streamed s) e)
    where
      streams :
          (file : Option (List Text))
          → length (lines_of file) < 2 ^ 64 - 1
          → stream_trace_file fn file max_ops s ≡ streamed s (load_trace_file file max_ops)
      streams none h = unfold stream_trace_file load_trace_file each in refl
      streams (some lines) h =
          unfold stream_trace_file load_trace_file each in
          stream_loop-streamed (length lines + 1) max_ops [] s (open_reader lines)
            (omega (arith, h))
