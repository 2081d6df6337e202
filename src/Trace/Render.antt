-- ===== src/Trace/Render.antt =====
-- Operations written in the simple format are read back.
use walde.Base.{
  ℕ, ◌≡◌, refl, ap, ◌∙◌, Bool, true, false, not, ◌&&◌, none, some, List, [], ◌∷◌, ◌++◌, map, take,
  ◌==◌, if◌then◌else◌,
}
use walde.Trace.{
  Text, OpType, TraceOp, TraceFormat, TraceReader, first_token, trim, parse_simple, second_field,
  detect_format, known_as, skipped, is_comment, is_csv, parse, read_data, read_line, open_reader,
  load_trace_file,
}
use walde.Base.Arith.{add64}
use walde.Trace.Word
use walde.Trace.Text.{AllOf, IsWord, find_first-none, find_first-blank, trim-append, trim-IsWord}
use walde.Trace.Load.{operations, load_trace_file-operations}

abbrev pub word_of : OpType → Text
word_of OpType.get = Word.get
word_of OpType.put = Word.put

-- "GET key" or "PUT key"
pub render : TraceOp → Text
render op = word_of op.type ++ 32 ∷ op.key

first_token-word : (s : Text) → IsWord s → first_token s ≡ s
first_token-word [] h = absurd h
first_token-word (c ∷ s) h =
    ap (λ o. elim o [ none ↦ c ∷ s | some i ↦ take i (c ∷ s) ]) (find_first-blank (c ∷ s) h)

parse_simple_of :
    (t : OpType) (k : Text)
    → IsWord k
    → parse_simple (word_of t ++ 32 ∷ k) ≡ some (record { type = t; key = k })
unfolding parse_simple
parse_simple_of t [] h = absurd h
parse_simple_of OpType.get (c ∷ s) h =
    rw (parse_simple, trim-IsWord (c ∷ s) h)
      (ap (λ z. some (record { type = OpType.get; key = z })) (first_token-word (c ∷ s) h))
parse_simple_of OpType.put (c ∷ s) h =
    rw (parse_simple, trim-IsWord (c ∷ s) h)
      (ap (λ z. some (record { type = OpType.put; key = z })) (first_token-word (c ∷ s) h))

-- A line of the simple format gives the operation that was written, for a key that is a word.
pub parse_simple-render : (op : TraceOp) → IsWord op.key → parse_simple (render op) ≡ some op
unfolding render
parse_simple-render op h = parse_simple_of op.type op.key h

abbrev no_comma : ℕ → Bool
no_comma c = not (c == 44)

-- A key that can be written to a file of the simple format.
abbrev pub IsKey : Text → Type 0
IsKey k = IsWord k × AllOf no_comma k

render_commas : (t : OpType) (k : Text) → AllOf no_comma k → AllOf no_comma (word_of t ++ 32 ∷ k)
render_commas OpType.get k h = (refl, (refl, (refl, (refl, h))))
render_commas OpType.put k h = (refl, (refl, (refl, (refl, h))))

render_trim : (t : OpType) (k : Text) → IsWord k → trim (word_of t ++ 32 ∷ k) ≡ word_of t ++ 32 ∷ k
render_trim t [] h = absurd h
render_trim OpType.get (c ∷ s) h = trim-append 71 (69 ∷ 84 ∷ 32 ∷ []) c s refl h
render_trim OpType.put (c ∷ s) h = trim-append 80 (85 ∷ 84 ∷ 32 ∷ []) c s refl h

render_data : (t : OpType) (k : Text) → is_comment (word_of t ++ 32 ∷ k) ≡ false
render_data OpType.get k = refl
render_data OpType.put k = refl

-- A line without a comma is not taken for a CSV file.
detect_simple :
    (c : ℕ) (s : Text) (r : TraceReader)
    → AllOf no_comma (c ∷ s)
    → detect_format (c ∷ s) r ≡ known_as TraceFormat.simple r
unfolding detect_format second_field
detect_simple c s r h =
    rw (detect_format, second_field, find_first-none (λ c. c == 44) (c ∷ s) h) refl

read_data-simple :
    (line : Text) (r : TraceReader) (op : TraceOp)
    → r.format ≡ TraceFormat.simple
    → parse_simple line ≡ some op
    → ((read_data line r).0 ≡ some op)
      × ((read_data line r).1.format ≡ r.format)
      × ((read_data line r).1.format_known ≡ r.format_known)
unfolding read_data parse
read_data-simple line r op f p =
    rw (read_data, ap (λ z. is_csv z && not r.csv_header_consumed) f)
      (rw (ap (λ z. parse z line) f ∙ p) (refl, refl, refl))

detect_render :
    (t : OpType) (k : Text) (r : TraceReader)
    → AllOf no_comma k
    → detect_format (word_of t ++ 32 ∷ k) r ≡ known_as TraceFormat.simple r
detect_render OpType.get k r h =
    detect_simple 71 (69 ∷ 84 ∷ 32 ∷ k) r (render_commas OpType.get k h)
detect_render OpType.put k r h =
    detect_simple 80 (85 ∷ 84 ∷ 32 ∷ k) r (render_commas OpType.put k h)

-- The format is not known yet, or known to be the simple one.
abbrev IsSimple : TraceReader → Type 0
IsSimple r = r.format_known ≡ true → r.format ≡ TraceFormat.simple

module _ (t : OpType) (k : Text) (h : IsKey k) (r : TraceReader) (simple : IsSimple r) where
  abbrev line : Text
  line = word_of t ++ 32 ∷ k

  abbrev counted : TraceReader
  counted = record r { lines_read = add64 r.lines_read 1 }

  known_simple :
      (known : Bool)
      → r.format_known ≡ known
      → ((if known then counted else detect_format line counted).format ≡ TraceFormat.simple)
  known_simple true e = simple e
  known_simple false e = ap (λ s. s.format) (detect_render t k counted h.1)

  read_line-simple :
      ((read_line line r).0 ≡ some (record { type = t; key = k }))
      × ((read_line line r).1.format ≡ TraceFormat.simple)
  unfolding read_line
  read_line-simple =
      let s = if r.format_known then counted else detect_format line counted in
      let f = known_simple r.format_known refl in
      let d = read_data-simple line s (record { type = t; key = k }) f (parse_simple_of t k h.0) in
      let whole =
        ap
          (λ z.
            if is_comment z
            then skipped counted
            else read_data z (if r.format_known then counted else detect_format z counted))
          (render_trim t k h.0) in
      let not_comment =
        ap (λ b. if b then skipped counted else read_data line s) (render_data t k) in
      (
        ap (λ p. p.0) (whole ∙ not_comment) ∙ d.0,
        ap (λ p. p.1.format) (whole ∙ not_comment) ∙ d.1 ∙ f,
      )

-- All keys can be written.
abbrev pub AllKeys : List TraceOp → Type 0
AllKeys [] = Unit
AllKeys (op ∷ ops) = IsKey op.key × AllKeys ops

operations-render :
    (ops : List TraceOp) (r : TraceReader)
    → IsSimple r
    → AllKeys ops
    → operations (map render ops) r ≡ ops
unfolding operations render
operations-render [] r f h = refl
operations-render (op ∷ ops) r f h =
    let r0 = record r { stream = map render ops } in
    let d = read_line-simple op.type op.key h.0 r0 f in
    rw (operations, d.0)
      (ap (◌∷◌ op) (operations-render ops (read_line (render op) r0).1 (λ _. d.1) h.1))

-- A file of operations in the simple format, with keys that are not empty and have no white space and
-- no comma, is loaded as these operations, in order.
pub load_trace_file-render :
    (ops : List TraceOp) → AllKeys ops → load_trace_file (some (map render ops)) 0 ≡ some ops
load_trace_file-render ops h =
    load_trace_file-operations (some (map render ops)) 0
    ∙ ap some (operations-render ops (open_reader (map render ops)) (λ e. absurd cc) h)
