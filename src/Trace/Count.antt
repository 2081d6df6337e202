-- ===== src/Trace/Count.antt =====
-- What one call of `next` reads and counts.
use walde.Base.{
  ℕ, suc, ◌-◌, ◌^◌, ◌≤◌, drop, ◌<◌, ◌≡◌, refl, ap, ◌∙◌, Bool, true, false, not, ◌&&◌, ◌||◌, Option,
  none, some, List, [], ◌∷◌, length, inl, inr, Bool-cases, Option-cases, if◌then◌else◌, arith,
}
use walde.Base.Arith.{add64}
use walde.Trace.{
  Text, TraceOp, TraceReader, trim, detect_format, second_field, is_header_word, is_data_word,
  skipped, parse, is_csv, read_data, is_comment, read_line, next_in, next,
}

-- A line is counted as an operation if it gives one, and as skipped otherwise.
abbrev pub with_ops : Option TraceOp → ℕ → ℕ
with_ops none n = n
with_ops (some op) n = add64 n 1

abbrev pub with_skips : Option TraceOp → ℕ → ℕ
with_skips none n = add64 n 1
with_skips (some op) n = n

-- A step that reads no line: the file and the number of lines read stay, and the line is counted.
record Counted (r : TraceReader) (o : Option TraceOp) (r' : TraceReader) : Type 0 where
  stream : r'.stream ≡ r.stream
  read : r'.lines_read ≡ r.lines_read
  ops : r'.ops_parsed ≡ with_ops o r.ops_parsed
  skips : r'.lines_skipped ≡ with_skips o r.lines_skipped

skipped-Counted : (r : TraceReader) → Counted r (skipped r).0 (skipped r).1
skipped-Counted r = record { stream = refl; read = refl; ops = refl; skips = refl }

read_data-Counted :
    (line : Text) (r : TraceReader) → Counted r (read_data line r).0 (read_data line r).1
unfolding read_data
read_data-Counted line r = elim (Bool-cases (is_csv r.format && not r.csv_header_consumed)) [
  | inl e ↦ rw (read_data, e) (record { stream = refl; read = refl; ops = refl; skips = refl })
  | inr e ↦ elim (Option-cases (parse r.format line)) [
    | inl p ↦ rw (read_data, e) (rw p (skipped-Counted r))
    | inr (op, p) ↦
        rw (read_data, e) (rw p (record { stream = refl; read = refl; ops = refl; skips = refl }))
  ]
]

-- Detection changes nothing but the format.
detect_format_counts :
    (line : Text) (r : TraceReader)
    → ((detect_format line r).stream ≡ r.stream)
      × ((detect_format line r).lines_read ≡ r.lines_read)
      × ((detect_format line r).lines_skipped ≡ r.lines_skipped)
      × ((detect_format line r).ops_parsed ≡ r.ops_parsed)
unfolding detect_format
detect_format_counts line r = elim (Option-cases (second_field line)) [
  | inl e ↦ rw (detect_format, e) (refl, refl, refl, refl)
  | inr (w, e) ↦
      rw (detect_format, e)
        (elim (Bool-cases (is_header_word w || is_data_word w)) [
          | inl p ↦ rw p (refl, refl, refl, refl)
          | inr p ↦ rw p (refl, refl, refl, refl)
        ])
]

-- A line read is counted once, as skipped or as an operation.
pub record Taken (r : TraceReader) (o : Option TraceOp) (r' : TraceReader) : Type 0 where
  pub stream : r'.stream ≡ r.stream
  pub read : r'.lines_read ≡ add64 r.lines_read 1
  pub ops : r'.ops_parsed ≡ with_ops o r.ops_parsed
  pub skips : r'.lines_skipped ≡ with_skips o r.lines_skipped

of_data :
    (line : Text) (r s : TraceReader)
    → s.stream ≡ r.stream
    → s.lines_read ≡ add64 r.lines_read 1
    → s.lines_skipped ≡ r.lines_skipped
    → s.ops_parsed ≡ r.ops_parsed
    → Taken r (read_data line s).0 (read_data line s).1
of_data line r s p n k o =
    let c = read_data-Counted line s in
    record {
      stream = c.stream ∙ p;
      read = c.read ∙ n;
      ops = c.ops ∙ ap (with_ops (read_data line s).0) o;
      skips = c.skips ∙ ap (with_skips (read_data line s).0) k;
    }

pub read_line-Taken :
    (line : Text) (r : TraceReader) → Taken r (read_line line r).0 (read_line line r).1
unfolding read_line
read_line-Taken line r = elim (Bool-cases (is_comment (trim line))) [
  | inl e ↦ rw (read_line, e) (record { stream = refl; read = refl; ops = refl; skips = refl })
  | inr e ↦ rw (read_line, e) (either r.format_known)
]
  where
    either :
        (known : Bool)
        → Taken r
            (read_data (trim line) (
              if known
              then record r { lines_read = add64 r.lines_read 1 }
              else detect_format (trim line) (record r { lines_read = add64 r.lines_read 1 }))).0
            (read_data (trim line) (
              if known
              then record r { lines_read = add64 r.lines_read 1 }
              else detect_format (trim line) (record r { lines_read = add64 r.lines_read 1 }))).1
    either true =
        of_data (trim line) r (record r { lines_read = add64 r.lines_read 1 }) refl refl refl refl
    either false =
        let d = detect_format_counts (trim line) (record r { lines_read = add64 r.lines_read 1 }) in
        of_data (trim line) r
          (detect_format (trim line) (record r { lines_read = add64 r.lines_read 1 })) d.0 d.1 d.2
          d.3

-- What a call of `next` leaves of `lines`: nothing if there is no operation, and fewer lines otherwise.
abbrev pub Left : List Text → Option TraceOp → TraceReader → Type 0
Left lines none r = r.stream ≡ []
Left lines (some op) r = length r.stream < length lines

Left-more :
    (line : Text) (lines : List Text) (o : Option TraceOp) (r : TraceReader)
    → Left lines o r
    → Left (line ∷ lines) o r
Left-more line lines none r h = h
Left-more line lines (some op) r h = omega arith

pub next_in-Left :
    (lines : List Text) (r : TraceReader) → Left lines (next_in lines r).0 (next_in lines r).1
unfolding next_in
next_in-Left [] r = refl
next_in-Left (line ∷ lines) r =
    let r0 = record r { stream = lines } in
    elim (Option-cases (read_line line r0).0) [
      | inl e ↦
          rw (next_in, e) (Left-more line lines _ _ (next_in-Left lines (read_line line r0).1))
      | inr (op, e) ↦
          rw (next_in, e) (let s = ap length (read_line-Taken line r0).stream in omega (arith, s))
    ]

-- How `n` lines that were read are counted: all as skipped without an operation, and then no line is
-- left; all but the last one with an operation.
abbrev pub Split : Option TraceOp → ℕ → List Text → TraceReader → TraceReader → Type 0
Split none n lines r r' =
    (n ≡ length lines)
    × (r'.ops_parsed ≡ r.ops_parsed)
    × (r'.lines_skipped ≡ add64 r.lines_skipped n)
Split (some op) n lines r r' =
    (0 < n)
    × (r'.ops_parsed ≡ add64 r.ops_parsed 1)
    × (r'.lines_skipped ≡ add64 r.lines_skipped (n - 1))

-- What a call of `next` on `lines` leaves.
pub record Reads (lines : List Text) (r : TraceReader) (o : Option TraceOp) (r' : TraceReader)
    : Type 0 where
  pub n : ℕ
  pub within : n ≤ length lines
  pub stream : r'.stream ≡ drop n lines
  pub read : r'.lines_read ≡ add64 r.lines_read n
  pub split : Split o n lines r r'

-- The counters are words.
pub record HasWords (r : TraceReader) : Type 0 where
  pub read : r.lines_read < 2 ^ 64
  pub skips : r.lines_skipped < 2 ^ 64

-- One line that gives no operation, and then others.
Reads-more :
    (line : Text) (lines : List Text) (r m : TraceReader) (o : Option TraceOp) (r' : TraceReader)
    → m.lines_read ≡ add64 r.lines_read 1
    → m.ops_parsed ≡ r.ops_parsed
    → m.lines_skipped ≡ add64 r.lines_skipped 1
    → Reads lines m o r'
    → Reads (line ∷ lines) r o r'
Reads-more line lines r m none r' a b c v =
    let (n, p, q) = v.split in
    record {
      n = suc v.n;
      within = omega (arith, v.within);
      stream = v.stream;
      read = omega (arith, v.read, a);
      split = (omega (arith, n), p ∙ b, omega (arith, q, c));
    }
Reads-more line lines r m (some op) r' a b c v =
    let (n, p, q) = v.split in
    record {
      n = suc v.n;
      within = omega (arith, v.within);
      stream = v.stream;
      read = omega (arith, v.read, a);
      split = (omega arith, omega (arith, p, b), omega (arith, q, c, n));
    }

next_in-Reads :
    (lines : List Text) (r : TraceReader)
    → HasWords r
    → Reads lines r (next_in lines r).0 (next_in lines r).1
unfolding next_in
next_in-Reads [] r w = record {
  n = 0;
  within = omega arith;
  stream = refl;
  read = omega (arith, w.read);
  split = (refl, refl, omega (arith, w.skips));
}
next_in-Reads (line ∷ lines) r w =
    let r0 = record r { stream = lines } in
    at (next_in-Reads lines (read_line line r0).1) (read_line line r0).0 refl
      (read_line-Taken line r0)
  where
    at :
        (HasWords (read_line line (record r { stream = lines })).1
          → Reads lines
              (read_line line (record r { stream = lines })).1
              (next_in lines (read_line line (record r { stream = lines })).1).0
              (next_in lines (read_line line (record r { stream = lines })).1).1)
        → (o : Option TraceOp) → (read_line line (record r { stream = lines })).0 ≡ o
        → Taken (record r { stream = lines }) o (read_line line (record r { stream = lines })).1
        → Reads (line ∷ lines) r (next_in (line ∷ lines) r).0 (next_in (line ∷ lines) r).1
    at ih none e t =
        rw (next_in, e)
          (Reads-more line lines r (read_line line (record r { stream = lines })).1 _ _ t.read t.ops
            t.skips (ih (record { read = omega (arith, t.read); skips = omega (arith, t.skips) })))
    at ih (some op) e t =
        rw (next_in, e)
          (record {
            n = 1;
            within = omega arith;
            stream = t.stream;
            read = t.read;
            split = (omega arith, t.ops, omega (arith, t.skips, w.skips));
          })

-- Every call of `next` ends. It reads some number of lines from the front, leaves the others, and
-- advances `lines_read` by that number. Without an operation it has read all lines and counted each of
-- them as skipped; with one it has read at least a line, and counted the last one as an operation and
-- the others as skipped. The counters wrap around at 2^64.
pub next-Reads : (r : TraceReader) → HasWords r → Reads r.stream r (next r).0 (next r).1
unfolding next
next-Reads r w = next_in-Reads r.stream r w
