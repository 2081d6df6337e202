-- ===== src/Trace.antt =====
-- src/trace_loader.cpp and include/trace_loader.h: the reader of trace files. A text is a list of
-- character codes, and the stream is the list of lines that std::getline gives from it.
use walde.Base.{
  ℕ, zero, suc, ◌+◌, ◌-◌, Bool, true, false, not, ◌&&◌, ◌||◌, Option, none, some, List, [], ◌∷◌,
  ◌++◌, map, length, take, drop, ◌==◌, ltb, leb, if◌then◌else◌,
}
use walde.Base.Arith.{add64}
use walde.Trace.Word
pub mod Word
pub mod Text
pub mod Render
pub mod Count
pub mod Load
pub mod Stream
mod Tests

abbrev pub Text : Type 0
Text = List ℕ

pub data OpType : Type 0 where
  get put : OpType

pub record TraceOp : Type 0 where
  pub type : OpType
  pub key : Text

pub data TraceFormat : Type 0 where
  unknown simple csv : TraceFormat

-- `stream` is what is left of the file.
pub record TraceReader : Type 0 where
  pub stream : List Text
  pub format : TraceFormat
  pub format_known : Bool
  pub csv_header_consumed : Bool
  pub lines_read : ℕ
  pub lines_skipped : ℕ
  pub ops_parsed : ℕ

abbrev pub open_reader : List Text → TraceReader
open_reader lines = record {
  stream = lines;
  format = TraceFormat.unknown;
  format_known = false;
  csv_header_consumed = false;
  lines_read = 0;
  lines_skipped = 0;
  ops_parsed = 0;
}

abbrev pub text_eq : Text → Text → Bool
text_eq [] [] = true
text_eq [] (_ ∷ _) = false
text_eq (_ ∷ _) [] = false
text_eq (a ∷ s) (b ∷ t) = (a == b) && text_eq s t

abbrev pub is_empty : Text → Bool
is_empty [] = true
is_empty (_ ∷ _) = false

-- The characters of `" \t"` and of `" \t\r\n"`.
abbrev pub is_blank : ℕ → Bool
is_blank c = c == 32 || c == 9

abbrev pub is_space : ℕ → Bool
is_space c = is_blank c || (c == 13 || c == 10)

abbrev pub no_space : ℕ → Bool
no_space c = not (is_space c)

-- `find_first_of` and `find_last_of` for the characters of a test; `none` is `npos`.
abbrev pub find_first : (ℕ → Bool) → Text → Option ℕ
find_first p [] = none
find_first p (c ∷ s) =
    if p c then some 0 else elim (find_first p s) [ none ↦ none | some i ↦ some (suc i) ]

abbrev pub find_last : (ℕ → Bool) → Text → Option ℕ
find_last p [] = none
find_last p (c ∷ s) = elim (find_last p s) [
  | none ↦ if p c then some 0 else none
  | some i ↦ some (suc i)
]

-- `substr(pos, n)`
abbrev pub substr : Text → ℕ → ℕ → Text
substr s pos n = take n (drop pos s)

-- `toupper` and `tolower` in the C locale.
abbrev pub toupper : ℕ → ℕ
toupper c = if leb 97 c && leb c 122 then c - 32 else c

abbrev pub tolower : ℕ → ℕ
tolower c = if leb 65 c && leb c 90 then c + 32 else c

-- With no character left out `end` is at least `start`.
unfoldable pub trim : Text → Text
trim s = elim (find_first no_space s) [
  | none ↦ []
  | some start ↦ elim (find_last no_space s) [
    | none ↦ []
    | some last ↦ substr s start (last - start + 1)
  ]
]

abbrev pub is_put_word : Text → Bool
is_put_word w =
    text_eq w Word.put
    || (text_eq w Word.write
        || (text_eq w Word.set || (text_eq w Word.update || text_eq w Word.insert)))

abbrev pub is_get_word : Text → Bool
is_get_word w = text_eq w Word.get || text_eq w Word.read

-- `parse_op_type`
unfoldable pub parse_op_type : Text → OpType
parse_op_type token = if is_put_word (map toupper token) then OpType.put else OpType.get

-- The text up to the first blank.
abbrev pub first_token : Text → Text
first_token s = elim (find_first is_blank s) [ none ↦ s | some i ↦ substr s 0 i ]

unfoldable pub parse_simple : Text → Option TraceOp
unfolding trim
parse_simple line = elim (find_first is_blank line) [
  | none ↦ if is_empty line then none else some (record { type = OpType.get; key = line })
  | some space_pos ↦
      let first = substr line 0 space_pos in
      let rest = trim (drop (space_pos + 1) line) in
      let op_upper = map toupper first in
      if is_get_word op_upper
      then (if is_empty rest
          then none
          else some (record { type = OpType.get; key = first_token rest }))
      else if is_put_word op_upper
      then (if is_empty rest
          then none
          else some (record { type = OpType.put; key = first_token rest }))
      else some (record { type = OpType.get; key = first })
]

-- What is left of a string stream: `none` once a read has met its end.
abbrev pub StringStream : Type 0
StringStream = Option Text

-- `std::getline(ss, f, ',')`: it fails if it reads no character at all.
abbrev pub getline_comma : StringStream → Option (Text × StringStream)
getline_comma none = none
getline_comma (some s) = if is_empty s then none else elim (find_first (λ c. c == 44) s) [
  | none ↦ some (s, none)
  | some i ↦ some (substr s 0 i, some (drop (i + 1) s))
]

-- `std::getline(ss, f)` on a text without a line end, where `f` was empty.
abbrev pub getline_rest : StringStream → Text
getline_rest none = []
getline_rest (some s) = s

-- The first two fields and what is left.
abbrev pub two_fields : Text → Option (Text × Text × StringStream)
two_fields line = elim (getline_comma (some line)) [
  | none ↦ none
  | some (f1, s1) ↦ elim (getline_comma s1) [ none ↦ none | some (f2, s2) ↦ some (f1, f2, s2) ]
]

unfoldable pub parse_csv : Text → Option TraceOp
unfolding trim parse_op_type
parse_csv line = elim (two_fields line) [
  | none ↦ none
  | some (f1, f2, s2) ↦
      let f3 : Text = elim (getline_comma s2) [ none ↦ getline_rest s2 | some (f3, _) ↦ f3 ] in
      let key = trim f3 in
      if is_empty key then none else some (record { type = parse_op_type (trim f2); key = key })
]

abbrev pub is_header_word : Text → Bool
is_header_word w = text_eq w Word.op || (text_eq w Word.operation || text_eq w Word.type)

-- The lower-case words that stand for an operation in a file without a header.
abbrev pub is_data_word : Text → Bool
is_data_word w =
    text_eq w (map tolower Word.get)
    || (text_eq w (map tolower Word.put)
        || (text_eq w (map tolower Word.read) || text_eq w (map tolower Word.write)))

-- The second of three fields, trimmed, in lower case.
unfoldable pub second_field : Text → Option Text
unfolding trim
second_field line = elim (two_fields line) [
  | none ↦ none
  | some (f1, f2, s2) ↦ elim (getline_comma s2) [
    | none ↦ none
    | some _ ↦ some (map tolower (trim f2))
  ]
]

abbrev pub known_as : TraceFormat → TraceReader → TraceReader
known_as f r = record r { format = f; format_known = true }

-- `detect_format`, which always succeeds. A line without a comma has no three fields.
unfoldable pub detect_format : Text → TraceReader → TraceReader
unfolding second_field
detect_format line r = elim (second_field line) [
  | none ↦ known_as TraceFormat.simple r
  | some w ↦
      if is_header_word w || is_data_word w
      then record (known_as TraceFormat.csv r) { csv_header_consumed = not (is_header_word w) }
      else known_as TraceFormat.simple r
]

-- One round of the loop of `next`, after `trim`: an operation, or nothing where the loop goes on.
abbrev pub skipped : TraceReader → Option TraceOp × TraceReader
skipped r = (none, record r { lines_skipped = add64 r.lines_skipped 1 })

unfoldable pub parse : TraceFormat → Text → Option TraceOp
unfolding parse_simple parse_csv
parse TraceFormat.simple line = parse_simple line
parse TraceFormat.csv line = parse_csv line
parse TraceFormat.unknown line = none

abbrev pub is_csv : TraceFormat → Bool
is_csv TraceFormat.csv = true
is_csv TraceFormat.simple = false
is_csv TraceFormat.unknown = false

-- The line as data or as the header of a CSV file, once the format is known.
unfoldable pub read_data : Text → TraceReader → Option TraceOp × TraceReader
unfolding parse
read_data line r =
    if is_csv r.format && not r.csv_header_consumed
    then skipped (record r { csv_header_consumed = true })
    else elim (parse r.format line) [
      | none ↦ skipped r
      | some op ↦ (some op, record r { ops_parsed = add64 r.ops_parsed 1 })
    ]

abbrev pub is_comment : Text → Bool
is_comment [] = true
is_comment (c ∷ _) = c == 35

unfoldable pub read_line : Text → TraceReader → Option TraceOp × TraceReader
unfolding trim detect_format read_data
read_line line r0 =
    let r = record r0 { lines_read = add64 r0.lines_read 1 } in
    let trimmed = trim line in
    if is_comment trimmed
    then skipped r
    else read_data trimmed (if r.format_known then r else detect_format trimmed r)

-- The loop of `next`.
unfoldable pub next_in : List Text → TraceReader → Option TraceOp × TraceReader
unfolding read_line
next_in [] r = (none, record r { stream = [] })
next_in (line ∷ lines) r =
    let p = read_line line (record r { stream = lines }) in
    elim p.0 [ none ↦ next_in lines p.1 | some op ↦ (some op, p.1) ]

unfoldable pub next : TraceReader → Option TraceOp × TraceReader
unfolding next_in
next r = next_in r.stream r

-- The test `max_ops > 0 && ops.size() >= max_ops`.
abbrev pub is_enough : ℕ → ℕ → Bool
is_enough max_ops n = ltb 0 max_ops && leb max_ops n

-- The loop of `load_trace_file`; fuel bounds the calls of `next`.
unfoldable pub load_loop : ℕ → ℕ → List TraceOp → TraceReader → Option (List TraceOp)
unfolding next
load_loop zero max_ops ops r = none
load_loop (suc n) max_ops ops r =
    let p = next r in
    elim p.0 [
      | none ↦ some ops
      | some op ↦
          let ops' = ops ++ op ∷ [] in
          if is_enough max_ops (length ops') then some ops' else load_loop n max_ops ops' p.1
    ]

-- `none` is a file that does not open; each call of `next` that gives an operation reads a line.
unfoldable pub load_trace_file : Option (List Text) → ℕ → Option (List TraceOp)
unfolding load_loop
load_trace_file none max_ops = some []
load_trace_file (some lines) max_ops = load_loop (length lines + 1) max_ops [] (open_reader lines)

-- The loop of `stream_trace_file`, where the function works on a state.
unfoldable pub stream_loop :
    {S : Type 0} → (TraceOp → S → S) → ℕ → ℕ → ℕ → S → TraceReader → Option (ℕ × S)
unfolding next
stream_loop fn zero max_ops count s r = none
stream_loop fn (suc n) max_ops count s r =
    let p = next r in
    elim p.0 [
      | none ↦ some (count, s)
      | some op ↦
          let count' = add64 count 1 in
          if is_enough max_ops count'
          then some (count', fn op s)
          else stream_loop fn n max_ops count' (fn op s) p.1
    ]

unfoldable pub stream_trace_file :
    {S : Type 0} → (TraceOp → S → S) → Option (List Text) → ℕ → S → Option (ℕ × S)
unfolding stream_loop
stream_trace_file fn none max_ops s = some (0, s)
stream_trace_file fn (some lines) max_ops s =
    stream_loop fn (length lines + 1) max_ops 0 s (open_reader lines)
