-- ===== src/Trace/Tests.antt =====
-- Short trace files: runs and witnesses.
use walde.Base.{arith, length, ◌≡◌, refl, some, List, [], ◌∷◌, map}
use walde.Trace.{Text, OpType, TraceOp, open_reader, next, load_trace_file, stream_trace_file}
use walde.Trace.Count.{Reads, next-Reads}
use walde.Trace.Load.{limited, operations, load_trace_file-operations}
use walde.Trace.Stream.{wanted, each, stream_trace_file-load}
use walde.Trace.Render.{render, AllKeys, load_trace_file-render}

-- "# c", "put a b", " a,b "
abbrev lines : List Text
lines =
    (35 ∷ 32 ∷ 99 ∷ [])
    ∷ (112 ∷ 117 ∷ 116 ∷ 32 ∷ 97 ∷ 32 ∷ 98 ∷ [])
    ∷ (32 ∷ 97 ∷ 44 ∷ 98 ∷ 32 ∷ [])
    ∷ []

next-Reads_example :
    Reads lines (open_reader lines) (next (open_reader lines)).0 (next (open_reader lines)).1
next-Reads_example =
    next-Reads (open_reader lines) (record { read = omega arith; skips = omega arith })

load_trace_file-operations_example :
    load_trace_file (some lines) 1 ≡ some (limited 1 (operations lines (open_reader lines)))
load_trace_file-operations_example = load_trace_file-operations (some lines) 1

-- The first operation, for the key "a".
load_run : load_trace_file (some lines) 1 ≡ some (record { type = OpType.put; key = 97 ∷ [] } ∷ [])
unfolding load_trace_file
load_run = refl

-- "PUT ab" and "GET b"
abbrev ops : List TraceOp
ops =
    record { type = OpType.put; key = 97 ∷ 98 ∷ [] }
    ∷ record { type = OpType.get; key = 98 ∷ [] }
    ∷ []

ops-AllKeys : AllKeys ops
ops-AllKeys = (((refl, (refl, tt)), (refl, (refl, tt))), (((refl, tt), (refl, tt)), tt))

load_trace_file-render_example : load_trace_file (some (map render ops)) 0 ≡ some ops
load_trace_file-render_example = load_trace_file-render ops ops-AllKeys

stream_trace_file-load_example :
    (load_trace_file (some lines) 1 ≡ some (wanted (some lines) 1))
    × (stream_trace_file ◌∷◌ (some lines) 1 []
        ≡ some (length (wanted (some lines) 1), each ◌∷◌ (wanted (some lines) 1) []))
stream_trace_file-load_example = stream_trace_file-load ◌∷◌ (some lines) 1 [] (omega arith)
