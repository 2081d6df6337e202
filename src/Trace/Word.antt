-- ===== src/Trace/Word.antt =====
-- The words that src/trace_loader.cpp compares with, as character codes.
use walde.Base.{ℕ, List, [], ◌∷◌}

abbrev pub get : List ℕ
get = 71 ∷ 69 ∷ 84 ∷ []

abbrev pub read : List ℕ
read = 82 ∷ 69 ∷ 65 ∷ 68 ∷ []

abbrev pub put : List ℕ
put = 80 ∷ 85 ∷ 84 ∷ []

abbrev pub write : List ℕ
write = 87 ∷ 82 ∷ 73 ∷ 84 ∷ 69 ∷ []

abbrev pub set : List ℕ
set = 83 ∷ 69 ∷ 84 ∷ []

abbrev pub update : List ℕ
update = 85 ∷ 80 ∷ 68 ∷ 65 ∷ 84 ∷ 69 ∷ []

abbrev pub insert : List ℕ
insert = 73 ∷ 78 ∷ 83 ∷ 69 ∷ 82 ∷ 84 ∷ []

-- "op", "operation" and "type"
abbrev pub op : List ℕ
op = 111 ∷ 112 ∷ []

abbrev pub operation : List ℕ
operation = 111 ∷ 112 ∷ 101 ∷ 114 ∷ 97 ∷ 116 ∷ 105 ∷ 111 ∷ 110 ∷ []

abbrev pub type : List ℕ
type = 116 ∷ 121 ∷ 112 ∷ 101 ∷ []
