-- ===== src/Types.antt =====
-- include/types.h: the slab node, its segment tag and the constants.
use walde.Base.{ℕ, ◌-◌, ◌^◌, String}

abbrev pub num_stripes : ℕ
num_stripes = 64

-- `kInvalidIndex`, which is `UINT32_MAX`.
abbrev pub invalid_index : ℕ
invalid_index = 2 ^ 32 - 1

abbrev pub Key : Type 0
Key = String

abbrev pub Value : Type 0
Value = String

-- The values of `enum class Segment` that a node can carry.
pub data Segment : Type 0 where
  free window probation protected l2 : Segment

pub record CacheNode : Type 0 where
  pub prev : ℕ
  pub next : ℕ
  pub key : Key
  pub value : Value
  pub segment : Segment

-- `CacheNode::reset` and the default member values.
abbrev pub reset_node : CacheNode
reset_node = record {
  prev = invalid_index;
  next = invalid_index;
  key = "";
  value = "";
  segment = Segment.free;
}
