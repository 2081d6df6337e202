-- ===== src/Slab/Pack.antt =====
-- include/slab_allocator.h: the packed head word.
use walde.Base.{ℕ, ◌^◌, ◌<◌, ◌≡◌, arith}
use walde.Slab.{pack, unpack_index, unpack_tag}

-- Both halves of a packed word can be read back, and the word fits `uint64_t`.
pub unpack-pack :
    (i t : ℕ)
    → i < 2 ^ 32
    → t < 2 ^ 32
    → (unpack_index (pack i t) ≡ i) × (unpack_tag (pack i t) ≡ t) × (pack i t < 2 ^ 64)
unfolding pack unpack_index unpack_tag
unpack-pack i t h k = (omega arith, omega arith, omega arith)

pub unpack_index-lt : (p : ℕ) → unpack_index p < 2 ^ 32
unfolding unpack_index
unpack_index-lt p = omega arith

pub unpack_tag-lt : (p : ℕ) → unpack_tag p < 2 ^ 32
unfolding unpack_tag
unpack_tag-lt p = omega arith

-- Unpacking loses nothing of a 64-bit word.
pub pack-unpack : (p : ℕ) → p < 2 ^ 64 → pack (unpack_index p) (unpack_tag p) ≡ p
unfolding pack unpack_index unpack_tag
pack-unpack p h = omega arith
