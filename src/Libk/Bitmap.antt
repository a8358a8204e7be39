-- ===== src/Libk/Bitmap.antt =====
-- libk/bitmap.c and libk/bitmap.h: a bitmap is a buffer in memory and its size in bytes.
pub mod Laws
use h0r_net.Common.{
  ℕ, ◌+◌, ◌*◌, ◌/◌, ◌%◌, bit_and, bit_or, bit_xor, Bool, true, false, ltb, ◌!=◌, if◌then◌else◌, u8,
  u64, ◌<<<◌, Mem, store8,
}

pub record Bitmap : Type 0 where
  pub size : ℕ
  pub buffer : ℕ

-- The bound is the source's: an index equal to the number of bits passes it.
unfoldable pub bitmap_set : Mem → Bitmap → ℕ → ℕ → Bool × Mem
bitmap_set m bm index setto =
    if ltb (u64 (bm.size * 8)) index
    then (false, m)
    else let byte_index = index / 8 in
      let bit_index = index % 8 in
      let bit_mask = u8 (1 <<< bit_index) in
      let byte = m (bm.buffer + byte_index) in
      let temp = bit_xor byte (bit_and byte bit_mask) in
      (true, store8 m (bm.buffer + byte_index) (u8 (bit_or temp (setto <<< bit_index))))

-- The masked byte, not 0 or 1.
unfoldable pub bitmap_get : Mem → Bitmap → ℕ → ℕ
bitmap_get m bm index =
    let byte_index = index / 8 in
    let bit_index = index % 8 in
    let bit_indexer = u8 (1 <<< bit_index) in u8 (bit_and (m (bm.buffer + byte_index)) bit_indexer)

-- What a caller tests.
abbrev pub is_set : Mem → Bitmap → ℕ → Bool
is_set m bm i = bitmap_get m bm i != 0
