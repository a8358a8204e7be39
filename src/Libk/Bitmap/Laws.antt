-- ===== src/Libk/Bitmap/Laws.antt =====
-- What libk/bitmap.c promises its callers: `bitmap_set` writes one bit, and `bitmap_get` reads it.
use h0r_net.Common.{
  refl, ℕ_discrete, ℕ, ◌+◌, ◌*◌, ◌/◌, ◌%◌, ◌≤◌, ◌<◌, ◌≡◌, ◌≢◌, true, false, ◌==◌, if◌then◌else◌,
  u64, Mem, store8, IsBytes, store8_self, store8_ne, store8-IsBytes, arith,
}
use h0r_net.Common.Bits.{bit, put_bit, bit-put_bit, bit_and-cast, put_bit-lt}
use h0r_net.Libk.Bitmap.{Bitmap, bitmap_set, bitmap_get, is_set}

-- The indices that `bitmap_set` accepts.
abbrev pub InBitmap : Bitmap → ℕ → Type 0
InBitmap bm i = i ≤ u64 (bm.size * 8)

pub is_set-eq-bit :
    (m : Mem) (bm : Bitmap) (i : ℕ)
    → IsBytes m
    → is_set m bm i ≡ bit (m (bm.buffer + i / 8)) (i % 8)
unfolding bitmap_get
is_set-eq-bit m bm i bytes =
    rw (bit_and-cast (m (bm.buffer + i / 8)) (i % 8) (bytes (bm.buffer + i / 8)) (omega arith))

abbrev pub written : Mem → Bitmap → ℕ → ℕ → Mem
written m bm i s = store8 m (bm.buffer + i / 8) (put_bit (m (bm.buffer + i / 8)) (i % 8) s)

pub bitmap_set-in :
    (m : Mem) (bm : Bitmap) (i s : ℕ)
    → InBitmap bm i
    → bitmap_set m bm i s ≡ (true, written m bm i s)
unfolding bitmap_set
bitmap_set-in m bm i s h = ground arith

-- An index past the bound changes nothing and is reported.
pub bitmap_set-out :
    (m : Mem) (bm : Bitmap) (i s : ℕ) → ¬ InBitmap bm i → bitmap_set m bm i s ≡ (false, m)
unfolding bitmap_set
bitmap_set-out m bm i s h = ground arith

module _ (m : Mem) (bm : Bitmap) (i s j : ℕ) (bytes : IsBytes m) (hs : s < 2) where
  same_byte :
      i / 8 ≡ j / 8
      → bit (written m bm i s (bm.buffer + j / 8)) (j % 8)
        ≡ (if i == j then s == 1 else bit (m (bm.buffer + j / 8)) (j % 8))
  same_byte e =
      let index : (i % 8 == j % 8) ≡ (i == j) = ground arith in
      rw (
        e,
        store8_self m (bm.buffer + j / 8) (put_bit (m (bm.buffer + j / 8)) (i % 8) s),
        bit-put_bit (m (bm.buffer + j / 8)) (i % 8) (j % 8) s (bytes (bm.buffer + j / 8))
            (omega arith) (omega arith) hs,
        index,
      )

  other_byte :
      i / 8 ≢ j / 8
      → bit (written m bm i s (bm.buffer + j / 8)) (j % 8)
        ≡ (if i == j then s == 1 else bit (m (bm.buffer + j / 8)) (j % 8))
  other_byte ne =
      let index : (i == j) ≡ false = ground arith in
      rw (
        store8_ne m (bm.buffer + i / 8) (put_bit (m (bm.buffer + i / 8)) (i % 8) s)
            (bm.buffer + j / 8) (omega arith),
        index,
      )

  pub written-IsBytes : IsBytes (written m bm i s)
  written-IsBytes = store8-IsBytes _ _ _ bytes (put_bit-lt _ _ _)

  -- `bitmap_get` after a write at `i`.
  pub is_set-written : is_set (written m bm i s) bm j ≡ (if i == j then s == 1 else is_set m bm j)
  is_set-written =
      rw (is_set-eq-bit _ bm j written-IsBytes, is_set-eq-bit m bm j bytes)
        (elim (ℕ_discrete (i / 8) (j / 8)) [ yes e ↦ same_byte e | no ne ↦ other_byte ne ])

-- A write at an index that the bitmap takes: it succeeds, from then on the bit is the one written,
-- every other bit is as before, and so is every other byte of memory.
pub bitmap_set-is_set :
    (m : Mem) (bm : Bitmap) (i s : ℕ)
    → IsBytes m
    → s < 2
    → InBitmap bm i
    → ((bitmap_set m bm i s).0 ≡ true)
      × ((j : ℕ) → is_set (bitmap_set m bm i s).1 bm j ≡ (if i == j then s == 1 else is_set m bm j))
      × ((a : ℕ) → a ≢ bm.buffer + i / 8 → (bitmap_set m bm i s).1 a ≡ m a)
bitmap_set-is_set m bm i s bytes hs fits =
    rw (bitmap_set-in m bm i s fits)
      (refl, λ j. is_set-written m bm i s j bytes hs, λ a ne. store8_ne m _ _ a ne)
