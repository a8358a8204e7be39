-- ===== src/Libk/Memory.antt =====
-- libk/string.c, the routines on raw bytes. A pointer is an address of the flat memory; a loop
-- recurs on the count `n` that it counts down, and a byte is passed as `int` and cut to 8 bits.
pub mod Laws
use h0r_net.Common.{
  ℕ, zero, suc, ◌+◌, ◌-◌, Bool, true, false, ◌&&◌, Option, none, some, ltb, ◌==◌, ◌!=◌,
  if◌then◌else◌, u8, Mem, store8,
}

-- The address of the first byte that matches, or `NULL`.
unfoldable pub memchr : Mem → ℕ → ℕ → ℕ → Option ℕ
memchr m s c zero = none
memchr m s c (suc n) = let rest = memchr m (s + 1) c n in if m s == u8 c then some s else rest

-- The three results of a comparison: -1, 0 and 1.
pub data Sign : Type 0 where
  minus same plus : Sign

unfoldable pub memcmp : Mem → ℕ → ℕ → ℕ → Sign
memcmp m s1 s2 zero = same
memcmp m s1 s2 (suc n) =
    let rest = memcmp m (s1 + 1) (s2 + 1) n in
    if m s1 != m s2 then (if ltb (m s1) (m s2) then minus else plus) else rest

-- Upwards, one byte at a time: what is read may have been written before.
unfoldable pub memcpy : Mem → ℕ → ℕ → ℕ → Mem
memcpy m s1 s2 zero = m
memcpy m s1 s2 (suc n) = memcpy (store8 m s1 (m s2)) (s1 + 1) (s2 + 1) n

-- Downwards, from the ends of both areas.
unfoldable pub copy_down : Mem → ℕ → ℕ → ℕ → Mem
copy_down m s1 s2 zero = m
copy_down m s1 s2 (suc n) = copy_down (store8 m (s1 + n) (m (s2 + n))) s1 s2 n

unfoldable pub memmove : Mem → ℕ → ℕ → ℕ → Mem
unfolding memcpy copy_down
memmove m s1 s2 n = if ltb s2 s1 && ltb s1 (s2 + n) then copy_down m s1 s2 n else memcpy m s1 s2 n

unfoldable pub memset : Mem → ℕ → ℕ → ℕ → Mem
memset m s c zero = m
memset m s c (suc n) = memset (store8 m s (u8 c)) (s + 1) c n
