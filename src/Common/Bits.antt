-- ===== src/Common/Bits.antt =====
-- One bit of a byte: clearing it and writing it, as `bitmap_set` does.
use h0r_net.Common.Tests.{◌==◌, ◌!=◌, if◌then◌else◌, every, every-true, ==_iff}
use h0r_net.Common.Words.{u8, ◌<<<◌}
use Prim.Native.Nat.{ℕ, ◌<◌, bit_and, bit_or, bit_xor}
use mathlib.Core.Path.{◌≡◌, refl}
use mathlib.Core.Bool.{Bool, true, false}
use native.Mathlib.Omega.{arith}

abbrev pub bit : ℕ → ℕ → Bool
bit b j = bit_and b (1 <<< j) != 0

abbrev pub put_bit : ℕ → ℕ → ℕ → ℕ
put_bit b k s = u8 (bit_or (bit_xor b (bit_and b (u8 (1 <<< k)))) (s <<< k))

abbrev same : Bool → Bool → Bool
same true b = b
same false true = false
same false false = true

same→eq : (a b : Bool) → same a b ≡ true → a ≡ b
same→eq a b h = ground arith

abbrev table : ℕ → ℕ → ℕ → ℕ → Bool
table b k j s = same (bit (put_bit b k s) j) (if k == j then s == 1 else bit b j)

table_checked : every (λ b. every (λ k. every (λ j. every (λ s. table b k j s) 2) 8) 8) 256 ≡ true
unfolding every
table_checked = refl

-- Bit `j` of a byte whose bit `k` was written.
pub bit-put_bit :
    (b k j s : ℕ)
    → b < 256
    → k < 8
    → j < 8
    → s < 2
    → bit (put_bit b k s) j ≡ (if k == j then s == 1 else bit b j)
bit-put_bit b k j s hb hk hj hs = same→eq _ _ (
    every-true _ _ s hs
      (every-true _ _ j hj (every-true _ _ k hk (every-true _ _ b hb table_checked))))

masked_checked :
    every (λ b. every (λ k. u8 (bit_and b (u8 (1 <<< k))) == bit_and b (1 <<< k)) 8) 256 ≡ true
unfolding every
masked_checked = refl

-- The casts of `bitmap_get` lose nothing.
pub bit_and-cast : (b k : ℕ) → b < 256 → k < 8 → u8 (bit_and b (u8 (1 <<< k))) ≡ bit_and b (1 <<< k)
bit_and-cast b k hb hk = (==_iff _ _).0 (every-true _ _ k hk (every-true _ _ b hb masked_checked))

pub put_bit-lt : (b k s : ℕ) → put_bit b k s < 256
put_bit-lt b k s = omega arith
