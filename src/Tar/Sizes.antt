-- ===== src/Tar/Sizes.antt =====
-- libk/tar.c, `parse_size`: the number that eleven octal digits stand for.
use h0r_net.Common.{
  ℕ, zero, suc, ◌+◌, ◌-◌, ◌*◌, ◌/◌, ◌^◌, ◌≤◌, ◌<◌, ◌≡◌, refl, ◌∙◌, ap, u32, sub32, Mem, arith,
  IsBytes,
}
use h0r_net.Tar.{size_loop, parse_size}

-- The first `n` characters from `input`, read as octal digits from the left.
unfoldable pub octal : Mem → ℕ → ℕ → ℕ
octal m input zero = 0
octal m input (suc n) = octal m input n * 8 + (m (input + n) - 48)

expand : (u q b : ℕ) → (u + 2 ^ 32 * q) * b ≡ u * b + 2 ^ 32 * (q * b)
expand u q b = grind arith

u32-product : (a b c : ℕ) → u32 (u32 a * b + c) ≡ u32 (a * b + c)
u32-product a b c =
    let split : a ≡ u32 a + 2 ^ 32 * (a / 2 ^ 32) = omega arith in
    let product : a * b ≡ u32 a * b + 2 ^ 32 * (a / 2 ^ 32 * b) =
      ap (λ x. x * b) split ∙ expand (u32 a) (a / 2 ^ 32) b in
    omega (arith, product)

octal_step : (c o d : ℕ) → c * (o * 8 + d) ≡ c * 8 * o + d * c
octal_step c o d = grind arith

size_loop-octal :
    (m : Mem) (input j count size : ℕ)
    → ((i : ℕ) → i < j → 48 ≤ m (input + i))
    → IsBytes m
    → u32 (size_loop m input j count size) ≡ u32 (size + count * octal m input j)
unfolding size_loop octal
size_loop-octal m input zero count size digits bytes = omega arith
size_loop-octal m input (suc j) count size digits bytes =
    let o = octal m input j in
    let d = m (input + j) - 48 in
    let digit : sub32 (m (input + j)) 48 ≡ d =
      omega (arith, digits j (omega arith), bytes (input + j)) in
    size_loop-octal m input j (u32 (count * 8))
      (u32 (size + u32 (sub32 (m (input + j)) 48 * count))) (λ i lt. digits i (omega arith)) bytes
    ∙ rw digit (omega (arith, u32-product (count * 8) o (size + d * count), octal_step count o d))

size_loop-lt :
    (m : Mem) (input j count size : ℕ) → size < 2 ^ 32 → size_loop m input j count size < 2 ^ 32
unfolding size_loop
size_loop-lt m input zero count size h = h
size_loop-lt m input (suc j) count size h = size_loop-lt m input j _ _ (omega arith)

-- On eleven octal digits `parse_size` gives the low 32 bits of their value.
pub parse_size-octal :
    (m : Mem) (input : ℕ)
    → IsBytes m
    → ((i : ℕ) → i < 11 → 48 ≤ m (input + i))
    → parse_size m input ≡ u32 (octal m input 11)
unfolding parse_size
parse_size-octal m input bytes digits =
    omega (
      arith,
      size_loop-octal m input 11 1 0 digits bytes,
      size_loop-lt m input 11 1 0 (omega arith),
    )

pub parse_size-lt : (m : Mem) (input : ℕ) → parse_size m input < 2 ^ 32
unfolding parse_size
parse_size-lt m input = size_loop-lt m input 11 1 0 (omega arith)

size_loop-frame :
    (m m' : Mem) (input j count size : ℕ)
    → ((i : ℕ) → i < j → m' (input + i) ≡ m (input + i))
    → size_loop m' input j count size ≡ size_loop m input j count size
unfolding size_loop
size_loop-frame m m' input zero count size same = refl
size_loop-frame m m' input (suc j) count size same =
    rw (same j (omega arith)) (size_loop-frame m m' input j _ _ (λ i lt. same i (omega arith)))

-- The size depends on the eleven characters alone.
pub parse_size-frame :
    (m m' : Mem) (input : ℕ)
    → ((i : ℕ) → i < 11 → m' (input + i) ≡ m (input + i))
    → parse_size m' input ≡ parse_size m input
unfolding parse_size
parse_size-frame m m' input same = size_loop-frame m m' input 11 1 0 same
