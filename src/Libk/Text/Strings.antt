-- ===== src/Libk/Text/Strings.antt =====
-- What a NUL-terminated string in memory holds, and the order of `strcmp` on its bytes.
use h0r_net.Common.{
  suc, ap, ℕ, ◌+◌, ◌≤◌, ◌<◌, ◌≡◌, refl, List, [], ◌∷◌, ◌++◌, ◌==◌, ltb, if◌then◌else◌, length, Mem,
  arith, ◌∙◌,
}
use h0r_net.Libk.Memory.{Sign, minus, same, plus}

-- From `s` the memory holds the non-zero bytes `xs`, then a zero.
abbrev pub Holds : Mem → ℕ → List ℕ → Type 0
Holds m s [] = m s ≡ 0
Holds m s (x ∷ xs) = (m s ≡ x) × (0 < x) × Holds m (s + 1) xs

-- The order of the bytes, the shorter string first.
unfoldable pub text_order : List ℕ → List ℕ → Sign
text_order [] [] = same
text_order [] (y ∷ ys) = minus
text_order (x ∷ xs) [] = plus
text_order (x ∷ xs) (y ∷ ys) = if x == y then text_order xs ys else if ltb x y then minus else plus

-- It is an order on the texts: the same only for equal ones.
pub text_order-same : (xs ys : List ℕ) → text_order xs ys ≡ same → xs ≡ ys
unfolding text_order
text_order-same [] [] e = refl
text_order-same [] (y ∷ ys) e = cc
text_order-same (x ∷ xs) [] e = cc
text_order-same (x ∷ xs) (y ∷ ys) e = ground (arith, text_order-same xs ys)

pub text_order_refl : (xs : List ℕ) → text_order xs xs ≡ same
unfolding text_order
text_order_refl [] = refl
text_order_refl (x ∷ xs) = ground (arith, text_order_refl xs)

-- A string outside the written area stays.
pub Holds-frame :
    (m m' : Mem) (s : ℕ) (xs : List ℕ)
    → ((a : ℕ) → s ≤ a → a ≤ s + length xs → m' a ≡ m a)
    → Holds m s xs
    → Holds m' s xs
Holds-frame m m' s [] keep h = keep s (omega arith) (omega arith) ∙ h
Holds-frame m m' s (x ∷ xs) keep h = (
  keep s (omega arith) (omega arith) ∙ h.0,
  h.1,
  Holds-frame m m' (s + 1) xs (λ a lo hi. keep a (omega arith) (omega arith)) h.2,
)

-- A string is there wherever its bytes are.
pub Holds-move :
    (m m' : Mem) (s t : ℕ) (xs : List ℕ)
    → ((i : ℕ) → i ≤ length xs → m' (t + i) ≡ m (s + i))
    → Holds m s xs
    → Holds m' t xs
Holds-move m m' s t [] same_at h = ground (arith, same_at 0 (omega arith))
Holds-move m m' s t (x ∷ xs) same_at h = (
  ground (arith, same_at 0 (omega arith)),
  h.1,
  Holds-move m m' (s + 1) (t + 1) xs (λ i le. ground (arith, same_at (i + 1) (omega arith))) h.2,
)

-- Bytes before a string, none of them zero.
abbrev pub Prefix : Mem → ℕ → List ℕ → Type 0
Prefix m s [] = Unit {0}
Prefix m s (x ∷ xs) = (m s ≡ x) × (0 < x) × Prefix m (s + 1) xs

pub Prefix-frame :
    (m m' : Mem) (s : ℕ) (xs : List ℕ)
    → ((a : ℕ) → s ≤ a → a < s + length xs → m' a ≡ m a)
    → Holds m s xs
    → Prefix m' s xs
Prefix-frame m m' s [] keep h = tt
Prefix-frame m m' s (x ∷ xs) keep h = (
  keep s (omega arith) (omega arith) ∙ h.0,
  h.1,
  Prefix-frame m m' (s + 1) xs (λ a lo hi. keep a (omega arith) (omega arith)) h.2,
)

pub Holds-append :
    (m : Mem) (s : ℕ) (xs ys : List ℕ)
    → Prefix m s xs
    → Holds m (s + length xs) ys
    → Holds m s (xs ++ ys)
Holds-append m s [] ys p h = Holds-move m m (s + 0) s ys (λ i le. ap m (omega arith)) h
Holds-append m s (x ∷ xs) ys p h = (
  p.0,
  p.1,
  Holds-append m (s + 1) xs ys p.2
      (Holds-move m m (s + suc (length xs)) (s + 1 + length xs) ys (λ i le. ap m (omega arith)) h),
)
