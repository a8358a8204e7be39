-- ===== src/Libk/Memory/Laws.antt =====
-- What the byte routines of libk/string.c compute.
use h0r_net.Common.{
  ℕ_discrete, ℕ, zero, suc, ◌+◌, ◌-◌, ◌≤◌, ◌<◌, ◌≡◌, ◌↔◌, ◌≢◌, refl, Bool, ◌&&◌, ltb, leb, ◌==◌,
  if◌then◌else◌, u8, Mem, store8, IsBytes, store8_self, store8_ne, Bool-cases, arith, ◌∙◌, ◌⊎◌, inl,
  inr, none, some,
}
use h0r_net.Libk.Memory.{memchr, memcmp, memcpy, copy_down, memmove, memset, same}

-- `a` lies in the `n` bytes from `s`.
abbrev pub in_area : ℕ → ℕ → ℕ → Bool
in_area s n a = leb s a && ltb a (s + n)

-- `memset` fills its area and changes nothing else.
pub memset-get : (m : Mem) (s c n a : ℕ) → memset m s c n a ≡ (if in_area s n a then u8 c else m a)
unfolding memset
memset-get m s c zero a = ground arith
memset-get m s c (suc n) a =
    memset-get (store8 m s (u8 c)) (s + 1) c n a
    ∙ ground (arith, store8_self m s (u8 c), store8_ne m s (u8 c) a)

-- Where what is read lies at or above what is written, `memcpy` copies the bytes of the old memory.
pub memcpy-get :
    (m : Mem) (s1 s2 n a : ℕ)
    → (s1 ≤ s2) ⊎ (s2 + n ≤ s1)
    → memcpy m s1 s2 n a ≡ (if in_area s1 n a then m (s2 + (a - s1)) else m a)
unfolding memcpy
memcpy-get m s1 s2 zero a h = ground arith
memcpy-get m s1 s2 (suc n) a h =
    memcpy-get (store8 m s1 (m s2)) (s1 + 1) (s2 + 1) n a (ground arith)
    ∙ ground (
      arith,
      store8_self m s1 (m s2),
      store8_ne m s1 (m s2) a,
      store8_ne m s1 (m s2) (s2 + 1 + (a - (s1 + 1))),
    )

pub copy_down-get :
    (m : Mem) (s1 s2 n a : ℕ)
    → (s2 ≤ s1) ⊎ (s1 + n ≤ s2)
    → copy_down m s1 s2 n a ≡ (if in_area s1 n a then m (s2 + (a - s1)) else m a)
unfolding copy_down
copy_down-get m s1 s2 zero a h = ground arith
copy_down-get m s1 s2 (suc n) a h =
    copy_down-get (store8 m (s1 + n) (m (s2 + n))) s1 s2 n a (ground arith)
    ∙ ground (
      arith,
      store8_self m (s1 + n) (m (s2 + n)),
      store8_ne m (s1 + n) (m (s2 + n)) a,
      store8_ne m (s1 + n) (m (s2 + n)) (s2 + (a - s1)),
    )

-- `memmove` copies the bytes as they stood before, however the two areas overlap.
pub memmove-get :
    (m : Mem) (s1 s2 n a : ℕ)
    → memmove m s1 s2 n a ≡ (if in_area s1 n a then m (s2 + (a - s1)) else m a)
unfolding memmove
memmove-get m s1 s2 n a = ground (arith, memcpy-get m s1 s2 n a, copy_down-get m s1 s2 n a)

-- Bytes stay bytes.
pub memset-IsBytes : (m : Mem) (s c n : ℕ) → IsBytes m → IsBytes (memset m s c n)
memset-IsBytes m s c n bytes a = ground (arith, memset-get m s c n a, bytes a)

-- `memcmp` finds two areas the same exactly when each byte of the one is that of the other.
pub memcmp-same_iff :
    (m : Mem) (s1 s2 n : ℕ)
    → (memcmp m s1 s2 n ≡ same) ↔ ((i : ℕ) → i < n → m (s1 + i) ≡ m (s2 + i))
unfolding memcmp
memcmp-same_iff m s1 s2 zero = (λ e i lt. absurd (omega arith), λ all. refl)
memcmp-same_iff m s1 s2 (suc n) = (
  λ e i lt. elim (ℕ_discrete i 0) [
    | yes z ↦ ground arith
    | no nz ↦
        ground
          (arith, (memcmp-same_iff m (s1 + 1) (s2 + 1) n).0 (ground arith) (i - 1) (omega arith))
  ],
  λ all. ground (
    arith,
    all 0,
    (memcmp-same_iff m (s1 + 1) (s2 + 1) n).1 (λ i lt. ground (arith, all (i + 1))),
  ),
)

-- What `memchr` finds is the first match in the area.
pub memchr-some :
    (m : Mem) (s c n p : ℕ)
    → memchr m s c n ≡ some p
    → (s ≤ p) × (p < s + n) × (m p ≡ u8 c) × ((q : ℕ) → s ≤ q → q < p → m q ≢ u8 c)
unfolding memchr
memchr-some m s c zero p e = cc
memchr-some m s c (suc n) p e = elim (Bool-cases (m s == u8 c)) [
  | inl hit ↦
      let here : s ≡ p = ground arith in
      (omega arith, omega arith, ground arith, λ q lo hi e'. absurd (omega arith))
  | inr miss ↦
      let ih = memchr-some m (s + 1) c n p (ground arith) in
      (
        omega arith,
        omega arith,
        ih.2,
        λ q lo hi e'. elim (ℕ_discrete q s) [
          | yes first ↦ ground arith
          | no later ↦ ih.3 q (omega arith) hi e'
        ],
      )
]

pub memchr-none :
    (m : Mem) (s c n : ℕ) → memchr m s c n ≡ none → (q : ℕ) → s ≤ q → q < s + n → m q ≢ u8 c
unfolding memchr
memchr-none m s c zero e q lo hi = absurd (omega arith)
memchr-none m s c (suc n) e q lo hi = λ e'. elim (ℕ_discrete q s) [
  | yes first ↦ ground arith
  | no later ↦ memchr-none m (s + 1) c n (ground arith) q (omega arith) (omega arith) e'
]
