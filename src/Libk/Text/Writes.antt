-- ===== src/Libk/Text/Writes.antt =====
-- The routines of libk/string.c that write a string.
use h0r_net.Common.{
  ℕ, zero, suc, ◌+◌, ◌-◌, ◌<◌, ◌≡◌, ◌≢◌, true, false, List, [], ◌∷◌, ◌++◌, some, ◌!=◌, ltb,
  if◌then◌else◌, length, Mem, store8, store8_self, store8_ne, arith, ◌∙◌, ◌⊎◌,
}
use h0r_net.Libk.Memory.{memcpy}
use h0r_net.Libk.Memory.Laws.{in_area, memcpy-get}
use h0r_net.Libk.Text.{strcpy, strcat, strncpy, pad, copy_some}
use h0r_net.Libk.Text.Strings.{Holds, Holds-frame, Holds-move, Holds-append, Prefix-frame}
use h0r_net.Libk.Text.Reads.{end_of-Holds}

-- The area of `n` bytes and one more from `s`, and that from `t`, share no byte.
abbrev pub Apart : ℕ → ℕ → ℕ → ℕ → Type 0
Apart s n t k = (s + n < t) ⊎ (t + k < s)

pub strcpy-eq-memcpy :
    (f : ℕ) (m : Mem) (s s2 : ℕ) (ys : List ℕ)
    → Holds m s2 ys
    → Apart s (length ys) s2 (length ys)
    → length ys < f
    → strcpy f m s s2 ≡ some (memcpy m s s2 (suc (length ys)))
unfolding strcpy memcpy
strcpy-eq-memcpy zero m s s2 ys h d fuel = absurd (omega arith)
strcpy-eq-memcpy (suc f) m s s2 [] h d fuel = ground (arith, store8_self m s (m s2))
strcpy-eq-memcpy (suc f) m s s2 (y ∷ ys) h d fuel =
    let m' = store8 m s (m s2) in
    let kept =
      Holds-frame m m' (s2 + 1) ys (λ a lo hi. store8_ne m s (m s2) a (ground arith)) h.2 in
    ground
      (arith, store8_self m s (m s2), strcpy-eq-memcpy f m' (s + 1) (s2 + 1) ys kept (ground arith))

-- `strcpy` into an area apart from the source: the text and its terminator are there, the rest of
-- the memory is as before.
pub strcpy-Holds :
    (f : ℕ) (m : Mem) (s1 s2 : ℕ) (ys : List ℕ)
    → Holds m s2 ys
    → Apart s1 (length ys) s2 (length ys)
    → length ys < f
    → (m' : Mem) × (strcpy f m s1 s2 ≡ some m')
      × Holds m' s1 ys
      × ((a : ℕ) → in_area s1 (length ys + 1) a ≡ false → m' a ≡ m a)
strcpy-Holds f m s1 s2 ys h d fuel = (
  memcpy m s1 s2 (suc (length ys)),
  strcpy-eq-memcpy f m s1 s2 ys h d fuel,
  Holds-move m _ s2 s1 ys
      (λ i le. memcpy-get m s1 s2 (suc (length ys)) (s1 + i) (ground arith) ∙ ground arith) h,
  λ a out. memcpy-get m s1 s2 (suc (length ys)) a (ground arith) ∙ ground arith,
)

-- `strcat` appends: the area behind `s1` holds both texts in turn, and nothing else changes.
pub strcat-append :
    (f : ℕ) (m : Mem) (s1 s2 : ℕ) (xs ys : List ℕ)
    → Holds m s1 xs
    → Holds m s2 ys
    → Apart s1 (length xs + length ys) s2 (length ys)
    → length xs < f
    → length ys < f
    → (m' : Mem) × (strcat f m s1 s2 ≡ some m')
      × Holds m' s1 (xs ++ ys)
      × ((a : ℕ) → in_area (s1 + length xs) (length ys + 1) a ≡ false → m' a ≡ m a)
unfolding strcat
strcat-append f m s1 s2 xs ys h k d fx fy =
    let (m', copied, there, kept) = strcpy-Holds f m (s1 + length xs) s2 ys k (ground arith) fy in
    (
      m',
      rw (end_of-Holds f m s1 xs h fx) copied,
      Holds-append m' s1 xs ys (Prefix-frame m m' s1 xs (λ a lo hi. kept a (ground arith)) h) there,
      kept,
    )

pad-get : (m : Mem) (s n a : ℕ) → pad m s n a ≡ (if in_area s n a then 0 else m a)
unfolding pad
pad-get m s zero a = ground arith
pad-get m s (suc n) a =
    pad-get (store8 m s 0) (s + 1) n a ∙ ground (arith, store8_self m s 0, store8_ne m s 0 a)

-- What `strncpy` stores at offset `i` of its area.
abbrev pub padded : Mem → ℕ → List ℕ → ℕ → ℕ
padded m s2 ys i = if ltb i (length ys) then m (s2 + i) else 0

strncpy_stop : (m : Mem) (s1 s2 n : ℕ) → m s2 ≡ 0 → strncpy m s1 s2 (suc n) ≡ pad m s1 (suc n)
unfolding strncpy
strncpy_stop m s1 s2 n e = let b : (m s2 != 0) ≡ false = ground arith in rw b

strncpy_step :
    (m : Mem) (s1 s2 n : ℕ)
    → m s2 ≢ 0
    → strncpy m s1 s2 (suc n) ≡ strncpy (store8 m s1 (m s2)) (s1 + 1) (s2 + 1) n
unfolding strncpy
strncpy_step m s1 s2 n ne = let b : (m s2 != 0) ≡ true = ground arith in rw b

-- `strncpy` writes exactly `n` bytes: the text, cut to `n` or padded with zeros to `n`. With no
-- room for it there is no terminator.
pub strncpy-padded :
    (m : Mem) (s1 s2 n : ℕ) (ys : List ℕ) (a : ℕ)
    → Holds m s2 ys
    → Apart s1 n s2 (length ys)
    → strncpy m s1 s2 n a ≡ (if in_area s1 n a then padded m s2 ys (a - s1) else m a)
strncpy-padded m s1 s2 zero ys a h d = unfold strncpy copy_some pad in ground arith
strncpy-padded m s1 s2 (suc n) [] a h d =
    rw (strncpy_stop m s1 s2 n h) (pad-get m s1 (suc n) a ∙ ground arith)
strncpy-padded m s1 s2 (suc n) (y ∷ ys) a h d =
    let m' = store8 m s1 (m s2) in
    let kept =
      Holds-frame m m' (s2 + 1) ys (λ b lo hi. store8_ne m s1 (m s2) b (ground arith)) h.2 in
    rw (strncpy_step m s1 s2 n (ground arith)) (
      strncpy-padded m' (s1 + 1) (s2 + 1) n ys a kept (ground arith)
      ∙ ground (
        arith,
        store8_self m s1 (m s2),
        store8_ne m s1 (m s2) a,
        store8_ne m s1 (m s2) (s2 + 1 + (a - (s1 + 1))),
      ))
