-- ===== src/Libk/Text.antt =====
-- libk/string.c, the routines on NUL-terminated strings. Each `for` over a string runs until it
-- meets a terminator, so it takes fuel, and `none` says that the fuel ran out.
pub mod Strings
pub mod Reads
pub mod Writes
use h0r_net.Common.{
  ℕ, zero, suc, ◌+◌, ◌-◌, Bool, true, false, Option, none, some, ltb, ◌==◌, ◌!=◌, if◌then◌else◌, u8,
  Mem, store8,
}
use h0r_net.Libk.Memory.{Sign, minus, same, plus}

infixl 5 ◌>>=◌
abbrev ◌>>=◌ : {A B : Type 0} → Option A → (A → Option B) → Option B
none >>= f = none
some a >>= f = f a

-- `for (sc = s; *sc != '\0'; ++sc);`
pub end_of : ℕ → Mem → ℕ → Option ℕ
end_of zero m s = none
end_of (suc f) m s = let rest = end_of f m (s + 1) in if m s == 0 then some s else rest

unfoldable pub strlen : ℕ → Mem → ℕ → Option ℕ
unfolding end_of
strlen f m s = do sc ← end_of f m s; some (sc - s)

pub order : ℕ → ℕ → Sign
order a b = if ltb a b then minus else plus

unfoldable pub strcmp : ℕ → Mem → ℕ → ℕ → Option Sign
unfolding order
strcmp zero m s1 s2 = none
strcmp (suc f) m s1 s2 =
    let rest = strcmp f m (s1 + 1) (s2 + 1) in
    if m s1 == m s2 then (if m s1 == 0 then some same else rest) else some (order (m s1) (m s2))

-- The loop counts `n` down, so it needs no fuel.
unfoldable pub strncmp : Mem → ℕ → ℕ → ℕ → Sign
unfolding order
strncmp m s1 s2 zero = same
strncmp m s1 s2 (suc n) =
    let rest = strncmp m (s1 + 1) (s2 + 1) n in
    if m s1 != m s2 then order (m s1) (m s2) else if m s1 == 0 then same else rest

-- The bytes of `s2` are copied, its terminator included.
unfoldable pub strcpy : ℕ → Mem → ℕ → ℕ → Option Mem
strcpy zero m s s2 = none
strcpy (suc f) m s s2 =
    let m' = store8 m s (m s2) in
    let rest = strcpy f m' (s + 1) (s2 + 1) in if m' s == 0 then some m' else rest

unfoldable pub strcat : ℕ → Mem → ℕ → ℕ → Option Mem
unfolding end_of strcpy
strcat f m s1 s2 = do s ← end_of f m s1; strcpy f m s s2

-- What the first loop of `strncat` and `strncpy` leaves: the memory, where it stopped, and `n`.
pub record Copied : Type 0 where
  pub memory : Mem
  pub stop : ℕ
  pub left : ℕ

pub copy_some : Mem → ℕ → ℕ → ℕ → Copied
copy_some m s s2 zero = record { memory = m; stop = s; left = 0 }
copy_some m s s2 (suc n) =
    let rest = copy_some (store8 m s (m s2)) (s + 1) (s2 + 1) n in
    if m s2 != 0 then rest else record { memory = m; stop = s; left = suc n }

unfoldable pub strncat : ℕ → Mem → ℕ → ℕ → ℕ → Option Mem
unfolding end_of copy_some
strncat f m s1 s2 n = do
  s ← end_of f m s1
  let done = copy_some m s s2 n
  some (store8 done.memory done.stop 0)

-- `for (; n > 0; --n) *s++ = '\0';`
pub pad : Mem → ℕ → ℕ → Mem
pad m s zero = m
pad m s (suc n) = pad (store8 m s 0) (s + 1) n

unfoldable pub strncpy : Mem → ℕ → ℕ → ℕ → Mem
unfolding copy_some pad
strncpy m s1 s2 n = let done = copy_some m s1 s2 n in pad done.memory done.stop done.left

-- The inner loop of `strspn` and `strcspn`: whether a byte is among those of `s2`.
pub among : ℕ → Mem → ℕ → ℕ → Option Bool
among zero m c s2 = none
among (suc f) m c s2 =
    let rest = among f m c (s2 + 1) in
    if m s2 == 0 then some false else if c == m s2 then some true else rest

-- The outer loop of both: it stops at the terminator or where membership in `s2` is `stop_on`.
pub span : ℕ → ℕ → Bool → Mem → ℕ → ℕ → Option ℕ
span g zero stop_on m sc s2 = none
span g (suc f) true m sc s2 =
    let rest = span g f true m (sc + 1) s2 in
    if m sc == 0 then some sc else (do found ← among g m (m sc) s2; if found then some sc else rest)
span g (suc f) false m sc s2 =
    let rest = span g f false m (sc + 1) s2 in
    if m sc == 0 then some sc else (do found ← among g m (m sc) s2; if found then rest else some sc)

unfoldable pub strcspn : ℕ → Mem → ℕ → ℕ → Option ℕ
unfolding span among
strcspn f m s1 s2 = do sc1 ← span f f true m s1 s2; some (sc1 - s1)

unfoldable pub strspn : ℕ → Mem → ℕ → ℕ → Option ℕ
unfolding span among
strspn f m s1 s2 = do sc1 ← span f f false m s1 s2; some (sc1 - s1)

-- The address of the first `c`, `some none` for `NULL`. The terminator itself is never found.
unfoldable pub strchr : ℕ → Mem → ℕ → ℕ → Option (Option ℕ)
strchr zero m s c = none
strchr (suc f) m s c =
    let rest = strchr f m (s + 1) c in
    if m s != 0 then (if m s == u8 c then some (some s) else rest) else some none

-- `strtok` keeps its place in a static pointer. It starts at, and returns to, the static `""`.
pub record Token : Type 0 where
  pub memory : Mem
  pub save : ℕ
  pub token : Option ℕ

-- The second half, at the first byte of a token.
pub cut_token : ℕ → Mem → ℕ → ℕ → Option Token
unfolding strcspn
cut_token f m begin s2 = do
  kept ← strcspn f m begin s2
  let end = begin + kept
  some (
      if m end != 0
      then record { memory = store8 m end 0; save = end + 1; token = some begin }
      else record { memory = m; save = end; token = some begin })

unfoldable pub strtok : ℕ → ℕ → ℕ → Mem → Option ℕ → ℕ → Option Token
unfolding strspn cut_token
strtok f empty save m s1 s2 = do
  let start : ℕ = elim s1 [ none ↦ save | some s ↦ s ]
  skipped ← strspn f m start s2
  let begin = start + skipped
  if m begin == 0
      then some (record { memory = m; save = empty; token = none })
      else cut_token f m begin s2
