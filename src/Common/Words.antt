-- ===== src/Common/Words.antt =====
-- Machine integers as native numbers with their wrap written out, and the flat byte memory.
use Prim.Native.Nat.{ℕ, ◌+◌, ◌-◌, ◌*◌, ◌/◌, ◌%◌, ◌^◌, ◌<◌}
use mathlib.Core.Path.{◌≡◌}
use mathlib.Core.Logic.{◌≢◌}
use native.Mathlib.Omega.{arith}
use h0r_net.Common.Tests.{◌==◌, if◌then◌else◌}

abbrev pub u8 : ℕ → ℕ
u8 n = n % 2 ^ 8

abbrev pub u16 : ℕ → ℕ
u16 n = n % 2 ^ 16

abbrev pub u32 : ℕ → ℕ
u32 n = n % 2 ^ 32

abbrev pub u64 : ℕ → ℕ
u64 n = n % 2 ^ 64

-- `a - b` of two 64-bit values, and of two 32-bit values.
abbrev pub sub64 : ℕ → ℕ → ℕ
sub64 a b = (a + 2 ^ 64 - b) % 2 ^ 64

abbrev pub sub32 : ℕ → ℕ → ℕ
sub32 a b = (a + 2 ^ 32 - b) % 2 ^ 32

infixl 75 ◌<<<◌ ◌>>>◌
abbrev pub ◌<<<◌ : ℕ → ℕ → ℕ
x <<< k = x * 2 ^ k

abbrev pub ◌>>>◌ : ℕ → ℕ → ℕ
x >>> k = x / 2 ^ k

-- The byte at each address.
abbrev pub Mem : Type 0
Mem = ℕ → ℕ

unfoldable pub store8 : Mem → ℕ → ℕ → Mem
store8 m a v b = if b == a then v else m b

abbrev pub IsBytes : Mem → Type 0
IsBytes m = (a : ℕ) → m a < 256

pub store8_self : (m : Mem) (a v : ℕ) → store8 m a v a ≡ v
unfolding store8
store8_self m a v = ground arith

pub store8_ne : (m : Mem) (a v b : ℕ) → b ≢ a → store8 m a v b ≡ m b
unfolding store8
store8_ne m a v b h = ground arith

pub store8-IsBytes : (m : Mem) (a v : ℕ) → IsBytes m → v < 256 → IsBytes (store8 m a v)
unfolding store8
store8-IsBytes m a v h hv b = ground (arith, h b)
