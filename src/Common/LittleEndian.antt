-- ===== src/Common/LittleEndian.antt =====
-- Integers in memory, the lowest byte first: what a store and a load of `n` bytes do.
use Prim.Native.Nat.{ℕ, zero, suc, ◌+◌, ◌*◌, ◌/◌, ◌%◌, ◌^◌, ◌≤◌, ◌<◌}
use mathlib.Core.Path.{◌≡◌, refl, ◌∙◌}
use mathlib.Core.Bool.{false, ◌&&◌}
use native.Mathlib.Nat.{pow-suc}
use native.Mathlib.Omega.{arith}
use h0r_net.Common.Tests.{ltb, leb}
use h0r_net.Common.Words.{Mem, store8, store8_self, store8_ne, IsBytes, store8-IsBytes}

unfoldable pub store_le : ℕ → Mem → ℕ → ℕ → Mem
store_le zero m a v = m
store_le (suc n) m a v = store_le n (store8 m a (v % 256)) (a + 1) (v / 256)

unfoldable pub load_le : ℕ → Mem → ℕ → ℕ
load_le zero m a = 0
load_le (suc n) m a = m a + 256 * load_le n m (a + 1)

pub store_le_frame :
    (n : ℕ) (m : Mem) (a v b : ℕ) → (leb a b && ltb b (a + n)) ≡ false → store_le n m a v b ≡ m b
unfolding store_le
store_le_frame zero m a v b out = refl
store_le_frame (suc n) m a v b out =
    store_le_frame n (store8 m a (v % 256)) (a + 1) (v / 256) b (ground arith)
    ∙ store8_ne m a (v % 256) b (ground arith)

pub store_le-IsBytes : (n : ℕ) (m : Mem) (a v : ℕ) → IsBytes m → IsBytes (store_le n m a v)
unfolding store_le
store_le-IsBytes zero m a v bytes = bytes
store_le-IsBytes (suc n) m a v bytes =
    store_le-IsBytes n _ (a + 1) (v / 256) (store8-IsBytes m a (v % 256) bytes (omega arith))

-- What was stored is loaded, if it fits `n` bytes.
pub load_le-store_le :
    (n : ℕ) (m : Mem) (a v : ℕ) → v < 256 ^ n → load_le n (store_le n m a v) a ≡ v
unfolding store_le load_le
load_le-store_le zero m a v fits = omega arith
load_le-store_le (suc n) m a v fits =
    let m' = store8 m a (v % 256) in
    let low : store_le n m' (a + 1) (v / 256) a ≡ v % 256 =
      store_le_frame n m' (a + 1) (v / 256) a (ground arith) ∙ store8_self m a (v % 256) in
    omega (arith, low, load_le-store_le n m' (a + 1) (v / 256) (omega (arith, pow-suc 256 n)))

-- A load reads its `n` bytes and no others.
pub load_le_frame :
    (n : ℕ) (m m' : Mem) (a : ℕ)
    → ((b : ℕ) → a ≤ b → b < a + n → m' b ≡ m b)
    → load_le n m' a ≡ load_le n m a
unfolding load_le
load_le_frame zero m m' a same = refl
load_le_frame (suc n) m m' a same = omega (
  arith,
  same a (omega arith) (omega arith),
  load_le_frame n m m' (a + 1) (λ b lo hi. same b (omega arith) (omega arith)),
)
