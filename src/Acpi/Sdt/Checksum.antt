-- ===== src/Acpi/Sdt/Checksum.antt =====
-- drivers/ACPI/SDT.c, `do_checksum`: which changes it notices.
use h0r_net.Common.{
  ◌⊎◌, ℕ, zero, suc, ◌+◌, ◌≤◌, ◌<◌, ◌≡◌, ◌≢◌, ◌∙◌, sym, ap, true, false, u8, Mem, IsBytes, arith,
  ℕ_discrete,
}
use h0r_net.Common.LittleEndian.{load_le_frame}
use h0r_net.Acpi.Sdt.{checksum_loop, do_checksum, table_length}

-- `m'` is `m` with another byte at `a`.
pub record OneByte (m m' : Mem) (a : ℕ) : Type 0 where
  pub changed : m' a ≢ m a
  pub kept : (b : ℕ) → b ≢ a → m' b ≡ m b
  pub bytes : IsBytes m
  pub bytes' : IsBytes m'

checksum_loop-lt : (m : Mem) (a left sum : ℕ) → sum < 256 → checksum_loop m a left sum < 256
unfolding checksum_loop
checksum_loop-lt m a zero sum lt = lt
checksum_loop-lt m a (suc left) sum lt = checksum_loop-lt m (a + 1) left _ (omega arith)

-- Two sums that differ stay different over the same bytes.
checksum_loop-ne :
    (m m' : Mem) (a left s s' : ℕ)
    → ((b : ℕ) → a ≤ b → b < a + left → m' b ≡ m b)
    → s < 256
    → s' < 256
    → s' ≢ s
    → checksum_loop m' a left s' ≢ checksum_loop m a left s
unfolding checksum_loop
checksum_loop-ne m m' a zero s s' same lt lt' ne = ne
checksum_loop-ne m m' a (suc left) s s' same lt lt' ne =
    checksum_loop-ne m m' (a + 1) left (u8 (s + m a)) (u8 (s' + m' a))
      (λ b lo hi. same b (omega arith) (omega arith)) (omega arith) (omega arith)
      (λ e. ne (omega (arith, same a (omega arith) (omega arith))))

checksum_loop-OneByte :
    (m m' : Mem) (c a left s : ℕ)
    → OneByte m m' c
    → a ≤ c
    → c < a + left
    → s < 256
    → checksum_loop m' a left s ≢ checksum_loop m a left s
unfolding checksum_loop
checksum_loop-OneByte m m' c a zero s o lo hi lt = absurd (omega arith)
checksum_loop-OneByte m m' c a (suc left) s o lo hi lt = elim (ℕ_discrete a c) [
  | yes here ↦
      checksum_loop-ne m m' (a + 1) left (u8 (s + m a)) (u8 (s + m' a))
        (λ b low high. o.kept b (λ e. omega arith)) (omega arith) (omega arith)
        (λ e. o.changed (ap m' (sym here) ∙ omega (arith, o.bytes a, o.bytes' a) ∙ ap m here))
  | no ne ↦ rw (o.kept a ne) (
      checksum_loop-OneByte m m' c (a + 1) left (u8 (s + m a)) o (omega arith) (omega arith)
        (omega arith))
]

-- A table whose checksum is right fails the check as soon as any one byte of it is another, the four
-- bytes of its length excepted.
pub do_checksum-OneByte :
    (m m' : Mem) (table a : ℕ)
    → OneByte m m' a
    → table ≤ a
    → a < table + table_length m table
    → (a < table + 4) ⊎ (table + 8 ≤ a)
    → do_checksum m table ≡ true
    → do_checksum m' table ≡ false
unfolding do_checksum
do_checksum-OneByte m m' table a o lo hi outside right =
    let len : table_length m' table ≡ table_length m table =
      load_le_frame 4 m m' (table + 4) (λ b low high. o.kept b (λ e. omega arith)) in
    let ne = checksum_loop-OneByte m m' a table (table_length m table) 0 o lo hi (omega arith) in
    rw len (ground (arith, ne))
